-- ===== src/Storage/Durable.antt =====
-- What `validate_state` accepts, field by field.
use opatchy.Base.{
  >>=-eq-ok, Bool, Bool-cases, List, Result, String, [], arith, each, false, filter, inl, inr,
  is_unique, map, ok, refl, refuse, string_eq, true, ◌++◌, ◌∷◌, ◌≡◌,
}
use opatchy.Models.{LedgerEntry, PersistentState, SourceMetadata, WatchRecord, source_name_value}
use opatchy.Storage.State.{unique, validate_lease, validate_state}
use opatchy.Storage.Watches.{validate_watch}

abbrev pub watch_ids : List WatchRecord → List String
watch_ids watches = map (λ watch. watch.item_id) watches

abbrev pub fingerprints : List LedgerEntry → List String
fingerprints ledger = map (λ entry. entry.fingerprint) ledger

abbrev pub source_names : List SourceMetadata → List String
source_names sources = map (λ source. source_name_value source.source) sources

-- A state that can be written.
pub record IsDurable (state : PersistentState) : Type 0 where
  pub watches_unique : is_unique (watch_ids state.watches) ≡ true
  pub ledger_unique : is_unique (fingerprints state.ledger) ≡ true
  pub sources_unique : is_unique (source_names state.sources) ≡ true
  pub watches_valid : each validate_watch state.watches ≡ ok tt
  pub leases_valid : each validate_lease state.ledger ≡ ok tt

pub refuse-ok {ℓ} : {E : Type ℓ} (b : Bool) (e : E) → refuse b e ≡ ok tt → b ≡ false
refuse-ok true e h = cc
refuse-ok false e h = refl

module _ (state : PersistentState) where
  pub validate_state-IsDurable : validate_state state ≡ ok tt → IsDurable state
  unfolding validate_state
  validate_state-IsDurable h =
      let (_, a, h₁) = >>=-eq-ok (unique (watch_ids state.watches) _) _ h in
      let (_, b, h₂) = >>=-eq-ok (unique (fingerprints state.ledger) _) _ h₁ in
      let (_, c, h₃) = >>=-eq-ok (unique (source_names state.sources) _) _ h₂ in
      let (_, d, f) = >>=-eq-ok (each validate_watch state.watches) _ h₃ in
      record {
        watches_unique = ground (arith, refuse-ok _ _ a);
        ledger_unique = ground (arith, refuse-ok _ _ b);
        sources_unique = ground (arith, refuse-ok _ _ c);
        watches_valid = d;
        leases_valid = f;
      }

  pub validate_state_of_IsDurable : IsDurable state → validate_state state ≡ ok tt
  unfolding validate_state
  validate_state_of_IsDurable d =
      rw (d.watches_unique, d.ledger_unique, d.sources_unique, d.watches_valid) d.leases_valid

module _ {ℓ} {E A : Type ℓ} (f : A → Result E (Unit {ℓ})) where
  pub each-cons :
      (x : A) (xs : List A) → each f (x ∷ xs) ≡ ok tt → (f x ≡ ok tt) × (each f xs ≡ ok tt)
  each-cons x xs h = let (_, a, b) = >>=-eq-ok (f x) _ h in (a, b)

  pub each-append_one :
      (xs : List A) (x : A) → each f xs ≡ ok tt → f x ≡ ok tt → each f (xs ++ x ∷ []) ≡ ok tt
  each-append_one [] x h k = rw k
  each-append_one (y ∷ xs) x h k = let (a, b) = each-cons y xs h in rw a (each-append_one xs x b k)

  pub each-filter : (p : A → Bool) (xs : List A) → each f xs ≡ ok tt → each f (filter p xs) ≡ ok tt
  each-filter p [] h = refl
  each-filter p (x ∷ xs) h =
      let (a, b) = each-cons x xs h in
      elim (Bool-cases (p x)) [
        | inl kept ↦ rw (kept, a) (each-filter p xs b)
        | inr dropped ↦ rw dropped (each-filter p xs b)
      ]
