-- ===== src/Storage/Documents/Pruned.antt =====
-- Pruning a ledger, helper/opatchy_helper/storage_state.py: what is kept can be written and read back.
use opatchy.Base.{
  Bool-cases, In, List, String, [], ap, arith, bool_eq, contains, eq_iff, false, filter, inl, inr,
  is_unique, list_eq, map, nat_eq, option_eq, refl, string_eq, suc, sym, take, true, zero, ℕ, ◌++◌,
  ◌==◌, ◌||◌, ◌∙◌, ◌∷◌, ◌≡◌, ◌≢◌,
}
use opatchy.Base.Members.{each_of_In, map_of_append, ok_of_In, test_of_In-filter}
use opatchy.Base.Unique.{
  In-map-key, In-of_contains, Sub, Sub-map-filter, is_unique-Sub, is_unique-append, same_of_key,
  skip_one, stop, take_one,
}
use opatchy.Models.{
  Datetime, LedgerEntry, PersistentState, arch_status_eq, condition_eq, is_active, item_source_eq,
  provenance_eq, severity_eq, source_name_eq, source_scope_eq, source_status_eq, watch_eq,
  watch_mode_eq,
}
use opatchy.Storage.Durable.{IsDurable, fingerprints}
use opatchy.Storage.State.{
  insert_entry, is_recent, max_inactive_ledger_entries, newest_first, prune_ledger, validate_lease,
}
use opatchy.Storage.State.Pruning.{In-newest_first, In-take, prune_ledger_lem}
use opatchy.Wire.Enums.{
  arch_status_enum, error_code_enum, item_source_enum, kev_status_enum, notification_status_enum,
  provenance_enum, response_kind_enum, scan_state_enum, severity_enum, source_name_enum,
  source_scope_enum, source_status_enum, watch_mode_enum,
}

module _ (k : String) where
  contains-insert_entry :
      (a : LedgerEntry) (xs : List LedgerEntry)
      → contains k (fingerprints (insert_entry a xs))
        ≡ (k == a.fingerprint || contains k (fingerprints xs))
  unfolding insert_entry
  contains-insert_entry a [] = refl
  contains-insert_entry a (b ∷ bs) = ground (arith, contains-insert_entry a bs)

is_unique-insert_entry :
    (a : LedgerEntry) (xs : List LedgerEntry)
    → contains a.fingerprint (fingerprints xs) ≡ false
    → is_unique (fingerprints xs) ≡ true
    → is_unique (fingerprints (insert_entry a xs)) ≡ true
unfolding insert_entry
is_unique-insert_entry a [] h u = refl
is_unique-insert_entry a (b ∷ bs) h u = ground (
  arith,
  contains-insert_entry b.fingerprint a bs,
  is_unique-insert_entry a bs,
  eq_iff a.fingerprint b.fingerprint,
  eq_iff b.fingerprint a.fingerprint,
)

contains-newest_first :
    (k : String) (xs : List LedgerEntry)
    → contains k (fingerprints (newest_first xs)) ≡ contains k (fingerprints xs)
unfolding newest_first
contains-newest_first k [] = refl
contains-newest_first k (x ∷ xs) =
    contains-insert_entry k x (newest_first xs)
    ∙ ap (λ rest. k == x.fingerprint || rest) (contains-newest_first k xs)

is_unique-newest_first :
    (xs : List LedgerEntry)
    → is_unique (fingerprints xs) ≡ true
    → is_unique (fingerprints (newest_first xs)) ≡ true
unfolding newest_first
is_unique-newest_first [] h = refl
is_unique-newest_first (x ∷ xs) h =
    is_unique-insert_entry x (newest_first xs)
      (contains-newest_first x.fingerprint xs ∙ ground arith)
      (is_unique-newest_first xs (ground arith))

Sub-map-take {ℓ κ} :
    {A : Type ℓ} {B : Type κ} (f : A → B) (n : ℕ) (xs : List A) → Sub (map f (take n xs)) (map f xs)
Sub-map-take f zero [] = stop
Sub-map-take f zero (x ∷ xs) = skip_one (Sub-map-take f zero xs)
Sub-map-take f (suc n) [] = stop
Sub-map-take f (suc n) (x ∷ xs) = take_one (Sub-map-take f n xs)

not_both : (now : Datetime) (e : LedgerEntry) → is_recent now e ≡ true → is_active e ≢ true
not_both now e recent active = ground arith

-- an active entry and one that was kept by its age have different fingerprints
fingerprint-apart :
    (n : ℕ) (now : Datetime) (ledger : List LedgerEntry)
    → is_unique (fingerprints ledger) ≡ true
    → (k : String) → In k (fingerprints (filter is_active ledger))
    → contains k (fingerprints (take n (newest_first (filter (is_recent now) ledger)))) ≡ false
fingerprint-apart n now ledger u k m =
    let kept = take n (newest_first (filter (is_recent now) ledger)) in
    elim (Bool-cases (contains k (fingerprints kept))) [
      | inr absent ↦ absent
      | inl present ↦
          let (a, i, of_a) = In-map-key (λ entry. entry.fingerprint) _ m in
          let (b, j, of_b) =
            In-map-key (λ entry. entry.fingerprint) kept
              (In-of_contains (fingerprints kept) present) in
          let (active, in_a) = test_of_In-filter is_active a ledger i in
          let (recent, in_b) =
            test_of_In-filter (is_recent now) b ledger (In-newest_first b _ (In-take n _ j)) in
          let same = same_of_key (λ entry. entry.fingerprint) in_a in_b u (of_a ∙ sym of_b) in
          absurd (not_both now b recent (rw same at active))
    ]

is_unique-kept :
    (n : ℕ) (now : Datetime) (ledger : List LedgerEntry)
    → is_unique (fingerprints ledger) ≡ true
    → is_unique (
        fingerprints
          (filter is_active ledger ++ take n (newest_first (filter (is_recent now) ledger))))
      ≡ true
is_unique-kept n now ledger u =
    let key = λ (entry : LedgerEntry). entry.fingerprint in
    let sorted = newest_first (filter (is_recent now) ledger) in
    let recent_unique : is_unique (fingerprints (filter (is_recent now) ledger)) ≡ true =
      is_unique-Sub (Sub-map-filter key (is_recent now) ledger) u in
    let active_unique : is_unique (fingerprints (filter is_active ledger)) ≡ true =
      is_unique-Sub (Sub-map-filter key is_active ledger) u in
    let kept_unique : is_unique (fingerprints (take n sorted)) ≡ true =
      is_unique-Sub (Sub-map-take key n sorted) (is_unique-newest_first _ recent_unique) in
    rw (map_of_append key (filter is_active ledger) (take n sorted)) (
      is_unique-append (fingerprints (filter is_active ledger)) (fingerprints (take n sorted))
        active_unique kept_unique (fingerprint-apart n now ledger u))

module _ (state : PersistentState) (now : Datetime) where
  -- Pruning a state that the storage accepts gives a state that it accepts.
  pub prune_ledger-IsDurable : IsDurable state → IsDurable (prune_ledger state now)
  unfolding prune_ledger
  prune_ledger-IsDurable d = record {
    watches_unique = d.watches_unique;
    ledger_unique = is_unique-kept max_inactive_ledger_entries now state.ledger d.ledger_unique;
    sources_unique = d.sources_unique;
    watches_valid = d.watches_valid;
    leases_valid =
        each_of_In validate_lease _
          (λ e m. ok_of_In validate_lease ((prune_ledger_lem state now).1 e m).0 d.leases_valid);
  }
