-- ===== src/Notifications/Batch/Durable.antt =====
-- Claiming and completing keep the state writable.
use mathlib.Core.List.{map-append}
use opatchy.Base.{
  Bool-cases, List, Option, String, [], any, arith, contains, each, eq_iff, false, inl, inr,
  is_unique, map, none, ok, refl, some, string_eq, true, ◌==◌, ◌∷◌, ◌≡◌, ◌≢◌,
}
use opatchy.Base.Unique.{Sub-map-filter, is_unique-Sub, is_unique-append_one}
use opatchy.Models.{Datetime, LedgerEntry, NotificationStatus, PersistentState}
use opatchy.Notifications.Batch.{
  NotificationBatch, claim_batch, complete_batch, complete_state, is_settled, is_superseded,
  lease_all, leased, owner_fingerprint, owns_owner, replace_entry, reserve_batch, reserve_claimed,
  settle, settled_ledger, suppress, suppress_superseded, update_at, upsert, with_status,
}
use opatchy.Notifications.Batch.Leases.{reserve_batch-cases}
use opatchy.Notifications.Batch.Updates.{settle-fingerprint}
use opatchy.Notifications.Types.{NotificationCandidate, NotificationKind}
use opatchy.Runner.{CommandResult}
use opatchy.Storage.Durable.{
  IsDurable, each-append_one, each-cons, each-filter, fingerprints, validate_state-IsDurable,
  validate_state_of_IsDurable,
}
use opatchy.Storage.State.{validate_lease, validate_state}

-- What `validate_state` asks of the ledger.
record IsSound (ledger : List LedgerEntry) : Type 0 where
  unique_keys : is_unique (fingerprints ledger) ≡ true
  leases : each validate_lease ledger ≡ ok tt

fingerprints-map :
    (f : LedgerEntry → LedgerEntry)
    → ((e : LedgerEntry) → (f e).fingerprint ≡ e.fingerprint)
    → (ledger : List LedgerEntry) → fingerprints (map f ledger) ≡ fingerprints ledger
fingerprints-map f same [] = refl
fingerprints-map f same (e ∷ es) = cc (same e, fingerprints-map f same es)

each-map :
    (f : LedgerEntry → LedgerEntry)
    → ((e : LedgerEntry) → validate_lease e ≡ ok tt → validate_lease (f e) ≡ ok tt)
    → (ledger : List LedgerEntry) → each validate_lease ledger ≡ ok tt
    → each validate_lease (map f ledger) ≡ ok tt
each-map f keeps [] h = refl
each-map f keeps (e ∷ es) h =
    let (a, b) = each-cons validate_lease e es h in rw (keeps e a) (each-map f keeps es b)

map-IsSound :
    (f : LedgerEntry → LedgerEntry)
    → ((e : LedgerEntry) → (f e).fingerprint ≡ e.fingerprint)
    → ((e : LedgerEntry) → validate_lease e ≡ ok tt → validate_lease (f e) ≡ ok tt)
    → (ledger : List LedgerEntry) → IsSound ledger
    → IsSound (map f ledger)
map-IsSound f same keeps ledger h = record {
  unique_keys = rw (fingerprints-map f same ledger) h.unique_keys;
  leases = each-map f keeps ledger h.leases;
}

leased-valid :
    (k : String) (now : Datetime) (token : String)
    → token ≢ ""
    → validate_lease (leased k now token) ≡ ok tt
unfolding validate_lease
leased-valid k now token h = ground (arith, eq_iff token "")

suppress-valid :
    (cs : List NotificationCandidate) (e : LedgerEntry)
    → validate_lease e ≡ ok tt
    → validate_lease (suppress cs e) ≡ ok tt
unfolding validate_lease
suppress-valid cs e h = elim (Bool-cases (is_superseded cs e)) [ inl b ↦ rw b h | inr b ↦ rw b h ]

replace_entry-fingerprint : (u e : LedgerEntry) → (replace_entry u e).fingerprint ≡ e.fingerprint
replace_entry-fingerprint u e = ground (arith, eq_iff e.fingerprint u.fingerprint)

replace_entry-valid :
    (u e : LedgerEntry)
    → validate_lease u ≡ ok tt
    → validate_lease e ≡ ok tt
    → validate_lease (replace_entry u e) ≡ ok tt
replace_entry-valid u e v w = elim (Bool-cases (e.fingerprint == u.fingerprint)) [
  | inl b ↦ rw b v
  | inr b ↦ rw b w
]

absent_key :
    (k : String) (ledger : List LedgerEntry)
    → any (λ e. e.fingerprint == k) ledger ≡ false
    → contains k (fingerprints ledger) ≡ false
absent_key k [] h = refl
absent_key k (e ∷ es) h =
    ground (arith, eq_iff k e.fingerprint, eq_iff e.fingerprint k, absent_key k es)

upsert-IsSound :
    (u : LedgerEntry) (ledger : List LedgerEntry)
    → validate_lease u ≡ ok tt
    → IsSound ledger
    → IsSound (upsert ledger u)
unfolding upsert
upsert-IsSound u ledger v h = elim (Bool-cases (any (λ e. e.fingerprint == u.fingerprint) ledger)) [
  | inl present ↦ rw present (
      map-IsSound (replace_entry u) (replace_entry-fingerprint u)
        (λ e w. replace_entry-valid u e v w) ledger h)
  | inr absent ↦ rw absent (record {
    unique_keys = rw map-append (
        is_unique-append_one (fingerprints ledger) u.fingerprint h.unique_keys
          (absent_key u.fingerprint ledger absent));
    leases = each-append_one validate_lease ledger u h.leases v;
  })
]

lease_all-IsSound :
    (ledger : List LedgerEntry) (cs : List NotificationCandidate) (now : Datetime) (token : String)
    → token ≢ ""
    → IsSound ledger
    → IsSound (lease_all ledger cs now token)
unfolding lease_all
lease_all-IsSound ledger [] now token ne h = h
lease_all-IsSound ledger (c ∷ cs) now token ne h =
    lease_all-IsSound (upsert ledger (leased c.fingerprint now token)) cs now token ne
      (upsert-IsSound _ ledger (leased-valid c.fingerprint now token ne) h)

suppress-fingerprint :
    (cs : List NotificationCandidate) (e : LedgerEntry)
    → (suppress cs e).fingerprint ≡ e.fingerprint
suppress-fingerprint cs e = elim (Bool-cases (is_superseded cs e)) [ inl h ↦ rw h | inr h ↦ rw h ]

settle-valid :
    (batch : NotificationBatch) (result : CommandResult) (e : LedgerEntry)
    → validate_lease e ≡ ok tt
    → validate_lease (settle batch result e) ≡ ok tt
settle-valid batch result e h = elim (Bool-cases (is_settled batch result e)) [
  | inl b ↦ rw b (go (update_at batch result e.fingerprint))
  | inr b ↦ rw b h
]
  where
    go : (o : Option NotificationStatus) → validate_lease (with_status e o) ≡ ok tt
    go none = h
    go (some status) = unfold validate_lease in refl

module _ (state : PersistentState) (d : IsDurable state) where
  ledger-IsSound : IsSound state.ledger
  ledger-IsSound = record { unique_keys = d.ledger_unique; leases = d.leases_valid }

  with_ledger :
      (ledger : List LedgerEntry) → IsSound ledger → IsDurable (record state { ledger = ledger })
  with_ledger ledger h = record {
    watches_unique = d.watches_unique;
    ledger_unique = h.unique_keys;
    sources_unique = d.sources_unique;
    watches_valid = d.watches_valid;
    leases_valid = h.leases;
  }

  reserve_batch-IsDurable :
      (kind : NotificationKind) (cs : List NotificationCandidate) (now : Datetime) (token : String)
      → token ≢ ""
      → IsDurable (reserve_batch state kind cs now token)
  unfolding reserve_claimed suppress_superseded
  reserve_batch-IsDurable kind cs now token ne =
      elim (reserve_batch-cases state kind cs now token) [
        | inl same ↦ rw same d
        | inr (c, rest, _, same) ↦ rw same (
            with_ledger _ (
              upsert-IsSound _ _ (leased-valid (owner_fingerprint kind) now token ne) (
                lease_all-IsSound _ (c ∷ rest) now token ne (
                  map-IsSound (suppress (c ∷ rest)) (suppress-fingerprint (c ∷ rest))
                    (suppress-valid (c ∷ rest)) state.ledger ledger-IsSound))))
      ]

  complete_state-IsDurable :
      (batch : NotificationBatch) (result : CommandResult)
      → IsDurable (complete_state state batch result).0
  unfolding complete_state settled_ledger
  complete_state-IsDurable batch result =
      elim (Bool-cases (owns_owner state batch.kind batch.lease_token)) [
        | inl owns ↦ rw owns (
            with_ledger _ (
              map-IsSound (settle batch result) (settle-fingerprint batch result)
                (settle-valid batch result) _
                (record {
                  unique_keys = is_unique-Sub (Sub-map-filter _ _ state.ledger) d.ledger_unique;
                  leases = each-filter validate_lease _ state.ledger d.leases_valid;
                })))
        | inr lost ↦ rw lost d
      ]

-- Claiming a batch under a non-empty token and completing any batch, from a state that the storage
-- accepts, end in states that the storage accepts.
pub batch-IsDurable :
    (state : PersistentState) (kind : NotificationKind) (cs : List NotificationCandidate)
    (now : Datetime) (token : String) (batch : NotificationBatch) (result : CommandResult)
    → validate_state state ≡ ok tt
    → token ≢ ""
    → (validate_state (claim_batch state kind cs now token).0 ≡ ok tt)
      × (validate_state (complete_batch state batch result).0 ≡ ok tt)
unfolding claim_batch complete_batch
batch-IsDurable state kind cs now token batch result v ne =
    let d = validate_state-IsDurable state v in
    (
      validate_state_of_IsDurable _ (reserve_batch-IsDurable state d kind cs now token ne),
      validate_state_of_IsDurable _ (complete_state-IsDurable state d batch result),
    )
