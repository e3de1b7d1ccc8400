-- ===== src/Storage/State.antt =====
-- helper/opatchy_helper/storage_state.py: the rules for a whole state, and the pruning of its ledger.
pub mod Pruning
use opatchy.Base.{
  Bool, List, String, [], bool_eq, each, filter, if◌then◌else◌, is_some, is_unique, leb, ltb, map,
  nat_eq, not, option_eq, refuse, some, string_eq, take, text_leb, ℕ, ◌&&◌, ◌++◌, ◌-◌, ◌==◌, ◌>>◌,
  ◌||◌, ◌∷◌,
}
use opatchy.Models.{Datetime, LedgerEntry, PersistentState, is_active, source_name_value}
use opatchy.Storage.Watches.{Checked, validate_watch}

-- `_unique`
abbrev pub unique : List String → String → Checked (Unit {0})
unique values reason = refuse (not (is_unique values)) reason

-- the two lease checks of an entry
unfoldable pub validate_lease : LedgerEntry → Checked (Unit {0})
validate_lease entry = do
  refuse (not (is_some entry.lease_token == is_some entry.lease_expires_at))
      "ledger lease is incomplete"
  refuse (entry.lease_token == some "") "ledger lease token is invalid"

-- The checks of the metadata's Python types hold of every `SourceMetadata`.
unfoldable pub validate_state : PersistentState → Checked (Unit {0})
validate_state state = do
  unique (map (λ watch. watch.item_id) state.watches) "state has duplicate watches"
  unique (map (λ entry. entry.fingerprint) state.ledger) "state has duplicate ledger entries"
  unique (map (λ source. source_name_value source.source) state.sources)
      "state has duplicate source metadata"
  each validate_watch state.watches
  each validate_lease state.ledger

abbrev pub max_inactive_ledger_entries : ℕ
max_inactive_ledger_entries = 5000

-- 180 days, in microseconds
abbrev pub max_inactive_ledger_age : ℕ
max_inactive_ledger_age = 15552000000000

-- The sort key of an inactive entry; `reverse=True` puts the largest first and keeps the order of
-- entries with equal keys.
abbrev pub not_older : LedgerEntry → LedgerEntry → Bool
not_older a b =
    ltb b.recorded_at a.recorded_at
    || (a.recorded_at == b.recorded_at && text_leb b.fingerprint a.fingerprint)

unfoldable pub insert_entry : LedgerEntry → List LedgerEntry → List LedgerEntry
insert_entry a [] = a ∷ []
insert_entry a (b ∷ bs) = if not_older a b then a ∷ b ∷ bs else b ∷ insert_entry a bs

unfoldable pub newest_first : List LedgerEntry → List LedgerEntry
newest_first [] = []
newest_first (a ∷ as') = insert_entry a (newest_first as')

-- an inactive entry that a write at `now` retains by its age
-- (The difference stops at 0; Python's datetime raises for a clock in the first 180 days of year 1.)
abbrev pub is_recent : Datetime → LedgerEntry → Bool
is_recent now entry = not (is_active entry) && leb (now - max_inactive_ledger_age) entry.recorded_at

unfoldable pub prune_ledger : PersistentState → Datetime → PersistentState
unfolding newest_first insert_entry
prune_ledger state now = record state {
  ledger =
      filter is_active state.ledger
      ++ take max_inactive_ledger_entries (newest_first (filter (is_recent now) state.ledger));
}
