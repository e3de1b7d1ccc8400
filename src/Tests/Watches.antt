-- ===== src/Tests/Watches.antt =====
-- A star on `arch:vim`, and two scans.
use opatchy.Base.{
  In, Option, String, [], arith, false, here, inl, none, ok, option_beq_iff, option_eq, refl, some,
  string_eq, there, true, ◌==◌, ◌>>=◌, ◌∷◌, ◌≡◌, ◌≢◌,
}
use opatchy.Models.{ItemSource, PersistentState, WatchMode, WatchRecord}
use opatchy.Stars.{
  CachedItem, FreshSourceScan, StarClick, find_watch, fresh_scan, fresh_source_scan, new_watch,
  observe_watch, observe_watches, permanent_watch, star_click_event, transition,
  without_active_references,
}
use opatchy.Stars.Cleared.{fresh_scan_clears}
use opatchy.Stars.Clicks.{star_cycle}
use opatchy.Stars.Durable.{transition-IsDurable}
use opatchy.Stars.Scans.{fresh_scan_idempotent, fresh_scan_unrelated}
use opatchy.Storage.State.{validate_state}
use opatchy.Storage.Watches.{validate_watch}

abbrev vim_item : CachedItem
vim_item = record {
  item_id = "arch:vim";
  source = ItemSource.arch;
  installed_fingerprint = some "a";
  candidate_fingerprint = some "b";
  watchable = true;
}

abbrev vim_watch : WatchRecord
vim_watch = record {
  item_id = "arch:vim";
  mode = WatchMode.temporary;
  installed_fingerprint = some "a";
  candidate_fingerprint = some "b";
  armed = true;
  condition = none;
}

abbrev waiting_watch : WatchRecord
waiting_watch = record vim_watch { candidate_fingerprint = none; armed = false }

abbrev git_watch : WatchRecord
git_watch = permanent_watch "arch:git"

abbrev git_state : PersistentState
git_state = record { watches = git_watch ∷ []; ledger = []; sources = [] }

abbrev waiting_state : PersistentState
waiting_state = record git_state { watches = git_watch ∷ waiting_watch ∷ [] }

abbrev watched_state : PersistentState
watched_state = record git_state { watches = git_watch ∷ vim_watch ∷ [] }

abbrev vim_click : StarClick
vim_click = record {
  item_id = "arch:vim";
  inventory = record { items = vim_item ∷ [] };
  require_current_inventory = true;
}

abbrev arch_scan : FreshSourceScan
arch_scan = record {
  source = ItemSource.arch;
  inventory = record { items = vim_item ∷ [] };
  confirmed_removed_item_ids = [];
}

vim_starred : new_watch (some vim_item) ≡ ok vim_watch
unfolding new_watch
vim_starred = refl

vim_scanned : transition waiting_state (fresh_source_scan arch_scan) ≡ ok watched_state
unfolding transition fresh_scan observe_watches observe_watch
vim_scanned = refl

waiting_is_durable : validate_state waiting_state ≡ ok tt
unfolding validate_state validate_watch
waiting_is_durable = refl

transition-IsDurable_example : validate_state watched_state ≡ ok tt
transition-IsDurable_example =
    transition-IsDurable waiting_state (fresh_source_scan arch_scan) watched_state
      waiting_is_durable vim_scanned

star_cycle_example :
    (do
      temporary ← transition git_state (star_click_event vim_click)
      permanent ← transition temporary (star_click_event vim_click)
      transition permanent (star_click_event vim_click))
    ≡ ok (record git_state { ledger = without_active_references [] "arch:vim" })
star_cycle_example = star_cycle git_state vim_click vim_watch refl vim_starred

fresh_scan_idempotent_example :
    transition watched_state (fresh_source_scan arch_scan) ≡ ok watched_state
fresh_scan_idempotent_example =
    fresh_scan_idempotent waiting_state arch_scan watched_state vim_scanned

fresh_scan_unrelated_example :
    In git_watch (git_watch ∷ vim_watch ∷ [])
    × (watched_state.ledger ≡ [])
    × (watched_state.sources ≡ [])
fresh_scan_unrelated_example =
    fresh_scan_unrelated waiting_state arch_scan watched_state git_watch vim_scanned here (inl refl)

-- `vim` was updated to another version
abbrev update_scan : FreshSourceScan
update_scan = record arch_scan {
  inventory = record { items = record vim_item { installed_fingerprint = some "c" } ∷ [] };
}

update_scanned : transition waiting_state (fresh_source_scan update_scan) ≡ ok git_state
unfolding transition fresh_scan observe_watches observe_watch
update_scanned = refl

other_version : (a b : Option String) → (a == b) ≡ false → a ≢ b
other_version a b h e = ground (arith, option_beq_iff a b)

fresh_scan_clears_example : find_watch "arch:vim" git_state.watches ≡ none
fresh_scan_clears_example =
    fresh_scan_clears waiting_state update_scan git_state waiting_watch
      (record vim_item { installed_fingerprint = some "c" }) "c" waiting_is_durable update_scanned
      (there here) refl refl refl refl (other_version (some "a") (some "c") refl)
