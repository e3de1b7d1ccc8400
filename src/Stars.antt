-- ===== src/Stars.antt =====
-- helper/opatchy_helper/stars.py: the life of a star, from a click or a scan of one source.
-- `sha256` stands for `hashlib.sha256(text.encode()).hexdigest()`.
pub mod Scans
pub mod Clicks
pub mod Durable
pub mod Cleared
use opatchy.Base.{
  Bool, List, Option, Result, String, [], any, contains, err, false, filter, find, find_last,
  if◌then◌else◌, is_some, map, none, not, ok, option_eq, some, starts_with, string_eq, text_leb,
  true, ◌&&◌, ◌+++◌, ◌++◌, ◌==◌, ◌>>=◌, ◌>>◌, ◌∷◌,
}
use opatchy.Models.{
  ItemSource, LedgerEntry, NormalizedItem, PersistentState, WatchMode, WatchRecord, is_active,
  item_source_eq, item_source_value, watch_eq, watch_mode_eq,
}

pub record CachedItem : Type 0 where
  pub item_id : String
  pub source : ItemSource
  pub installed_fingerprint : Option String
  pub candidate_fingerprint : Option String
  pub watchable : Bool

pub record CachedInventory : Type 0 where
  pub items : List CachedItem

pub record StarClick : Type 0 where
  pub item_id : String
  pub inventory : CachedInventory
  pub require_current_inventory : Bool

pub record FreshSourceScan : Type 0 where
  pub source : ItemSource
  pub inventory : CachedInventory
  pub confirmed_removed_item_ids : List String

pub data WatchEvent : Type 0 where
  star_click_event : StarClick → WatchEvent
  fresh_source_scan : FreshSourceScan → WatchEvent
  stale_source_scan failed_source_scan invalid_source_scan : ItemSource → WatchEvent

-- A `WatchTransitionError` is its reason.
abbrev pub Transition : Type 0 → Type 0
Transition A = Result String A

unfoldable pub fingerprint : (String → String) → ItemSource → String → Option String → Option String
fingerprint sha256 source item_id none = none
fingerprint sha256 source item_id (some evidence) =
    some (sha256 (item_source_value source +++ "\0" +++ item_id +++ "\0" +++ evidence))

unfoldable pub cached_item : (String → String) → NormalizedItem → CachedItem
cached_item sha256 item = record {
  item_id = item.item_id;
  source = item.source;
  installed_fingerprint = fingerprint sha256 item.source item.item_id item.installed;
  candidate_fingerprint = fingerprint sha256 item.source item.item_id item.candidate;
  watchable = item.watchable;
}

unfoldable pub watch_notification_reference : String → String → Option String → String
watch_notification_reference item_id candidate_fingerprint (some installed_fingerprint) =
    "watch-v1:" +++ item_id +++ ":" +++ installed_fingerprint +++ ":" +++ candidate_fingerprint
watch_notification_reference item_id candidate_fingerprint none =
    "watch-v1:" +++ item_id +++ ":" +++ candidate_fingerprint

-- the records by the identifiers of their watches, in the order of `sorted`
unfoldable pub insert_watch : WatchRecord → List WatchRecord → List WatchRecord
insert_watch w [] = w ∷ []
insert_watch w (v ∷ vs) = if text_leb w.item_id v.item_id then w ∷ v ∷ vs else v ∷ insert_watch w vs

unfoldable pub sort_watches : List WatchRecord → List WatchRecord
unfolding insert_watch
sort_watches [] = []
sort_watches (w ∷ ws) = insert_watch w (sort_watches ws)

unfoldable pub missing_permanent_item_ids : PersistentState → CachedInventory → List String
unfolding sort_watches
missing_permanent_item_ids state inventory =
    map (λ watch. watch.item_id)
      (filter
        (λ watch.
          watch.mode == WatchMode.permanent
          && not (any (λ item. item.item_id == watch.item_id) inventory.items))
        (sort_watches state.watches))

-- `_without_active_references`
unfoldable pub without_active_references : List LedgerEntry → String → List LedgerEntry
without_active_references ledger item_id =
    filter
      (λ entry.
        not (is_active entry && starts_with entry.fingerprint ("watch-v1:" +++ item_id +++ ":")))
      ledger

abbrev pub not_watchable : String
not_watchable = "item is not a cached watchable item"

abbrev pub off_not_durable : String
off_not_durable = "off watches are not durable"

unfoldable pub temporary_watch : CachedItem → Option String → Transition WatchRecord
temporary_watch item none = err not_watchable
temporary_watch item (some installed) = ok (record {
  item_id = item.item_id;
  mode = WatchMode.temporary;
  installed_fingerprint = some installed;
  candidate_fingerprint = item.candidate_fingerprint;
  armed = is_some item.candidate_fingerprint;
  condition = none;
})

-- the first case of `_star_click`: no watch on the item yet
unfoldable pub new_watch : Option CachedItem → Transition WatchRecord
unfolding temporary_watch
new_watch none = err not_watchable
new_watch (some item) =
    if not item.watchable
    then err not_watchable
    else temporary_watch item item.installed_fingerprint

abbrev pub permanent_watch : String → WatchRecord
permanent_watch item_id = record {
  item_id = item_id;
  mode = WatchMode.permanent;
  installed_fingerprint = none;
  candidate_fingerprint = none;
  armed = false;
  condition = none;
}

-- `tuple(permanent if record == watch else record for record in watches)`
unfoldable pub make_permanent : WatchRecord → List WatchRecord → List WatchRecord
make_permanent watch =
    map (λ record'. if record' == watch then permanent_watch watch.item_id else record')

-- `_click_existing_watch`
unfoldable pub click_existing_watch :
    PersistentState → WatchRecord → CachedInventory → Bool → Transition PersistentState
click_existing_watch state watch inventory require_current_inventory = elim watch.mode [
  | WatchMode.temporary ↦
      if require_current_inventory
        && not (any (λ item. item.item_id == watch.item_id && item.watchable) inventory.items)
      then err not_watchable
      else ok (record state { watches = make_permanent watch state.watches })
  | WatchMode.permanent ↦ ok (record state {
    watches = filter (λ record'. not (record' == watch)) state.watches;
    ledger = without_active_references state.ledger watch.item_id;
  })
  | WatchMode.off ↦ err off_not_durable
]

abbrev pub find_watch : String → List WatchRecord → Option WatchRecord
find_watch item_id watches = find (λ watch. watch.item_id == item_id) watches

-- `_star_click`
unfoldable pub star_click : PersistentState → StarClick → Transition PersistentState
star_click state event = elim (find_watch event.item_id state.watches) [
  | none ↦ do
    watch ← new_watch (find (λ candidate. candidate.item_id == event.item_id) event.inventory.items)
    ok (record state { watches = state.watches ++ watch ∷ [] })
  | some watch ↦ click_existing_watch state watch event.inventory event.require_current_inventory
]

-- a temporary watch whose item the scan lists
unfoldable pub observe_item : WatchRecord → CachedItem → Option WatchRecord
observe_item watch item =
    if is_some item.installed_fingerprint
      && not (item.installed_fingerprint == watch.installed_fingerprint)
    then none
    else if not watch.armed && is_some item.candidate_fingerprint
    then some (record watch { candidate_fingerprint = item.candidate_fingerprint; armed = true })
    else some watch

-- `items.get(item_id)` of the dict that `_fresh_scan` builds
abbrev pub scanned_item : FreshSourceScan → String → Option CachedItem
scanned_item event item_id =
    find_last (λ item. item.source == event.source && item.item_id == item_id) event.inventory.items

unfoldable pub observe_temporary : WatchRecord → FreshSourceScan → Option WatchRecord
observe_temporary watch event =
    if not (starts_with watch.item_id (item_source_value event.source +++ ":"))
    then some watch
    else elim (scanned_item event watch.item_id) [
      | none ↦ if contains watch.item_id event.confirmed_removed_item_ids then none else some watch
      | some item ↦ observe_item watch item
    ]

-- `_observe_watch`
unfoldable pub observe_watch : WatchRecord → FreshSourceScan → Transition (Option WatchRecord)
unfolding observe_temporary observe_item
observe_watch watch event = elim watch.mode [
  | WatchMode.permanent ↦ ok (some watch)
  | WatchMode.temporary ↦ ok (observe_temporary watch event)
  | WatchMode.off ↦ err off_not_durable
]

abbrev pub keep : Option WatchRecord → List WatchRecord → List WatchRecord
keep none watches = watches
keep (some watch) watches = watch ∷ watches

unfoldable pub observe_watches : FreshSourceScan → List WatchRecord → Transition (List WatchRecord)
observe_watches event [] = ok []
observe_watches event (watch ∷ watches) = do
  updated ← observe_watch watch event
  rest ← observe_watches event watches
  ok (keep updated rest)

-- `_fresh_scan`
unfoldable pub fresh_scan : PersistentState → FreshSourceScan → Transition PersistentState
fresh_scan state event = do
  watches ← observe_watches event state.watches
  ok (record state { watches = watches })

unfoldable pub transition : PersistentState → WatchEvent → Transition PersistentState
transition state (star_click_event event) = star_click state event
transition state (fresh_source_scan event) = fresh_scan state event
transition state (stale_source_scan source) = ok state
transition state (failed_source_scan source) = ok state
transition state (invalid_source_scan source) = ok state
