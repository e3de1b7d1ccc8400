-- ===== src/Cli/SetStar.antt =====
-- `set_star` of helper/opatchy_helper/cli_operations.py, and the items that it trusts.
use opatchy.Base.{
  Bool, List, Option, String, [], any, bool_eq, err, false, filter, find, flat_map, if◌then◌else◌,
  list_eq, map, nat_eq, none, not, ok, option_eq, refuse, some, starts_with, string_eq, true, ◌&&◌,
  ◌++◌, ◌==◌, ◌>>=◌, ◌>>◌, ◌∷◌,
}
use opatchy.Cli.Requests.{SetStarCommand}
use opatchy.Models.{
  InventoryResponse, ItemSource, NormalizedItem, PersistentState, Provenance, ScopeHealth,
  SecurityFixCondition, SnapshotResponse, SourceHealth, SourceScope, SourceStatus, WatchMode,
  WatchRecord, arch_status_eq, condition_eq, item_source_eq, item_source_value, provenance_eq,
  severity_eq, source_name_eq, source_name_value, source_scope_eq, source_status_eq, watch_eq,
  watch_mode_eq,
}
use opatchy.Scan.Assembly.{inventories}
use opatchy.Stars.{CachedInventory, Transition, WatchEvent, cached_item, find_watch, transition}
use opatchy.Storage.Generations.{StorageError, Stored}
use opatchy.Wire.Enums.{
  arch_status_enum, error_code_enum, item_source_enum, kev_status_enum, notification_status_enum,
  provenance_enum, response_kind_enum, scan_state_enum, severity_enum, source_name_enum,
  source_scope_enum, source_status_enum, watch_mode_enum,
}

-- `_current_flatpak_scope`
abbrev scope_is_live : SourceScope → ScopeHealth → Bool
scope_is_live scope entry =
    entry.scope == scope && (entry.status == SourceStatus.ok && entry.provenance == Provenance.live)

unfoldable pub current_flatpak_scope : NormalizedItem → SourceHealth → Bool
current_flatpak_scope item health =
    if starts_with item.item_id "flatpak:user:"
    then any (scope_is_live SourceScope.user) health.scopes
    else if starts_with item.item_id "flatpak:system:"
    then any (scope_is_live SourceScope.system) health.scopes
    else false

-- `_current_snapshot_item`, on the health of the item's source
unfoldable pub item_is_current : NormalizedItem → Option SourceHealth → Bool
unfolding current_flatpak_scope
item_is_current item none = false
item_is_current item (some health) =
    item.provenance == Provenance.live
    && (health.status == SourceStatus.ok
        && (health.provenance == Provenance.live
            && (if item.source == ItemSource.flatpak
                then current_flatpak_scope item health
                else true)))

unfoldable pub current_snapshot_item : NormalizedItem → List SourceHealth → Bool
unfolding item_is_current
current_snapshot_item item sources =
    item_is_current item
      (find (λ source. source_name_value source.source == item_source_value item.source) sources)

unfoldable pub current_snapshot_items : Option SnapshotResponse → List NormalizedItem
unfolding current_snapshot_item
current_snapshot_items none = []
current_snapshot_items (some response) =
    filter (λ item. current_snapshot_item item response.payload.sources) response.payload.items

-- the mode of the item, by the first watch with its identifier
abbrev pub mode_of : Option WatchRecord → WatchMode
mode_of none = WatchMode.off
mode_of (some watch) = watch.mode

abbrev pub armed_of : Option WatchRecord → Bool
armed_of none = false
armed_of (some watch) = watch.armed

-- a watch of the command with its condition
abbrev with_condition : String → SecurityFixCondition → WatchRecord → WatchRecord
with_condition item_id condition watch =
    if watch.item_id == item_id && watch.mode == WatchMode.temporary
    then record watch { condition = some condition }
    else watch

unfoldable pub conditioned : SetStarCommand → PersistentState → PersistentState
conditioned command state = elim command.condition [
  | none ↦ state
  | some condition ↦ record state {
    watches = map (with_condition command.item_id condition) state.watches;
  }
]

abbrev pub of_transition : {A : Type 0} → Transition A → Stored A
of_transition (ok a) = ok a
of_transition (err reason) = err (StorageError.transition_error reason)

-- `_sources`
abbrev pub supported_sources : List ItemSource
supported_sources = ItemSource.arch ∷ ItemSource.aur ∷ ItemSource.flatpak ∷ ItemSource.mise ∷ []

module _ (sha256 : String → String) where
  -- the items of `mutate`
  unfoldable pub star_inventory : List InventoryResponse → Option SnapshotResponse → CachedInventory
  unfolding current_snapshot_items cached_item
  star_inventory inventories response = record {
    items =
        map (cached_item sha256) (flat_map (λ cached. cached.payload.items) inventories)
        ++ map (cached_item sha256) (current_snapshot_items response);
  }

  -- `mutate`
  unfoldable pub star_mutation :
      SetStarCommand
      → PersistentState
      → List InventoryResponse
      → Option SnapshotResponse
      → Stored PersistentState
  unfolding star_inventory transition conditioned
  star_mutation command state inventories response = do
    clicked ← of_transition (
        transition state (
          WatchEvent.star_click_event (record {
            item_id = command.item_id;
            inventory = star_inventory inventories response;
            require_current_inventory = true;
          })))
    refuse
        (not (
          mode_of (find_watch command.item_id (conditioned command clicked).watches)
          == command.mode))
        (StorageError.transition_error "watch mode does not match the transition")
    ok (conditioned command clicked)
