-- ===== src/Cli/Operations.antt =====
-- helper/opatchy_helper/cli_operations.py: the inventory that is shown, the watches over a snapshot, and
-- the star. `casefold` stands for `str.casefold`, `sha256` for the hexadecimal digest of hashlib.
use opatchy.Base.{
  Bool, List, Option, String, [], after_prefix, bool_eq, contains, count, drop, false, filter,
  find_last, if◌then◌else◌, is_some, length, list_eq, ltb, map, nat_eq, none, not, option_eq, some,
  starts_with, string_eq, take, text_leb, true, ℕ, ℤ, ◌&&◌, ◌+++◌, ◌++◌, ◌==◌, ◌||◌, ◌∷◌,
}
use opatchy.Cli.Requests.{InventoryCommand}
use opatchy.Files.Caches.{read_cached_inventory, read_cached_snapshot}
use opatchy.Files.Disk.{Action, Environment, give, ◌>>=◌}
use opatchy.Files.States.{load_state}
use opatchy.Models.{
  InventoryResponse, ItemSource, NormalizedItem, Provenance, SnapshotResponse, WatchMode,
  WatchRecord, arch_status_eq, condition_eq, item_source_eq, item_source_value, provenance_eq,
  severity_eq, source_name_eq, source_scope_eq, source_status_eq, watch_eq, watch_mode_eq,
}
use opatchy.Wire.Enums.{
  arch_status_enum, error_code_enum, item_source_enum, kev_status_enum, notification_status_enum,
  provenance_enum, response_kind_enum, scan_state_enum, severity_enum, source_name_enum,
  source_scope_enum, source_status_enum, watch_mode_enum,
}

-- `records.get(item.item_id)`, in the dict of the watches
abbrev pub watch_of : String → List WatchRecord → Option WatchRecord
watch_of item_id watches = find_last (λ watch. watch.item_id == item_id) watches

-- an item with the mode and the arming of its watch
unfoldable pub with_watch : NormalizedItem → Option WatchRecord → NormalizedItem
with_watch item none = record item { watch_mode = WatchMode.off; watch_armed = false }
with_watch item (some watch) = record item {
  watch_mode = watch.mode;
  watch_armed = if watch.mode == WatchMode.temporary then watch.armed else false;
}

unfoldable pub watched_items : List NormalizedItem → List WatchRecord → List NormalizedItem
unfolding with_watch
watched_items items watches = map (λ item. with_watch item (watch_of item.item_id watches)) items

unfoldable pub overlay_snapshot : SnapshotResponse → List WatchRecord → SnapshotResponse
unfolding watched_items
overlay_snapshot response watches =
    let items = watched_items response.payload.items watches in
    record response {
      payload = record response.payload {
        items = items;
        summary = record response.payload.summary {
          watched_updates = ℤ.pos (count (λ item. not (item.watch_mode == WatchMode.off)) items);
        };
      };
    }

-- the item of a permanent watch that the inventory does not list
abbrev missing_item : ItemSource → WatchRecord → NormalizedItem
missing_item source watch = record {
  item_id = watch.item_id;
  source = source;
  label = watch.item_id;
  installed = none;
  candidate = none;
  watch_mode = WatchMode.permanent;
  watchable = false;
  provenance = Provenance.cache;
  installed_fingerprint = none;
  candidate_fingerprint = none;
  watch_armed = false;
}

abbrev is_missing : List NormalizedItem → ItemSource → WatchRecord → Bool
is_missing items source watch =
    watch.mode == WatchMode.permanent
    && (not (contains watch.item_id (map (λ item. item.item_id) items))
        && starts_with watch.item_id (item_source_value source +++ ":"))

unfoldable pub inventory_items :
    InventoryResponse → List WatchRecord → ItemSource → List NormalizedItem
unfolding watched_items
inventory_items stored watches source =
    let items = watched_items stored.payload.items watches in
    map (missing_item source) (filter (is_missing items source) watches) ++ items

-- `query in text`
unfoldable pub has_text : String → String → Bool
unfolding after_prefix
has_text query String.[] = query == ""
has_text query (String.◌∷◌ c s) =
    let later = has_text query s in is_some (after_prefix query (String.◌∷◌ c s)) || later

-- `xs[offset : offset + limit]`
abbrev pub page : ℕ → ℕ → List NormalizedItem → List NormalizedItem
page offset limit items = take limit (drop offset items)

module _ (casefold : String → String) where
  -- `_matches`
  unfoldable pub matches_query : NormalizedItem → String → Bool
  unfolding has_text
  matches_query item query =
      query == ""
      || (has_text query (casefold item.label) || has_text query (casefold item.item_id))

  -- `_item_key(a) <= _item_key(b)`: watched items first, then by label, then by identifier
  unfoldable pub item_key_leb : NormalizedItem → NormalizedItem → Bool
  item_key_leb a b =
      let rank = λ (item : NormalizedItem). if item.watch_mode == WatchMode.off then 1 else 0 in
      if rank a == rank b
      then (if casefold a.label == casefold b.label
          then text_leb a.item_id b.item_id
          else text_leb (casefold a.label) (casefold b.label))
      else ltb (rank a) (rank b)

  unfoldable pub insert_by_key : NormalizedItem → List NormalizedItem → List NormalizedItem
  unfolding item_key_leb
  insert_by_key a [] = a ∷ []
  insert_by_key a (b ∷ bs) =
      let later = insert_by_key a bs in if item_key_leb a b then a ∷ b ∷ bs else b ∷ later

  unfoldable pub sort_by_key : List NormalizedItem → List NormalizedItem
  unfolding insert_by_key
  sort_by_key [] = []
  sort_by_key (a ∷ items) = insert_by_key a (sort_by_key items)

  -- `inventory_response`, on the cached inventory and the watches
  unfoldable pub shown_inventory :
      InventoryResponse → List WatchRecord → InventoryCommand → InventoryResponse
  unfolding inventory_items matches_query sort_by_key
  shown_inventory stored watches command =
      let query = casefold command.query in
      let items = inventory_items stored watches command.source in
      let ordered = sort_by_key (filter (λ item. matches_query item query) items) in
      record {
        generated_at = stored.generated_at;
        generation_id = stored.generation_id;
        payload = record {
          source = command.source;
          total = ℤ.pos (length ordered);
          items = page command.offset command.limit ordered;
        };
        protocol_version = ℤ.pos 1;
      }

  -- none is the `CliUnavailableError` of a missing inventory
  unfoldable pub shown_if_cached :
      Environment → InventoryCommand → Option InventoryResponse → Action (Option InventoryResponse)
  unfolding load_state shown_inventory
  shown_if_cached env command none = give none
  shown_if_cached env command (some stored) = do
    loaded ← load_state env true
    give (some (shown_inventory stored loaded.state.watches command))

  unfoldable pub inventory_response :
      Environment → InventoryCommand → Action (Option InventoryResponse)
  unfolding read_cached_inventory shown_if_cached
  inventory_response env command = do
    stored ← read_cached_inventory env command.source
    shown_if_cached env command stored

-- none is the `CliUnavailableError` of a missing snapshot
unfoldable pub overlaid : Environment → Option SnapshotResponse → Action (Option SnapshotResponse)
unfolding load_state overlay_snapshot
overlaid env none = give none
overlaid env (some response) = do
  loaded ← load_state env true
  give (some (overlay_snapshot response loaded.state.watches))

unfoldable pub snapshot : Environment → Action (Option SnapshotResponse)
unfolding read_cached_snapshot overlaid
snapshot env = do stored ← read_cached_snapshot env; overlaid env stored
