-- ===== src/Files/Caches.antt =====
-- helper/opatchy_helper/storage_cache.py: the snapshot and the inventories, in the generation or in
-- files of their own.
-- `sorted(inventories, key=lambda item: item.payload.source)`; `sorted` keeps the order of equal keys
use opatchy.Base.{
  List, Option, [], bool_eq, contains, err, filter, find, if◌then◌else◌, list_eq, nat_eq, none, not,
  ok, option_eq, some, string_eq, text_leb, ℕ, ◌++◌, ◌==◌, ◌∷◌,
}
use opatchy.Files.Disk.{
  Action, Environment, discard_snapshot, give, lift, write_inventory_file, write_snapshot_file,
  ◌>>=◌, ◌>>◌,
}
use opatchy.Files.States.{load_generation, write_generation}
use opatchy.Models.{
  GenerationBundle, InventoryResponse, ItemSource, Response, SnapshotResponse, arch_status_eq,
  condition_eq, item_source_eq, item_source_value, provenance_eq, severity_eq, source_name_eq,
  source_scope_eq, source_status_eq, watch_eq, watch_mode_eq,
}
use opatchy.Scan.Assembly.{inventories}
use opatchy.Storage.Generations.{StorageError, of_encoded}
use opatchy.Wire.Protocol.{DecodeError, Decoded, decode_response, encode_response}

unfoldable pub insert_inventory :
    InventoryResponse → List InventoryResponse → List InventoryResponse
insert_inventory r [] = r ∷ []
insert_inventory r (other ∷ rest) =
    let later = insert_inventory r rest in
    if text_leb (item_source_value r.payload.source) (item_source_value other.payload.source)
    then r ∷ other ∷ rest
    else other ∷ later

unfoldable pub sort_inventories : List InventoryResponse → List InventoryResponse
unfolding insert_inventory
sort_inventories [] = []
sort_inventories (r ∷ rs) = insert_inventory r (sort_inventories rs)

-- the inventories of a generation with another one for its source
unfoldable pub with_response : InventoryResponse → List InventoryResponse → List InventoryResponse
unfolding sort_inventories
with_response response inventories = sort_inventories (
    filter (λ item. not (item.payload.source == response.payload.source)) inventories
    ++ (response ∷ []))

module _ (env : Environment) where
  -- `atomic_write(path, encode_response(response))` of the two kinds of files
  unfoldable pub save_cached_snapshot_to :
      SnapshotResponse → Option GenerationBundle → Action (Unit {0})
  unfolding write_generation encode_response
  save_cached_snapshot_to response (some bundle) =
      write_generation env (record bundle { snapshot = response })
  save_cached_snapshot_to response none = do
    raw ←
        lift
          (of_encoded (encode_response env.json env.calendar (Response.snapshot_response response)))
    write_snapshot_file raw

  unfoldable pub save_cached_snapshot : SnapshotResponse → Action (Unit {0})
  unfolding load_generation save_cached_snapshot_to
  save_cached_snapshot response = do
    generation ← load_generation env
    save_cached_snapshot_to response generation

  unfoldable pub save_cached_inventory_to :
      InventoryResponse → Option GenerationBundle → Action (Unit {0})
  unfolding write_generation encode_response with_response
  save_cached_inventory_to response (some bundle) =
      write_generation env
        (record bundle { inventories = with_response response bundle.inventories })
  save_cached_inventory_to response none = do
    raw ←
        lift (
          of_encoded (encode_response env.json env.calendar (Response.inventory_response response)))
    write_inventory_file response.payload.source (some raw)

  unfoldable pub save_cached_inventory : InventoryResponse → Action (Unit {0})
  unfolding load_generation save_cached_inventory_to
  save_cached_inventory response = do
    generation ← load_generation env
    save_cached_inventory_to response generation

  -- `load_snapshot` on what `decode_response` gives
  unfoldable pub accepted_snapshot : Decoded Response → Action (Option SnapshotResponse)
  accepted_snapshot (ok (Response.snapshot_response r)) = give (some r)
  accepted_snapshot (err DecodeError.value_error) = lift (err StorageError.value_error)
  accepted_snapshot _ = do discard_snapshot; give none

  -- `load_snapshot` on the content of the file
  unfoldable pub load_snapshot_from : Option (List ℕ) → Action (Option SnapshotResponse)
  unfolding accepted_snapshot decode_response
  load_snapshot_from none = give none
  load_snapshot_from (some raw) = accepted_snapshot (decode_response env.json env.calendar raw)

  unfoldable pub load_snapshot : Action (Option SnapshotResponse)
  unfolding load_snapshot_from
  load_snapshot disk = load_snapshot_from disk.snapshot_file disk

  -- `load_inventory` on what `decode_response` gives
  unfoldable pub accepted_inventory :
      ItemSource → Decoded Response → Action (Option InventoryResponse)
  accepted_inventory source (ok (Response.inventory_response r)) =
      if r.payload.source == source
      then give (some r)
      else (do write_inventory_file source none; give none)
  accepted_inventory source (err DecodeError.value_error) = lift (err StorageError.value_error)
  accepted_inventory source _ = do write_inventory_file source none; give none

  -- `load_inventory` on the content of the file
  unfoldable pub load_inventory_from :
      ItemSource → Option (List ℕ) → Action (Option InventoryResponse)
  unfolding accepted_inventory decode_response
  load_inventory_from source none = give none
  load_inventory_from source (some raw) =
      accepted_inventory source (decode_response env.json env.calendar raw)

  unfoldable pub load_inventory : ItemSource → Action (Option InventoryResponse)
  unfolding load_inventory_from
  load_inventory source disk = load_inventory_from source (disk.inventory_file source) disk

  unfoldable pub cached_snapshot_of : Option GenerationBundle → Action (Option SnapshotResponse)
  unfolding load_snapshot
  cached_snapshot_of (some bundle) = give (some bundle.snapshot)
  cached_snapshot_of none = load_snapshot

  unfoldable pub read_cached_snapshot : Action (Option SnapshotResponse)
  unfolding load_generation cached_snapshot_of
  read_cached_snapshot = do generation ← load_generation env; cached_snapshot_of generation

  unfoldable pub cached_inventory_of :
      ItemSource → Option GenerationBundle → Action (Option InventoryResponse)
  unfolding load_inventory
  cached_inventory_of source (some bundle) =
      give (find (λ item. item.payload.source == source) bundle.inventories)
  cached_inventory_of source none = load_inventory source

  unfoldable pub read_cached_inventory : ItemSource → Action (Option InventoryResponse)
  unfolding load_generation cached_inventory_of
  read_cached_inventory source = do
    generation ← load_generation env
    cached_inventory_of source generation

  abbrev with_found : Option InventoryResponse → List InventoryResponse → List InventoryResponse
  with_found none rest = rest
  with_found (some r) rest = r ∷ rest

  -- the generator over the sources in `read_current_inventories`
  unfoldable pub load_inventories : List ItemSource → Action (List InventoryResponse)
  unfolding load_inventory
  load_inventories [] = give []
  load_inventories (source ∷ sources) = do
    found ← load_inventory source
    rest ← load_inventories sources
    give (with_found found rest)

  unfoldable pub current_inventories_of :
      List ItemSource → Option GenerationBundle → Action (List InventoryResponse)
  unfolding load_inventories
  current_inventories_of sources (some bundle) =
      give (filter (λ response. contains response.payload.source sources) bundle.inventories)
  current_inventories_of sources none = load_inventories sources

  unfoldable pub read_current_inventories : List ItemSource → Action (List InventoryResponse)
  unfolding load_generation current_inventories_of
  read_current_inventories sources = do
    generation ← load_generation env
    current_inventories_of sources generation
