-- ===== src/Files/Operations.antt =====
-- The operations of `Storage` in helper/opatchy_helper/storage.py. `mutation` and `before` are what the
-- caller passes; they may raise.
use opatchy.Base.{
  Bool, List, Option, bool_eq, false, if◌then◌else◌, leb, list_eq, nat_eq, none, option_eq, some,
  string_eq, true,
}
use opatchy.Files.Caches.{read_cached_snapshot, read_current_inventories}
use opatchy.Files.Disk.{Action, Environment, give, lift, ◌>>=◌, ◌>>◌}
use opatchy.Files.States.{
  StateLoad, load_generation, load_state, write_encoded, write_generation, write_state,
}
use opatchy.Models.{
  GenerationBundle, InventoryResponse, ItemSource, PersistentState, SnapshotResponse,
  arch_status_eq, condition_eq, item_source_eq, provenance_eq, severity_eq, source_name_eq,
  source_scope_eq, source_status_eq, watch_eq, watch_mode_eq,
}
use opatchy.Scan.Assembly.{inventories}
use opatchy.Scan.Outcomes.{current}
use opatchy.Storage.Documents.States.{corrupt_or}
use opatchy.Storage.Generations.{Stored, of_state}
use opatchy.Storage.State.{validate_state}
use opatchy.Wire.Enums.{
  arch_status_enum, error_code_enum, item_source_enum, kev_status_enum, notification_status_enum,
  provenance_enum, response_kind_enum, scan_state_enum, severity_enum, source_name_enum,
  source_scope_enum, source_status_enum, watch_mode_enum,
}

module _ (env : Environment) where
  unfoldable pub save_state : PersistentState → Action (Unit {0})
  unfolding validate_state load_state write_state
  save_state state = do
    lift (of_state (corrupt_or (validate_state state)))
    loaded ← load_state env false
    write_state env state

  unfoldable pub update_state :
      Stored (Unit {0}) → (PersistentState → Stored PersistentState) → Action StateLoad
  unfolding load_state write_state
  update_state before mutation = do
    loaded ← load_state env false
    lift before
    updated ← lift (mutation loaded.state)
    write_state env updated
    give (record { state = updated; corrupt = loaded.corrupt })

  unfoldable pub update_state_with_inventories :
      Stored (Unit {0})
      → List ItemSource
      → (PersistentState
          → List InventoryResponse
          → Option SnapshotResponse
          → Stored PersistentState)
      → Action StateLoad
  unfolding load_state write_state read_current_inventories read_cached_snapshot
  update_state_with_inventories before sources mutation = do
    loaded ← load_state env false
    lift before
    inventories ← read_current_inventories env sources
    snapshot ← read_cached_snapshot env
    updated ← lift (mutation loaded.state inventories snapshot)
    write_state env updated
    give (record { state = updated; corrupt = loaded.corrupt })

  -- `current is not None and generation.order <= current.order`
  abbrev pub is_not_newer : GenerationBundle → Option GenerationBundle → Bool
  is_not_newer generation none = false
  is_not_newer generation (some current) = leb generation.order current.order

  -- `commit_generation` below its test of the order
  unfoldable pub publish : GenerationBundle → Action Bool
  unfolding write_generation write_encoded
  publish generation = do
    write_generation env generation
    write_encoded env generation.state
    give true

  unfoldable pub commit_generation : GenerationBundle → Action Bool
  unfolding load_generation publish
  commit_generation generation = do
    current ← load_generation env
    if is_not_newer generation current then give false else publish generation
