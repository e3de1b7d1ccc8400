-- ===== src/Cli/Reported.antt =====
-- What `set_star` of helper/opatchy_helper/cli_operations.py reports and writes.
use mathlib.Core.Path.{subst}
use opatchy.Base.{
  >>=-eq-ok, List, Option, String, arith, bool_eq, false, list_eq, nat_eq, not, ok, ok-injective,
  option_eq, refl, refuse, string_eq, true, ◌==◌, ◌≡◌,
}
use opatchy.Cli.Requests.{SetStarCommand}
use opatchy.Cli.SetStar.{
  conditioned, mode_of, of_transition, star_inventory, star_mutation, supported_sources,
}
use opatchy.Cli.Stars.{set_star, star_response}
use opatchy.Files.Caches.{read_cached_snapshot, read_current_inventories}
use opatchy.Files.Disk.{Disk, Environment, lift}
use opatchy.Files.Loads.{bind-ok}
use opatchy.Files.Operations.{update_state_with_inventories}
use opatchy.Files.States.{StateLoad, load_state, write_state}
use opatchy.Models.{
  Datetime, InventoryResponse, PersistentState, SnapshotResponse, StarResultResponse, WatchMode,
  arch_status_eq, condition_eq, item_source_eq, provenance_eq, severity_eq, source_name_eq,
  source_scope_eq, source_status_eq, watch_eq, watch_mode_beq_iff, watch_mode_eq,
}
use opatchy.Scan.Assembly.{inventories}
use opatchy.Stars.{WatchEvent, find_watch, transition}
use opatchy.Storage.Durable.{refuse-ok}
use opatchy.Storage.Generations.{StorageError}
use opatchy.Wire.Enums.{
  arch_status_enum, error_code_enum, item_source_enum, kev_status_enum, notification_status_enum,
  provenance_enum, response_kind_enum, scan_state_enum, severity_enum, source_name_enum,
  source_scope_enum, source_status_enum, watch_mode_enum,
}

module _ (sha256 : String → String) where
  -- what the mutation of a star gives has the mode that was asked for
  star_mutation-mode :
      (command : SetStarCommand) (state : PersistentState) (inventories : List InventoryResponse)
      (response : Option SnapshotResponse) (updated : PersistentState)
      → star_mutation sha256 command state inventories response ≡ ok updated
      → mode_of (find_watch command.item_id updated.watches) ≡ command.mode
  unfolding star_mutation
  star_mutation-mode command state inventories response updated h =
      let click = WatchEvent.star_click_event (record {
        item_id = command.item_id;
        inventory = star_inventory sha256 inventories response;
        require_current_inventory = true;
      }) in
      let clicked = >>=-eq-ok (of_transition (transition state click)) _ h in
      let result = conditioned command clicked.0 in
      let mode = mode_of (find_watch command.item_id result.watches) in
      let checked =
        >>=-eq-ok
          (refuse (not (mode == command.mode))
            (StorageError.transition_error "watch mode does not match the transition"))
          (λ _. ok result) clicked.2 in
      subst (λ (s : PersistentState). mode_of (find_watch command.item_id s.watches) ≡ command.mode)
        (ok-injective checked.2)
        (same_mode mode command.mode (refuse-ok (not (mode == command.mode)) _ checked.1))
    where
      same_mode : (a b : WatchMode) → not (a == b) ≡ false → a ≡ b
      same_mode a b e = ground (arith, watch_mode_beq_iff a b)

  module _ (env : Environment) where
    update-mode :
        (command : SetStarCommand) (disk : Disk) (load : StateLoad)
        → (update_state_with_inventories env
            (ok tt)
            supported_sources
            (star_mutation sha256 command)
            disk).0
          ≡ ok load
        → mode_of (find_watch command.item_id load.state.watches) ≡ command.mode
    unfolding update_state_with_inventories
    update-mode command disk load h =
        let loaded = bind-ok (load_state env false) _ disk h in
        let at_load = (load_state env false disk).1 in
        let inventories =
          bind-ok (read_current_inventories env supported_sources) _ at_load loaded.2 in
        let at_inventories = (read_current_inventories env supported_sources at_load).1 in
        let response = bind-ok (read_cached_snapshot env) _ at_inventories inventories.2 in
        let at_response = (read_cached_snapshot env at_inventories).1 in
        let updated =
          bind-ok (lift (star_mutation sha256 command loaded.0.state inventories.0 response.0)) _
            at_response response.2 in
        let written = bind-ok (write_state env updated.0) _ at_response updated.2 in
        subst
          (λ (l : StateLoad). mode_of (find_watch command.item_id l.state.watches) ≡ command.mode)
          (ok-injective written.2)
          (star_mutation-mode command loaded.0.state inventories.0 response.0 updated.0 updated.1)

    -- A star that succeeds reports the item and the mode that were asked for.
    pub set_star-mode :
        (command : SetStarCommand) (moment : Datetime) (generation_id : String) (disk : Disk)
        (response : StarResultResponse)
        → (set_star sha256 env command moment generation_id disk).0 ≡ ok response
        → (response.payload.item_id ≡ command.item_id) × (response.payload.mode ≡ command.mode)
    unfolding set_star
    set_star-mode command moment generation_id disk response h =
        let updated =
          bind-ok
            (update_state_with_inventories env (ok tt) supported_sources
              (star_mutation sha256 command))
            _ disk h in
        let same : star_response command updated.0.state moment generation_id ≡ response =
          ok-injective updated.2 in
        subst
          (λ (r : StarResultResponse).
            (r.payload.item_id ≡ command.item_id) × (r.payload.mode ≡ command.mode))
          same (refl, update-mode command disk updated.0 updated.1)
