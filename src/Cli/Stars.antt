-- ===== src/Cli/Stars.antt =====
-- `set_star` of helper/opatchy_helper/cli_operations.py on the storage. The moment and the identifier of
-- the response are arguments.
use opatchy.Base.{String, bool_eq, list_eq, nat_eq, ok, option_eq, string_eq, ℤ}
use opatchy.Cli.Requests.{SetStarCommand}
use opatchy.Cli.SetStar.{armed_of, mode_of, star_mutation, supported_sources}
use opatchy.Files.Disk.{Action, Environment, give, ◌>>=◌}
use opatchy.Files.Operations.{update_state_with_inventories}
use opatchy.Models.{
  Datetime, PersistentState, StarResultResponse, arch_status_eq, condition_eq, item_source_eq,
  provenance_eq, severity_eq, source_name_eq, source_scope_eq, source_status_eq, watch_eq,
  watch_mode_eq,
}
use opatchy.Stars.{find_watch}
use opatchy.Wire.Enums.{
  arch_status_enum, error_code_enum, item_source_enum, kev_status_enum, notification_status_enum,
  provenance_enum, response_kind_enum, scan_state_enum, severity_enum, source_name_enum,
  source_scope_enum, source_status_enum, watch_mode_enum,
}

abbrev pub star_response : SetStarCommand → PersistentState → Datetime → String → StarResultResponse
star_response command updated moment generation_id =
    let watch = find_watch command.item_id updated.watches in
    record {
      generated_at = moment;
      generation_id = generation_id;
      payload = record {
        item_id = command.item_id;
        mode = mode_of watch;
        watch_armed = armed_of watch;
      };
      protocol_version = ℤ.pos 1;
    }

unfoldable pub set_star :
    (String → String) → Environment → SetStarCommand → Datetime → String → Action StarResultResponse
unfolding update_state_with_inventories star_mutation
set_star sha256 env command moment generation_id = do
  updated ←
      update_state_with_inventories env (ok tt) supported_sources (star_mutation sha256 command)
  give (star_response command updated.state moment generation_id)
