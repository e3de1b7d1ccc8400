-- ===== src/Cli/Arguments.antt =====
-- `parse_command` of helper/opatchy_helper/cli_requests.py: the command that the arguments ask for.
use opatchy.Base.{
  Bool, List, Option, String, [], bool_eq, false, if◌then◌else◌, list_eq, nat_eq, none, ok,
  option_eq, some, string_eq, true, ◌==◌, ◌>>=◌, ◌∷◌,
}
use opatchy.Cli.Requests.{
  CliCommand, Usage, arch_star_item_id, inventory_limit, inventory_offset, inventory_query,
  inventory_source, security_condition, setting_flag, settings_of, star_item_id, star_mode,
  unsupported,
}
use opatchy.Models.{
  Severity, WatchMode, arch_status_eq, condition_eq, item_source_eq, provenance_eq, severity_eq,
  source_name_eq, source_scope_eq, source_status_eq, watch_eq, watch_mode_eq,
}
use opatchy.Notifications.Types.{NotificationSettings}
use opatchy.Wire.Enums.{
  arch_status_enum, error_code_enum, item_source_enum, kev_status_enum, notification_status_enum,
  provenance_enum, response_kind_enum, scan_state_enum, severity_enum, source_name_enum,
  source_scope_enum, source_status_enum, watch_mode_enum,
}

-- The captures of a sequence pattern: a word must stand as it is, `none` captures one.
unfoldable pub captures : List (Option String) → List String → Option (List String)
captures [] [] = some []
captures [] (argument ∷ arguments) = none
captures (word ∷ words) [] = none
captures (none ∷ words) (argument ∷ arguments) = elim (captures words arguments) [
  | none ↦ none
  | some found ↦ some (argument ∷ found)
]
captures (some word ∷ words) (argument ∷ arguments) =
    let rest = captures words arguments in if word == argument then rest else none

abbrev pub settings_words : List (Option String)
settings_words =
    some "--notify-permanent"
    ∷ none
    ∷ some "--notify-security"
    ∷ none
    ∷ some "--security-minimum-severity"
    ∷ none
    ∷ []

abbrev pub kev_words : List (Option String)
kev_words =
    some "--notify-permanent"
    ∷ none
    ∷ some "--notify-security"
    ∷ none
    ∷ some "--security-minimum-severity"
    ∷ none
    ∷ some "--enable-cisa-kev"
    ∷ none
    ∷ []

-- `NotificationSettings()`
abbrev default_settings : NotificationSettings
default_settings = record {
  notify_permanent = true;
  notify_security = true;
  security_minimum_severity = Severity.high;
}

-- the command of `_scan_command` with settings, and with the last flag if there is one
unfoldable pub scan_with : Bool → List String → Usage CliCommand
unfolding settings_of setting_flag
scan_with force (permanent ∷ security ∷ severity ∷ []) = do
  settings ← settings_of permanent security severity
  ok (
      CliCommand.scan_command
        (record { force = force; notification_settings = settings; enable_cisa_kev = true }))
scan_with force (permanent ∷ security ∷ severity ∷ kev ∷ []) = do
  settings ← settings_of permanent security severity
  enable_cisa_kev ← setting_flag kev
  ok (
      CliCommand.scan_command (record {
        force = force;
        notification_settings = settings;
        enable_cisa_kev = enable_cisa_kev;
      }))
scan_with force _ = unsupported

abbrev pub first_found : Option (List String) → Option (List String) → List String
first_found (some found) other = found
first_found none (some found) = found
first_found none none = []

-- `_scan_command` on the settings
unfoldable pub scan_settings : Bool → List String → Usage CliCommand
unfolding captures scan_with
scan_settings force [] = ok (
    CliCommand.scan_command
      (record { force = force; notification_settings = default_settings; enable_cisa_kev = true }))
scan_settings force settings =
    scan_with force (first_found (captures settings_words settings) (captures kev_words settings))

-- `_scan_command`, after the word `scan`
unfoldable pub scan_arguments : List String → Usage CliCommand
unfolding scan_settings
scan_arguments [] = scan_settings false []
scan_arguments (argument ∷ arguments) =
    if argument == "--force"
    then scan_settings true arguments
    else scan_settings false (argument ∷ arguments)

abbrev pub inventory_words : List (Option String)
inventory_words =
    some "inventory"
    ∷ some "--source"
    ∷ none
    ∷ some "--query"
    ∷ none
    ∷ some "--limit"
    ∷ none
    ∷ some "--offset"
    ∷ none
    ∷ []

abbrev pub star_words : List (Option String)
star_words = some "set-star" ∷ some "--item-id" ∷ none ∷ some "--mode" ∷ none ∷ []

abbrev pub conditional_words : List (Option String)
conditional_words =
    some "set-star"
    ∷ some "--item-id"
    ∷ none
    ∷ some "--mode"
    ∷ some "temporary"
    ∷ some "--security-advisory"
    ∷ none
    ∷ some "--fixed-version"
    ∷ none
    ∷ some "--cve-ids"
    ∷ none
    ∷ []

unfoldable pub inventory_of_words : String → String → String → String → Usage CliCommand
unfolding inventory_source inventory_query inventory_limit inventory_offset
inventory_of_words source_word query_word limit_word offset_word = do
  source ← inventory_source source_word
  query ← inventory_query query_word
  limit ← inventory_limit limit_word
  offset ← inventory_offset offset_word
  ok (
      CliCommand.inventory_command
        (record { source = source; query = query; limit = limit; offset = offset }))

unfoldable pub star_of_words : String → String → Usage CliCommand
unfolding star_item_id star_mode
star_of_words id_word mode_word = do
  item_id ← star_item_id id_word
  mode ← star_mode mode_word
  ok (CliCommand.set_star_command (record { item_id = item_id; mode = mode; condition = none }))

unfoldable pub conditional_of_words : String → String → String → String → Usage CliCommand
unfolding arch_star_item_id security_condition
conditional_of_words id_word advisory version cves = do
  item_id ← arch_star_item_id id_word
  condition ← security_condition advisory cves version
  ok (
      CliCommand.set_star_command
        (record { item_id = item_id; mode = WatchMode.temporary; condition = some condition }))

-- the cases of `parse_command` that begin with `inventory` or `set-star`
unfoldable pub conditional_case : Option (List String) → Usage CliCommand
unfolding conditional_of_words
conditional_case (some (id_word ∷ advisory ∷ version ∷ cves ∷ [])) =
    conditional_of_words id_word advisory version cves
conditional_case _ = unsupported

unfoldable pub star_case : Option (List String) → List String → Usage CliCommand
unfolding star_of_words conditional_case captures
star_case (some (id_word ∷ mode_word ∷ [])) arguments = star_of_words id_word mode_word
star_case _ arguments = conditional_case (captures conditional_words arguments)

unfoldable pub inventory_case : Option (List String) → List String → Usage CliCommand
unfolding inventory_of_words star_case captures
inventory_case (some (source ∷ query ∷ limit ∷ offset ∷ [])) arguments =
    inventory_of_words source query limit offset
inventory_case _ arguments = star_case (captures star_words arguments) arguments

unfoldable pub parse_command : List String → Usage CliCommand
unfolding scan_arguments inventory_case captures
parse_command [] = unsupported
parse_command (word ∷ arguments) =
    if word == "scan"
    then scan_arguments arguments
    else if word ∷ arguments == "snapshot" ∷ []
    then ok CliCommand.snapshot_command
    else inventory_case (captures inventory_words (word ∷ arguments)) (word ∷ arguments)
