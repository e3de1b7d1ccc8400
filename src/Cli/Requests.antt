-- ===== src/Cli/Requests.antt =====
-- helper/opatchy_helper/cli_requests.py: the commands that the arguments of the helper ask for. A
-- `CliUsageError` is its message.
use Prim.Native.Char.{code}
use opatchy.Base.{
  Bool, List, Option, Result, String, [], all_chars, bool_eq, err, false, if◌then◌else◌, is_digit,
  list_eq, ltb, nat_eq, none, not, ok, option_eq, refuse, some, starts_with, string_eq, text_length,
  true, ℕ, ◌*◌, ◌+++◌, ◌+◌, ◌-◌, ◌==◌, ◌>>=◌, ◌>>◌, ◌||◌, ◌∷◌,
}
use opatchy.Models.{
  ItemSource, SecurityFixCondition, Severity, WatchMode, arch_status_eq, condition_eq,
  item_source_eq, provenance_eq, severity_eq, source_name_eq, source_scope_eq, source_status_eq,
  watch_eq, watch_mode_eq,
}
use opatchy.Notifications.Types.{NotificationSettings}
use opatchy.Storage.Watches.{security_fix_condition}
use opatchy.Wire.Enums.{
  arch_status_enum, error_code_enum, item_source_enum, kev_status_enum, member_of,
  notification_status_enum, provenance_enum, response_kind_enum, scan_state_enum, severity_enum,
  source_name_enum, source_scope_enum, source_status_enum, watch_mode_enum,
}

abbrev pub Usage : Type 0 → Type 0
Usage A = Result String A

pub record ScanCommand : Type 0 where
  pub force : Bool
  pub notification_settings : NotificationSettings
  pub enable_cisa_kev : Bool

pub record InventoryCommand : Type 0 where
  pub source : ItemSource
  pub query : String
  pub limit : ℕ
  pub offset : ℕ

pub record SetStarCommand : Type 0 where
  pub item_id : String
  pub mode : WatchMode
  pub condition : Option SecurityFixCondition

pub data CliCommand : Type 0 where
  scan_command : ScanCommand → CliCommand
  snapshot_command : CliCommand
  inventory_command : InventoryCommand → CliCommand
  set_star_command : SetStarCommand → CliCommand

abbrev pub max_offset : ℕ
max_offset = 100000

abbrev pub max_query_length : ℕ
max_query_length = 128

abbrev pub unsupported : {A : Type 0} → Usage A
unsupported = err "unsupported helper command or arguments"

abbrev pub member_or_usage : {A : Type 0} → Option A → String → Usage A
member_or_usage (some member) message = ok member
member_or_usage none message = err message

-- the `match` of `_inventory_source`
abbrev pub supported_source : ItemSource → Usage ItemSource
supported_source ItemSource.omarchy = err "inventory source is unsupported"
supported_source source = ok source

unfoldable pub inventory_source : String → Usage ItemSource
inventory_source value = do
  source ← member_or_usage (member_of value) "inventory source is unsupported"
  supported_source source

unfoldable pub inventory_query : String → Usage String
inventory_query value = do
  refuse (ltb max_query_length (text_length value)) "inventory query is invalid"
  ok value

-- `int(value)` of digits, after the number `n`
unfoldable pub number_from : ℕ → String → ℕ
number_from n String.[] = n
number_from n (String.◌∷◌ c s) = number_from (10 * n + (code c - 48)) s

-- `_decimal`
unfoldable pub parse_decimal : String → String → Usage ℕ
unfolding all_chars number_from is_digit
parse_decimal value message = do
  refuse (value == "" || not (all_chars is_digit value) || ltb 6 (text_length value)) message
  ok (number_from 0 value)

unfoldable pub inventory_limit : String → Usage ℕ
unfolding parse_decimal
inventory_limit value = do
  parsed ← parse_decimal value "inventory pagination is invalid"
  refuse (ltb parsed 1 || ltb 100 parsed) "inventory pagination is invalid"
  ok parsed

unfoldable pub inventory_offset : String → Usage ℕ
unfolding parse_decimal
inventory_offset value = do
  parsed ← parse_decimal value "inventory pagination is invalid"
  refuse (ltb max_offset parsed) "inventory pagination is invalid"
  ok parsed

unfoldable pub star_item_id : String → Usage String
star_item_id value = do
  refuse (value == "" || ltb 128 (text_length value)) "item ID is invalid"
  ok value

unfoldable pub arch_star_item_id : String → Usage String
unfolding star_item_id
arch_star_item_id value = do
  item_id ← star_item_id value
  refuse (not (starts_with item_id "arch:")) "conditional watch item ID must be canonical Arch"
  ok item_id

unfoldable pub star_mode : String → Usage WatchMode
star_mode value = member_or_usage (member_of value) "watch mode is invalid"

unfoldable pub setting_flag : String → Usage Bool
setting_flag value =
    if value == "true"
    then ok true
    else if value == "false"
    then ok false
    else err "notification setting is invalid"

unfoldable pub notification_severity : String → Usage Severity
notification_severity value =
    if value == "high"
    then ok Severity.high
    else if value == "critical"
    then ok Severity.critical
    else err "notification severity is invalid"

unfoldable pub settings_of : String → String → String → Usage NotificationSettings
unfolding setting_flag notification_severity
settings_of notify_permanent notify_security minimum_severity = do
  permanent ← setting_flag notify_permanent
  security ← setting_flag notify_security
  severity ← notification_severity minimum_severity
  ok (record {
    notify_permanent = permanent;
    notify_security = security;
    security_minimum_severity = severity;
  })

-- a character before the first of the parts
abbrev onto_first : String → List String → List String
onto_first c [] = c ∷ []
onto_first c (part ∷ parts) = (c +++ part) ∷ parts

-- `value.split(",")`
unfoldable pub split_commas : String → List String
split_commas String.[] = "" ∷ []
split_commas (String.◌∷◌ c s) =
    let rest = split_commas s in
    if code c == b',' then "" ∷ rest else onto_first (String.◌∷◌ c "") rest

abbrev evidence_or : Result String SecurityFixCondition → Usage SecurityFixCondition
evidence_or (ok condition) = ok condition
evidence_or (err reason) = err "conditional watch evidence is invalid"

unfoldable pub security_condition : String → String → String → Usage SecurityFixCondition
unfolding split_commas security_fix_condition
security_condition advisory_id cve_ids fixed_version =
    evidence_or (security_fix_condition advisory_id (split_commas cve_ids) fixed_version)
