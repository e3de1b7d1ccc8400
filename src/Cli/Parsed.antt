-- ===== src/Cli/Parsed.antt =====
-- What a parsed command satisfies: helper/opatchy_helper/cli_requests.py.
use mathlib.Core.Path.{subst}
use opatchy.Base.{
  >>=-eq-ok, Bool, Bool-cases, List, Option, String, [], arith, bool_eq, eq_iff, false, inl, inr,
  list_eq, nat_eq, none, ok, ok-injective, option_eq, refl, some, starts_with, string_eq,
  text_length, true, ℕ, ◌==◌, ◌∷◌, ◌≡◌, ◌≢◌, ◌≤◌, ◌⊎◌,
}
use opatchy.Cli.Arguments.{
  captures, conditional_case, conditional_of_words, conditional_words, first_found, inventory_case,
  inventory_of_words, inventory_words, kev_words, parse_command, scan_arguments, scan_settings,
  scan_with, settings_words, star_case, star_of_words, star_words,
}
use opatchy.Cli.Requests.{
  CliCommand, SetStarCommand, arch_star_item_id, inventory_limit, inventory_offset, inventory_query,
  inventory_source, member_or_usage, notification_severity, security_condition, setting_flag,
  settings_of, star_item_id, star_mode,
}
use opatchy.Models.{
  ItemSource, SecurityFixCondition, Severity, WatchMode, arch_status_eq, condition_eq,
  item_source_eq, provenance_eq, severity_eq, source_name_eq, source_scope_eq, source_status_eq,
  watch_eq, watch_mode_eq,
}
use opatchy.Notifications.Types.{NotificationSettings}
use opatchy.Storage.Watches.{security_fix_condition, validate_condition}
use opatchy.Wire.Enums.{
  arch_status_enum, error_code_enum, item_source_enum, kev_status_enum, member_of,
  notification_status_enum, provenance_enum, response_kind_enum, scan_state_enum, severity_enum,
  source_name_enum, source_scope_enum, source_status_enum, watch_mode_enum,
}

-- the evidence of a conditional star
abbrev pub IsEvidence : SetStarCommand → Option SecurityFixCondition → Type 0
IsEvidence c none = Unit
IsEvidence c (some condition) =
    (c.mode ≡ WatchMode.temporary)
    × (starts_with c.item_id "arch:" ≡ true)
    × (validate_condition condition ≡ ok tt)

-- the bounds of a command, by its kind
abbrev pub IsBounded : CliCommand → Type 0
IsBounded (CliCommand.scan_command c) =
    (c.notification_settings.security_minimum_severity ≡ Severity.high)
    ⊎ (c.notification_settings.security_minimum_severity ≡ Severity.critical)
IsBounded CliCommand.snapshot_command = Unit
IsBounded (CliCommand.inventory_command c) =
    (c.source ≢ ItemSource.omarchy)
    × (text_length c.query ≤ 128)
    × (1 ≤ c.limit)
    × (c.limit ≤ 100)
    × (c.offset ≤ 100000)
IsBounded (CliCommand.set_star_command c) =
    (c.item_id ≢ "") × (text_length c.item_id ≤ 128) × IsEvidence c c.condition

settings_of-severity :
    (permanent security severity : String) (settings : NotificationSettings)
    → settings_of permanent security severity ≡ ok settings
    → (settings.security_minimum_severity ≡ Severity.high)
      ⊎ (settings.security_minimum_severity ≡ Severity.critical)
unfolding settings_of notification_severity
settings_of-severity permanent security severity settings h = ground arith

scan_with-IsBounded :
    (force : Bool) (words : List String) (command : CliCommand)
    → scan_with force words ≡ ok command
    → IsBounded command
unfolding scan_with
scan_with-IsBounded force (permanent ∷ security ∷ severity ∷ []) command h =
    let step = >>=-eq-ok (settings_of permanent security severity) _ h in
    subst IsBounded (ok-injective step.2)
      (settings_of-severity permanent security severity step.0 step.1)
scan_with-IsBounded force (permanent ∷ security ∷ severity ∷ kev ∷ []) command h =
    let step = >>=-eq-ok (settings_of permanent security severity) _ h in
    let flag = >>=-eq-ok (setting_flag kev) _ step.2 in
    subst IsBounded (ok-injective flag.2)
      (settings_of-severity permanent security severity step.0 step.1)
scan_with-IsBounded force [] command h = absurd cc
scan_with-IsBounded force (a ∷ []) command h = absurd cc
scan_with-IsBounded force (a ∷ b ∷ []) command h = absurd cc
scan_with-IsBounded force (a ∷ b ∷ c ∷ d ∷ e ∷ words) command h = absurd cc

scan_settings-IsBounded :
    (force : Bool) (words : List String) (command : CliCommand)
    → scan_settings force words ≡ ok command
    → IsBounded command
unfolding scan_settings
scan_settings-IsBounded force [] command h = subst IsBounded (ok-injective h) (inl refl)
scan_settings-IsBounded force (word ∷ words) command h =
    let settings = word ∷ words in
    scan_with-IsBounded force
      (first_found (captures settings_words settings) (captures kev_words settings)) command h

scan_arguments-IsBounded :
    (words : List String) (command : CliCommand)
    → scan_arguments words ≡ ok command
    → IsBounded command
unfolding scan_arguments
scan_arguments-IsBounded [] command h = scan_settings-IsBounded false [] command h
scan_arguments-IsBounded (word ∷ words) command h = elim (Bool-cases (word == "--force")) [
  | inl forced ↦ scan_settings-IsBounded true words command (rw forced at h)
  | inr plain ↦ scan_settings-IsBounded false (word ∷ words) command (rw plain at h)
]

inventory_source-supported :
    (word : String) (source : ItemSource)
    → inventory_source word ≡ ok source
    → source ≢ ItemSource.omarchy
unfolding inventory_source
inventory_source-supported word source h e =
    let found : Option ItemSource = member_of word in
    let step = >>=-eq-ok (member_or_usage found "inventory source is unsupported") _ h in
    ground arith

inventory_query-bounded :
    (word query : String) → inventory_query word ≡ ok query → text_length query ≤ 128
unfolding inventory_query
inventory_query-bounded word query h = ground arith

inventory_limit-bounded :
    (word : String) (limit : ℕ) → inventory_limit word ≡ ok limit → (1 ≤ limit) × (limit ≤ 100)
unfolding inventory_limit
inventory_limit-bounded word limit h = ground arith

inventory_offset-bounded :
    (word : String) (offset : ℕ) → inventory_offset word ≡ ok offset → offset ≤ 100000
unfolding inventory_offset
inventory_offset-bounded word offset h = ground arith

inventory_of_words-IsBounded :
    (source query limit offset : String) (command : CliCommand)
    → inventory_of_words source query limit offset ≡ ok command
    → IsBounded command
unfolding inventory_of_words
inventory_of_words-IsBounded source query limit offset command h =
    let a = >>=-eq-ok (inventory_source source) _ h in
    let b = >>=-eq-ok (inventory_query query) _ a.2 in
    let c = >>=-eq-ok (inventory_limit limit) _ b.2 in
    let d = >>=-eq-ok (inventory_offset offset) _ c.2 in
    let bounds = inventory_limit-bounded limit c.0 c.1 in
    subst IsBounded (ok-injective d.2) (
      inventory_source-supported source a.0 a.1,
      inventory_query-bounded query b.0 b.1,
      bounds.0,
      bounds.1,
      inventory_offset-bounded offset d.0 d.1,
    )

star_item_id-bounded :
    (word item_id : String)
    → star_item_id word ≡ ok item_id
    → (item_id ≢ "") × (text_length item_id ≤ 128)
unfolding star_item_id
star_item_id-bounded word item_id h = ground (arith, eq_iff word "")

arch_star_item_id-bounded :
    (word item_id : String)
    → arch_star_item_id word ≡ ok item_id
    → (item_id ≢ "") × (text_length item_id ≤ 128) × (starts_with item_id "arch:" ≡ true)
unfolding arch_star_item_id
arch_star_item_id-bounded word item_id h =
    let step = >>=-eq-ok (star_item_id word) _ h in
    let bounds = star_item_id-bounded word step.0 step.1 in ground arith

security_condition-valid :
    (advisory cves version : String) (condition : SecurityFixCondition)
    → security_condition advisory cves version ≡ ok condition
    → validate_condition condition ≡ ok tt
unfolding security_condition security_fix_condition
security_condition-valid advisory cves version condition h = ground arith

star_of_words-IsBounded :
    (id_word mode_word : String) (command : CliCommand)
    → star_of_words id_word mode_word ≡ ok command
    → IsBounded command
unfolding star_of_words
star_of_words-IsBounded id_word mode_word command h =
    let a = >>=-eq-ok (star_item_id id_word) _ h in
    let b = >>=-eq-ok (star_mode mode_word) _ a.2 in
    let bounds = star_item_id-bounded id_word a.0 a.1 in
    subst IsBounded (ok-injective b.2) (bounds.0, bounds.1, tt)

conditional_of_words-IsBounded :
    (id_word advisory version cves : String) (command : CliCommand)
    → conditional_of_words id_word advisory version cves ≡ ok command
    → IsBounded command
unfolding conditional_of_words
conditional_of_words-IsBounded id_word advisory version cves command h =
    let a = >>=-eq-ok (arch_star_item_id id_word) _ h in
    let b = >>=-eq-ok (security_condition advisory cves version) _ a.2 in
    let bounds = arch_star_item_id-bounded id_word a.0 a.1 in
    subst IsBounded (ok-injective b.2)
      (bounds.0, bounds.1, (refl, bounds.2, security_condition-valid advisory cves version b.0 b.1))

conditional_case-IsBounded :
    (found : Option (List String)) (command : CliCommand)
    → conditional_case found ≡ ok command
    → IsBounded command
unfolding conditional_case
conditional_case-IsBounded none command h = absurd cc
conditional_case-IsBounded (some []) command h = absurd cc
conditional_case-IsBounded (some (a ∷ [])) command h = absurd cc
conditional_case-IsBounded (some (a ∷ b ∷ [])) command h = absurd cc
conditional_case-IsBounded (some (a ∷ b ∷ c ∷ [])) command h = absurd cc
conditional_case-IsBounded (some (a ∷ b ∷ c ∷ d ∷ [])) command h =
    conditional_of_words-IsBounded a b c d command h
conditional_case-IsBounded (some (a ∷ b ∷ c ∷ d ∷ e ∷ words)) command h = absurd cc

star_case-IsBounded :
    (found : Option (List String)) (arguments : List String) (command : CliCommand)
    → star_case found arguments ≡ ok command
    → IsBounded command
unfolding star_case
star_case-IsBounded none arguments command h =
    conditional_case-IsBounded (captures conditional_words arguments) command h
star_case-IsBounded (some []) arguments command h =
    conditional_case-IsBounded (captures conditional_words arguments) command h
star_case-IsBounded (some (a ∷ [])) arguments command h =
    conditional_case-IsBounded (captures conditional_words arguments) command h
star_case-IsBounded (some (a ∷ b ∷ [])) arguments command h = star_of_words-IsBounded a b command h
star_case-IsBounded (some (a ∷ b ∷ c ∷ words)) arguments command h =
    conditional_case-IsBounded (captures conditional_words arguments) command h

inventory_case-IsBounded :
    (found : Option (List String)) (arguments : List String) (command : CliCommand)
    → inventory_case found arguments ≡ ok command
    → IsBounded command
unfolding inventory_case
inventory_case-IsBounded none arguments command h =
    star_case-IsBounded (captures star_words arguments) arguments command h
inventory_case-IsBounded (some []) arguments command h =
    star_case-IsBounded (captures star_words arguments) arguments command h
inventory_case-IsBounded (some (a ∷ [])) arguments command h =
    star_case-IsBounded (captures star_words arguments) arguments command h
inventory_case-IsBounded (some (a ∷ b ∷ [])) arguments command h =
    star_case-IsBounded (captures star_words arguments) arguments command h
inventory_case-IsBounded (some (a ∷ b ∷ c ∷ [])) arguments command h =
    star_case-IsBounded (captures star_words arguments) arguments command h
inventory_case-IsBounded (some (a ∷ b ∷ c ∷ d ∷ [])) arguments command h =
    inventory_of_words-IsBounded a b c d command h
inventory_case-IsBounded (some (a ∷ b ∷ c ∷ d ∷ e ∷ words)) arguments command h =
    star_case-IsBounded (captures star_words arguments) arguments command h

-- Whatever the arguments, a command that is parsed is bounded: an inventory is of a source other than
-- omarchy, with a query of at most 128 characters, a limit from 1 to 100 and an offset of at most
-- 100000; a star has an identifier of 1 to 128 characters, and with a condition it is temporary, on an
-- Arch item, and the condition is valid; a scan notifies of high or critical findings.
pub parse_command-IsBounded :
    (arguments : List String) (command : CliCommand)
    → parse_command arguments ≡ ok command
    → IsBounded command
unfolding parse_command
parse_command-IsBounded [] command h = absurd cc
parse_command-IsBounded (word ∷ arguments) command h = elim (Bool-cases (word == "scan")) [
  | inl scanned ↦ scan_arguments-IsBounded arguments command (rw scanned at h)
  | inr other ↦ elim (Bool-cases (word ∷ arguments == "snapshot" ∷ [])) [
    | inl snapshot ↦ subst IsBounded (ok-injective (rw (other, snapshot) at h)) tt
    | inr more ↦
        inventory_case-IsBounded (captures inventory_words (word ∷ arguments)) (word ∷ arguments)
          command (rw (other, more) at h)
  ]
]
