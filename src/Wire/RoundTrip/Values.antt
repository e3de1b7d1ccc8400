-- ===== src/Wire/RoundTrip/Values.antt =====
-- Reading back the parts of a payload: helper/opatchy_helper/wire.py and payload_parser.py.
use opatchy.Base.{
  List, Option, String, [], arith, bool_eq, list_eq, map, nat_eq, none, ok, option_eq, refl, some,
  string_eq, ◌+++◌, ◌∷◌, ◌≡◌,
}
use opatchy.Base.Members.{All-of}
use opatchy.Models.{
  ErrorInfo, NormalizedItem, NotificationOutcome, Provenance, SecurityFinding, SecurityFindingGroup,
  arch_status_eq, condition_eq, item_source_eq, provenance_eq, severity_eq, source_name_eq,
  source_scope_eq, source_status_eq, watch_eq, watch_mode_eq,
}
use opatchy.Validation.{max_error_message_length, validate_cause, validate_error}
use opatchy.Wire.Enums.{
  arch_status_enum, error_code_enum, item_source_enum, kev_status_enum, notification_status_enum,
  provenance_enum, response_kind_enum, scan_state_enum, severity_enum, source_name_enum,
  source_scope_enum, source_status_enum, watch_mode_enum,
}
use opatchy.Wire.Fields.{
  bounded_string-text, enum-value, field, identifier, optional_string, read_all, read_all-map,
  reader,
}
use opatchy.Wire.Items.{
  optional_provenance, parse_cause, parse_error, parse_finding, parse_group, parse_item,
  parse_notification,
}
use opatchy.Wire.Json.{JsonValue, items_of, list_of, optional_text}
use opatchy.Wire.Values.{
  cause_value, error_value, finding_value, group_value, item_value, notification_value,
  optional_member,
}

pub parse_error-value :
    (error : ErrorInfo) (path : String)
    → validate_error error ≡ ok tt
    → parse_error (error_value error) path ≡ ok error
unfolding parse_error error_value reader field validate_error
parse_error-value error path h =
    rw
      (
        enum-value error.code (path +++ ".code"),
        bounded_string-text error.message (path +++ ".message") "error.message"
            max_error_message_length h,
      )
      refl

pub parse_cause-value :
    (cause : Option ErrorInfo) (path : String)
    → validate_cause cause ≡ ok tt
    → parse_cause (cause_value cause) path ≡ ok cause
unfolding error_value
parse_cause-value none path h = refl
parse_cause-value (some error) path h = rw (parse_error-value error path h) refl

pub parse_notification-value :
    (outcome : NotificationOutcome) (path : String)
    → parse_notification (notification_value outcome) path ≡ ok outcome
unfolding parse_notification notification_value reader field
parse_notification-value outcome path = rw (enum-value outcome.status (path +++ ".status")) refl

optional_string-text :
    (value : Option String) (path : String) → optional_string (optional_text value) path ≡ ok value
optional_string-text none path = refl
optional_string-text (some s) path = refl

optional_provenance-member :
    (value : Option Provenance) (path : String)
    → optional_provenance (optional_member value) path ≡ ok value
optional_provenance-member none path = refl
optional_provenance-member (some provenance) path = rw (enum-value provenance path) refl

identifiers-texts :
    (values : List String) (path : String)
    → read_all (λ entry. identifier entry path) (list_of (items_of (map JsonValue.text values)))
      ≡ ok values
unfolding read_all
identifiers-texts [] path = refl
identifiers-texts (value ∷ values) path = rw (identifiers-texts values path) refl

pub parse_finding-value :
    (finding : SecurityFinding) (path : String)
    → parse_finding (finding_value finding) path ≡ ok finding
unfolding parse_finding finding_value reader field
parse_finding-value finding path =
    rw
      (
        identifiers-texts finding.cve_ids (path +++ ".cveIds"),
        enum-value finding.severity (path +++ ".severity"),
        optional_string-text finding.fixed_version (path +++ ".fixedVersion"),
        enum-value finding.provenance (path +++ ".provenance"),
        enum-value finding.status (path +++ ".status"),
        optional_string-text finding.installed_version (path +++ ".installedVersion"),
        enum-value finding.kev_status (path +++ ".kevStatus"),
        optional_provenance-member finding.kev_provenance (path +++ ".kevProvenance"),
      )
      refl

pub parse_group-value :
    (group : SecurityFindingGroup) (path : String) → parse_group (group_value group) path ≡ ok group
unfolding parse_group group_value reader field
parse_group-value group path =
    rw
      (read_all-map (λ entry. parse_finding entry (path +++ ".findings")) finding_value
        group.findings
        (All-of group.findings (λ finding. parse_finding-value finding (path +++ ".findings"))))
      refl

pub parse_item-value :
    (item : NormalizedItem) (path : String) → parse_item (item_value item) path ≡ ok item
unfolding parse_item item_value reader field
parse_item-value item path = ground (
  arith,
  enum-value item.source (path +++ ".source"),
  optional_string-text item.installed (path +++ ".installed"),
  optional_string-text item.candidate (path +++ ".candidate"),
  enum-value item.watch_mode (path +++ ".watchMode"),
  enum-value item.provenance (path +++ ".provenance"),
)
