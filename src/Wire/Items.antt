-- ===== src/Wire/Items.antt =====
-- helper/opatchy_helper/payload_parser.py: the readers of errors, findings and items.
use opatchy.Base.{
  List, Option, String, [], bool_eq, list_eq, nat_eq, none, ok, option_eq, some, string_eq, ◌+++◌,
  ◌>>=◌, ◌∷◌,
}
use opatchy.Models.{
  ErrorInfo, NormalizedItem, NotificationOutcome, Provenance, SecurityFinding, SecurityFindingGroup,
  arch_status_eq, condition_eq, item_source_eq, provenance_eq, severity_eq, source_name_eq,
  source_scope_eq, source_status_eq, watch_eq, watch_mode_eq,
}
use opatchy.Stars.{fingerprint}
use opatchy.Validation.{Validated, max_error_message_length}
use opatchy.Wire.Enums.{
  arch_status_enum, error_code_enum, item_source_enum, kev_status_enum, notification_status_enum,
  provenance_enum, response_kind_enum, scan_state_enum, severity_enum, source_name_enum,
  source_scope_enum, source_status_enum, watch_mode_enum,
}
use opatchy.Wire.Fields.{
  bounded_string, enum, field, identifier, list_value, optional_string, read_all, read_boolean,
  reader,
}
use opatchy.Wire.Json.{JsonValue, get_field}

unfoldable pub parse_error : JsonValue → String → Validated ErrorInfo
unfolding reader field enum bounded_string
parse_error value path = do
  r ← reader value path ("code" ∷ "message" ∷ [])
  code_field ← field r "code"
  code ← enum code_field (path +++ ".code")
  message_field ← field r "message"
  message ← bounded_string message_field (path +++ ".message") max_error_message_length
  ok (record { code = code; message = message })

-- `None if value is None else parse_error(value, path)`
abbrev pub parse_cause : JsonValue → String → Validated (Option ErrorInfo)
parse_cause JsonValue.null path = ok none
parse_cause value path = do cause ← parse_error value path; ok (some cause)

unfoldable pub parse_notification : JsonValue → String → Validated NotificationOutcome
unfolding reader field enum
parse_notification value path = do
  r ← reader value path ("fingerprint" ∷ "status" ∷ [])
  fingerprint_field ← field r "fingerprint"
  fingerprint ← identifier fingerprint_field (path +++ ".fingerprint")
  status_field ← field r "status"
  status ← enum status_field (path +++ ".status")
  ok (record { fingerprint = fingerprint; status = status })

-- `None if value is None else enum(Provenance, value, path)`
abbrev pub optional_provenance : JsonValue → String → Validated (Option Provenance)
optional_provenance JsonValue.null path = ok none
optional_provenance value path = do provenance ← enum value path; ok (some provenance)

abbrev finding_fields : List String
finding_fields =
    "id" ∷ "itemId" ∷ "advisoryId" ∷ "cveIds" ∷ "severity" ∷ "fixedVersion" ∷ "installedVersion"
    ∷ "knownExploited" ∷ "kevStatus" ∷ "kevProvenance" ∷ "provenance" ∷ "status" ∷ "type" ∷ []

unfoldable pub parse_finding : JsonValue → String → Validated SecurityFinding
unfolding reader field enum read_all
parse_finding value path = do
  r ← reader value path finding_fields
  cve_ids_field ← field r "cveIds"
  entries ← list_value cve_ids_field (path +++ ".cveIds")
  cve_ids ← read_all (λ entry. identifier entry (path +++ ".cveIds")) entries
  id_field ← field r "id"
  finding_id ← identifier id_field (path +++ ".id")
  item_id_field ← field r "itemId"
  item_id ← identifier item_id_field (path +++ ".itemId")
  advisory_id_field ← field r "advisoryId"
  advisory_id ← identifier advisory_id_field (path +++ ".advisoryId")
  severity_field ← field r "severity"
  severity ← enum severity_field (path +++ ".severity")
  fixed_version_field ← field r "fixedVersion"
  fixed_version ← optional_string fixed_version_field (path +++ ".fixedVersion")
  known_exploited_field ← field r "knownExploited"
  known_exploited ← read_boolean known_exploited_field (path +++ ".knownExploited")
  provenance_field ← field r "provenance"
  provenance ← enum provenance_field (path +++ ".provenance")
  status_field ← field r "status"
  status ← enum status_field (path +++ ".status")
  type_field ← field r "type"
  advisory_type ← identifier type_field (path +++ ".type")
  installed_version_field ← field r "installedVersion"
  installed_version ← optional_string installed_version_field (path +++ ".installedVersion")
  kev_status_field ← field r "kevStatus"
  kev_status ← enum kev_status_field (path +++ ".kevStatus")
  kev_provenance_field ← field r "kevProvenance"
  kev_provenance ← optional_provenance kev_provenance_field (path +++ ".kevProvenance")
  ok (record {
    finding_id = finding_id;
    item_id = item_id;
    advisory_id = advisory_id;
    cve_ids = cve_ids;
    severity = severity;
    fixed_version = fixed_version;
    known_exploited = known_exploited;
    provenance = provenance;
    status = status;
    advisory_type = advisory_type;
    installed_version = installed_version;
    kev_status = kev_status;
    kev_provenance = kev_provenance;
  })

unfoldable pub parse_group : JsonValue → String → Validated SecurityFindingGroup
unfolding reader field read_all parse_finding
parse_group value path = do
  r ← reader value path ("itemId" ∷ "findings" ∷ [])
  item_id_field ← field r "itemId"
  item_id ← identifier item_id_field (path +++ ".itemId")
  findings_field ← field r "findings"
  entries ← list_value findings_field (path +++ ".findings")
  findings ← read_all (λ entry. parse_finding entry (path +++ ".findings")) entries
  ok (record { item_id = item_id; findings = findings })

-- `None if name not in reader.value else optional_string(reader.field(name), path)`
abbrev pub absent_or_string : Option JsonValue → String → Validated (Option String)
absent_or_string none path = ok none
absent_or_string (some value) path = optional_string value path

abbrev item_fields : List String
item_fields =
    "id" ∷ "source" ∷ "label" ∷ "installed" ∷ "candidate" ∷ "watchMode" ∷ "watchArmed" ∷ "watchable"
    ∷ "provenance" ∷ "installedFingerprint" ∷ "candidateFingerprint" ∷ []

unfoldable pub parse_item : JsonValue → String → Validated NormalizedItem
unfolding reader field enum
parse_item value path = do
  r ← reader value path item_fields
  installed_fingerprint ←
      absent_or_string (get_field "installedFingerprint" r.value) (path +++ ".installedFingerprint")
  candidate_fingerprint ←
      absent_or_string (get_field "candidateFingerprint" r.value) (path +++ ".candidateFingerprint")
  id_field ← field r "id"
  item_id ← identifier id_field (path +++ ".id")
  source_field ← field r "source"
  source ← enum source_field (path +++ ".source")
  label_field ← field r "label"
  label ← identifier label_field (path +++ ".label")
  installed_field ← field r "installed"
  installed ← optional_string installed_field (path +++ ".installed")
  candidate_field ← field r "candidate"
  candidate ← optional_string candidate_field (path +++ ".candidate")
  watch_mode_field ← field r "watchMode"
  watch_mode ← enum watch_mode_field (path +++ ".watchMode")
  watchable_field ← field r "watchable"
  watchable ← read_boolean watchable_field (path +++ ".watchable")
  provenance_field ← field r "provenance"
  provenance ← enum provenance_field (path +++ ".provenance")
  watch_armed_field ← field r "watchArmed"
  watch_armed ← read_boolean watch_armed_field (path +++ ".watchArmed")
  ok (record {
    item_id = item_id;
    source = source;
    label = label;
    installed = installed;
    candidate = candidate;
    watch_mode = watch_mode;
    watchable = watchable;
    provenance = provenance;
    installed_fingerprint = installed_fingerprint;
    candidate_fingerprint = candidate_fingerprint;
    watch_armed = watch_armed;
  })
