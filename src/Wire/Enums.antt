-- ===== src/Wire/Enums.antt =====
-- The enums of helper/opatchy_helper/models.py as `StrEnum`s: their members, and the member that
-- `Enum(value)` finds.
use opatchy.Base.{
  List, Option, String, [], bool_eq, find, list_eq, nat_eq, option_eq, refl, some, string_eq, ◌==◌,
  ◌∷◌, ◌≡◌,
}
use opatchy.Models.{
  ArchStatus, ErrorCode, ItemSource, KevStatus, NotificationStatus, Provenance, ScanState, Severity,
  SourceName, SourceScope, SourceStatus, WatchMode, arch_status_eq, arch_status_value, condition_eq,
  error_code_value, item_source_eq, item_source_value, kev_status_value, notification_status_value,
  provenance_eq, provenance_value, scan_state_value, severity_eq, severity_value, source_name_eq,
  source_name_value, source_scope_eq, source_scope_value, source_status_eq, source_status_value,
  watch_eq, watch_mode_eq, watch_mode_value,
}
use opatchy.Wire.Json.{JsonValue}

pub record StrEnum (A : Type 0) : Type 0 where
  pub members : List A
  pub value : A → String
  pub found : (a : A) → find (λ member. value member == value a) members ≡ some a

module _ {A : Type 0} ⦃e : StrEnum A⦄ where
  -- `enum_type(value)`, where it does not raise
  abbrev pub member_of : String → Option A
  member_of raw = find (λ member. e.value member == raw) e.members

  -- a member as JSON writes it
  abbrev pub text_of : A → JsonValue
  text_of a = JsonValue.text (e.value a)

pub data ResponseKind : Type 0 where
  snapshot inventory star_result error : ResponseKind

abbrev pub response_kind_value : ResponseKind → String
response_kind_value ResponseKind.snapshot = "snapshot"
response_kind_value ResponseKind.inventory = "inventory"
response_kind_value ResponseKind.star_result = "star-result"
response_kind_value ResponseKind.error = "error"

abbrev watch_mode_members : List WatchMode
watch_mode_members = WatchMode.off ∷ WatchMode.temporary ∷ WatchMode.permanent ∷ []

pub watch_mode-found :
    (a : WatchMode)
    → find (λ member. watch_mode_value member == watch_mode_value a) watch_mode_members ≡ some a
watch_mode-found WatchMode.off = refl
watch_mode-found WatchMode.temporary = refl
watch_mode-found WatchMode.permanent = refl

instance abbrev pub watch_mode_enum : StrEnum WatchMode
watch_mode_enum = record {
  members = watch_mode_members;
  value = watch_mode_value;
  found = watch_mode-found;
}

abbrev severity_members : List Severity
severity_members =
    Severity.unknown ∷ Severity.low ∷ Severity.medium ∷ Severity.high ∷ Severity.critical ∷ []

pub severity-found :
    (a : Severity)
    → find (λ member. severity_value member == severity_value a) severity_members ≡ some a
severity-found Severity.unknown = refl
severity-found Severity.low = refl
severity-found Severity.medium = refl
severity-found Severity.high = refl
severity-found Severity.critical = refl

instance abbrev pub severity_enum : StrEnum Severity
severity_enum = record {
  members = severity_members;
  value = severity_value;
  found = severity-found;
}

abbrev arch_status_members : List ArchStatus
arch_status_members =
    ArchStatus.unknown ∷ ArchStatus.vulnerable ∷ ArchStatus.testing ∷ ArchStatus.fixed
    ∷ ArchStatus.not_affected ∷ []

pub arch_status-found :
    (a : ArchStatus)
    → find (λ member. arch_status_value member == arch_status_value a) arch_status_members ≡ some a
arch_status-found ArchStatus.unknown = refl
arch_status-found ArchStatus.vulnerable = refl
arch_status-found ArchStatus.testing = refl
arch_status-found ArchStatus.fixed = refl
arch_status-found ArchStatus.not_affected = refl

instance abbrev pub arch_status_enum : StrEnum ArchStatus
arch_status_enum = record {
  members = arch_status_members;
  value = arch_status_value;
  found = arch_status-found;
}

abbrev kev_status_members : List KevStatus
kev_status_members = KevStatus.listed ∷ KevStatus.not_listed ∷ KevStatus.unavailable ∷ []

pub kev_status-found :
    (a : KevStatus)
    → find (λ member. kev_status_value member == kev_status_value a) kev_status_members ≡ some a
kev_status-found KevStatus.listed = refl
kev_status-found KevStatus.not_listed = refl
kev_status-found KevStatus.unavailable = refl

instance abbrev pub kev_status_enum : StrEnum KevStatus
kev_status_enum = record {
  members = kev_status_members;
  value = kev_status_value;
  found = kev_status-found;
}

abbrev notification_status_members : List NotificationStatus
notification_status_members =
    NotificationStatus.delivered ∷ NotificationStatus.pending ∷ NotificationStatus.suppressed
    ∷ NotificationStatus.failed ∷ []

pub notification_status-found :
    (a : NotificationStatus)
    → find
        (λ member. notification_status_value member == notification_status_value a)
        notification_status_members
      ≡ some a
notification_status-found NotificationStatus.delivered = refl
notification_status-found NotificationStatus.pending = refl
notification_status-found NotificationStatus.suppressed = refl
notification_status-found NotificationStatus.failed = refl

instance abbrev pub notification_status_enum : StrEnum NotificationStatus
notification_status_enum = record {
  members = notification_status_members;
  value = notification_status_value;
  found = notification_status-found;
}

abbrev error_code_members : List ErrorCode
error_code_members =
    ErrorCode.cli_usage ∷ ErrorCode.state_unavailable ∷ ErrorCode.invalid_utf8
    ∷ ErrorCode.payload_too_large ∷ ErrorCode.malformed_json ∷ ErrorCode.invalid_type
    ∷ ErrorCode.missing_field ∷ ErrorCode.unknown_field ∷ ErrorCode.protocol_version_missing
    ∷ ErrorCode.protocol_version_invalid ∷ ErrorCode.protocol_version_future
    ∷ ErrorCode.unknown_enum ∷ ErrorCode.invalid_timestamp ∷ ErrorCode.invalid_envelope
    ∷ ErrorCode.duplicate_item_id ∷ ErrorCode.duplicate_finding_id ∷ ErrorCode.output_too_large
    ∷ ErrorCode.source_invalid ∷ ErrorCode.source_unavailable ∷ []

pub error_code-found :
    (a : ErrorCode)
    → find (λ member. error_code_value member == error_code_value a) error_code_members ≡ some a
error_code-found ErrorCode.cli_usage = refl
error_code-found ErrorCode.state_unavailable = refl
error_code-found ErrorCode.invalid_utf8 = refl
error_code-found ErrorCode.payload_too_large = refl
error_code-found ErrorCode.malformed_json = refl
error_code-found ErrorCode.invalid_type = refl
error_code-found ErrorCode.missing_field = refl
error_code-found ErrorCode.unknown_field = refl
error_code-found ErrorCode.protocol_version_missing = refl
error_code-found ErrorCode.protocol_version_invalid = refl
error_code-found ErrorCode.protocol_version_future = refl
error_code-found ErrorCode.unknown_enum = refl
error_code-found ErrorCode.invalid_timestamp = refl
error_code-found ErrorCode.invalid_envelope = refl
error_code-found ErrorCode.duplicate_item_id = refl
error_code-found ErrorCode.duplicate_finding_id = refl
error_code-found ErrorCode.output_too_large = refl
error_code-found ErrorCode.source_invalid = refl
error_code-found ErrorCode.source_unavailable = refl

instance abbrev pub error_code_enum : StrEnum ErrorCode
error_code_enum = record {
  members = error_code_members;
  value = error_code_value;
  found = error_code-found;
}

abbrev source_status_members : List SourceStatus
source_status_members =
    SourceStatus.ok ∷ SourceStatus.not_applicable ∷ SourceStatus.missing_dependency
    ∷ SourceStatus.offline ∷ SourceStatus.timeout ∷ SourceStatus.error ∷ SourceStatus.invalid
    ∷ SourceStatus.stale ∷ []

pub source_status-found :
    (a : SourceStatus)
    → find (λ member. source_status_value member == source_status_value a) source_status_members
      ≡ some a
source_status-found SourceStatus.ok = refl
source_status-found SourceStatus.not_applicable = refl
source_status-found SourceStatus.missing_dependency = refl
source_status-found SourceStatus.offline = refl
source_status-found SourceStatus.timeout = refl
source_status-found SourceStatus.error = refl
source_status-found SourceStatus.invalid = refl
source_status-found SourceStatus.stale = refl

instance abbrev pub source_status_enum : StrEnum SourceStatus
source_status_enum = record {
  members = source_status_members;
  value = source_status_value;
  found = source_status-found;
}

abbrev scan_state_members : List ScanState
scan_state_members = ScanState.complete ∷ ScanState.partial ∷ ScanState.failed ∷ []

pub scan_state-found :
    (a : ScanState)
    → find (λ member. scan_state_value member == scan_state_value a) scan_state_members ≡ some a
scan_state-found ScanState.complete = refl
scan_state-found ScanState.partial = refl
scan_state-found ScanState.failed = refl

instance abbrev pub scan_state_enum : StrEnum ScanState
scan_state_enum = record {
  members = scan_state_members;
  value = scan_state_value;
  found = scan_state-found;
}

abbrev source_name_members : List SourceName
source_name_members =
    SourceName.security ∷ SourceName.cisa_kev ∷ SourceName.omarchy ∷ SourceName.arch
    ∷ SourceName.aur ∷ SourceName.flatpak ∷ SourceName.mise ∷ []

pub source_name-found :
    (a : SourceName)
    → find (λ member. source_name_value member == source_name_value a) source_name_members ≡ some a
source_name-found SourceName.security = refl
source_name-found SourceName.cisa_kev = refl
source_name-found SourceName.omarchy = refl
source_name-found SourceName.arch = refl
source_name-found SourceName.aur = refl
source_name-found SourceName.flatpak = refl
source_name-found SourceName.mise = refl

instance abbrev pub source_name_enum : StrEnum SourceName
source_name_enum = record {
  members = source_name_members;
  value = source_name_value;
  found = source_name-found;
}

abbrev source_scope_members : List SourceScope
source_scope_members = SourceScope.user ∷ SourceScope.system ∷ []

pub source_scope-found :
    (a : SourceScope)
    → find (λ member. source_scope_value member == source_scope_value a) source_scope_members
      ≡ some a
source_scope-found SourceScope.user = refl
source_scope-found SourceScope.system = refl

instance abbrev pub source_scope_enum : StrEnum SourceScope
source_scope_enum = record {
  members = source_scope_members;
  value = source_scope_value;
  found = source_scope-found;
}

abbrev pub item_source_members : List ItemSource
item_source_members =
    ItemSource.omarchy ∷ ItemSource.arch ∷ ItemSource.aur ∷ ItemSource.flatpak ∷ ItemSource.mise
    ∷ []

pub item_source-found :
    (a : ItemSource)
    → find (λ member. item_source_value member == item_source_value a) item_source_members ≡ some a
item_source-found ItemSource.omarchy = refl
item_source-found ItemSource.arch = refl
item_source-found ItemSource.aur = refl
item_source-found ItemSource.flatpak = refl
item_source-found ItemSource.mise = refl

instance abbrev pub item_source_enum : StrEnum ItemSource
item_source_enum = record {
  members = item_source_members;
  value = item_source_value;
  found = item_source-found;
}

abbrev provenance_members : List Provenance
provenance_members =
    Provenance.live ∷ Provenance.cache ∷ Provenance.last_good ∷ Provenance.fallback ∷ []

pub provenance-found :
    (a : Provenance)
    → find (λ member. provenance_value member == provenance_value a) provenance_members ≡ some a
provenance-found Provenance.live = refl
provenance-found Provenance.cache = refl
provenance-found Provenance.last_good = refl
provenance-found Provenance.fallback = refl

instance abbrev pub provenance_enum : StrEnum Provenance
provenance_enum = record {
  members = provenance_members;
  value = provenance_value;
  found = provenance-found;
}

abbrev response_kind_members : List ResponseKind
response_kind_members =
    ResponseKind.snapshot ∷ ResponseKind.inventory ∷ ResponseKind.star_result ∷ ResponseKind.error
    ∷ []

pub response_kind-found :
    (a : ResponseKind)
    → find (λ member. response_kind_value member == response_kind_value a) response_kind_members
      ≡ some a
response_kind-found ResponseKind.snapshot = refl
response_kind-found ResponseKind.inventory = refl
response_kind-found ResponseKind.star_result = refl
response_kind-found ResponseKind.error = refl

instance abbrev pub response_kind_enum : StrEnum ResponseKind
response_kind_enum = record {
  members = response_kind_members;
  value = response_kind_value;
  found = response_kind-found;
}
