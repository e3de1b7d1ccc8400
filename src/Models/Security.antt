-- ===== src/Models/Security.antt =====
-- The enums of helper/opatchy_helper/models.py on watches, advisories, notifications and errors.
use opatchy.Base.{String, Bool, true, false, ◌≡◌, ◌↔◌, arith, Eq}

pub data WatchMode : Type 0 where
  off temporary permanent : WatchMode

abbrev pub watch_mode_value : WatchMode → String
watch_mode_value WatchMode.off = "off"
watch_mode_value WatchMode.temporary = "temporary"
watch_mode_value WatchMode.permanent = "permanent"

abbrev pub watch_mode_beq : WatchMode → WatchMode → Bool
watch_mode_beq WatchMode.off WatchMode.off = true
watch_mode_beq WatchMode.temporary WatchMode.temporary = true
watch_mode_beq WatchMode.permanent WatchMode.permanent = true
watch_mode_beq _ _ = false

pub watch_mode_beq_iff : (a b : WatchMode) → (watch_mode_beq a b ≡ true) ↔ (a ≡ b)
watch_mode_beq_iff a b = ground arith

instance abbrev pub watch_mode_eq : Eq WatchMode
watch_mode_eq = record { beq = watch_mode_beq; beq_iff = watch_mode_beq_iff }

pub data Severity : Type 0 where
  unknown low medium high critical : Severity

abbrev pub severity_value : Severity → String
severity_value Severity.unknown = "unknown"
severity_value Severity.low = "low"
severity_value Severity.medium = "medium"
severity_value Severity.high = "high"
severity_value Severity.critical = "critical"

abbrev pub severity_beq : Severity → Severity → Bool
severity_beq Severity.unknown Severity.unknown = true
severity_beq Severity.low Severity.low = true
severity_beq Severity.medium Severity.medium = true
severity_beq Severity.high Severity.high = true
severity_beq Severity.critical Severity.critical = true
severity_beq _ _ = false

pub severity_beq_iff : (a b : Severity) → (severity_beq a b ≡ true) ↔ (a ≡ b)
severity_beq_iff a b = ground arith

instance abbrev pub severity_eq : Eq Severity
severity_eq = record { beq = severity_beq; beq_iff = severity_beq_iff }

pub data ArchStatus : Type 0 where
  unknown vulnerable testing fixed not_affected : ArchStatus

abbrev pub arch_status_value : ArchStatus → String
arch_status_value ArchStatus.unknown = "Unknown"
arch_status_value ArchStatus.vulnerable = "Vulnerable"
arch_status_value ArchStatus.testing = "Testing"
arch_status_value ArchStatus.fixed = "Fixed"
arch_status_value ArchStatus.not_affected = "Not affected"

abbrev pub arch_status_beq : ArchStatus → ArchStatus → Bool
arch_status_beq ArchStatus.unknown ArchStatus.unknown = true
arch_status_beq ArchStatus.vulnerable ArchStatus.vulnerable = true
arch_status_beq ArchStatus.testing ArchStatus.testing = true
arch_status_beq ArchStatus.fixed ArchStatus.fixed = true
arch_status_beq ArchStatus.not_affected ArchStatus.not_affected = true
arch_status_beq _ _ = false

pub arch_status_beq_iff : (a b : ArchStatus) → (arch_status_beq a b ≡ true) ↔ (a ≡ b)
arch_status_beq_iff a b = ground arith

instance abbrev pub arch_status_eq : Eq ArchStatus
arch_status_eq = record { beq = arch_status_beq; beq_iff = arch_status_beq_iff }

pub data KevStatus : Type 0 where
  listed not_listed unavailable : KevStatus

abbrev pub kev_status_value : KevStatus → String
kev_status_value KevStatus.listed = "listed"
kev_status_value KevStatus.not_listed = "not_listed"
kev_status_value KevStatus.unavailable = "unavailable"

pub data NotificationStatus : Type 0 where
  delivered pending suppressed failed : NotificationStatus

abbrev pub notification_status_value : NotificationStatus → String
notification_status_value NotificationStatus.delivered = "delivered"
notification_status_value NotificationStatus.pending = "pending"
notification_status_value NotificationStatus.suppressed = "suppressed"
notification_status_value NotificationStatus.failed = "failed"

pub data ErrorCode : Type 0 where
  cli_usage state_unavailable invalid_utf8 payload_too_large malformed_json invalid_type
        missing_field unknown_field protocol_version_missing protocol_version_invalid
        protocol_version_future unknown_enum invalid_timestamp invalid_envelope duplicate_item_id
        duplicate_finding_id output_too_large source_invalid source_unavailable :
      ErrorCode

abbrev pub error_code_value : ErrorCode → String
error_code_value ErrorCode.cli_usage = "CLI_USAGE"
error_code_value ErrorCode.state_unavailable = "STATE_UNAVAILABLE"
error_code_value ErrorCode.invalid_utf8 = "INVALID_UTF8"
error_code_value ErrorCode.payload_too_large = "PAYLOAD_TOO_LARGE"
error_code_value ErrorCode.malformed_json = "MALFORMED_JSON"
error_code_value ErrorCode.invalid_type = "INVALID_TYPE"
error_code_value ErrorCode.missing_field = "MISSING_FIELD"
error_code_value ErrorCode.unknown_field = "UNKNOWN_FIELD"
error_code_value ErrorCode.protocol_version_missing = "PROTOCOL_VERSION_MISSING"
error_code_value ErrorCode.protocol_version_invalid = "PROTOCOL_VERSION_INVALID"
error_code_value ErrorCode.protocol_version_future = "PROTOCOL_VERSION_FUTURE"
error_code_value ErrorCode.unknown_enum = "UNKNOWN_ENUM"
error_code_value ErrorCode.invalid_timestamp = "INVALID_TIMESTAMP"
error_code_value ErrorCode.invalid_envelope = "INVALID_ENVELOPE"
error_code_value ErrorCode.duplicate_item_id = "DUPLICATE_ITEM_ID"
error_code_value ErrorCode.duplicate_finding_id = "DUPLICATE_FINDING_ID"
error_code_value ErrorCode.output_too_large = "OUTPUT_TOO_LARGE"
error_code_value ErrorCode.source_invalid = "SOURCE_INVALID"
error_code_value ErrorCode.source_unavailable = "SOURCE_UNAVAILABLE"
