-- ===== src/Models/Records.antt =====
-- The dataclasses of helper/opatchy_helper/models.py and storage_types.py. A `NewType` over `str` is
-- `String`; a UTC datetime is the number of microseconds since year 1.
use opatchy.Base.{Bool, List, Option, String, ℕ, ℤ}
use opatchy.Models.Security.{
  ArchStatus, ErrorCode, KevStatus, NotificationStatus, Severity, WatchMode,
}
use opatchy.Models.Sources.{
  ItemSource, Provenance, ScanState, SourceName, SourceScope, SourceStatus,
}

abbrev pub Datetime : Type 0
Datetime = ℕ

pub record ErrorInfo : Type 0 where
  pub code : ErrorCode
  pub message : String

pub record ScopeHealth : Type 0 where
  pub scope : SourceScope
  pub status : SourceStatus
  pub provenance : Provenance
  pub observed_at : Datetime
  pub fresh_until : Datetime
  pub cause : Option ErrorInfo

pub record SourceHealth : Type 0 where
  pub source : SourceName
  pub status : SourceStatus
  pub provenance : Provenance
  pub observed_at : Datetime
  pub fresh_until : Datetime
  pub cause : Option ErrorInfo
  pub scopes : List ScopeHealth

pub record Summary : Type 0 where
  pub total_updates : ℤ
  pub watched_updates : ℤ
  pub security_findings : ℤ
  pub degraded_sources : ℤ

pub record NormalizedItem : Type 0 where
  pub item_id : String
  pub source : ItemSource
  pub label : String
  pub installed : Option String
  pub candidate : Option String
  pub watch_mode : WatchMode
  pub watchable : Bool
  pub provenance : Provenance
  pub installed_fingerprint : Option String
  pub candidate_fingerprint : Option String
  pub watch_armed : Bool

pub record SecurityFinding : Type 0 where
  pub finding_id : String
  pub item_id : String
  pub advisory_id : String
  pub cve_ids : List String
  pub severity : Severity
  pub fixed_version : Option String
  pub known_exploited : Bool
  pub provenance : Provenance
  pub status : ArchStatus
  pub advisory_type : String
  pub installed_version : Option String
  pub kev_status : KevStatus
  pub kev_provenance : Option Provenance

pub record SecurityFindingGroup : Type 0 where
  pub item_id : String
  pub findings : List SecurityFinding

pub record NotificationOutcome : Type 0 where
  pub fingerprint : String
  pub status : NotificationStatus

pub record SnapshotPayload : Type 0 where
  pub scan_state : ScanState
  pub sources : List SourceHealth
  pub summary : Summary
  pub items : List NormalizedItem
  pub findings : List SecurityFindingGroup
  pub notifications : List NotificationOutcome

pub record InventoryPayload : Type 0 where
  pub source : ItemSource
  pub total : ℤ
  pub items : List NormalizedItem

pub record StarResultPayload : Type 0 where
  pub item_id : String
  pub mode : WatchMode
  pub watch_armed : Bool

pub record SnapshotResponse : Type 0 where
  pub generated_at : Datetime
  pub generation_id : String
  pub payload : SnapshotPayload
  pub protocol_version : ℤ

pub record InventoryResponse : Type 0 where
  pub generated_at : Datetime
  pub generation_id : String
  pub payload : InventoryPayload
  pub protocol_version : ℤ

pub record StarResultResponse : Type 0 where
  pub generated_at : Datetime
  pub generation_id : String
  pub payload : StarResultPayload
  pub protocol_version : ℤ

pub record ErrorResponse : Type 0 where
  pub generated_at : Datetime
  pub generation_id : String
  pub error : ErrorInfo
  pub protocol_version : ℤ

pub data Response : Type 0 where
  snapshot_response : SnapshotResponse → Response
  inventory_response : InventoryResponse → Response
  star_result_response : StarResultResponse → Response
  error_response : ErrorResponse → Response
