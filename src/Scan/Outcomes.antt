-- ===== src/Scan/Outcomes.antt =====
-- helper/opatchy_helper/scan_outcomes.py
use opatchy.Adapters.Versions.{ArchFailure}
use opatchy.Base.{
  Bool, List, Option, Result, String, [], false, if◌then◌else◌, none, some, string_eq, text_take,
  true, ◌+++◌, ◌==◌,
}
use opatchy.Models.{
  ErrorCode, ErrorInfo, NormalizedItem, Provenance, SecurityFindingGroup, SourceName, SourceScope,
  SourceStatus, source_name_value, source_scope_value, source_status_value,
}

pub record SourceOutcome : Type 0 where
  pub source : SourceName
  pub scope : Option SourceScope
  pub status : SourceStatus
  pub provenance : Provenance
  pub items : List NormalizedItem
  pub findings : List SecurityFindingGroup
  pub cause : Option ErrorInfo
  pub permanent : Bool
  pub applicable : Bool

-- The exceptions of a scan: a `ProtocolError`, a `next` that finds nothing, an unpacking of the
-- wrong length.
pub data ScanFault : Type 0 where
  protocol : ErrorInfo → ScanFault
  runtime_error value_error : ScanFault

abbrev pub Scanned : Type 0 → Type 0
Scanned A = Result ScanFault A

unfoldable pub source_key : SourceName → Option SourceScope → String
source_key source none = source_name_value source
source_key source (some scope) = source_name_value source +++ ":" +++ source_scope_value scope

-- `SourceOutcome.key`
abbrev pub outcome_key : SourceOutcome → String
outcome_key outcome = source_key outcome.source outcome.scope

abbrev pub is_success : SourceStatus → Bool
is_success SourceStatus.ok = true
is_success SourceStatus.not_applicable = true
is_success _ = false

unfoldable pub successful : SourceOutcome → Bool
successful outcome = is_success outcome.status

-- `text or other`
abbrev pub text_or : String → String → String
text_or text other = if text == "" then other else text

unfoldable pub current :
    SourceName
    → List NormalizedItem
    → Provenance
    → List SecurityFindingGroup
    → Option SourceScope
    → SourceOutcome
current source items provenance findings scope = record {
  source = source;
  scope = scope;
  status = SourceStatus.ok;
  provenance = provenance;
  items = items;
  findings = findings;
  cause = none;
  permanent = false;
  applicable = true;
}

unfoldable pub not_applicable : SourceName → Option SourceScope → SourceOutcome
not_applicable source scope = record {
  source = source;
  scope = scope;
  status = SourceStatus.not_applicable;
  provenance = Provenance.live;
  items = [];
  findings = [];
  cause = none;
  permanent = false;
  applicable = false;
}

unfoldable pub failure_code : SourceStatus → ErrorCode
failure_code SourceStatus.invalid = ErrorCode.source_invalid
failure_code _ = ErrorCode.source_unavailable

unfoldable pub failure :
    SourceName
    → SourceStatus
    → String
    → Bool
    → Bool
    → Option SourceScope
    → List NormalizedItem
    → SourceOutcome
unfolding failure_code
failure source status detail permanent applicable scope items = record {
  source = source;
  scope = scope;
  status = status;
  provenance = Provenance.live;
  items = items;
  findings = [];
  cause = some (record {
    code = failure_code status;
    message = text_or (text_take 512 detail) (source_status_value status);
  });
  permanent = permanent;
  applicable = applicable;
}

-- `diagnostic or status.value`
abbrev pub diagnostic_or : Option String → SourceStatus → String
diagnostic_or none status = source_status_value status
diagnostic_or (some diagnostic) status = text_or diagnostic (source_status_value status)

unfoldable pub from_status :
    SourceName
    → SourceStatus
    → List NormalizedItem
    → List SecurityFindingGroup
    → Option String
    → SourceOutcome
unfolding current not_applicable failure
from_status source SourceStatus.ok items findings diagnostic =
    current source items Provenance.live findings none
from_status source SourceStatus.not_applicable items findings diagnostic =
    not_applicable source none
from_status source SourceStatus.missing_dependency items findings diagnostic =
    failure source SourceStatus.missing_dependency
      (diagnostic_or diagnostic SourceStatus.missing_dependency) true true none []
from_status source SourceStatus.invalid items findings diagnostic =
    failure source SourceStatus.invalid (diagnostic_or diagnostic SourceStatus.invalid) true true
      none []
from_status source status items findings diagnostic =
    failure source status (diagnostic_or diagnostic status) false true none []

unfoldable pub arch_failure : SourceName → ArchFailure → String → Bool → SourceOutcome
unfolding failure
arch_failure source failure_kind detail applicable = elim failure_kind [
  | ArchFailure.command_missing ↦
      failure source SourceStatus.missing_dependency detail true applicable none []
  | ArchFailure.command_timed_out ↦
      failure source SourceStatus.timeout detail false applicable none []
  | ArchFailure.command_exited ↦ failure source SourceStatus.error detail false applicable none []
  | ArchFailure.command_output_exceeded ↦
      failure source SourceStatus.error detail false applicable none []
  | _ ↦ failure source SourceStatus.invalid detail true applicable none []
]
