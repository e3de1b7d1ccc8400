-- ===== src/Models/Sources.antt =====
-- The enums of helper/opatchy_helper/models.py that name sources and their health.
use opatchy.Base.{String, Bool, true, false, ◌≡◌, ◌↔◌, arith, Eq}

pub data SourceStatus : Type 0 where
  ok not_applicable missing_dependency offline timeout error invalid stale : SourceStatus

abbrev pub source_status_value : SourceStatus → String
source_status_value SourceStatus.ok = "ok"
source_status_value SourceStatus.not_applicable = "not_applicable"
source_status_value SourceStatus.missing_dependency = "missing_dependency"
source_status_value SourceStatus.offline = "offline"
source_status_value SourceStatus.timeout = "timeout"
source_status_value SourceStatus.error = "error"
source_status_value SourceStatus.invalid = "invalid"
source_status_value SourceStatus.stale = "stale"

abbrev pub source_status_beq : SourceStatus → SourceStatus → Bool
source_status_beq SourceStatus.ok SourceStatus.ok = true
source_status_beq SourceStatus.not_applicable SourceStatus.not_applicable = true
source_status_beq SourceStatus.missing_dependency SourceStatus.missing_dependency = true
source_status_beq SourceStatus.offline SourceStatus.offline = true
source_status_beq SourceStatus.timeout SourceStatus.timeout = true
source_status_beq SourceStatus.error SourceStatus.error = true
source_status_beq SourceStatus.invalid SourceStatus.invalid = true
source_status_beq SourceStatus.stale SourceStatus.stale = true
source_status_beq _ _ = false

pub source_status_beq_iff : (a b : SourceStatus) → (source_status_beq a b ≡ true) ↔ (a ≡ b)
source_status_beq_iff a b = ground arith

instance abbrev pub source_status_eq : Eq SourceStatus
source_status_eq = record { beq = source_status_beq; beq_iff = source_status_beq_iff }

pub data ScanState : Type 0 where
  complete partial failed : ScanState

abbrev pub scan_state_value : ScanState → String
scan_state_value ScanState.complete = "complete"
scan_state_value ScanState.partial = "partial"
scan_state_value ScanState.failed = "failed"

pub data SourceName : Type 0 where
  security cisa_kev omarchy arch aur flatpak mise : SourceName

abbrev pub source_name_value : SourceName → String
source_name_value SourceName.security = "security"
source_name_value SourceName.cisa_kev = "cisa-kev"
source_name_value SourceName.omarchy = "omarchy"
source_name_value SourceName.arch = "arch"
source_name_value SourceName.aur = "aur"
source_name_value SourceName.flatpak = "flatpak"
source_name_value SourceName.mise = "mise"

abbrev pub source_name_beq : SourceName → SourceName → Bool
source_name_beq SourceName.security SourceName.security = true
source_name_beq SourceName.cisa_kev SourceName.cisa_kev = true
source_name_beq SourceName.omarchy SourceName.omarchy = true
source_name_beq SourceName.arch SourceName.arch = true
source_name_beq SourceName.aur SourceName.aur = true
source_name_beq SourceName.flatpak SourceName.flatpak = true
source_name_beq SourceName.mise SourceName.mise = true
source_name_beq _ _ = false

pub source_name_beq_iff : (a b : SourceName) → (source_name_beq a b ≡ true) ↔ (a ≡ b)
source_name_beq_iff a b = ground arith

instance abbrev pub source_name_eq : Eq SourceName
source_name_eq = record { beq = source_name_beq; beq_iff = source_name_beq_iff }

pub data SourceScope : Type 0 where
  user system : SourceScope

abbrev pub source_scope_value : SourceScope → String
source_scope_value SourceScope.user = "user"
source_scope_value SourceScope.system = "system"

abbrev pub source_scope_beq : SourceScope → SourceScope → Bool
source_scope_beq SourceScope.user SourceScope.user = true
source_scope_beq SourceScope.system SourceScope.system = true
source_scope_beq _ _ = false

pub source_scope_beq_iff : (a b : SourceScope) → (source_scope_beq a b ≡ true) ↔ (a ≡ b)
source_scope_beq_iff a b = ground arith

instance abbrev pub source_scope_eq : Eq SourceScope
source_scope_eq = record { beq = source_scope_beq; beq_iff = source_scope_beq_iff }

pub data ItemSource : Type 0 where
  omarchy arch aur flatpak mise : ItemSource

abbrev pub item_source_value : ItemSource → String
item_source_value ItemSource.omarchy = "omarchy"
item_source_value ItemSource.arch = "arch"
item_source_value ItemSource.aur = "aur"
item_source_value ItemSource.flatpak = "flatpak"
item_source_value ItemSource.mise = "mise"

abbrev pub item_source_beq : ItemSource → ItemSource → Bool
item_source_beq ItemSource.omarchy ItemSource.omarchy = true
item_source_beq ItemSource.arch ItemSource.arch = true
item_source_beq ItemSource.aur ItemSource.aur = true
item_source_beq ItemSource.flatpak ItemSource.flatpak = true
item_source_beq ItemSource.mise ItemSource.mise = true
item_source_beq _ _ = false

pub item_source_beq_iff : (a b : ItemSource) → (item_source_beq a b ≡ true) ↔ (a ≡ b)
item_source_beq_iff a b = ground arith

instance abbrev pub item_source_eq : Eq ItemSource
item_source_eq = record { beq = item_source_beq; beq_iff = item_source_beq_iff }

pub data Provenance : Type 0 where
  live cache last_good fallback : Provenance

abbrev pub provenance_value : Provenance → String
provenance_value Provenance.live = "live"
provenance_value Provenance.cache = "cache"
provenance_value Provenance.last_good = "last_good"
provenance_value Provenance.fallback = "fallback"

abbrev pub provenance_beq : Provenance → Provenance → Bool
provenance_beq Provenance.live Provenance.live = true
provenance_beq Provenance.cache Provenance.cache = true
provenance_beq Provenance.last_good Provenance.last_good = true
provenance_beq Provenance.fallback Provenance.fallback = true
provenance_beq _ _ = false

pub provenance_beq_iff : (a b : Provenance) → (provenance_beq a b ≡ true) ↔ (a ≡ b)
provenance_beq_iff a b = ground arith

instance abbrev pub provenance_eq : Eq Provenance
provenance_eq = record { beq = provenance_beq; beq_iff = provenance_beq_iff }
