-- ===== src/Models/State.antt =====
-- The durable state: the dataclasses of helper/opatchy_helper/storage_types.py.
use opatchy.Base.{
  Bool, Eq, List, Option, String, [], arith, bool_beq_iff, bool_eq, eq_iff, false, list_beq_iff,
  list_eq, option_beq_iff, option_eq, string_eq, true, ℕ, ◌&&◌, ◌==◌, ◌↔◌, ◌≡◌,
}
use opatchy.Models.Records.{Datetime, InventoryResponse, SnapshotResponse}
use opatchy.Models.Security.{NotificationStatus, WatchMode, watch_mode_beq_iff, watch_mode_eq}
use opatchy.Models.Sources.{SourceName}

pub record SecurityFixCondition : Type 0 where
  pub advisory_id : String
  pub cve_ids : List String
  pub fixed_version : String

pub record WatchRecord : Type 0 where
  pub item_id : String
  pub mode : WatchMode
  pub installed_fingerprint : Option String
  pub candidate_fingerprint : Option String
  pub armed : Bool
  pub condition : Option SecurityFixCondition

pub record LedgerEntry : Type 0 where
  pub fingerprint : String
  pub status : NotificationStatus
  pub recorded_at : Datetime
  pub lease_token : Option String
  pub lease_expires_at : Option Datetime

-- `LedgerEntry.is_active`
abbrev pub is_active : LedgerEntry → Bool
is_active entry = elim entry.status [ NotificationStatus.pending ↦ true | _ ↦ false ]

pub record SourceMetadata : Type 0 where
  pub source : SourceName
  pub last_success : Option Datetime
  pub backoff_until : Option Datetime
  pub failure_count : ℕ
  pub permanent_failure : Bool

pub record PersistentState : Type 0 where
  pub watches : List WatchRecord
  pub ledger : List LedgerEntry
  pub sources : List SourceMetadata

abbrev pub empty_state : PersistentState
empty_state = record { watches = []; ledger = []; sources = [] }

-- The equality that a frozen dataclass has, field by field.
unfoldable pub condition_beq : SecurityFixCondition → SecurityFixCondition → Bool
condition_beq a b =
    a.advisory_id == b.advisory_id && (a.cve_ids == b.cve_ids && a.fixed_version == b.fixed_version)

pub condition_beq_iff : (a b : SecurityFixCondition) → (condition_beq a b ≡ true) ↔ (a ≡ b)
unfolding condition_beq
condition_beq_iff a b = ground (
  arith,
  eq_iff a.advisory_id b.advisory_id,
  list_beq_iff a.cve_ids b.cve_ids,
  eq_iff a.fixed_version b.fixed_version,
)

instance abbrev pub condition_eq : Eq SecurityFixCondition
condition_eq = record { beq = condition_beq; beq_iff = condition_beq_iff }

unfoldable pub watch_beq : WatchRecord → WatchRecord → Bool
watch_beq a b =
    a.item_id == b.item_id
    && (a.mode == b.mode
        && (a.installed_fingerprint == b.installed_fingerprint
            && (a.candidate_fingerprint == b.candidate_fingerprint
                && (a.armed == b.armed && a.condition == b.condition))))

pub watch_beq_iff : (a b : WatchRecord) → (watch_beq a b ≡ true) ↔ (a ≡ b)
unfolding watch_beq
watch_beq_iff a b = ground (
  arith,
  eq_iff a.item_id b.item_id,
  watch_mode_beq_iff a.mode b.mode,
  option_beq_iff a.installed_fingerprint b.installed_fingerprint,
  option_beq_iff a.candidate_fingerprint b.candidate_fingerprint,
  bool_beq_iff a.armed b.armed,
  option_beq_iff a.condition b.condition,
)

instance abbrev pub watch_eq : Eq WatchRecord
watch_eq = record { beq = watch_beq; beq_iff = watch_beq_iff }

-- `GenerationBundle` of helper/opatchy_helper/storage_generation.py
pub record GenerationBundle : Type 0 where
  pub order : ℕ
  pub snapshot : SnapshotResponse
  pub inventories : List InventoryResponse
  pub state : PersistentState
  pub last_good : SnapshotResponse
  pub last_good_keys : List String
