-- ===== src/Notifications/Dispatch.antt =====
-- helper/opatchy_helper/notifications.py, with `claim_batch` and `complete_batch` of
-- helper/opatchy_helper/notification_batch.py on the storage. `token` and `moment` give what `uuid4().hex`
-- and the clock of the coordinator give for a kind.
pub mod Reported
use opatchy.Base.{
  List, Option, String, [], bool_eq, decimal, false, filter, if◌then◌else◌, length, list_eq, nat_eq,
  none, ok, option_eq, some, string_eq, true, ℕ, ℤ, ◌+++◌, ◌++◌, ◌==◌, ◌∷◌,
}
use opatchy.Files.Disk.{Action, Environment, give, ◌>>=◌, ◌>>◌}
use opatchy.Files.Operations.{update_state}
use opatchy.Files.States.{load_state, write_state}
use opatchy.Models.{
  Datetime, NotificationOutcome, SnapshotResponse, arch_status_eq, condition_eq, item_source_eq,
  provenance_eq, severity_eq, source_name_eq, source_scope_eq, source_status_eq, watch_eq,
  watch_mode_eq,
}
use opatchy.Notifications.Batch.{
  NotificationBatch, batch_of, complete_batch, owned_candidates, reserve_batch,
}
use opatchy.Notifications.Policy.{notification_candidates}
use opatchy.Notifications.Types.{
  NotificationCandidate, NotificationKind, NotificationSettings, notification_kind_eq,
}
use opatchy.Runner.{CommandName, CommandResult, CommandRunner}
use opatchy.Wire.Enums.{
  arch_status_enum, error_code_enum, item_source_enum, kev_status_enum, notification_status_enum,
  provenance_enum, response_kind_enum, scan_state_enum, severity_enum, source_name_enum,
  source_scope_enum, source_status_enum, watch_mode_enum,
}

-- NotificationKind in its order
abbrev pub notification_kinds : List NotificationKind
notification_kinds =
    NotificationKind.watch ∷ NotificationKind.security ∷ NotificationKind.security_condition ∷ []

abbrev batch_label : NotificationKind → String
batch_label kind = if kind == NotificationKind.watch then "watched" else "security"

-- `_body`, on the first candidate and the number of the others
unfoldable pub batch_body : NotificationKind → NotificationCandidate → ℕ → String
batch_body kind first additional =
    if additional == 0
    then first.body
    else first.body
      +++ " "
      +++ decimal (ℤ.pos additional)
      +++ " additional "
      +++ batch_label kind
      +++ " update(s)."

module _ (sha256 : String → String) (env : Environment) (run : CommandRunner) where
  unfoldable pub claim_stored :
      NotificationKind
      → List NotificationCandidate
      → Datetime
      → String
      → Action (Option NotificationBatch)
  unfolding update_state
  claim_stored kind candidates now token = do
    loaded ← update_state env (ok tt) (λ state. ok (reserve_batch state kind candidates now token))
    give (batch_of loaded.state kind (owned_candidates loaded.state candidates token) token)

  -- `complete_batch`: `update_state` written out, since its mutation also leaves the outcomes
  unfoldable pub complete_stored :
      NotificationBatch → CommandResult → Action (List NotificationOutcome)
  unfolding load_state write_state
  complete_stored batch result = do
    loaded ← load_state env false
    write_state env (complete_batch loaded.state batch result).0
    give (complete_batch loaded.state batch result).1

  -- `_dispatch`; a batch that was claimed has a first candidate
  unfoldable pub dispatch_from :
      NotificationBatch → List NotificationCandidate → Action (List NotificationOutcome)
  unfolding complete_stored batch_body
  dispatch_from batch [] = give []
  dispatch_from batch (first ∷ others) =
      complete_stored batch
        (run CommandName.notify (first.title ∷ batch_body batch.kind first (length others) ∷ []))

  unfoldable pub dispatch_claimed : Option NotificationBatch → Action (List NotificationOutcome)
  unfolding dispatch_from
  dispatch_claimed none = give []
  dispatch_claimed (some batch) = dispatch_from batch batch.candidates

  unfoldable pub dispatch_kinds :
      (NotificationKind → Datetime)
      → (NotificationKind → String)
      → List NotificationCandidate
      → List NotificationKind
      → Action (List NotificationOutcome)
  unfolding claim_stored dispatch_claimed
  dispatch_kinds moment token candidates [] = give []
  dispatch_kinds moment token candidates (kind ∷ kinds) = do
    batch ←
        claim_stored kind (filter (λ candidate. candidate.kind == kind) candidates) (moment kind)
          (token kind)
    outcomes ← dispatch_claimed batch
    later ← dispatch_kinds moment token candidates kinds
    give (outcomes ++ later)

  unfoldable pub dispatch :
      NotificationSettings
      → Datetime
      → (NotificationKind → Datetime)
      → (NotificationKind → String)
      → SnapshotResponse
      → Action (List NotificationOutcome)
  unfolding load_state dispatch_kinds notification_candidates
  dispatch settings now moment token response = do
    loaded ← load_state env true
    dispatch_kinds moment token
        (notification_candidates sha256 run settings loaded.state response now) notification_kinds
