-- ===== src/Notifications/Dispatch/Reported.antt =====
-- What `dispatch` of helper/opatchy_helper/notifications.py reports.
use mathlib.Core.Path.{subst}
use opatchy.Base.{
  In, List, Option, String, [], ap, arith, bool_eq, contains, false, filter, inl, inr, length,
  list_eq, nat_eq, none, ok, ok-injective, option_eq, refl, some, string_eq, sym, true, ◌==◌, ◌∙◌,
  ◌∷◌, ◌≡◌,
}
use opatchy.Base.Members.{In-append, In-map, test_of_In-filter}
use opatchy.Files.Disk.{Disk, Environment}
use opatchy.Files.Loads.{bind-ok}
use opatchy.Files.Operations.{update_state}
use opatchy.Files.States.{StateLoad, load_state, write_state}
use opatchy.Models.{
  Datetime, NotificationOutcome, PersistentState, SnapshotResponse, arch_status_eq, condition_eq,
  item_source_eq, provenance_eq, severity_eq, source_name_eq, source_scope_eq, source_status_eq,
  watch_eq, watch_mode_eq,
}
use opatchy.Notifications.Batch.{
  NotificationBatch, batch_of, complete_batch, complete_state, delivery_status, find_entry,
  owned_by, owned_candidates, reserve_batch,
}
use opatchy.Notifications.Dispatch.{
  batch_body, claim_stored, dispatch, dispatch_claimed, dispatch_from, dispatch_kinds,
  notification_kinds,
}
use opatchy.Notifications.Policy.{notification_candidates}
use opatchy.Notifications.Types.{
  NotificationCandidate, NotificationKind, NotificationSettings, notification_kind_eq,
}
use opatchy.Runner.{CommandName, CommandRunner}
use opatchy.Wire.Enums.{
  arch_status_enum, error_code_enum, item_source_enum, kev_status_enum, notification_status_enum,
  provenance_enum, response_kind_enum, scan_state_enum, severity_enum, source_name_enum,
  source_scope_enum, source_status_enum, watch_mode_enum,
}

-- an outcome is that of a candidate, and its status that of some run of the notification command
abbrev pub IsReported : CommandRunner → List NotificationCandidate → NotificationOutcome → Type 0
IsReported run candidates outcome =
    (c : NotificationCandidate) × In c candidates
    × (outcome.fingerprint ≡ c.fingerprint)
    × (arguments : List String) × (outcome.status
        ≡ delivery_status (run CommandName.notify arguments) c.change)

IsReported-wider :
    (run : CommandRunner) (xs ys : List NotificationCandidate) (outcome : NotificationOutcome)
    → ((c : NotificationCandidate) → In c xs → In c ys)
    → IsReported run xs outcome
    → IsReported run ys outcome
IsReported-wider run xs ys outcome wider (c, i, f, a, e) = (c, wider c i, f, a, e)

complete_batch-IsReported :
    (run : CommandRunner) (arguments : List String) (state : PersistentState)
    (batch : NotificationBatch) (outcome : NotificationOutcome)
    → In outcome (complete_batch state batch (run CommandName.notify arguments)).1
    → IsReported run batch.candidates outcome
unfolding complete_batch
complete_batch-IsReported run arguments state batch outcome m =
    let completed = (complete_state state batch (run CommandName.notify arguments)).1 in
    let (c, i, e) = In-map _ _ m in
    let (t, j) =
      test_of_In-filter (λ candidate. contains candidate.fingerprint completed) c batch.candidates
        i in
    (c, j, ap (λ o. o.fingerprint) e, arguments, ap (λ o. o.status) e)

batch_of-candidates :
    (state : PersistentState) (kind : NotificationKind) (claimed : List NotificationCandidate)
    (token : String) (batch : NotificationBatch)
    → batch_of state kind claimed token ≡ some batch
    → claimed ≡ batch.candidates
unfolding batch_of
batch_of-candidates state kind claimed token batch h = ground arith

module _ (sha256 : String → String) (env : Environment) (run : CommandRunner) where
  claim_stored-candidates :
      (kind : NotificationKind) (candidates : List NotificationCandidate) (now : Datetime)
      (token : String) (disk : Disk) (batch : NotificationBatch)
      → (claim_stored sha256 env run kind candidates now token disk).0 ≡ ok (some batch)
      → (c : NotificationCandidate) → In c batch.candidates
      → In c candidates
  unfolding claim_stored owned_candidates
  claim_stored-candidates kind candidates now token disk batch h c m =
      let loaded =
        bind-ok
          (update_state env (ok tt) (λ state. ok (reserve_batch state kind candidates now token))) _
          disk h in
      let state = loaded.0.state in
      let same =
        batch_of-candidates state kind (owned_candidates state candidates token) token batch
          (ok-injective loaded.2) in
      (test_of_In-filter
        (λ candidate. owned_by (find_entry candidate.fingerprint state.ledger) token) c candidates
        (subst (λ cs. In c cs) (sym same) m)).1

  dispatch_from-IsReported :
      (batch : NotificationBatch) (candidates : List NotificationCandidate) (disk : Disk)
      (outcomes : List NotificationOutcome)
      → (dispatch_from sha256 env run batch candidates disk).0 ≡ ok outcomes
      → (o : NotificationOutcome) → In o outcomes
      → IsReported run batch.candidates o
  unfolding dispatch_from
  dispatch_from-IsReported batch [] disk outcomes h o m =
      elim (subst (λ os. In o os) (sym (ok-injective h)) m) [ ]
  dispatch_from-IsReported batch (first ∷ others) disk outcomes h o m =
      let arguments = first.title ∷ batch_body batch.kind first (length others) ∷ [] in
      let loaded = bind-ok (load_state env false) _ disk h in
      let result = run CommandName.notify arguments in
      let at_load = (load_state env false disk).1 in
      let written =
        bind-ok (write_state env (complete_batch loaded.0.state batch result).0) _ at_load
          loaded.2 in
      complete_batch-IsReported run arguments loaded.0.state batch o
        (subst (λ os. In o os) (sym (ok-injective written.2)) m)

  dispatch_claimed-IsReported :
      (claimed : Option NotificationBatch) (candidates : List NotificationCandidate) (disk : Disk)
      (outcomes : List NotificationOutcome)
      → ((batch : NotificationBatch)
          → claimed ≡ some batch
          → (c : NotificationCandidate) → In c batch.candidates
          → In c candidates)
      → (dispatch_claimed sha256 env run claimed disk).0 ≡ ok outcomes
      → (o : NotificationOutcome) → In o outcomes
      → IsReported run candidates o
  unfolding dispatch_claimed
  dispatch_claimed-IsReported none candidates disk outcomes within h o m =
      elim (subst (λ os. In o os) (sym (ok-injective h)) m) [ ]
  dispatch_claimed-IsReported (some batch) candidates disk outcomes within h o m =
      IsReported-wider run batch.candidates candidates o (within batch refl)
        (dispatch_from-IsReported batch batch.candidates disk outcomes h o m)

  dispatch_kinds-IsReported :
      (moment : NotificationKind → Datetime) (token : NotificationKind → String)
      (candidates : List NotificationCandidate) (kinds : List NotificationKind) (disk : Disk)
      (outcomes : List NotificationOutcome)
      → (dispatch_kinds sha256 env run moment token candidates kinds disk).0 ≡ ok outcomes
      → (o : NotificationOutcome) → In o outcomes
      → IsReported run candidates o
  unfolding dispatch_kinds
  dispatch_kinds-IsReported moment token candidates [] disk outcomes h o m =
      elim (subst (λ os. In o os) (sym (ok-injective h)) m) [ ]
  dispatch_kinds-IsReported moment token candidates (kind ∷ kinds) disk outcomes h o m =
      let chosen = filter (λ candidate. candidate.kind == kind) candidates in
      let claim = claim_stored sha256 env run kind chosen (moment kind) (token kind) in
      let claimed = bind-ok claim _ disk h in
      let at_claim = (claim disk).1 in
      let sent = bind-ok (dispatch_claimed sha256 env run claimed.0) _ at_claim claimed.2 in
      let at_sent = (dispatch_claimed sha256 env run claimed.0 at_claim).1 in
      let later =
        bind-ok (dispatch_kinds sha256 env run moment token candidates kinds) _ at_sent sent.2 in
      let narrow = λ (c : NotificationCandidate) (i : In c chosen).
        (test_of_In-filter (λ candidate. candidate.kind == kind) c candidates i).1 in
      elim (In-append sent.0 later.0 (subst (λ os. In o os) (sym (ok-injective later.2)) m)) [
        | inl now ↦ IsReported-wider run chosen candidates o narrow (
            dispatch_claimed-IsReported claimed.0 chosen at_claim sent.0
              (λ batch e.
                claim_stored-candidates kind chosen (moment kind) (token kind) disk batch
                  (claimed.1 ∙ ap ok e))
              sent.1 o now)
        | inr after ↦
            dispatch_kinds-IsReported moment token candidates kinds at_sent later.0 later.1 o after
      ]

  -- A dispatch that succeeds has loaded the state, and each outcome that it reports is that of a candidate
  -- of the policy on that state, with the status that the result of a notification command means.
  pub dispatch-IsReported :
      (settings : NotificationSettings) (now : Datetime) (moment : NotificationKind → Datetime)
      (token : NotificationKind → String) (response : SnapshotResponse) (disk : Disk)
      (outcomes : List NotificationOutcome)
      → (dispatch sha256 env run settings now moment token response disk).0 ≡ ok outcomes
      → (load : StateLoad) × ((load_state env true disk).0 ≡ ok load)
        × ((o : NotificationOutcome)
            → In o outcomes
            → IsReported run
                (notification_candidates sha256 run settings load.state response now)
                o)
  unfolding dispatch
  dispatch-IsReported settings now moment token response disk outcomes h =
      let loaded = bind-ok (load_state env true) _ disk h in
      let candidates = notification_candidates sha256 run settings loaded.0.state response now in
      (
        loaded.0,
        loaded.1,
        dispatch_kinds-IsReported moment token candidates notification_kinds
            (load_state env true disk).1 outcomes loaded.2,
      )
