-- ===== src/Notifications/Batch/Leases.antt =====
-- The lease protocol: one owner at a time, and what a settled entry keeps.
use opatchy.Base.{
  Bool-cases, List, String, [], any, arith, contains, eq_iff, false, filter, inl, inr, ltb, none,
  option_eq, refl, some, string_eq, sym, true, ◌+◌, ◌<◌, ◌==◌, ◌∙◌, ◌∷◌, ◌≡◌, ◌≢◌, ◌⊎◌,
}
use opatchy.Models.{Datetime, LedgerEntry, PersistentState}
use opatchy.Notifications.Batch.{
  NotificationBatch, batch_of, claim_batch, claimed_candidates, complete_batch, complete_state,
  find_entry, is_locked, lease_duration, leased, live_lease, owned_by, owner_fingerprint,
  owns_owner, reserve_batch, reserve_claimed,
}
use opatchy.Notifications.Batch.Entries.{find-reserve_claimed}
use opatchy.Notifications.Types.{NotificationCandidate, NotificationKind}
use opatchy.Runner.{CommandResult}

-- No entry of the ledger carries the token; `uuid4` makes a new one for each claim.
abbrev pub IsFresh : String → List LedgerEntry → Type 0
IsFresh token ledger = any (λ e. e.lease_token == some token) ledger ≡ false

pub owned_by-fresh :
    (k token : String) (ledger : List LedgerEntry)
    → IsFresh token ledger
    → owned_by (find_entry k ledger) token ≡ false
unfolding owned_by
owned_by-fresh k token [] h = refl
owned_by-fresh k token (e ∷ es) h = ground (arith, owned_by-fresh k token es)

module _ (state : PersistentState) (kind : NotificationKind) (cs : List NotificationCandidate)
    (now : Datetime) (token : String) where
  -- A reservation changes nothing, or claims what `claimed_candidates` selects.
  pub reserve_batch-cases :
      (reserve_batch state kind cs now token ≡ state)
      ⊎ ((c : NotificationCandidate) × (rest : List NotificationCandidate) × (claimed_candidates
              state cs now
            ≡ c ∷ rest)
          × (reserve_batch state kind cs now token
              ≡ reserve_claimed state kind (c ∷ rest) now token))
  unfolding reserve_batch
  reserve_batch-cases =
      elim (Bool-cases (is_locked (find_entry (owner_fingerprint kind) state.ledger) now)) [
        | inl locked ↦ inl (rw locked)
        | inr free ↦ rw free (go (claimed_candidates state cs now) refl)
      ]
    where
      go :
          (claimed : List NotificationCandidate)
          → claimed_candidates state cs now ≡ claimed
          → (reserve_claimed state kind (claimed_candidates state cs now) now token ≡ state)
            ⊎ ((c : NotificationCandidate) × (rest : List NotificationCandidate)
                × (claimed_candidates state cs now ≡ c ∷ rest)
                × (reserve_claimed state kind (claimed_candidates state cs now) now token
                    ≡ reserve_claimed state kind (c ∷ rest) now token))
      go [] e = inl (rw e (unfold reserve_claimed in refl))
      go (c ∷ rest) e = inr (c, rest, e, rw e)

  -- Under a new token, the owner entry that carries it was reserved by this claim.
  pub reserve_batch-owner :
      IsFresh token state.ledger
      → owns_owner (reserve_batch state kind cs now token) kind token ≡ true
      → find_entry (owner_fingerprint kind) (reserve_batch state kind cs now token).ledger
        ≡ some (leased (owner_fingerprint kind) now token)
  unfolding owns_owner
  reserve_batch-owner fresh owns = elim reserve_batch-cases [
    | inl same ↦
        let clash : true ≡ false =
          sym (rw same at owns)
          ∙ owned_by-fresh (owner_fingerprint kind) token state.ledger fresh in
        cc
    | inr (c, rest, _, e) ↦ rw e (
        find-reserve_claimed (owner_fingerprint kind) state kind c rest now token
        ∙ rw ((eq_iff (owner_fingerprint kind) _).1 refl))
  ]

  -- A batch shows that its token owns the lease.
  pub claim_batch-owns :
      (batch : NotificationBatch)
      → (claim_batch state kind cs now token).1 ≡ some batch
      → owns_owner (reserve_batch state kind cs now token) kind token ≡ true
  unfolding claim_batch batch_of
  claim_batch-owns batch h = ground arith

-- a claim that meets a live lease
locked_claim :
    (s : PersistentState) (kind : NotificationKind) (cs : List NotificationCandidate)
    (now then' : Datetime) (token other : String)
    → find_entry (owner_fingerprint kind) s.ledger
      ≡ some (leased (owner_fingerprint kind) now token)
    → other ≢ token
    → then' < now + lease_duration
    → claim_batch s kind cs then' other ≡ (s, none)
unfolding claim_batch reserve_batch batch_of owns_owner owned_by live_lease
locked_claim s kind cs now then' token other owner ne soon =
    let live : ltb then' (now + lease_duration) ≡ true = ground arith in
    rw (owner, is_locked) (rw live (rw (owner, owned_by) (ground (arith, eq_iff token other))))

-- After a claim has yielded a batch under a new token, a claim of the same kind under another token,
-- before the lease of 30 seconds is over, changes nothing and yields no batch.
pub claim_batch_exclusive :
    (state : PersistentState) (kind : NotificationKind) (cs later : List NotificationCandidate)
    (now then' : Datetime) (token other : String) (batch : NotificationBatch)
    → IsFresh token state.ledger
    → (claim_batch state kind cs now token).1 ≡ some batch
    → other ≢ token
    → then' < now + lease_duration
    → claim_batch (claim_batch state kind cs now token).0 kind later then' other
      ≡ ((claim_batch state kind cs now token).0, none)
unfolding claim_batch
claim_batch_exclusive state kind cs later now then' token other batch fresh h ne soon =
    let s = reserve_batch state kind cs now token in
    let owner =
      reserve_batch-owner state kind cs now token fresh
        (claim_batch-owns state kind cs now token batch h) in
    locked_claim s kind later now then' token other owner ne soon

owns_owner-leased :
    (s : PersistentState) (kind : NotificationKind) (now : Datetime) (token other : String)
    → find_entry (owner_fingerprint kind) s.ledger
      ≡ some (leased (owner_fingerprint kind) now token)
    → other ≢ token
    → owns_owner s kind other ≡ false
unfolding owns_owner owned_by
owns_owner-leased s kind now token other owner ne =
    rw (owner, owned_by) (ground (arith, eq_iff token other))

none_completed : (cs : List NotificationCandidate) → filter (λ c. contains c.fingerprint []) cs ≡ []
none_completed [] = refl
none_completed (c ∷ cs) = none_completed cs

-- When a claim under a new token has yielded a batch, the late completion of a batch of the same
-- kind that another token claimed changes nothing and reports no outcome.
pub late_completion_ignored :
    (state : PersistentState) (cs : List NotificationCandidate) (now : Datetime) (token : String)
    (old batch : NotificationBatch) (result : CommandResult)
    → IsFresh token state.ledger
    → (claim_batch state old.kind cs now token).1 ≡ some batch
    → old.lease_token ≢ token
    → complete_batch (claim_batch state old.kind cs now token).0 old result
      ≡ ((claim_batch state old.kind cs now token).0, [])
unfolding claim_batch complete_batch complete_state
late_completion_ignored state cs now token old batch result fresh h ne =
    let owner =
      reserve_batch-owner state old.kind cs now token fresh
        (claim_batch-owns state old.kind cs now token batch h) in
    let lost =
      owns_owner-leased (reserve_batch state old.kind cs now token) old.kind now token
        old.lease_token owner ne in
    rw lost (cc (none_completed old.candidates))
