-- ===== src/Scan/Generation/Backoff.antt =====
-- How long a source rests after a scan: the backoff of a failure and the freshness of a success.
use opatchy.Base.{
  Bool-cases, In, List, Option, [], all, arith, count, false, find, if◌then◌else◌, inl, inr, length,
  nat_eq, none, not, refl, some, true, ℕ, ◌+◌, ◌<◌, ◌==◌, ◌∷◌, ◌≡◌, ◌≤◌,
}
use opatchy.Base.Members.{In-cons, In-filter_map_of}
use opatchy.Models.{Datetime, SourceMetadata, SourceName}
use opatchy.Scan.Generation.{
  after_failure, attempted, backing_off, due, has_aged, minutes, next_metadata, old_metadata,
  retry_delay,
}
use opatchy.Scan.Outcomes.{SourceOutcome, successful}
use opatchy.Scan.Resolution.{freshness}

retry_delay-bounds :
    (count : ℕ) → (minutes 5 ≤ retry_delay count) × (retry_delay count ≤ minutes 360)
unfolding retry_delay
retry_delay-bounds count = (ground arith, ground arith)

unsuccessful :
    (o failed : SourceOutcome)
    → some failed ≡ some o
    → successful failed ≡ false
    → successful o ≡ true
    → ⊥
unsuccessful o failed same h good = ground arith

-- An unsuccessful outcome among those of a source is found.
find_failure :
    (outcomes : List (Option SourceOutcome)) (failed : SourceOutcome)
    → In (some failed) outcomes
    → successful failed ≡ false
    → (first : SourceOutcome) × (find (λ outcome. not (successful outcome)) (attempted outcomes)
        ≡ some first)
find_failure [] failed m h = elim m [ ]
find_failure (none ∷ os) failed m h = elim (In-cons m) [
  | inl same ↦ absurd cc
  | inr n ↦ find_failure os failed n h
]
find_failure (some o ∷ os) failed m h = elim (Bool-cases (successful o)) [
  | inl good ↦ elim (In-cons m) [
    | inl same ↦ absurd (unsuccessful o failed same h good)
    | inr n ↦ let (first, e) = find_failure os failed n h in (first, rw good e)
  ]
  | inr bad ↦ (o, rw bad)
]

-- What a scan records of a source with an outcome.
next_metadata-attempted :
    (source : SourceName) (outcomes : List (Option SourceOutcome))
    (previous : Option SourceMetadata) (now : Datetime) (attempt : SourceOutcome)
    → In (some attempt) outcomes
    → next_metadata source outcomes previous now
      ≡ after_failure source
          (old_metadata source previous)
          now
          (find (λ outcome. not (successful outcome)) (attempted outcomes))
unfolding next_metadata
next_metadata-attempted source outcomes previous now attempt m =
    rw (none_empty (attempted outcomes) (In-filter_map_of (λ outcome. outcome) m refl))
  where
    none_empty : (xs : List SourceOutcome) → In attempt xs → (length xs == 0) ≡ false
    none_empty [] i = elim i [ ]
    none_empty (x ∷ xs) i = ground arith

-- A source with an unsuccessful outcome in a scan is not due in the five minutes after it, unless
-- the scan is forced.
pub failed_source_waits :
    (source : SourceName) (outcomes : List (Option SourceOutcome))
    (previous : Option SourceMetadata) (now then' : Datetime) (failed : SourceOutcome)
    → In (some failed) outcomes
    → successful failed ≡ false
    → then' < now + minutes 5
    → due (some (next_metadata source outcomes previous now)) then' false ≡ false
unfolding due after_failure
failed_source_waits source outcomes previous now then' failed m h soon =
    let (first, e) = find_failure outcomes failed m h in
    let old = old_metadata source previous in
    rw (next_metadata-attempted source outcomes previous now failed m)
      (rw e (ground (arith, retry_delay-bounds (old.failure_count + 1))))

-- The time, if there is one, is not after `now`.
abbrev pub IsPast : Option Datetime → Datetime → Type 0
IsPast none now = Unit {0}
IsPast (some time) now = time ≤ now

module _ (now then' : Datetime) (late : now + freshness ≤ then') where
  rested :
      (last until : Option Datetime)
      → IsPast last now
      → IsPast until (now + freshness)
      → (if backing_off until then' then false else has_aged last then') ≡ true
  unfolding backing_off has_aged
  rested none none p q = refl
  rested none (some u) p q = ground arith
  rested (some l) none p q = ground arith
  rested (some l) (some u) p q = ground arith

  due-after_failure :
      (source : SourceName) (old : SourceMetadata) (found : Option SourceOutcome)
      → IsPast old.last_success now
      → due (some (after_failure source old now found)) then' false ≡ true
  unfolding due after_failure
  due-after_failure source old none past = rested (some now) none (omega arith) tt
  due-after_failure source old (some failed) past = elim (Bool-cases failed.permanent) [
    | inl forever ↦
        rw forever (rested old.last_success (some (now + minutes 360)) past (omega arith))
    | inr once ↦ rw once (
        rested old.last_success (some (now + retry_delay (old.failure_count + 1))) past
          (ground (arith, retry_delay-bounds (old.failure_count + 1))))
  ]

-- Whatever the outcomes of a scan, a source with an outcome is due again from six hours after the
-- scan on. (Its last success is not after the scan.)
pub due_after_six_hours :
    (source : SourceName) (outcomes : List (Option SourceOutcome))
    (previous : Option SourceMetadata) (now then' : Datetime) (attempt : SourceOutcome)
    → In (some attempt) outcomes
    → IsPast (old_metadata source previous).last_success now
    → now + freshness ≤ then'
    → due (some (next_metadata source outcomes previous now)) then' false ≡ true
due_after_six_hours source outcomes previous now then' attempt m past late =
    rw (next_metadata-attempted source outcomes previous now attempt m)
      (due-after_failure now then' late source (old_metadata source previous) _ past)

-- After a scan in which each outcome of a source was successful, and there was one, the source has
-- no failures left, and is not due in the six hours after the scan, unless the scan is forced.
pub successful_source_rests :
    (source : SourceName) (outcomes : List (Option SourceOutcome))
    (previous : Option SourceMetadata) (now then' : Datetime) (attempt : SourceOutcome)
    → In (some attempt) outcomes
    → all successful (attempted outcomes) ≡ true
    → then' < now + freshness
    → let next = next_metadata source outcomes previous now in
      (due (some next) then' false ≡ false)
      × (next.failure_count ≡ 0)
      × (next.permanent_failure ≡ false)
unfolding due after_failure has_aged backing_off
successful_source_rests source outcomes previous now then' attempt m good soon =
    rw (next_metadata-attempted source outcomes previous now attempt m)
      (rw (none_failed (attempted outcomes) good) (ground arith, refl, refl))
  where
    none_failed :
        (xs : List SourceOutcome)
        → all successful xs ≡ true
        → find (λ outcome. not (successful outcome)) xs ≡ none
    none_failed [] h = refl
    none_failed (x ∷ xs) h = ground (arith, none_failed xs)
