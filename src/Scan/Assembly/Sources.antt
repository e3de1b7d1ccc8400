-- ===== src/Scan/Assembly/Sources.antt =====
-- The health of the sources: a scan lists each of the seven once, in the order of their names.
use opatchy.Base.{
  Bool-cases, List, Option, [], arith, contains, err, find, inl, inr, map, none, ok, refl, some,
  string_eq, true, ◌==◌, ◌>>=◌, ◌∷◌, ◌≡◌,
}
use opatchy.Models.{
  Datetime, ErrorInfo, GenerationBundle, Provenance, SnapshotResponse, SourceHealth, SourceName,
  SourceScope, SourceStatus, source_name_beq_iff, source_name_eq,
}
use opatchy.Scan.Outcomes.{Scanned, SourceOutcome, outcome_key, source_key, successful}
use opatchy.Scan.Resolution.{
  Health, ResolvedOutcome, cached, cached_outcome, failed_health, fresh_health, last_good_findings,
  last_good_items, make_health, previous_health, resolve, resolve_failure, stale_health,
  uncached_outcome, unusable,
}

-- the sources of a snapshot, in the order of `sorted`
abbrev pub source_order : List SourceName
source_order =
    SourceName.arch ∷ SourceName.aur ∷ SourceName.cisa_kev ∷ SourceName.flatpak ∷ SourceName.mise
    ∷ SourceName.omarchy ∷ SourceName.security ∷ []

abbrev pub HasSources : SnapshotResponse → Type 0
HasSources snapshot = map (λ health. health.source) snapshot.payload.sources ≡ source_order

-- The outcomes stand at the sources and scopes that they name.
abbrev pub IsAt : SourceName → Option SourceScope → Option SourceOutcome → Type 0
IsAt source scope none = Unit {0}
IsAt source scope (some outcome) = (outcome.source ≡ source) × (outcome.scope ≡ scope)

-- a health of the source as a whole, or of the scope
abbrev pub IsHealthOf : SourceName → Option SourceScope → Health → Type 0
IsHealthOf source none (Health.source_health health) = health.source ≡ source
IsHealthOf source none (Health.scope_health health) = ⊥
IsHealthOf source (some scope) (Health.source_health health) = ⊥
IsHealthOf source (some scope) (Health.scope_health health) = Unit {0}

make_health-IsHealthOf :
    (source : SourceName) (scope : Option SourceScope) (status : SourceStatus)
    (provenance : Provenance) (observed_at fresh_until : Datetime) (cause : Option ErrorInfo)
    → IsHealthOf source scope
        (make_health source scope status provenance observed_at fresh_until cause)
unfolding make_health
make_health-IsHealthOf source none status provenance observed_at fresh_until cause = refl
make_health-IsHealthOf source (some scope) status provenance observed_at fresh_until cause = tt

-- The health of a listed source is found.
find_source :
    (source : SourceName) (healths : List SourceHealth)
    → contains source (map (λ health. health.source) healths) ≡ true
    → (health : SourceHealth) × (find (λ value. value.source == source) healths ≡ some health)
      × (health.source ≡ source)
find_source source [] h = absurd cc
find_source source (x ∷ xs) h = elim (Bool-cases (x.source == source)) [
  | inl same ↦ (x, rw same, (source_name_beq_iff _ _).0 same)
  | inr other ↦
      let (health, e, s) = find_source source xs (
        ground (arith, source_name_beq_iff x.source source, source_name_beq_iff source x.source)) in
      (health, rw (other, e), s)
]

-- A result that is a value with the property.
abbrev pub Yields : {A : Type 0} → (A → Type 0) → Scanned A → Type 0
Yields P (ok a) = P a
Yields P (err fault) = ⊥

previous_health-Yields :
    (snapshot : SnapshotResponse) (source : SourceName) (scope : Option SourceScope)
    (now : Datetime)
    → contains source (map (λ health. health.source) snapshot.payload.sources) ≡ true
    → Yields (IsHealthOf source scope) (previous_health snapshot source scope now)
unfolding previous_health
previous_health-Yields snapshot source none now h =
    let (health, e, s) = find_source source snapshot.payload.sources h in rw e s
previous_health-Yields snapshot source (some scope) now h =
    let (health, e, s) = find_source source snapshot.payload.sources h in rw e tt

-- The snapshots of the previous generation, if there is one, list every source.
abbrev pub IsComplete : Option GenerationBundle → Type 0
IsComplete none = Unit {0}
IsComplete (some previous) = HasSources previous.snapshot × HasSources previous.last_good

every_source :
    (snapshot : SnapshotResponse) (source : SourceName)
    → HasSources snapshot
    → contains source (map (λ health. health.source) snapshot.payload.sources) ≡ true
every_source snapshot source h = rw h (listed source)
  where
    listed : (name : SourceName) → contains name source_order ≡ true
    listed name = ground arith

-- Each source is resolved, and its health is of the kind that the scan expects.
pub record IsResolved (source : SourceName) (scope : Option SourceScope) (value : ResolvedOutcome)
    : Type 0 where
  pub source_kept : value.outcome.source ≡ source
  pub health_kept : IsHealthOf source scope value.health

outcome_health :
    (source : SourceName) (scope : Option SourceScope) (outcome : SourceOutcome) (health : Health)
    → IsAt source scope (some outcome)
    → IsHealthOf outcome.source outcome.scope health
    → IsHealthOf source scope health
outcome_health source scope outcome health (s, t) h = rw (s, t) at h

unusable-IsResolved :
    (outcome : SourceOutcome) (source : SourceName) (scope : Option SourceScope) (now : Datetime)
    → IsAt source scope (some outcome)
    → IsResolved source scope (unusable outcome now)
unfolding failed_health
unusable-IsResolved outcome source scope now at_source = record {
  source_kept = at_source.0;
  health_kept =
      outcome_health source scope outcome _ at_source
        (make_health-IsHealthOf outcome.source outcome.scope _ _ _ _ _);
}

failure-Yields :
    (outcome : SourceOutcome) (source : SourceName) (scope : Option SourceScope)
    (previous : Option GenerationBundle) (now : Datetime)
    → IsAt source scope (some outcome)
    → IsComplete previous
    → Yields (IsResolved source scope) (resolve_failure outcome source scope previous now)
unfolding resolve_failure stale_health
failure-Yields outcome source scope none now at_source complete =
    unusable-IsResolved outcome source scope now at_source
failure-Yields outcome source scope (some previous) now at_source (_, listed) =
    elim (Bool-cases (contains (outcome_key outcome) previous.last_good_keys)) [
      | inl known ↦ rw known (
          go (previous_health previous.last_good source scope now) (
            previous_health-Yields previous.last_good source scope now
              (every_source previous.last_good source listed)))
      | inr unknown ↦ rw unknown (unusable-IsResolved outcome source scope now at_source)
    ]
  where
    go :
        (r : Scanned Health)
        → Yields (IsHealthOf source scope) r
        → Yields (IsResolved source scope) (
            r >>= λ health. ok (record {
              outcome = outcome;
              health = stale_health outcome health;
              items = last_good_items previous.last_good source scope;
              findings = last_good_findings previous.last_good source;
              usable = true;
            }))
    go (ok health) h = record {
      source_kept = at_source.0;
      health_kept =
          outcome_health source scope outcome _ at_source
            (make_health-IsHealthOf outcome.source outcome.scope _ _ _ _ _);
    }
    go (err fault) h = h

pub resolve-Yields :
    (outcome : Option SourceOutcome) (source : SourceName) (scope : Option SourceScope)
    (previous : Option GenerationBundle) (now : Datetime)
    → IsAt source scope outcome
    → IsComplete previous
    → Yields (IsResolved source scope) (resolve outcome source scope previous now)
unfolding resolve cached fresh_health failed_health uncached_outcome cached_outcome
resolve-Yields none source scope none now at_source complete = record {
  source_kept = refl;
  health_kept = make_health-IsHealthOf source scope _ _ _ _ _;
}
resolve-Yields none source scope (some previous) now at_source (listed, _) =
    go (previous_health previous.snapshot source scope now) (
      previous_health-Yields previous.snapshot source scope now
        (every_source previous.snapshot source listed))
  where
    go :
        (r : Scanned Health)
        → Yields (IsHealthOf source scope) r
        → Yields (IsResolved source scope) (
            r >>= λ health. ok (record {
              outcome = cached_outcome source scope health;
              health = health;
              items = last_good_items previous.snapshot source scope;
              findings = last_good_findings previous.snapshot source;
              usable = contains (source_key source scope) previous.last_good_keys;
            }))
    go (ok health) h = record { source_kept = refl; health_kept = h }
    go (err fault) h = h
resolve-Yields (some outcome) source scope previous now at_source complete =
    elim (Bool-cases (successful outcome)) [
      | inl good ↦ rw good (record {
        source_kept = at_source.0;
        health_kept =
            outcome_health source scope outcome _ at_source
              (make_health-IsHealthOf outcome.source outcome.scope _ _ _ _ _);
      })
      | inr bad ↦ rw bad (failure-Yields outcome source scope previous now at_source complete)
    ]
