-- ===== src/Scan/Resolution/Stale.antt =====
-- A source that fails keeps its last good evidence.
use opatchy.Base.{
  Bool, In, Option, contains, false, filter, none, ok, refl, some, string_eq, true, ◌≡◌,
}
use opatchy.Base.Members.{In-filter, In-map, In-map_of, test_of_In-filter}
use opatchy.Models.{
  Datetime, GenerationBundle, NormalizedItem, Provenance, SnapshotResponse, SourceName, SourceScope,
  SourceStatus,
}
use opatchy.Scan.Outcomes.{SourceOutcome, outcome_key, successful}
use opatchy.Scan.Resolution.{
  Health, ResolvedOutcome, as_last_good, belongs_to, health_cause, health_fresh_until,
  health_observed_at, health_provenance, health_status, last_good_findings, last_good_items,
  make_health, previous_health, resolve, resolve_failure, stale_health,
}

-- What a failed source with last good evidence yields.
pub record IsStale (source : SourceName) (scope : Option SourceScope) (last_good : SnapshotResponse)
    (outcome : SourceOutcome) (value : ResolvedOutcome) : Type 0 where
  pub usable : value.usable ≡ true
  pub status : health_status value.health ≡ SourceStatus.stale
  pub provenance : health_provenance value.health ≡ Provenance.last_good
  pub cause : health_cause value.health ≡ outcome.cause
  pub kept :
      (item : NormalizedItem)
      → In item last_good.payload.items
      → belongs_to item source scope ≡ true
      → In (as_last_good item) value.items
  pub only_kept :
      (item : NormalizedItem)
      → In item value.items
      → (known : NormalizedItem) × In known last_good.payload.items
        × (belongs_to known source scope ≡ true)
        × (item ≡ as_last_good known)

stale_health-status :
    (outcome : SourceOutcome) (health : Health)
    → (health_status (stale_health outcome health) ≡ SourceStatus.stale)
      × (health_provenance (stale_health outcome health) ≡ Provenance.last_good)
      × (health_cause (stale_health outcome health) ≡ outcome.cause)
unfolding stale_health make_health
stale_health-status outcome health = go outcome.scope
  where
    go :
        (scope : Option SourceScope)
        → let h =
            make_health outcome.source scope SourceStatus.stale Provenance.last_good
              (health_observed_at health)
              (health_fresh_until health)
              outcome.cause in
          (health_status h ≡ SourceStatus.stale)
          × (health_provenance h ≡ Provenance.last_good)
          × (health_cause h ≡ outcome.cause)
    go none = (refl, refl, refl)
    go (some scope) = (refl, refl, refl)

-- A failed outcome of a source of which the last good snapshot knows the health, and whose key the
-- previous generation has as good, is resolved as stale and usable: with the cause of the failure,
-- and with the last good items of that source and scope, all of them and no others.
pub resolve-IsStale :
    (outcome : SourceOutcome) (source : SourceName) (scope : Option SourceScope)
    (previous : GenerationBundle) (now : Datetime) (health : Health)
    → successful outcome ≡ false
    → contains (outcome_key outcome) previous.last_good_keys ≡ true
    → previous_health previous.last_good source scope now ≡ ok health
    → (value : ResolvedOutcome) × (resolve (some outcome) source scope (some previous) now
        ≡ ok value)
      × IsStale source scope previous.last_good outcome value
unfolding resolve resolve_failure last_good_items
resolve-IsStale outcome source scope previous now health bad known found =
    let (s, p, c) = stale_health-status outcome health in
    let belongs : NormalizedItem → Bool = λ item. belongs_to item source scope in
    let value : ResolvedOutcome = record {
      outcome = outcome;
      health = stale_health outcome health;
      items = last_good_items previous.last_good source scope;
      findings = last_good_findings previous.last_good source;
      usable = true;
    } in
    (
      value,
      rw (bad, known, found) refl,
      record {
        usable = refl;
        status = s;
        provenance = p;
        cause = c;
        kept = λ item m b. In-map_of as_last_good (In-filter belongs m b);
        only_kept = λ item m.
            let (known_item, i, same) =
              In-map as_last_good (filter belongs previous.last_good.payload.items) m in
            let (b, j) = test_of_In-filter belongs known_item previous.last_good.payload.items i in
            (known_item, j, b, same);
      },
    )
