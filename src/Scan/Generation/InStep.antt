-- ===== src/Scan/Generation/InStep.antt =====
-- The resolved outcomes stay in step with the sources of the scan.
use opatchy.Base.{
  Bool, List, Option, [], all, ap, err, false, filter, if◌then◌else◌, is_some, map, none, not, ok,
  refl, some, true, ◌>>=◌, ◌∷◌, ◌≡◌,
}
use opatchy.Models.{
  Datetime, GenerationBundle, ScopeHealth, SourceHealth, SourceName, SourceScope, source_name_eq,
}
use opatchy.Scan.Assembly.{
  basic_healths, flatpak_health, flatpak_pair, scope_health_of, source_health_of,
}
use opatchy.Scan.Assembly.Sources.{IsAt, IsComplete, IsHealthOf, IsResolved, Yields, resolve-Yields}
use opatchy.Scan.Generation.{resolve_each}
use opatchy.Scan.Outcomes.{Scanned, SourceOutcome}
use opatchy.Scan.Resolution.{Health, ResolvedOutcome, resolve}

abbrev pub Identified : Type 0
Identified = Option SourceOutcome × SourceName × Option SourceScope

-- Each outcome stands at the source and scope that it names.
abbrev pub AllAt : List Identified → Type 0
AllAt [] = Unit {0}
AllAt ((outcome, source, scope) ∷ rest) = IsAt source scope outcome × AllAt rest

abbrev pub AllResolved : List Identified → List ResolvedOutcome → Type 0
AllResolved [] [] = Unit {0}
AllResolved [] (v ∷ vs) = ⊥
AllResolved (x ∷ xs) [] = ⊥
AllResolved ((outcome, source, scope) ∷ xs) (v ∷ vs) = IsResolved source scope v × AllResolved xs vs

pub resolve_each-Yields :
    (xs : List Identified) (previous : Option GenerationBundle) (now : Datetime)
    → AllAt xs
    → IsComplete previous
    → Yields (AllResolved xs) (resolve_each xs previous now)
unfolding resolve_each
resolve_each-Yields [] previous now at_sources complete = tt
resolve_each-Yields ((outcome, source, scope) ∷ xs) previous now (at_source, at_sources) complete =
    go (resolve outcome source scope previous now) (resolve_each xs previous now)
      (resolve-Yields outcome source scope previous now at_source complete)
      (resolve_each-Yields xs previous now at_sources complete)
  where
    go :
        (r : Scanned ResolvedOutcome) (rs : Scanned (List ResolvedOutcome))
        → Yields (IsResolved source scope) r
        → Yields (AllResolved xs) rs
        → Yields
            (AllResolved ((outcome, source, scope) ∷ xs))
            (r >>= λ value. rs >>= λ values. ok (value ∷ values))
    go (ok value) (ok values) p q = (p, q)
    go (ok value) (err fault) p q = q
    go (err fault) rs p q = p

kept_together :
    (b c : Bool) (x : Identified) (v : ResolvedOutcome) (xs : List Identified)
    (vs : List ResolvedOutcome)
    → c ≡ b
    → IsResolved x.1 x.2 v
    → AllResolved xs vs
    → AllResolved (if b then x ∷ xs else xs) (if c then v ∷ vs else vs)
kept_together true true x v xs vs e r h = (r, h)
kept_together false false x v xs vs e r h = h
kept_together true false x v xs vs e r h = absurd cc
kept_together false true x v xs vs e r h = absurd cc

-- A test of the source keeps the outcomes in step with their sources.
pub AllResolved-filter :
    (p : SourceName → Bool) (xs : List Identified) (vs : List ResolvedOutcome)
    → AllResolved xs vs
    → AllResolved (filter (λ x. p x.1) xs) (filter (λ v. p v.outcome.source) vs)
AllResolved-filter p [] [] h = tt
AllResolved-filter p [] (v ∷ vs) h = absurd h
AllResolved-filter p (x ∷ xs) [] h = absurd h
AllResolved-filter p ((outcome, source, scope) ∷ xs) (v ∷ vs) (r, h) =
    kept_together (p source) (p v.outcome.source) (outcome, source, scope) v _ _
      (ap p r.source_kept) r (AllResolved-filter p xs vs h)

source_health_of-Yields :
    (source : SourceName) (health : Health)
    → IsHealthOf source none health
    → Yields (λ h. h.source ≡ source) (source_health_of health)
unfolding source_health_of
source_health_of-Yields source (Health.source_health health) h = h
source_health_of-Yields source (Health.scope_health health) h = h

scope_health_of-Yields :
    (source : SourceName) (scope : SourceScope) (health : Health)
    → IsHealthOf source (some scope) health
    → Yields (λ h. Unit {0}) (scope_health_of health)
unfolding scope_health_of
scope_health_of-Yields source scope (Health.source_health health) h = h
scope_health_of-Yields source scope (Health.scope_health health) h = tt

abbrev unscoped : List Identified → Bool
unscoped xs = all (λ x. not (is_some x.2)) xs

pub basic_healths-Yields :
    (xs : List Identified) (vs : List ResolvedOutcome)
    → AllResolved xs vs
    → unscoped xs ≡ true
    → Yields (λ hs. map (λ h. h.source) hs ≡ map (λ x. x.1) xs) (basic_healths vs)
unfolding basic_healths
basic_healths-Yields [] [] h u = refl
basic_healths-Yields [] (v ∷ vs) h u = absurd h
basic_healths-Yields (x ∷ xs) [] h u = absurd h
basic_healths-Yields ((outcome, source, some scope) ∷ xs) (v ∷ vs) h u = absurd cc
basic_healths-Yields ((outcome, source, none) ∷ xs) (v ∷ vs) (r, h) u =
    go (source_health_of v.health) (basic_healths vs)
      (source_health_of-Yields source v.health r.health_kept) (basic_healths-Yields xs vs h u)
  where
    go :
        (a : Scanned SourceHealth) (as' : Scanned (List SourceHealth))
        → Yields (λ h. h.source ≡ source) a
        → Yields (λ hs. map (λ h. h.source) hs ≡ map (λ x. x.1) xs) as'
        → Yields
            (λ hs. map (λ h. h.source) hs ≡ source ∷ map (λ x. x.1) xs)
            (a >>= λ health. as' >>= λ rest. ok (health ∷ rest))
    go (ok a) (ok as') p q = rw (p, q) refl
    go (ok a) (err fault) p q = q
    go (err fault) as' p q = p

pub flatpak_pair-Yields :
    (user system : Option SourceOutcome) (vs : List ResolvedOutcome) (now : Datetime)
    → AllResolved
        ((user, SourceName.flatpak, some SourceScope.user)
          ∷ (system, SourceName.flatpak, some SourceScope.system)
          ∷ [])
        vs
    → Yields (λ h. h.source ≡ SourceName.flatpak) (flatpak_pair vs now)
unfolding flatpak_pair flatpak_health
flatpak_pair-Yields user system [] now h = absurd h
flatpak_pair-Yields user system (a ∷ []) now (r, h) = absurd h
flatpak_pair-Yields user system (a ∷ b ∷ c ∷ vs) now (r, (t, h)) = absurd h
flatpak_pair-Yields user system (a ∷ b ∷ []) now (r, (t, h)) =
    go (scope_health_of a.health) (scope_health_of b.health)
      (scope_health_of-Yields SourceName.flatpak SourceScope.user a.health r.health_kept)
      (scope_health_of-Yields SourceName.flatpak SourceScope.system b.health t.health_kept)
  where
    go :
        (p q : Scanned ScopeHealth)
        → Yields (λ h. Unit {0}) p
        → Yields (λ h. Unit {0}) q
        → Yields
            (λ h. h.source ≡ SourceName.flatpak)
            (p >>= λ u. q >>= λ s. ok (flatpak_health u s now))
    go (ok u) (ok s) p q = refl
    go (ok u) (err fault) p q = q
    go (err fault) q p q' = p
