-- ===== src/Scan/Generation/Complete.antt =====
-- The generation that a scan builds lists every source.
use opatchy.Base.{
  Bool-cases, List, Option, String, [], ap, bool_eq, err, false, filter, inl, inr, is_unique,
  list_eq, map, nat_eq, not, ok, option_eq, refl, some, string_eq, true, ℕ, ◌++◌, ◌==◌, ◌>>=◌, ◌∙◌,
  ◌∷◌, ◌≡◌, ◌⊎◌,
}
use opatchy.Models.{
  Datetime, ErrorCode, GenerationBundle, PersistentState, SourceHealth, SourceName, arch_status_eq,
  condition_eq, item_source_eq, provenance_eq, severity_eq, source_name_eq, source_scope_eq,
  source_status_eq, watch_eq, watch_mode_eq,
}
use opatchy.Scan.Assembly.{
  basic_healths, collected_items, flatpak_pair, item_ids, normalized_items, sort_healths,
  sort_items, source_healths,
}
use opatchy.Scan.Assembly.Items.{is_unique-sort_items}
use opatchy.Scan.Assembly.Order.{map-append_one, map-sort_healths, sort_names, sorted_order}
use opatchy.Scan.Assembly.Sources.{IsComplete, Yields, source_order}
use opatchy.Scan.Generation.{
  ScanInputs, build_generation, identified_outcomes, new_generation, resolve_all, resolve_each,
}
use opatchy.Scan.Generation.InStep.{
  AllAt, AllResolved, AllResolved-filter, basic_healths-Yields, flatpak_pair-Yields,
  resolve_each-Yields,
}
use opatchy.Scan.Outcomes.{ScanFault, Scanned}
use opatchy.Scan.Resolution.{ResolvedOutcome}

source_healths-Yields :
    (inputs : ScanInputs) (vs : List ResolvedOutcome) (now : Datetime)
    → AllResolved (identified_outcomes inputs) vs
    → Yields (λ hs. map (λ h. h.source) hs ≡ source_order) (source_healths vs now)
unfolding source_healths
source_healths-Yields inputs vs now h =
    go (basic_healths (filter (λ v. not (v.outcome.source == SourceName.flatpak)) vs))
      (flatpak_pair (filter (λ v. v.outcome.source == SourceName.flatpak) vs) now)
      (basic_healths-Yields
        (filter (λ x. not (x.1 == SourceName.flatpak)) (identified_outcomes inputs)) _
        (AllResolved-filter (λ s. not (s == SourceName.flatpak)) (identified_outcomes inputs) vs h)
        refl)
      (flatpak_pair-Yields inputs.flatpak_user inputs.flatpak_system _ now
        (AllResolved-filter (λ s. s == SourceName.flatpak) (identified_outcomes inputs) vs h))
  where
    go :
        (basic : Scanned (List SourceHealth)) (flatpak : Scanned SourceHealth)
        → Yields
            (λ hs.
              map (λ h. h.source) hs
              ≡ SourceName.omarchy ∷ SourceName.arch ∷ SourceName.aur ∷ SourceName.mise
                ∷ SourceName.security ∷ SourceName.cisa_kev ∷ [])
            basic
        → Yields (λ h. h.source ≡ SourceName.flatpak) flatpak
        → Yields
            (λ hs. map (λ h. h.source) hs ≡ source_order)
            (basic >>= λ b. flatpak >>= λ f. ok (sort_healths (b ++ f ∷ [])))
    go (ok b) (ok f) p q =
        map-sort_healths (b ++ f ∷ [])
        ∙ ap sort_names (map-append_one b f ∙ (rw (p, q) refl))
        ∙ sorted_order
    go (ok b) (err fault) p q = q
    go (err fault) f p q = p

-- The fault of a scan whose items repeat an identifier.
abbrev pub duplicate_items : ScanFault
duplicate_items =
    ScanFault.protocol
      (record { code = ErrorCode.duplicate_item_id; message = "scan item IDs are duplicated" })

-- the identifiers of the items of the resolved outcomes
abbrev pub collected_ids : (String → String) → Scanned (List ResolvedOutcome) → List String
collected_ids sha256 (ok resolved) = item_ids (collected_items sha256 resolved)
collected_ids sha256 (err fault) = []

-- A generation that lists every source and whose items have distinct identifiers, from outcomes with the
-- identifiers `ids`; or the fault of duplicate items, where an identifier is repeated.
abbrev pub IsBuilt : List String → Scanned GenerationBundle → Type 0
IsBuilt ids (ok bundle) =
    IsComplete (some bundle)
    × (is_unique ids ≡ true)
    × (is_unique (item_ids bundle.snapshot.payload.items) ≡ true)
IsBuilt ids (err fault) = (fault ≡ duplicate_items) × (is_unique ids ≡ false)

normalized_items-cases :
    (sha256 : String → String) (vs : List ResolvedOutcome)
    → ((is_unique (item_ids (collected_items sha256 vs)) ≡ false)
        × (normalized_items sha256 vs ≡ err duplicate_items))
      ⊎ ((is_unique (item_ids (collected_items sha256 vs)) ≡ true)
          × (normalized_items sha256 vs ≡ ok (sort_items (collected_items sha256 vs))))
unfolding normalized_items
normalized_items-cases sha256 vs =
    elim (Bool-cases (is_unique (item_ids (collected_items sha256 vs)))) [
      | inl once ↦ inr (once, rw once refl)
      | inr again ↦ inl (again, rw again refl)
    ]

-- When the outcomes stand at the sources and scopes that they name, and the snapshots of the previous
-- generation, if there is one, list every source once in order, a scan builds a generation whose
-- snapshots do so too and whose items have distinct identifiers, if the items that it collects have; if
-- two of those have the same identifier, it raises the fault of duplicate items.
pub build_generation-IsBuilt :
    (sha256 : String → String) (generation_id : String) (order : ℕ) (inputs : ScanInputs)
    (previous : Option GenerationBundle) (state : PersistentState) (now : Datetime)
    → AllAt (identified_outcomes inputs)
    → IsComplete previous
    → IsBuilt
        (collected_ids sha256 (resolve_all inputs previous now))
        (build_generation sha256 generation_id order inputs previous state now)
unfolding build_generation resolve_all
build_generation-IsBuilt sha256 generation_id order inputs previous state now at_sources complete =
    go (resolve_each (identified_outcomes inputs) previous now)
      (resolve_each-Yields (identified_outcomes inputs) previous now at_sources complete)
  where
    go :
        (r : Scanned (List ResolvedOutcome))
        → Yields (AllResolved (identified_outcomes inputs)) r
        → IsBuilt (collected_ids sha256 r) (
            r >>= λ resolved. source_healths resolved now >>= λ sources.
            normalized_items sha256 resolved >>= λ items.
            ok
              (new_generation generation_id order inputs previous state now resolved sources items))
    go (err fault) h = absurd h
    go (ok vs) h = listed (source_healths vs now) (source_healths-Yields inputs vs now h)
      where
        listed :
            (r : Scanned (List SourceHealth))
            → Yields (λ hs. map (λ h. h.source) hs ≡ source_order) r
            → IsBuilt (item_ids (collected_items sha256 vs)) (
                r >>= λ sources. normalized_items sha256 vs >>= λ items.
                ok (new_generation generation_id order inputs previous state now vs sources items))
        listed (err fault) e = absurd e
        listed (ok sources) e = elim (normalized_items-cases sha256 vs) [
          | inl (again, fault) ↦ rw fault (refl, again)
          | inr (once, built) ↦
              rw built ((e, e), once, is_unique-sort_items (collected_items sha256 vs) once)
        ]
