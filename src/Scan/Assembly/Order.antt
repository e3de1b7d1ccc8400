-- ===== src/Scan/Assembly/Order.antt =====
-- Sorting the health of the sources sorts their names.
use opatchy.Base.{
  Bool-cases, List, [], ap, if◌then◌else◌, inl, inr, map, refl, text_leb, ◌++◌, ◌∙◌, ◌∷◌, ◌≡◌,
}
use opatchy.Models.{SourceHealth, SourceName, source_name_value}
use opatchy.Scan.Assembly.{insert_health, sort_healths}
use opatchy.Scan.Assembly.Sources.{source_order}

-- the names in the order of `sort_healths`
insert_name : SourceName → List SourceName → List SourceName
insert_name a [] = a ∷ []
insert_name a (b ∷ bs) =
    if text_leb (source_name_value a) (source_name_value b)
    then a ∷ b ∷ bs
    else b ∷ insert_name a bs

pub sort_names : List SourceName → List SourceName
unfolding insert_name
sort_names [] = []
sort_names (a ∷ as') = insert_name a (sort_names as')

map-insert_health :
    (a : SourceHealth) (bs : List SourceHealth)
    → map (λ h. h.source) (insert_health a bs) ≡ insert_name a.source (map (λ h. h.source) bs)
unfolding insert_health insert_name
map-insert_health a [] = refl
map-insert_health a (b ∷ bs) =
    elim (Bool-cases (text_leb (source_name_value a.source) (source_name_value b.source))) [
      | inl first ↦ rw first
      | inr later ↦ rw later (ap (λ ns. b.source ∷ ns) (map-insert_health a bs))
    ]

pub map-sort_healths :
    (hs : List SourceHealth)
    → map (λ h. h.source) (sort_healths hs) ≡ sort_names (map (λ h. h.source) hs)
unfolding sort_healths sort_names
map-sort_healths [] = refl
map-sort_healths (a ∷ as') =
    map-insert_health a (sort_healths as') ∙ ap (insert_name a.source) (map-sort_healths as')

pub sorted_order :
    sort_names (
      SourceName.omarchy ∷ SourceName.arch ∷ SourceName.aur ∷ SourceName.mise ∷ SourceName.security
      ∷ SourceName.cisa_kev ∷ SourceName.flatpak ∷ [])
    ≡ source_order
unfolding sort_names
sorted_order = refl

pub map-append_one :
    (hs : List SourceHealth) (h : SourceHealth)
    → map (λ h. h.source) (hs ++ h ∷ []) ≡ map (λ h. h.source) hs ++ h.source ∷ []
map-append_one [] h = refl
map-append_one (a ∷ as') h = ap (λ ns. a.source ∷ ns) (map-append_one as' h)
