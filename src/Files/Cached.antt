-- ===== src/Files/Cached.antt =====
-- What the cache of helper/opatchy_helper/storage_cache.py gives and keeps.
use opatchy.Base.{
  List, Option, String, [], ap, arith, bool_eq, contains, eq_iff, false, filter, find,
  if◌then◌else◌, is_unique, list_eq, nat_eq, not, option_eq, refl, some, string_eq, sym, text_leb,
  true, ◌++◌, ◌==◌, ◌||◌, ◌∙◌, ◌∷◌, ◌≡◌,
}
use opatchy.Base.Members.{map_of_append}
use opatchy.Base.Unique.{
  Sub-map-filter, contains-taken_out, find-replaced, is_unique-Sub, is_unique-append_one,
}
use opatchy.Files.Caches.{insert_inventory, sort_inventories, with_response}
use opatchy.Models.{
  InventoryResponse, ItemSource, arch_status_eq, condition_eq, item_source_beq_iff, item_source_eq,
  item_source_value, provenance_eq, severity_eq, source_name_eq, source_scope_eq, source_status_eq,
  watch_eq, watch_mode_eq,
}
use opatchy.Scan.Assembly.{inventories}
use opatchy.Storage.Generations.{sources_of_inventories}
use opatchy.Wire.Enums.{
  arch_status_enum, error_code_enum, item_source-found, item_source_enum, item_source_members,
  kev_status_enum, notification_status_enum, provenance_enum, response_kind_enum, scan_state_enum,
  severity_enum, source_name_enum, source_scope_enum, source_status_enum, watch_mode_enum,
}

module _ (k : String) where
  contains-insert_inventory :
      (r : InventoryResponse) (rs : List InventoryResponse)
      → contains k (sources_of_inventories (insert_inventory r rs))
        ≡ (k == item_source_value r.payload.source || contains k (sources_of_inventories rs))
  unfolding insert_inventory
  contains-insert_inventory r [] = refl
  contains-insert_inventory r (other ∷ rest) = ground (arith, contains-insert_inventory r rest)

  contains-sort_inventories :
      (rs : List InventoryResponse)
      → contains k (sources_of_inventories (sort_inventories rs))
        ≡ contains k (sources_of_inventories rs)
  unfolding sort_inventories
  contains-sort_inventories [] = refl
  contains-sort_inventories (r ∷ rs) =
      contains-insert_inventory r (sort_inventories rs)
      ∙ ap (λ rest. k == item_source_value r.payload.source || rest) (contains-sort_inventories rs)

is_unique-insert_inventory :
    (r : InventoryResponse) (rs : List InventoryResponse)
    → contains (item_source_value r.payload.source) (sources_of_inventories rs) ≡ false
    → is_unique (sources_of_inventories rs) ≡ true
    → is_unique (sources_of_inventories (insert_inventory r rs)) ≡ true
unfolding insert_inventory
is_unique-insert_inventory r [] h u = refl
is_unique-insert_inventory r (other ∷ rest) h u = ground (
  arith,
  contains-insert_inventory (item_source_value other.payload.source) r rest,
  is_unique-insert_inventory r rest,
  eq_iff (item_source_value r.payload.source) (item_source_value other.payload.source),
  eq_iff (item_source_value other.payload.source) (item_source_value r.payload.source),
)

is_unique-sort_inventories :
    (rs : List InventoryResponse)
    → is_unique (sources_of_inventories rs) ≡ true
    → is_unique (sources_of_inventories (sort_inventories rs)) ≡ true
unfolding sort_inventories
is_unique-sort_inventories [] h = refl
is_unique-sort_inventories (r ∷ rs) h =
    is_unique-insert_inventory r (sort_inventories rs)
      (contains-sort_inventories (item_source_value r.payload.source) rs ∙ ground arith)
      (is_unique-sort_inventories rs (ground arith))

-- the inventory of a source among others
abbrev pub inventory_of_source : ItemSource → List InventoryResponse → Option InventoryResponse
inventory_of_source source inventories = find (λ item. item.payload.source == source) inventories

text_leb-value : (s : ItemSource) → text_leb (item_source_value s) (item_source_value s) ≡ true
text_leb-value ItemSource.omarchy = refl
text_leb-value ItemSource.arch = refl
text_leb-value ItemSource.aur = refl
text_leb-value ItemSource.flatpak = refl
text_leb-value ItemSource.mise = refl

-- an inventory that stands first for its source is found
inventory_of_source-insert_inventory :
    (source : ItemSource) (r : InventoryResponse) (rs : List InventoryResponse)
    → inventory_of_source source (insert_inventory r rs) ≡ inventory_of_source source (r ∷ rs)
unfolding insert_inventory
inventory_of_source-insert_inventory source r [] = refl
inventory_of_source-insert_inventory source r (other ∷ rest) = ground (
  arith,
  inventory_of_source-insert_inventory source r rest,
  text_leb-value r.payload.source,
  item_source_beq_iff r.payload.source source,
  item_source_beq_iff other.payload.source source,
)

inventory_of_source-sort_inventories :
    (source : ItemSource) (rs : List InventoryResponse)
    → inventory_of_source source (sort_inventories rs) ≡ inventory_of_source source rs
unfolding sort_inventories
inventory_of_source-sort_inventories source [] = refl
inventory_of_source-sort_inventories source (r ∷ rs) =
    inventory_of_source-insert_inventory source r (sort_inventories rs)
    ∙ ground (arith, inventory_of_source-sort_inventories source rs)

item_source_value-injective : (s t : ItemSource) → item_source_value s ≡ item_source_value t → s ≡ t
item_source_value-injective s t h =
    let found = item_source-found s in
    ok_some (
      sym found
      ∙ ap (λ v. find (λ m. item_source_value m == v) item_source_members) h
      ∙ item_source-found t)
  where
    ok_some : {a b : ItemSource} → some a ≡ some b → a ≡ b
    ok_some e = cc

is_unique-others :
    (response : InventoryResponse) (rs : List InventoryResponse)
    → is_unique (sources_of_inventories rs) ≡ true
    → is_unique (
        sources_of_inventories (
          filter (λ item. not (item.payload.source == response.payload.source)) rs
          ++ (response ∷ [])))
      ≡ true
is_unique-others response rs u =
    let source = λ (r : InventoryResponse). r.payload.source in
    let name = λ (r : InventoryResponse). item_source_value r.payload.source in
    let other = λ (r : InventoryResponse). not (r.payload.source == response.payload.source) in
    rw (map_of_append name (filter other rs) (response ∷ [])) (
      is_unique-append_one (sources_of_inventories (filter other rs)) (name response)
        (is_unique-Sub (Sub-map-filter name other rs) u)
        (contains-taken_out source item_source_value response rs item_source_value-injective))

-- The inventories of a generation, as a map from sources: saving a response binds its source to it and
-- leaves what every other source is bound to.
pub inventory_of_source-with_response :
    (source : ItemSource) (response : InventoryResponse) (inventories : List InventoryResponse)
    → inventory_of_source source (with_response response inventories) ≡ (
        if response.payload.source == source
        then some response
        else inventory_of_source source inventories)
unfolding with_response
inventory_of_source-with_response source response inventories =
    let others =
      filter (λ item. not (item.payload.source == response.payload.source)) inventories in
    inventory_of_source-sort_inventories source (others ++ (response ∷ []))
    ∙ find-replaced (λ r. r.payload.source) source response inventories

-- Saving a response keeps the sources of the inventories distinct.
is_unique-with_response :
    (response : InventoryResponse) (inventories : List InventoryResponse)
    → is_unique (sources_of_inventories inventories) ≡ true
    → is_unique (sources_of_inventories (with_response response inventories)) ≡ true
unfolding with_response
is_unique-with_response response inventories u =
    let others =
      filter (λ item. not (item.payload.source == response.payload.source)) inventories in
    is_unique-sort_inventories (others ++ (response ∷ [])) (is_unique-others response inventories u)
