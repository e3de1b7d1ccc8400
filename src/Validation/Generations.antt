-- ===== src/Validation/Generations.antt =====
-- The inventories that a scan builds pass the validation of responses.
use opatchy.Base.{
  >>=-eq-ok, Bool, In, List, String, [], any, arith, false, filter, is_unique, map, not, ok, refl,
  string_eq, true, ℕ, ℤ, ◌==◌, ◌∷◌, ◌≡◌,
}
use opatchy.Base.Members.{In-map}
use opatchy.Base.Unique.{Sub-map-filter, contains-In, is_unique-Sub}
use opatchy.Models.{
  Datetime, ErrorCode, InventoryResponse, ItemSource, NormalizedItem, Response, item_source_eq,
}
use opatchy.Scan.Assembly.{inventories, inventory_of, inventory_sources}
use opatchy.Storage.Durable.{each-filter, refuse-ok}
use opatchy.Validation.Fields.{
  fail_if, validate_identifier, validate_metadata, validate_nonnegative, validate_version,
}
use opatchy.Validation.Responses.{
  total_below, validate_inventory, validate_inventory_source, validate_response,
}
use opatchy.Validation.Snapshot.{validate_item, validate_items}

listed_source :
    (source : ItemSource) → In source inventory_sources → validate_inventory_source source ≡ ok tt
unfolding validate_inventory_source
listed_source ItemSource.arch m = refl
listed_source ItemSource.aur m = refl
listed_source ItemSource.flatpak m = refl
listed_source ItemSource.mise m = refl
listed_source ItemSource.omarchy m = absurd (cc (contains-In m))

enough : (n : ℕ) → total_below (ℤ.pos n) n ≡ false
enough n = ground arith

of_source :
    (source : ItemSource) (items : List NormalizedItem)
    → any (λ item. not (item.source == source)) (filter (λ item. item.source == source) items)
      ≡ false
of_source source [] = refl
of_source source (item ∷ items) = ground (arith, of_source source items)

validate_items-filter :
    (p : NormalizedItem → Bool) (items : List NormalizedItem)
    → validate_items items ≡ ok tt
    → validate_items (filter p items) ≡ ok tt
unfolding validate_items
validate_items-filter p items h =
    let (_, once, each_valid) =
      >>=-eq-ok
        (fail_if (not (is_unique (map (λ item. item.item_id) items))) ErrorCode.duplicate_item_id
          "item IDs must be unique")
        _ h in
    let free : is_unique (map (λ item. item.item_id) items) ≡ true =
      ground (arith, refuse-ok _ _ once) in
    rw (is_unique-Sub (Sub-map-filter (λ item. item.item_id) p items) free)
      (each-filter validate_item p items each_valid)

-- When the items of a scan are valid and its identifier is a bounded text, each of its inventories
-- is a valid response.
pub inventories-validate_response :
    (generated_at : Datetime) (generation_id : String) (items : List NormalizedItem)
    (inventory : InventoryResponse)
    → validate_items items ≡ ok tt
    → validate_identifier generation_id "generationId" ≡ ok tt
    → In inventory (inventories generated_at generation_id items)
    → validate_response (Response.inventory_response inventory) ≡ ok tt
unfolding inventories inventory_of validate_response validate_metadata validate_version
    validate_inventory validate_nonnegative
inventories-validate_response generated_at generation_id items inventory h k m =
    let (source, i, same) =
      In-map (inventory_of generated_at generation_id items) inventory_sources m in
    rw same (
      rw (k, listed_source source i, enough)
        (rw (validate_items-filter (λ item. item.source == source) items h, of_source source items)
          refl))
