-- ===== src/Scan/Assembly/Items.antt =====
-- Sorting the items of a scan keeps their identifiers distinct.
use opatchy.Base.{
  List, String, [], ap, arith, bool_eq, contains, eq_iff, false, is_unique, list_eq, nat_eq,
  option_eq, refl, string_eq, true, ◌==◌, ◌||◌, ◌∙◌, ◌∷◌, ◌≡◌,
}
use opatchy.Models.{
  NormalizedItem, arch_status_eq, condition_eq, item_source_eq, provenance_eq, severity_eq,
  source_name_eq, source_scope_eq, source_status_eq, watch_eq, watch_mode_eq,
}
use opatchy.Scan.Assembly.{insert_item, item_ids, sort_items}

contains-insert_item :
    (k : String) (a : NormalizedItem) (items : List NormalizedItem)
    → contains k (item_ids (insert_item a items)) ≡ (k == a.item_id || contains k (item_ids items))
unfolding insert_item
contains-insert_item k a [] = refl
contains-insert_item k a (b ∷ bs) = ground (arith, contains-insert_item k a bs)

contains-sort_items :
    (k : String) (items : List NormalizedItem)
    → contains k (item_ids (sort_items items)) ≡ contains k (item_ids items)
unfolding sort_items
contains-sort_items k [] = refl
contains-sort_items k (a ∷ items) =
    contains-insert_item k a (sort_items items)
    ∙ ap (λ rest. k == a.item_id || rest) (contains-sort_items k items)

is_unique-insert_item :
    (a : NormalizedItem) (items : List NormalizedItem)
    → contains a.item_id (item_ids items) ≡ false
    → is_unique (item_ids items) ≡ true
    → is_unique (item_ids (insert_item a items)) ≡ true
unfolding insert_item
is_unique-insert_item a [] h u = refl
is_unique-insert_item a (b ∷ bs) h u = ground (
  arith,
  contains-insert_item b.item_id a bs,
  is_unique-insert_item a bs,
  eq_iff a.item_id b.item_id,
  eq_iff b.item_id a.item_id,
)

pub is_unique-sort_items :
    (items : List NormalizedItem)
    → is_unique (item_ids items) ≡ true
    → is_unique (item_ids (sort_items items)) ≡ true
unfolding sort_items
is_unique-sort_items [] h = refl
is_unique-sort_items (a ∷ items) h =
    is_unique-insert_item a (sort_items items) (contains-sort_items a.item_id items ∙ ground arith)
      (is_unique-sort_items items (ground arith))
