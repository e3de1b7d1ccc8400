-- ===== src/Cli/Pages.antt =====
-- The inventory that is shown: helper/opatchy_helper/cli_operations.py.
use opatchy.Base.{
  Bool, Bool-cases, List, String, [], ap, arith, bool_eq, count, drop, eq_iff, false, filter,
  if◌then◌else◌, inl, inr, length, list_eq, nat_eq, not, option_eq, refl, string_eq, sym, take,
  text_leb, true, ℕ, ℤ, ◌&&◌, ◌+◌, ◌==◌, ◌∙◌, ◌∷◌, ◌≡◌, ◌≢◌,
}
use opatchy.Base.TextOrder.{text_leb-total}
use opatchy.Cli.Operations.{
  insert_by_key, inventory_items, item_key_leb, matches_query, shown_inventory, sort_by_key,
}
use opatchy.Models.{
  InventoryResponse, ItemSource, NormalizedItem, WatchMode, WatchRecord, arch_status_eq,
  condition_eq, item_source_eq, provenance_eq, severity_eq, source_name_eq, source_scope_eq,
  source_status_eq, watch_eq, watch_mode_eq,
}

-- `item.watch_mode is not WatchMode.OFF`
abbrev pub is_watched : NormalizedItem → Bool
is_watched item = not (item.watch_mode == WatchMode.off)

module _ (casefold : String → String) where
  -- `a` may stand before `b`: it is watched and `b` is not, or both are or neither is and its label is
  -- smaller without case, or the same and its identifier is at most that of `b`.
  pub data IsBefore (a b : NormalizedItem) : Type 0 where
    by_watch : is_watched a ≡ true → is_watched b ≡ false → IsBefore a b
    by_label :
        is_watched a ≡ is_watched b
        → casefold a.label ≢ casefold b.label
        → text_leb (casefold a.label) (casefold b.label) ≡ true
        → IsBefore a b
    by_id :
        is_watched a ≡ is_watched b
        → casefold a.label ≡ casefold b.label
        → text_leb a.item_id b.item_id ≡ true
        → IsBefore a b

  -- the items are in order, each before the next one
  abbrev pub IsOrdered : List NormalizedItem → Type 0
  IsOrdered [] = Unit
  IsOrdered (a ∷ []) = Unit
  IsOrdered (a ∷ b ∷ items) = IsBefore a b × IsOrdered (b ∷ items)

  same_rank-IsBefore :
      (a b : NormalizedItem)
      → is_watched a ≡ is_watched b
      → item_key_leb casefold a b ≡ true
      → IsBefore a b
  unfolding item_key_leb
  same_rank-IsBefore a b same h = elim (Bool-cases (casefold a.label == casefold b.label)) [
    | inl labels ↦
        by_id same ((string_eq.beq_iff (casefold a.label) (casefold b.label)).0 labels)
          (ground arith)
    | inr apart ↦
        by_label same (ground (arith, eq_iff (casefold a.label) (casefold b.label))) (ground arith)
  ]

  item_key_leb-IsBefore : (a b : NormalizedItem) → item_key_leb casefold a b ≡ true → IsBefore a b
  unfolding item_key_leb
  item_key_leb-IsBefore a b h = elim (Bool-cases (is_watched a)) [
    | inl watched ↦ elim (Bool-cases (is_watched b)) [
      | inl both ↦ same_rank-IsBefore a b (watched ∙ sym both) h
      | inr only ↦ by_watch watched only
    ]
    | inr plain ↦ elim (Bool-cases (is_watched b)) [
      | inl other ↦ absurd (ground arith)
      | inr neither ↦ same_rank-IsBefore a b (plain ∙ sym neither) h
    ]
  ]

  item_key_leb-total :
      (a b : NormalizedItem) → item_key_leb casefold a b ≡ false → item_key_leb casefold b a ≡ true
  unfolding item_key_leb
  item_key_leb-total a b h = ground (
    arith,
    text_leb-total a.item_id b.item_id,
    text_leb-total (casefold a.label) (casefold b.label),
    eq_iff (casefold a.label) (casefold b.label),
    eq_iff (casefold b.label) (casefold a.label),
  )

  insert_by_key-IsOrdered :
      (a : NormalizedItem) (items : List NormalizedItem)
      → IsOrdered items
      → IsOrdered (insert_by_key casefold a items)
  unfolding insert_by_key
  insert_by_key-IsOrdered a [] h = tt
  insert_by_key-IsOrdered a (b ∷ []) h = elim (Bool-cases (item_key_leb casefold a b)) [
    | inl first ↦ rw first (item_key_leb-IsBefore a b first, tt)
    | inr after ↦ rw after (item_key_leb-IsBefore b a (item_key_leb-total a b after), tt)
  ]
  insert_by_key-IsOrdered a (b ∷ c ∷ items) (h, rest) =
      let later = insert_by_key-IsOrdered a (c ∷ items) rest in
      elim (Bool-cases (item_key_leb casefold a b)) [
        | inl first ↦ rw first (item_key_leb-IsBefore a b first, (h, rest))
        | inr after ↦
            let before = item_key_leb-IsBefore b a (item_key_leb-total a b after) in
            elim (Bool-cases (item_key_leb casefold a c)) [
              | inl second ↦ rw (after, second) (before, rw second at later)
              | inr last ↦ rw (after, last) (h, rw last at later)
            ]
      ]

  sort_by_key-IsOrdered : (items : List NormalizedItem) → IsOrdered (sort_by_key casefold items)
  unfolding sort_by_key
  sort_by_key-IsOrdered [] = tt
  sort_by_key-IsOrdered (a ∷ items) =
      insert_by_key-IsOrdered a (sort_by_key casefold items) (sort_by_key-IsOrdered items)

  module _ (p : NormalizedItem → Bool) where
    count-insert_by_key :
        (a : NormalizedItem) (items : List NormalizedItem)
        → count p (insert_by_key casefold a items) ≡ count p (a ∷ items)
    unfolding insert_by_key
    count-insert_by_key a [] = refl
    count-insert_by_key a (b ∷ items) = ground (arith, count-insert_by_key a items)

    count-sort_by_key :
        (items : List NormalizedItem) → count p (sort_by_key casefold items) ≡ count p items
    unfolding sort_by_key
    count-sort_by_key [] = refl
    count-sort_by_key (a ∷ items) =
        count-insert_by_key a (sort_by_key casefold items)
        ∙ ap (λ n. (if p a then 1 else 0) + n) (count-sort_by_key items)

    count-filter :
        (q : NormalizedItem → Bool) (items : List NormalizedItem)
        → count p (filter q items) ≡ count (λ item. q item && p item) items
    count-filter q [] = refl
    count-filter q (a ∷ items) = ground (arith, count-filter q items)

  -- The items that match a query stand in one order, and every page is cut out of it: a page has the items
  -- from its offset on, its limit of them at most, and its total is the number of all. The order has
  -- the watched items first, then goes by the label without case, then by the identifier; and it has
  -- the matching items of the inventory with the missing permanent ones, each as often as they do.
  pub shown_inventory-pages :
      (stored : InventoryResponse) (watches : List WatchRecord) (source : ItemSource)
      (query : String)
      → (ordered : List NormalizedItem) × IsOrdered ordered
        × ((p : NormalizedItem → Bool)
            → count p ordered
              ≡ count
                  (λ item. matches_query casefold item (casefold query) && p item)
                  (inventory_items stored watches source))
        × ((limit offset : ℕ)
            → let shown =
                shown_inventory casefold stored watches
                  (record { source = source; query = query; limit = limit; offset = offset }) in
              (shown.payload.items ≡ take limit (drop offset ordered))
              × (shown.payload.total ≡ ℤ.pos (length ordered)))
  unfolding shown_inventory
  shown_inventory-pages stored watches source query =
      let matching = λ (item : NormalizedItem). matches_query casefold item (casefold query) in
      let items = inventory_items stored watches source in
      (
        sort_by_key casefold (filter matching items),
        sort_by_key-IsOrdered (filter matching items),
        λ p. count-sort_by_key p (filter matching items) ∙ count-filter p matching items,
        λ limit offset. (refl, refl),
      )
