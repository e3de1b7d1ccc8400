-- ===== src/Stars/Clicks.antt =====
-- The cycle of a star: off, temporary, permanent, off.
use opatchy.Base.{
  Bool, List, String, [], any, ap, arith, eq_iff, filter, find, none, not, ok, refl, some,
  string_eq, true, ◌&&◌, ◌++◌, ◌==◌, ◌>>=◌, ◌∙◌, ◌∷◌, ◌≡◌,
}
use opatchy.Base.Unique.{key_of_find}
use opatchy.Models.{PersistentState, WatchMode, WatchRecord, watch_beq_iff, watch_eq}
use opatchy.Stars.{
  CachedInventory, CachedItem, StarClick, Transition, click_existing_watch, find_watch,
  make_permanent, new_watch, permanent_watch, star_click, star_click_event, transition,
  without_active_references,
}
use opatchy.Stars.Durable.{new_watch-item}

find-append_one {ℓ} :
    {A : Type ℓ} (p : A → Bool) (xs : List A) (x : A)
    → find p xs ≡ none
    → p x ≡ true
    → find p (xs ++ x ∷ []) ≡ some x
find-append_one p [] x h k = rw k
find-append_one p (y ∷ xs) x h k = ground (arith, find-append_one p xs x)

abbrev IsAbsent : String → List WatchRecord → Type 0
IsAbsent item_id watches = find_watch item_id watches ≡ none

make_permanent-append :
    (w : WatchRecord) (ws : List WatchRecord)
    → IsAbsent w.item_id ws
    → make_permanent w (ws ++ w ∷ []) ≡ ws ++ permanent_watch w.item_id ∷ []
unfolding make_permanent
make_permanent-append w [] h = ground (arith, watch_beq_iff w w)
make_permanent-append w (v ∷ ws) h =
    ground (arith, watch_beq_iff v w, eq_iff v.item_id w.item_id, make_permanent-append w ws)

filter_absent :
    (w : WatchRecord) (ws : List WatchRecord)
    → IsAbsent w.item_id ws
    → filter (λ v. not (v == w)) (ws ++ w ∷ []) ≡ ws
filter_absent w [] h = ground (arith, watch_beq_iff w w)
filter_absent w (v ∷ ws) h =
    ground (arith, watch_beq_iff v w, eq_iff v.item_id w.item_id, filter_absent w ws)

any_of_find :
    (item_id : String) (items : List CachedItem) (item : CachedItem)
    → find (λ c. c.item_id == item_id) items ≡ some item
    → item.watchable ≡ true
    → any (λ c. c.item_id == item_id && c.watchable) items ≡ true
any_of_find item_id [] item h k = cc
any_of_find item_id (c ∷ cs) item h k = ground (arith, any_of_find item_id cs item)

star_click_found :
    (state : PersistentState) (click : StarClick) (w : WatchRecord)
    → find_watch click.item_id state.watches ≡ some w
    → star_click state click
      ≡ click_existing_watch state w click.inventory click.require_current_inventory
unfolding star_click
star_click_found state click w found = rw (found, star_click)

click_temporary :
    (state : PersistentState) (w : WatchRecord) (inventory : CachedInventory) (current : Bool)
    → w.mode ≡ WatchMode.temporary
    → any (λ c. c.item_id == w.item_id && c.watchable) inventory.items ≡ true
    → click_existing_watch state w inventory current
      ≡ ok (record state { watches = make_permanent w state.watches })
unfolding click_existing_watch
click_temporary state w inventory current mode listed = ground arith

click_permanent :
    (state : PersistentState) (item_id : String) (inventory : CachedInventory) (current : Bool)
    → click_existing_watch state (permanent_watch item_id) inventory current
      ≡ ok (record state {
        watches = filter (λ v. not (v == permanent_watch item_id)) state.watches;
        ledger = without_active_references state.ledger item_id;
      })
unfolding click_existing_watch
click_permanent state item_id inventory current = refl

module _ (state : PersistentState) (click : StarClick) (w : WatchRecord)
    (absent : IsAbsent click.item_id state.watches)
    (made : new_watch (find (λ c. c.item_id == click.item_id) click.inventory.items) ≡ ok w) where
  abbrev temporary_state : PersistentState
  temporary_state = record state { watches = state.watches ++ w ∷ [] }

  abbrev permanent_state : PersistentState
  permanent_state = record state { watches = state.watches ++ permanent_watch click.item_id ∷ [] }

  abbrev off_state : PersistentState
  off_state = record state { ledger = without_active_references state.ledger click.item_id }

  new_watch-id : w.item_id ≡ click.item_id
  new_watch-id =
      let (item, found, same, _, _) = new_watch-item _ w made in
      same ∙ key_of_find (λ c. c.item_id) click.item_id click.inventory.items item found

  listed : any (λ c. c.item_id == click.item_id && c.watchable) click.inventory.items ≡ true
  listed =
      let (item, found, _, ready, _) = new_watch-item _ w made in
      any_of_find click.item_id click.inventory.items item found ready

  first_click : star_click state click ≡ ok temporary_state
  unfolding star_click
  first_click = rw (absent, star_click) (rw made)

  second_click : star_click temporary_state click ≡ ok permanent_state
  second_click =
      let (_, _, _, _, mode) = new_watch-item _ w made in
      star_click_found temporary_state click w (
        find-append_one (λ v. v.item_id == click.item_id) state.watches w absent
          ((eq_iff _ _).1 new_watch-id))
      ∙ click_temporary temporary_state w click.inventory click.require_current_inventory mode
          (rw new_watch-id listed)
      ∙ ap {B = Transition PersistentState} (λ ws. ok (record state { watches = ws }))
          (make_permanent-append w state.watches (rw new_watch-id absent)
            ∙ ap (λ i. state.watches ++ permanent_watch i ∷ []) new_watch-id)

  third_click : star_click permanent_state click ≡ ok off_state
  third_click =
      star_click_found permanent_state click (permanent_watch click.item_id) (
        find-append_one (λ v. v.item_id == click.item_id) state.watches
          (permanent_watch click.item_id) absent ((eq_iff _ _).1 refl))
      ∙ click_permanent permanent_state click.item_id click.inventory
          click.require_current_inventory
      ∙ ap {B = Transition PersistentState} (λ ws. ok (record off_state { watches = ws }))
          (filter_absent (permanent_watch click.item_id) state.watches absent)

-- Three clicks on the star of an item that has no watch and that the inventory makes watchable do
-- not raise. They leave the watches as they were, and the ledger without the pending entries
-- that refer to the item.
pub star_cycle :
    (state : PersistentState) (click : StarClick) (w : WatchRecord)
    → find_watch click.item_id state.watches ≡ none
    → new_watch (find (λ c. c.item_id == click.item_id) click.inventory.items) ≡ ok w
    → (do
      temporary ← transition state (star_click_event click)
      permanent ← transition temporary (star_click_event click)
      transition permanent (star_click_event click))
      ≡ ok (record state { ledger = without_active_references state.ledger click.item_id })
unfolding transition
star_cycle state click w absent made =
    rw (first_click state click w absent made)
      (rw (second_click state click w absent made) (third_click state click w absent made))
