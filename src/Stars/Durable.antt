-- ===== src/Stars/Durable.antt =====
-- Every transition keeps the durable state writable.
use mathlib.Core.List.{map-append}
use opatchy.Base.{
  >>=-eq-ok, Bool, Bool-cases, List, Option, Option-cases, String, [], arith, contains, each, false,
  filter, find, inl, inr, none, not, ok, ok-injective, refl, some, string_eq, true, ◌++◌, ◌==◌, ◌∷◌,
  ◌≡◌, ◌⊎◌,
}
use opatchy.Base.Unique.{
  Sub, Sub-map-filter, contains_of_find-none, is_unique-Sub, is_unique-append_one, key_of_find,
  skip_one, stop, take_one,
}
use opatchy.Models.{PersistentState, WatchMode, WatchRecord, watch_beq_iff, watch_eq}
use opatchy.Stars.{
  CachedInventory, CachedItem, FreshSourceScan, StarClick, WatchEvent, click_existing_watch,
  failed_source_scan, find_watch, fresh_scan, fresh_source_scan, invalid_source_scan, keep,
  make_permanent, new_watch, observe_watch, observe_watches, permanent_watch, stale_source_scan,
  star_click, star_click_event, transition, without_active_references,
}
use opatchy.Storage.Durable.{
  IsDurable, each-append_one, each-cons, each-filter, validate_state-IsDurable,
  validate_state_of_IsDurable, watch_ids,
}
use opatchy.Storage.State.{validate_lease, validate_state}
use opatchy.Storage.Watches.{validate_watch}

new_watch-valid :
    (found : Option CachedItem) (watch : WatchRecord)
    → new_watch found ≡ ok watch
    → validate_watch watch ≡ ok tt
unfolding new_watch validate_watch
new_watch-valid none watch h = cc
new_watch-valid (some item) watch h = ground arith

permanent_watch-valid : (item_id : String) → validate_watch (permanent_watch item_id) ≡ ok tt
unfolding validate_watch
permanent_watch-valid item_id = refl

make_permanent-ids :
    (watch : WatchRecord) (watches : List WatchRecord)
    → watch_ids (make_permanent watch watches) ≡ watch_ids watches
unfolding make_permanent
make_permanent-ids watch [] = refl
make_permanent-ids watch (w ∷ ws) =
    ground (arith, watch_beq_iff w watch, make_permanent-ids watch ws)

make_permanent-valid :
    (watch : WatchRecord) (watches : List WatchRecord)
    → each validate_watch watches ≡ ok tt
    → each validate_watch (make_permanent watch watches) ≡ ok tt
unfolding make_permanent
make_permanent-valid watch [] h = refl
make_permanent-valid watch (w ∷ ws) h =
    let (here', later) = each-cons validate_watch w ws h in
    elim (Bool-cases (w == watch)) [
      | inl same ↦
          rw same (rw (permanent_watch-valid watch.item_id) (make_permanent-valid watch ws later))
      | inr other ↦ rw (other, here') (make_permanent-valid watch ws later)
    ]

pub observe_watch-valid :
    (watch : WatchRecord) (event : FreshSourceScan) (updated : WatchRecord)
    → validate_watch watch ≡ ok tt
    → observe_watch watch event ≡ ok (some updated)
    → (validate_watch updated ≡ ok tt) × (updated.item_id ≡ watch.item_id)
unfolding observe_watch validate_watch
observe_watch-valid watch event updated v h = ground arith

keep-valid :
    (w : WatchRecord) (event : FreshSourceScan) (o : Option WatchRecord)
    (rest ws : List WatchRecord)
    → validate_watch w ≡ ok tt
    → observe_watch w event ≡ ok o
    → Sub (watch_ids rest) (watch_ids ws)
    → each validate_watch rest ≡ ok tt
    → Sub (watch_ids (keep o rest)) (watch_ids (w ∷ ws))
      × (each validate_watch (keep o rest) ≡ ok tt)
keep-valid w event none rest ws v seen sub valid = (skip_one sub, valid)
keep-valid w event (some u) rest ws v seen sub valid =
    let (vu, same) = observe_watch-valid w event u v seen in (rw same (take_one sub), rw vu valid)

-- the identifiers that a scan keeps, and their watches
pub observe_watches-Sub :
    (event : FreshSourceScan) (watches updated : List WatchRecord)
    → each validate_watch watches ≡ ok tt
    → observe_watches event watches ≡ ok updated
    → Sub (watch_ids updated) (watch_ids watches) × (each validate_watch updated ≡ ok tt)
unfolding observe_watches
observe_watches-Sub event [] updated v h = (rw (← ok-injective h) stop, rw (← ok-injective h))
observe_watches-Sub event (w ∷ ws) updated v h =
    let (here', later) = each-cons validate_watch w ws v in
    let (o, seen, h₁) = >>=-eq-ok (observe_watch w event) _ h in
    let (rest, rested, h₂) = >>=-eq-ok (observe_watches event ws) _ h₁ in
    let (sub, valid) = observe_watches-Sub event ws rest later rested in
    rw (← ok-injective h₂) (keep-valid w event o rest ws here' seen sub valid)

pub new_watch-item :
    (found : Option CachedItem) (watch : WatchRecord)
    → new_watch found ≡ ok watch
    → (item : CachedItem) × (found ≡ some item)
      × (watch.item_id ≡ item.item_id)
      × (item.watchable ≡ true)
      × (watch.mode ≡ WatchMode.temporary)
unfolding new_watch
new_watch-item none watch h = cc
new_watch-item (some item) watch h = (item, refl, ground arith, ground arith, ground arith)

abbrev promoted : PersistentState → WatchRecord → PersistentState
promoted state watch = record state { watches = make_permanent watch state.watches }

abbrev removed : PersistentState → WatchRecord → PersistentState
removed state watch = record state {
  watches = filter (λ w. not (w == watch)) state.watches;
  ledger = without_active_references state.ledger watch.item_id;
}

click_existing_watch-cases :
    (state : PersistentState) (watch : WatchRecord) (inventory : CachedInventory) (current : Bool)
    {state' : PersistentState}
    → click_existing_watch state watch inventory current ≡ ok state'
    → (promoted state watch ≡ state') ⊎ (removed state watch ≡ state')
unfolding click_existing_watch
click_existing_watch-cases state watch inventory current h = ground arith

module _ (state : PersistentState) (d : IsDurable state) where
  star_click_new-IsDurable :
      (event : StarClick) (watch : WatchRecord)
      → find_watch event.item_id state.watches ≡ none
      → new_watch (find (λ c. c.item_id == event.item_id) event.inventory.items) ≡ ok watch
      → IsDurable (record state { watches = state.watches ++ watch ∷ [] })
  star_click_new-IsDurable event watch absent made =
      let (item, found, same, _, _) = new_watch-item _ watch made in
      let fresh : contains watch.item_id (watch_ids state.watches) ≡ false =
        rw (same, key_of_find (λ c. c.item_id) event.item_id event.inventory.items item found)
          (contains_of_find-none (λ w. w.item_id) event.item_id state.watches absent) in
      record {
        watches_unique =
            rw map-append
              (is_unique-append_one (watch_ids state.watches) watch.item_id d.watches_unique fresh);
        ledger_unique = d.ledger_unique;
        sources_unique = d.sources_unique;
        watches_valid =
            each-append_one validate_watch state.watches watch d.watches_valid
              (new_watch-valid _ watch made);
        leases_valid = d.leases_valid;
      }

  promoted-IsDurable : (watch : WatchRecord) → IsDurable (promoted state watch)
  promoted-IsDurable watch = record {
    watches_unique = rw (make_permanent-ids watch state.watches) d.watches_unique;
    ledger_unique = d.ledger_unique;
    sources_unique = d.sources_unique;
    watches_valid = make_permanent-valid watch state.watches d.watches_valid;
    leases_valid = d.leases_valid;
  }

  removed-IsDurable : (watch : WatchRecord) → IsDurable (removed state watch)
  unfolding without_active_references
  removed-IsDurable watch = record {
    watches_unique = is_unique-Sub (Sub-map-filter _ _ state.watches) d.watches_unique;
    ledger_unique = is_unique-Sub (Sub-map-filter _ _ state.ledger) d.ledger_unique;
    sources_unique = d.sources_unique;
    watches_valid = each-filter validate_watch _ state.watches d.watches_valid;
    leases_valid = each-filter validate_lease _ state.ledger d.leases_valid;
  }

  click_existing_watch-IsDurable :
      (watch : WatchRecord) (inventory : CachedInventory) (current : Bool)
      {state' : PersistentState}
      → click_existing_watch state watch inventory current ≡ ok state'
      → IsDurable state'
  click_existing_watch-IsDurable watch inventory current h =
      elim (click_existing_watch-cases state watch inventory current h) [
        | inl same ↦ rw (← same) (promoted-IsDurable watch)
        | inr same ↦ rw (← same) (removed-IsDurable watch)
      ]

  star_click-IsDurable :
      (event : StarClick) {state' : PersistentState}
      → star_click state event ≡ ok state'
      → IsDurable state'
  unfolding star_click
  star_click-IsDurable event h = elim (Option-cases (find_watch event.item_id state.watches)) [
    | inl absent ↦
        let (watch, made, same) = >>=-eq-ok (new_watch _) _ (rw (absent, star_click) at h) in
        rw (← ok-injective same) (star_click_new-IsDurable event watch absent made)
    | inr (watch, found) ↦
        click_existing_watch-IsDurable watch event.inventory event.require_current_inventory
          (rw (found, star_click) at h)
  ]

  fresh_scan-IsDurable :
      (event : FreshSourceScan) {state' : PersistentState}
      → fresh_scan state event ≡ ok state'
      → IsDurable state'
  unfolding fresh_scan
  fresh_scan-IsDurable event h =
      let (watches, seen, same) = >>=-eq-ok (observe_watches event state.watches) _ h in
      let (sub, valid) = observe_watches-Sub event state.watches watches d.watches_valid seen in
      rw (← ok-injective same) (record {
        watches_unique = is_unique-Sub sub d.watches_unique;
        ledger_unique = d.ledger_unique;
        sources_unique = d.sources_unique;
        watches_valid = valid;
        leases_valid = d.leases_valid;
      })

-- Whatever the event, a transition from a state that the storage accepts, when it does not raise,
-- ends in a state that the storage accepts.
pub transition-IsDurable :
    (state : PersistentState) (event : WatchEvent) (state' : PersistentState)
    → validate_state state ≡ ok tt
    → transition state event ≡ ok state'
    → validate_state state' ≡ ok tt
unfolding transition
transition-IsDurable state (star_click_event click) state' v h =
    validate_state_of_IsDurable state'
      (star_click-IsDurable state (validate_state-IsDurable state v) click h)
transition-IsDurable state (fresh_source_scan scan) state' v h =
    validate_state_of_IsDurable state'
      (fresh_scan-IsDurable state (validate_state-IsDurable state v) scan h)
transition-IsDurable state (stale_source_scan source) state' v h = rw (← ok-injective h) v
transition-IsDurable state (failed_source_scan source) state' v h = rw (← ok-injective h) v
transition-IsDurable state (invalid_source_scan source) state' v h = rw (← ok-injective h) v
