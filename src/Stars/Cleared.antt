-- ===== src/Stars/Cleared.antt =====
-- A temporary star ends when a scan finds that its item was updated.
use opatchy.Base.{
  >>=-eq-ok, In, List, Option, String, arith, contains, each, false, here, is_unique, none, ok,
  ok-injective, option_eq, some, starts_with, string_eq, sym, there, true, ◌+++◌, ◌==◌, ◌≡◌, ◌≢◌,
}
use opatchy.Base.Members.{In-map_of}
use opatchy.Base.Unique.{contains-In, contains-Sub, eq_false, find_of_contains-false}
use opatchy.Models.{PersistentState, WatchMode, WatchRecord, item_source_value}
use opatchy.Stars.{
  CachedItem, FreshSourceScan, find_watch, fresh_scan, fresh_source_scan, keep, observe_item,
  observe_temporary, observe_watch, observe_watches, scanned_item, transition,
}
use opatchy.Stars.Durable.{observe_watch-valid, observe_watches-Sub}
use opatchy.Storage.Durable.{each-cons, validate_state-IsDurable, watch_ids}
use opatchy.Storage.State.{validate_state}
use opatchy.Storage.Watches.{validate_watch}

other_id :
    (x w : WatchRecord) (ws : List WatchRecord)
    → In w ws
    → contains x.item_id (watch_ids ws) ≡ false
    → (w.item_id == x.item_id) ≡ false
other_id x w ws m h = eq_false w.item_id x.item_id λ same.
    let inside : contains w.item_id (watch_ids ws) ≡ true =
      contains-In (In-map_of (λ v. v.item_id) m) in
    let outside : contains w.item_id (watch_ids ws) ≡ false = rw same h in cc

keep-absent :
    (x : WatchRecord) (event : FreshSourceScan) (o : Option WatchRecord) (rest : List WatchRecord)
    (id : String)
    → validate_watch x ≡ ok tt
    → observe_watch x event ≡ ok o
    → (id == x.item_id) ≡ false
    → contains id (watch_ids rest) ≡ false
    → contains id (watch_ids (keep o rest)) ≡ false
keep-absent x event none rest id v seen other h = h
keep-absent x event (some u) rest id v seen other h =
    let (_, same) = observe_watch-valid x event u v seen in rw same (rw other h)

observe_watches-absent :
    (event : FreshSourceScan) {w : WatchRecord} {ws us : List WatchRecord}
    → is_unique (watch_ids ws) ≡ true
    → each validate_watch ws ≡ ok tt
    → In w ws
    → observe_watch w event ≡ ok none
    → observe_watches event ws ≡ ok us
    → contains w.item_id (watch_ids us) ≡ false
unfolding observe_watches
observe_watches-absent event {w} {us} once v (here {xs}) gone h =
    let (_, later) = each-cons validate_watch w xs v in
    let (o, seen, h₁) = >>=-eq-ok (observe_watch w event) _ h in
    let (rest, rested, h₂) = >>=-eq-ok (observe_watches event xs) _ h₁ in
    let (sub, _) = observe_watches-Sub event xs rest later rested in
    let dropped : none ≡ o = ok-injective (rw gone at seen) in
    rw (← ok-injective h₂) (rw (← dropped) (contains-Sub w.item_id sub (ground arith)))
observe_watches-absent event {w} {us} once v (there {x} {xs} m) gone h =
    let (now', later) = each-cons validate_watch x xs v in
    let (o, seen, h₁) = >>=-eq-ok (observe_watch x event) _ h in
    let (rest, rested, h₂) = >>=-eq-ok (observe_watches event xs) _ h₁ in
    rw (← ok-injective h₂) (
      keep-absent x event o rest w.item_id now' seen (other_id x w xs m (ground arith))
        (observe_watches-absent event (ground arith) later m gone rested))

updated_is_gone :
    (event : FreshSourceScan) (w : WatchRecord) (item : CachedItem) (installed : String)
    → w.mode ≡ WatchMode.temporary
    → starts_with w.item_id (item_source_value event.source +++ ":") ≡ true
    → scanned_item event w.item_id ≡ some item
    → item.installed_fingerprint ≡ some installed
    → w.installed_fingerprint ≢ some installed
    → observe_watch w event ≡ ok none
unfolding observe_watch observe_temporary observe_item
updated_is_gone event w item installed temporary of_source scanned e ne =
    rw (temporary, of_source, scanned, e)
      (rw (eq_false (some installed) w.installed_fingerprint (λ same. ne (sym same))))

-- In a state that the storage accepts, a scan removes a temporary watch of its source when it lists
-- the item of the watch as installed with another fingerprint than the watch recorded.
pub fresh_scan_clears :
    (state : PersistentState) (event : FreshSourceScan) (state' : PersistentState) (w : WatchRecord)
    (item : CachedItem) (installed : String)
    → validate_state state ≡ ok tt
    → transition state (fresh_source_scan event) ≡ ok state'
    → In w state.watches
    → w.mode ≡ WatchMode.temporary
    → starts_with w.item_id (item_source_value event.source +++ ":") ≡ true
    → scanned_item event w.item_id ≡ some item
    → item.installed_fingerprint ≡ some installed
    → w.installed_fingerprint ≢ some installed
    → find_watch w.item_id state'.watches ≡ none
unfolding transition fresh_scan
fresh_scan_clears state event state' w item installed v h m temporary of_source scanned e ne =
    let d = validate_state-IsDurable state v in
    let (watches, seen, same) = >>=-eq-ok (observe_watches event state.watches) _ h in
    rw (← ok-injective same) (
      find_of_contains-false (λ u. u.item_id) w.item_id watches
        (observe_watches-absent event d.watches_unique d.watches_valid m
          (updated_is_gone event w item installed temporary of_source scanned e ne) seen))
