-- ===== src/Stars/Scans.antt =====
-- What a scan of one source does to the watches.
use opatchy.Base.{
  >>=-eq-ok, In, List, Option, [], arith, false, here, none, ok, ok-injective, refl, some,
  starts_with, there, ◌+++◌, ◌∷◌, ◌≡◌, ◌⊎◌,
}
use opatchy.Models.{PersistentState, WatchMode, WatchRecord, item_source_value}
use opatchy.Stars.{
  FreshSourceScan, fresh_scan, fresh_source_scan, keep, observe_watch, observe_watches, transition,
}

-- A scan that has been applied has nothing more to change in the watch that it left.
observe_watch_idem :
    (w u : WatchRecord) (event : FreshSourceScan)
    → observe_watch w event ≡ ok (some u)
    → observe_watch u event ≡ ok (some u)
unfolding observe_watch
observe_watch_idem w u event h = ground arith

observe_watches_idem :
    (event : FreshSourceScan) (watches updated : List WatchRecord)
    → observe_watches event watches ≡ ok updated
    → observe_watches event updated ≡ ok updated
unfolding observe_watches
observe_watches_idem event [] updated h = rw (← ok-injective h)
observe_watches_idem event (w ∷ ws) updated h =
    let (o, seen, h₁) = >>=-eq-ok (observe_watch w event) _ h in
    let (rest, rested, h₂) = >>=-eq-ok (observe_watches event ws) _ h₁ in
    rw (← ok-injective h₂) (go o seen rest (observe_watches_idem event ws rest rested))
  where
    go :
        (o : Option WatchRecord)
        → observe_watch w event ≡ ok o
        → (rest : List WatchRecord) → observe_watches event rest ≡ ok rest
        → observe_watches event (keep o rest) ≡ ok (keep o rest)
    go none seen rest ih = ih
    go (some u) seen rest ih = rw (observe_watch_idem w u event seen, ih)

-- Scanning a source a second time with the same evidence changes nothing.
pub fresh_scan_idempotent :
    (state : PersistentState) (event : FreshSourceScan) (state' : PersistentState)
    → transition state (fresh_source_scan event) ≡ ok state'
    → transition state' (fresh_source_scan event) ≡ ok state'
unfolding transition fresh_scan
fresh_scan_idempotent state event state' h =
    let (watches, seen, same) = >>=-eq-ok (observe_watches event state.watches) _ h in
    rw (← ok-injective same) (rw (observe_watches_idem event state.watches watches seen))

-- A watch that a scan of the source leaves alone.
abbrev pub IsUnrelated : FreshSourceScan → WatchRecord → Type 0
IsUnrelated event w =
    (w.mode ≡ WatchMode.permanent)
    ⊎ (starts_with w.item_id (item_source_value event.source +++ ":") ≡ false)

observe_watch_unrelated :
    (w : WatchRecord) (event : FreshSourceScan) (o : Option WatchRecord)
    → IsUnrelated event w
    → observe_watch w event ≡ ok o
    → o ≡ some w
unfolding observe_watch
observe_watch_unrelated w event o u h = ground arith

In-keep :
    {w : WatchRecord} (o : Option WatchRecord) {ws : List WatchRecord} → In w ws → In w (keep o ws)
In-keep none m = m
In-keep (some u) m = there m

observe_watches_unrelated :
    (event : FreshSourceScan) {w : WatchRecord} {watches : List WatchRecord}
    {updated : List WatchRecord}
    → IsUnrelated event w
    → In w watches
    → observe_watches event watches ≡ ok updated
    → In w updated
unfolding observe_watches
observe_watches_unrelated event {w} u (here {xs}) h =
    let (o, seen, h₁) = >>=-eq-ok (observe_watch w event) _ h in
    let (rest, rested, h₂) = >>=-eq-ok (observe_watches event xs) _ h₁ in
    rw (← ok-injective h₂) (rw (observe_watch_unrelated w event o u seen) here)
observe_watches_unrelated event {w} u (there {x} {xs} m) h =
    let (o, seen, h₁) = >>=-eq-ok (observe_watch x event) _ h in
    let (rest, rested, h₂) = >>=-eq-ok (observe_watches event xs) _ h₁ in
    rw (← ok-injective h₂) (In-keep o (observe_watches_unrelated event u m rested))

-- A scan of one source keeps, unchanged, every permanent watch and every watch whose identifier
-- does not begin with the name of the source and a colon; it also keeps the ledger and the metadata.
pub fresh_scan_unrelated :
    (state : PersistentState) (event : FreshSourceScan) (state' : PersistentState) (w : WatchRecord)
    → transition state (fresh_source_scan event) ≡ ok state'
    → In w state.watches
    → IsUnrelated event w
    → In w state'.watches × (state'.ledger ≡ state.ledger) × (state'.sources ≡ state.sources)
unfolding transition fresh_scan
fresh_scan_unrelated state event state' w h m u =
    let (watches, seen, same) = >>=-eq-ok (observe_watches event state.watches) _ h in
    let e = ok-injective same in rw (← e) (observe_watches_unrelated event u m seen, refl, refl)
