-- ===== src/Tests/Scans.antt =====
-- A scan in which `arch` times out, and the state and the responses around it.
use opatchy.Base.{
  In, [], arith, false, filter, here, length, none, ok, refl, some, true, ◌+◌, ◌∷◌, ◌≡◌, ◌≤◌, ◌⊎◌,
}
use opatchy.Models.{
  GenerationBundle, ItemSource, LedgerEntry, PersistentState, Provenance, Response, SourceName,
  SourceStatus, empty_state, is_active,
}
use opatchy.Scan.Assembly.{inventories, inventory_of}
use opatchy.Scan.Generation.{
  ScanInputs, build_generation, due, identified_outcomes, next_metadata, resolve_all,
}
use opatchy.Scan.Generation.Backoff.{
  due_after_six_hours, failed_source_waits, successful_source_rests,
}
use opatchy.Scan.Generation.Complete.{IsBuilt, build_generation-IsBuilt, collected_ids}
use opatchy.Scan.Generation.InStep.{AllAt}
use opatchy.Scan.Outcomes.{SourceOutcome, current, failure, source_key, successful}
use opatchy.Scan.Resolution.{Health, ResolvedOutcome, previous_health, resolve}
use opatchy.Scan.Resolution.Stale.{IsStale, resolve-IsStale}
use opatchy.Storage.State.{max_inactive_ledger_age, max_inactive_ledger_entries, prune_ledger}
use opatchy.Storage.State.Pruning.{prune_ledger_lem}
use opatchy.Tests.Batches.{delivered_entry}
use opatchy.Tests.Policies.{arch_health, vim_snapshot, vim_update}
use opatchy.Validation.{validate_bounded, validate_item, validate_items, validate_response}
use opatchy.Validation.Generations.{inventories-validate_response}

abbrev timed_out : SourceOutcome
timed_out = failure SourceName.arch SourceStatus.timeout "pacman" false true none []

abbrev found : SourceOutcome
found = current SourceName.arch (vim_update ∷ []) Provenance.live [] none

timed_out_is_unsuccessful : successful timed_out ≡ false
unfolding successful failure
timed_out_is_unsuccessful = refl

failed_source_waits_example :
    due (some (next_metadata SourceName.arch (some timed_out ∷ []) none 10)) 20 false ≡ false
failed_source_waits_example =
    failed_source_waits SourceName.arch (some timed_out ∷ []) none 10 20 timed_out here
      timed_out_is_unsuccessful (omega arith)

due_after_six_hours_example :
    due (some (next_metadata SourceName.arch (some timed_out ∷ []) none 10)) 30000000000 false
    ≡ true
due_after_six_hours_example =
    due_after_six_hours SourceName.arch (some timed_out ∷ []) none 10 30000000000 timed_out here tt
      (omega arith)

successful_source_rests_example :
    (due (some (next_metadata SourceName.arch (some found ∷ []) none 10)) 20 false ≡ false)
    × ((next_metadata SourceName.arch (some found ∷ []) none 10).failure_count ≡ 0)
    × ((next_metadata SourceName.arch (some found ∷ []) none 10).permanent_failure ≡ false)
successful_source_rests_example =
    successful_source_rests SourceName.arch (some found ∷ []) none 10 20 found here
      (unfold successful current in refl) (omega arith)

abbrev earlier_bundle : GenerationBundle
earlier_bundle = record {
  order = 1;
  snapshot = vim_snapshot;
  inventories = [];
  state = empty_state;
  last_good = vim_snapshot;
  last_good_keys = "arch" ∷ [];
}

resolve-IsStale_example :
    (value : ResolvedOutcome) × (resolve
        (some timed_out)
        SourceName.arch
        none
        (some earlier_bundle)
        15
      ≡ ok value)
    × IsStale SourceName.arch none vim_snapshot timed_out value
resolve-IsStale_example =
    resolve-IsStale timed_out SourceName.arch none earlier_bundle 15
      (Health.source_health arch_health) timed_out_is_unsuccessful
      (unfold failure source_key in refl) (unfold previous_health in refl)

abbrev arch_inputs : ScanInputs
arch_inputs = record {
  omarchy = none;
  arch = some found;
  aur = none;
  flatpak_user = none;
  flatpak_system = none;
  mise = none;
  security = none;
  cisa_kev = none;
}

arch_inputs_are_at : AllAt (identified_outcomes arch_inputs)
unfolding current
arch_inputs_are_at = (tt, ((refl, refl), (tt, (tt, (tt, (tt, (tt, (tt, tt))))))))

build_generation-IsBuilt_example :
    IsBuilt
      (collected_ids (λ text. text) (resolve_all arch_inputs none 15))
      (build_generation (λ text. text) "g2" 2 arch_inputs none empty_state 15)
build_generation-IsBuilt_example =
    build_generation-IsBuilt (λ text. text) "g2" 2 arch_inputs none empty_state 15
      arch_inputs_are_at tt

vim_update_is_valid : validate_items (vim_update ∷ []) ≡ ok tt
unfolding validate_items validate_item validate_bounded
vim_update_is_valid = refl

vim_inventory_is_listed :
    In
      (inventory_of 10 "g1" (vim_update ∷ []) ItemSource.arch)
      (inventories 10 "g1" (vim_update ∷ []))
unfolding inventories
vim_inventory_is_listed = here

inventories-validate_response_example :
    validate_response
      (Response.inventory_response (inventory_of 10 "g1" (vim_update ∷ []) ItemSource.arch))
    ≡ ok tt
inventories-validate_response_example =
    inventories-validate_response 10 "g1" (vim_update ∷ [])
      (inventory_of 10 "g1" (vim_update ∷ []) ItemSource.arch) vim_update_is_valid
      (unfold validate_bounded in refl) vim_inventory_is_listed

abbrev notified_state : PersistentState
notified_state = record empty_state { ledger = delivered_entry ∷ [] }

prune_ledger_lem_example :
    ((e : LedgerEntry)
      → In e (delivered_entry ∷ [])
      → is_active e ≡ true
      → In e (prune_ledger notified_state 20).ledger)
    × ((e : LedgerEntry)
        → In e (prune_ledger notified_state 20).ledger
        → In e (delivered_entry ∷ [])
          × ((is_active e ≡ true) ⊎ (20 ≤ e.recorded_at + max_inactive_ledger_age)))
    × (length (prune_ledger notified_state 20).ledger
        ≤ length (filter is_active (delivered_entry ∷ [])) + max_inactive_ledger_entries)
prune_ledger_lem_example = prune_ledger_lem notified_state 20
