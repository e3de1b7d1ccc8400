-- ===== src/Files/States.antt =====
-- helper/opatchy_helper/storage_locked_state.py, and the generation's part of storage.py.
use opatchy.Base.{
  Bool, List, Option, [], bool_eq, err, false, if◌then◌else◌, list_eq, nat_eq, none, not, ok,
  option_eq, some, string_eq, true, ℕ, ◌&&◌, ◌==◌, ◌∷◌,
}
use opatchy.Files.Disk.{
  Action, Environment, discard_generation, give, lift, quarantine, read_clock, read_state_file,
  recover, write_generation_file, write_state_file, ◌>>=◌, ◌>>◌,
}
use opatchy.Models.{
  GenerationBundle, LedgerEntry, PersistentState, SourceMetadata, arch_status_eq, condition_eq,
  empty_state, item_source_eq, notification_status_value, provenance_eq, severity_eq,
  source_name_eq, source_scope_eq, source_status_eq, watch_eq, watch_mode_eq,
}
use opatchy.Storage.Bundles.{decode_generation, encode_generation}
use opatchy.Storage.Documents.States.{decode_state, encode_state}
use opatchy.Storage.Generations.{StorageError, Stored, of_state, of_state_bytes}
use opatchy.Storage.State.{prune_ledger}
use opatchy.Wire.Protocol.{decoded}

pub record StateLoad : Type 0 where
  pub state : PersistentState
  pub corrupt : Bool

same_list : {A : Type 0} → (A → A → Bool) → List A → List A → Bool
same_list same [] [] = true
same_list same [] (y ∷ ys) = false
same_list same (x ∷ xs) [] = false
same_list same (x ∷ xs) (y ∷ ys) = same x y && same_list same xs ys

same_entry : LedgerEntry → LedgerEntry → Bool
same_entry a b =
    a.fingerprint == b.fingerprint
    && (notification_status_value a.status == notification_status_value b.status
        && (a.recorded_at == b.recorded_at
            && (a.lease_token == b.lease_token && a.lease_expires_at == b.lease_expires_at)))

same_metadata : SourceMetadata → SourceMetadata → Bool
same_metadata a b =
    a.source == b.source
    && (a.last_success == b.last_success
        && (a.backoff_until == b.backoff_until
            && (a.failure_count == b.failure_count && a.permanent_failure == b.permanent_failure)))

-- `==` of `PersistentState`
unfoldable pub same_state : PersistentState → PersistentState → Bool
unfolding same_list same_entry same_metadata
same_state a b =
    a.watches == b.watches
    && (same_list same_entry a.ledger b.ledger && same_list same_metadata a.sources b.sources)

module _ (env : Environment) where
  -- the match of `_load_generation_locked` on what `decode_generation` gives
  unfoldable pub loaded_generation : Stored GenerationBundle → Action (Option GenerationBundle)
  loaded_generation (ok bundle) = give (some bundle)
  loaded_generation (err (StorageError.protocol_error e)) = do discard_generation; give none
  loaded_generation (err (StorageError.state_corrupt reason)) = do discard_generation; give none
  loaded_generation (err (StorageError.schema_incompatible n)) =
      lift (err (StorageError.schema_incompatible n))
  loaded_generation (err StorageError.unicode_error) = lift (err StorageError.unicode_error)
  loaded_generation (err StorageError.value_error) = lift (err StorageError.value_error)
  loaded_generation (err (StorageError.transition_error reason)) =
      lift (err (StorageError.transition_error reason))

  -- `_load_generation_locked`, on the content of the file
  unfoldable pub load_generation_from : Option (List ℕ) → Action (Option GenerationBundle)
  unfolding loaded_generation decode_generation
  load_generation_from none = give none
  load_generation_from (some raw) =
      loaded_generation (decode_generation env.json env.base64 env.calendar raw)

  unfoldable pub load_generation : Action (Option GenerationBundle)
  unfolding load_generation_from
  load_generation disk = load_generation_from disk.generation_file disk

  -- `_write_generation_locked`
  unfoldable pub write_generation : GenerationBundle → Action (Unit {0})
  unfolding encode_generation
  write_generation bundle = do
    moment ← read_clock env
    raw ← lift (encode_generation env.json env.base64 env.calendar bundle moment)
    write_generation_file raw

  -- `if generation is not None: write_generation(replace(generation, state=state))`
  unfoldable pub replace_state : Option GenerationBundle → PersistentState → Action (Unit {0})
  unfolding write_generation
  replace_state none state = give tt
  replace_state (some bundle) state = write_generation (record bundle { state = state })

  -- `atomic_write(state_path, encode_state(state, clock()))`
  unfoldable pub write_encoded : PersistentState → Action (Unit {0})
  unfolding encode_state
  write_encoded state = do
    moment ← read_clock env
    raw ← lift (of_state_bytes (encode_state env.calendar env.json state moment))
    write_state_file raw

  unfoldable pub write_state : PersistentState → Action (Unit {0})
  unfolding load_generation replace_state write_encoded
  write_state state = do
    generation ← load_generation
    replace_state generation state
    write_encoded state

  -- `if persist_pruning and pruned != decoded: write_state(pruned)`
  unfoldable pub persist : Bool → PersistentState → PersistentState → Action (Unit {0})
  unfolding write_state same_state
  persist persist_pruning pruned decoded =
      if persist_pruning && not (same_state pruned decoded) then write_state pruned else give tt

  -- what `load_state` does with the state it decoded
  unfoldable pub load_decoded : Bool → PersistentState → Action StateLoad
  unfolding persist prune_ledger
  load_decoded persist_pruning decoded = do
    moment ← read_clock env
    let pruned = prune_ledger decoded moment
    persist persist_pruning pruned decoded
    give (record { state = pruned; corrupt = false })

  -- `load_state` where there is no generation, on the content of the file
  unfoldable pub load_file : Bool → Option (List ℕ) → Action StateLoad
  unfolding load_decoded decode_state
  load_file persist_pruning none = give (record { state = empty_state; corrupt = false })
  load_file persist_pruning (some raw) =
      recover
        (do
          decoded ← lift (of_state (decode_state env.calendar env.json raw))
          load_decoded persist_pruning decoded)
        (do quarantine raw; give (record { state = empty_state; corrupt = true }))

  -- `load_state`, on the generation
  unfoldable pub load_from : Bool → Option GenerationBundle → Action StateLoad
  unfolding load_decoded load_file
  load_from persist_pruning (some bundle) = load_decoded persist_pruning bundle.state
  load_from persist_pruning none = do raw ← read_state_file; load_file persist_pruning raw

  unfoldable pub load_state : Bool → Action StateLoad
  unfolding load_generation load_from
  load_state persist_pruning = do generation ← load_generation; load_from persist_pruning generation
