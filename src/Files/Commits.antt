-- ===== src/Files/Commits.antt =====
-- What the operations of helper/opatchy_helper/storage.py give and leave.
use opatchy.Base.{
  Bool, List, Result, String, ap, err, false, none, ok, refl, some, suc, sym, true, ℕ, ◌∙◌, ◌≡◌,
}
use opatchy.Files.Disk.{Disk, Environment, continue, give, quarantine, recovered, ◌>>◌}
use opatchy.Files.Operations.{update_state}
use opatchy.Files.States.{
  StateLoad, load_decoded, load_file, load_from, load_generation, load_generation_from, load_state,
  persist, replace_state, write_encoded, write_state,
}
use opatchy.Models.{PersistentState, empty_state}
use opatchy.Storage.Documents.RoundTrip.{IsIsoState, decode_state-encode_state}
use opatchy.Storage.Documents.Schemas.{IsNewer, decode_state-newer, decode_state-refused}
use opatchy.Storage.Documents.States.{
  StateError, decode_state, encode_document, encode_state, state_value,
}
use opatchy.Storage.Generations.{StorageError, Stored, of_state}
use opatchy.Storage.State.{prune_ledger, validate_state}
use opatchy.Wire.Protocol.{IsReadable}

module _ (env : Environment) where
  -- without a generation, loading it changes nothing
  load_generation-none :
      (disk : Disk) → disk.generation_file ≡ none → load_generation env disk ≡ (ok none, disk)
  unfolding load_generation load_generation_from
  load_generation-none disk h = rw h refl

  -- Without a generation, a state file of a newer schema makes every load and every update fail and
  -- is left as it is, with every other file.
  pub update_state-newer_schema :
      (disk : Disk) (raw : List ℕ) (version : ℕ) (before : Stored (Unit {0}))
      (mutation : PersistentState → Stored PersistentState)
      → disk.generation_file ≡ none
      → disk.state_file ≡ some raw
      → IsNewer env.json raw version
      → ((p : Bool)
          → load_state env p disk ≡ (err (StorageError.schema_incompatible version), disk))
        × (update_state env before mutation disk
            ≡ (err (StorageError.schema_incompatible version), disk))
  unfolding load_state load_from load_file update_state
  update_state-newer_schema disk raw version before mutation g f newer =
      let e = decode_state-newer env.calendar env.json raw version newer in
      (
        λ p. rw (load_generation-none disk g, f, e) refl,
        rw (load_generation-none disk g, f, e) refl,
      )

  -- what a load that does not write decoded, if it fails for the schema
  refused_schema :
      (decoded : Result StateError PersistentState) (raw : List ℕ) (version : ℕ) (disk : Disk)
      → (recovered
          (continue (of_state decoded, disk) (load_decoded env false))
          (quarantine raw >> give (record { state = empty_state; corrupt = true }))).0
        ≡ err (StorageError.schema_incompatible version)
      → decoded ≡ err (StateError.schema_incompatible version)
  unfolding load_decoded persist
  refused_schema (ok state) raw version disk h = absurd cc
  refused_schema (err (StateError.state_corrupt e)) raw version disk h = absurd cc
  refused_schema (err (StateError.schema_incompatible n)) raw version disk h = cc
  refused_schema (err (StateError.protocol_error e)) raw version disk h = absurd cc
  refused_schema (err StateError.value_error) raw version disk h = absurd cc

  refused_file :
      (raw : List ℕ) (version : ℕ) (disk : Disk)
      → (load_file env false (some raw) disk).0 ≡ err (StorageError.schema_incompatible version)
      → IsNewer env.json raw version
  unfolding load_file
  refused_file raw version disk h =
      decode_state-refused env.calendar env.json raw version
        (refused_schema (decode_state env.calendar env.json raw) raw version disk h)

  load_state-file :
      (p : Bool) (disk : Disk) (raw : List ℕ)
      → disk.generation_file ≡ none
      → disk.state_file ≡ some raw
      → load_state env p disk ≡ load_file env p (some raw) disk
  unfolding load_state load_from
  load_state-file p disk raw g f =
      rw (load_generation-none disk g) (ap (λ content. load_file env p content disk) f)

  -- Without a generation, a load that does not write fails for the schema of the state file only if the
  -- file is the text of an object with a newer schema version.
  pub load_state-schema :
      (disk : Disk) (raw : List ℕ) (version : ℕ)
      → disk.generation_file ≡ none
      → disk.state_file ≡ some raw
      → (load_state env false disk).0 ≡ err (StorageError.schema_incompatible version)
      → IsNewer env.json raw version
  load_state-schema disk raw version g f h =
      refused_file raw version disk (ap (λ r. r.0) (sym (load_state-file false disk raw g f)) ∙ h)

  write_encoded-invalid :
      (state : PersistentState) (reason : String) (disk : Disk)
      → validate_state state ≡ err reason
      → write_encoded env state disk
        ≡ (err (StorageError.state_corrupt reason), record disk { readings = suc disk.readings })
  unfolding write_encoded encode_state encode_document
  write_encoded-invalid state reason disk h = rw h refl

  -- An update on a disk without a generation, whose result the storage does not accept, raises, and the
  -- files stay as loading the state left them.
  pub update_state-invalid :
      (mutation : PersistentState → Stored PersistentState) (disk after : Disk) (load : StateLoad)
      (updated : PersistentState) (reason : String)
      → load_state env false disk ≡ (ok load, after)
      → after.generation_file ≡ none
      → mutation load.state ≡ ok updated
      → validate_state updated ≡ err reason
      → update_state env (ok tt) mutation disk
        ≡ (err (StorageError.state_corrupt reason), record after { readings = suc after.readings })
  unfolding update_state write_state replace_state
  update_state-invalid mutation disk after load updated reason l g m h =
      rw (l, m, load_generation-none after g, write_encoded-invalid updated reason after h) refl

  -- Without a generation, a state that the storage accepts is written, and loading it gives that state
  -- with its ledger pruned at the time of the write and then at the time of the load, without a
  -- warning, if the datetimes that are kept have an ISO text and the standard library writes and
  -- reads back the JSON.
  pub load_state-write_state :
      (state : PersistentState) (raw : List ℕ) (disk : Disk)
      → disk.generation_file ≡ none
      → validate_state state ≡ ok tt
      → IsIsoState env.calendar (prune_ledger state (env.clock disk.readings))
      → IsReadable env.json
          (state_value env.calendar (prune_ledger state (env.clock disk.readings)))
          raw
      → ((write_state env state disk).0 ≡ ok tt)
        × ((load_state env false (write_state env state disk).1).0
            ≡ ok (record {
              state =
                  prune_ledger
                    (prune_ledger state (env.clock disk.readings))
                    (env.clock (suc disk.readings));
              corrupt = false;
            }))
  unfolding write_state replace_state write_encoded load_state load_from load_file load_decoded
      persist
  load_state-write_state state raw disk g h iso readable =
      let coded =
        decode_state-encode_state env.calendar env.json state (env.clock disk.readings) raw h iso
          readable in
      (
        rw (load_generation-none disk g, coded.0) refl,
        rw (load_generation-none disk g, coded.0, g, coded.1) refl,
      )
