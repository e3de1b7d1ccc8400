-- ===== src/Files/Published.antt =====
-- What `Storage.commit_generation` of helper/opatchy_helper/storage.py leaves in the files.
use opatchy.Base.{
  >>=-eq-ok, Bool, Bool-cases, List, Option, ap, arith, err, false, if◌then◌else◌, inl, inr, leb,
  none, ok, refl, some, suc, true, ℕ, ◌<◌, ◌≡◌, ◌≤◌, ◌⊎◌,
}
use opatchy.Files.Disk.{Disk, Environment, continue, give}
use opatchy.Files.Operations.{commit_generation, is_not_newer, publish}
use opatchy.Files.States.{
  load_generation, load_generation_from, loaded_generation, write_encoded, write_generation,
}
use opatchy.Models.{Datetime, GenerationBundle}
use opatchy.Scan.Outcomes.{current}
use opatchy.Storage.Bundles.{bundle_value, encode_generation, validate_bundle}
use opatchy.Storage.Documents.States.{encode_state}
use opatchy.Storage.Generations.{StorageError, Stored, of_state_bytes}

module _ (env : Environment) where
  -- what loading the generation gives and leaves, from the files `disk`
  abbrev IsLoaded : Disk → Stored (Option GenerationBundle) × Disk → Type 0
  IsLoaded disk (ok (some bundle), after) = after ≡ disk
  IsLoaded disk (ok none, after) = after ≡ record disk { generation_file = none }
  IsLoaded disk (err e, after) = after ≡ disk

  loaded_generation-IsLoaded :
      (result : Stored GenerationBundle) (disk : Disk)
      → IsLoaded disk (loaded_generation env result disk)
  unfolding loaded_generation
  loaded_generation-IsLoaded (ok b) disk = refl
  loaded_generation-IsLoaded (err (StorageError.protocol_error e)) disk = refl
  loaded_generation-IsLoaded (err (StorageError.state_corrupt e)) disk = refl
  loaded_generation-IsLoaded (err (StorageError.schema_incompatible e)) disk = refl
  loaded_generation-IsLoaded (err StorageError.unicode_error) disk = refl
  loaded_generation-IsLoaded (err StorageError.value_error) disk = refl
  loaded_generation-IsLoaded (err (StorageError.transition_error e)) disk = refl

  load_generation_from-IsLoaded :
      (content : Option (List ℕ)) (disk : Disk)
      → disk.generation_file ≡ content
      → IsLoaded disk (load_generation_from env content disk)
  unfolding load_generation_from
  load_generation_from-IsLoaded none disk h = ap (λ file. record disk { generation_file = file }) h
  load_generation_from-IsLoaded (some raw) disk h = loaded_generation-IsLoaded _ disk

  load_generation-IsLoaded : (disk : Disk) → IsLoaded disk (load_generation env disk)
  unfolding load_generation
  load_generation-IsLoaded disk = load_generation_from-IsLoaded disk.generation_file disk refl

  -- the generation and its state stand in their files, and no other file has changed
  pub record IsPublished (generation : GenerationBundle) (disk after : Disk) : Type 0 where
    pub generation_bytes : List ℕ
    pub state_bytes : List ℕ
    pub generation_encoded :
        encode_generation env.json env.base64 env.calendar generation (env.clock disk.readings)
        ≡ ok generation_bytes
    pub state_encoded :
        of_state_bytes
          (encode_state env.calendar env.json generation.state (env.clock (suc disk.readings)))
        ≡ ok state_bytes
    pub bundle_valid : validate_bundle env.json env.base64 env.calendar generation ≡ ok tt
    pub files : after ≡ record disk {
      generation_file = some generation_bytes;
      state_file = some state_bytes;
      readings = suc (suc disk.readings);
    }

  -- what publishing gives and leaves
  abbrev IsPublishing : GenerationBundle → Disk → Stored Bool × Disk → Type 0
  IsPublishing generation disk (ok true, after) = IsPublished generation disk after
  IsPublishing generation disk (ok false, after) = ⊥
  IsPublishing generation disk (err e, after) = after.state_file ≡ disk.state_file

  bytes_of_text-valid :
      (generation : GenerationBundle) (moment : Datetime) (raw : List ℕ)
      → encode_generation env.json env.base64 env.calendar generation moment ≡ ok raw
      → validate_bundle env.json env.base64 env.calendar generation ≡ ok tt
  unfolding encode_generation bundle_value
  bytes_of_text-valid generation moment raw h =
      let value = >>=-eq-ok (bundle_value env.json env.base64 env.calendar generation moment) _ h in
      (>>=-eq-ok (validate_bundle env.json env.base64 env.calendar generation) _ value.1).1

  publish-IsPublishing :
      (generation : GenerationBundle) (disk : Disk)
      → IsPublishing generation disk (publish env generation disk)
  unfolding publish write_generation write_encoded
  publish-IsPublishing generation disk =
      go (encode_generation env.json env.base64 env.calendar generation (env.clock disk.readings))
        (of_state_bytes
          (encode_state env.calendar env.json generation.state (env.clock (suc disk.readings))))
        refl refl
    where
      go :
          (encoded written : Stored (List ℕ))
          → encode_generation env.json env.base64 env.calendar generation (env.clock disk.readings)
            ≡ encoded
          → of_state_bytes
              (encode_state env.calendar env.json generation.state (env.clock (suc disk.readings)))
            ≡ written
          → IsPublishing generation disk (publish env generation disk)
      go (ok raw) (ok state) e f =
          rw (e, f)
            (record {
              generation_bytes = raw;
              state_bytes = state;
              generation_encoded = e;
              state_encoded = f;
              bundle_valid = bytes_of_text-valid generation (env.clock disk.readings) raw e;
              files = refl;
            })
      go (ok raw) (err fault) e f = rw (e, f) refl
      go (err fault) written e f = rw e refl

  -- what a commit gives and leaves, from the files `disk`
  abbrev pub IsCommitted : GenerationBundle → Disk → Stored Bool × Disk → Type 0
  IsCommitted generation disk (ok true, after) =
      (((load_generation env disk).0 ≡ ok none)
        ⊎ ((current : GenerationBundle) × ((load_generation env disk).0 ≡ ok (some current))
            × (current.order < generation.order)))
      × IsPublished generation disk after
  IsCommitted generation disk (ok false, after) =
      (after ≡ disk)
      × (current : GenerationBundle) × ((load_generation env disk).0 ≡ ok (some current))
      × (generation.order ≤ current.order)
  IsCommitted generation disk (err e, after) = after.state_file ≡ disk.state_file

  -- a commit, after the generation is loaded
  commit_after-IsCommitted :
      (generation : GenerationBundle) (disk : Disk)
      (first : Stored (Option GenerationBundle) × Disk)
      → load_generation env disk ≡ first
      → IsLoaded disk first
      → IsCommitted generation disk (
          continue first (λ current.
            if is_not_newer env generation current then give false else publish env generation))
  commit_after-IsCommitted generation disk (err e, after) h loaded = ap (λ d. d.state_file) loaded
  commit_after-IsCommitted generation disk (ok none, after) h loaded = rw loaded (
      from_none (publish env generation (record disk { generation_file = none }))
        (publish-IsPublishing generation (record disk { generation_file = none })))
    where
      from_none :
          (result : Stored Bool × Disk)
          → IsPublishing generation (record disk { generation_file = none }) result
          → IsCommitted generation disk result
      from_none (ok true, after) published = (
        inl (ap (λ r. r.0) h),
        record {
          generation_bytes = published.generation_bytes;
          state_bytes = published.state_bytes;
          generation_encoded = published.generation_encoded;
          state_encoded = published.state_encoded;
          bundle_valid = published.bundle_valid;
          files = published.files;
        },
      )
      from_none (ok false, after) published = absurd published
      from_none (err e, after) kept = kept
  commit_after-IsCommitted generation disk (ok (some current), after) h loaded =
      rw loaded (elim (Bool-cases (leb generation.order current.order)) [
        | inl late ↦ rw late (refl, current, ap (λ r. r.0) h, ground arith)
        | inr newer ↦
            rw newer
              (from_some newer (publish env generation disk) (publish-IsPublishing generation disk))
      ])
    where
      from_some :
          leb generation.order current.order ≡ false
          → (result : Stored Bool × Disk) → IsPublishing generation disk result
          → IsCommitted generation disk result
      from_some newer (ok true, after) published =
          (inr (current, ap (λ r. r.0) h, ground arith), published)
      from_some newer (ok false, after) published = absurd published
      from_some newer (err e, after) kept = kept

  -- A commit succeeds only for a generation that is newer than any that can be loaded and that passes its
  -- checks: then its bytes and those of its state, encoded at the two next readings of the clock, stand
  -- in both files, and no other file has changed. It is refused only for a generation that is not newer
  -- than the one that is loaded, and no file changes; and when it fails, the state file is as it was.
  pub commit_generation-IsCommitted :
      (generation : GenerationBundle) (disk : Disk)
      → IsCommitted generation disk (commit_generation env generation disk)
  unfolding commit_generation
  commit_generation-IsCommitted generation disk =
      commit_after-IsCommitted generation disk (load_generation env disk) refl
        (load_generation-IsLoaded disk)
