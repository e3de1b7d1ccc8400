-- ===== src/Files/Kept.antt =====
-- What loading the state keeps: helper/opatchy_helper/storage_locked_state.py.
use opatchy.Base.{Bool, List, err, false, none, ok, some, true, ℕ, ◌∷◌, ◌≡◌, ◌≢◌, ◌⊎◌}
use opatchy.Files.Disk.{Disk, Environment}
use opatchy.Files.States.{StateLoad}
use opatchy.Models.{PersistentState, empty_state}
use opatchy.Storage.Documents.States.{decode_state}
use opatchy.Storage.Generations.{Stored}

-- the state file and the files that were moved aside are the same
abbrev IsQuiet : Disk → Disk → Type 0
IsQuiet disk after = (after.quarantined ≡ disk.quarantined) × (after.state_file ≡ disk.state_file)

-- no file was moved aside, and a failure has left the state file
abbrev IsFramed : {A : Type 0} → Disk → Stored A × Disk → Type 0
IsFramed disk (ok a, after) = after.quarantined ≡ disk.quarantined
IsFramed disk (err e, after) = IsQuiet disk after

-- as above, for a load that does not say that the file was corrupt
abbrev IsPlain : Disk → Stored StateLoad × Disk → Type 0
IsPlain disk (ok load, after) = (load.corrupt ≡ false) × (after.quarantined ≡ disk.quarantined)
IsPlain disk (err e, after) = IsQuiet disk after

module _ (env : Environment) where
  -- what a load gives and leaves, from the files `disk`
  abbrev pub IsKept : Bool → Disk → Stored StateLoad × Disk → Type 0
  IsKept p disk (ok load, after) =
      ((load.corrupt ≡ false) × (after.quarantined ≡ disk.quarantined))
      ⊎ ((load.corrupt ≡ true)
          × (load.state ≡ empty_state)
          × (after.state_file ≡ none)
          × (raw : List ℕ) × (disk.state_file ≡ some raw)
          × (after.quarantined ≡ raw ∷ disk.quarantined)
          × ((p ≡ true)
              ⊎ ((state : PersistentState) → decode_state env.calendar env.json raw ≢ ok state)))
  IsKept p disk (err e, after) = IsQuiet disk after
