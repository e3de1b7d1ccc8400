-- ===== src/Files/Loads.antt =====
-- What loading a state gives and leaves behind: helper/opatchy_helper/storage_locked_state.py.
use opatchy.Base.{
  Bool, List, Option, Result, ap, err, inl, inr, none, ok, ok-injective, refl, some, sym, ℕ, ◌∙◌,
  ◌≡◌, ◌⊎◌,
}
use opatchy.Files.Disk.{Action, Disk, Environment, continue, lift, recovered, ◌>>=◌}
use opatchy.Files.States.{
  StateLoad, load_decoded, load_file, load_from, load_generation, load_generation_from, load_state,
  loaded_generation, persist,
}
use opatchy.Models.{GenerationBundle, PersistentState, empty_state}
use opatchy.Storage.Accepted.{decode_generation-accepted, validate_bundle_lem}
use opatchy.Storage.Bundles.{validate_bundle}
use opatchy.Storage.Documents.Accepted.{decode_state-accepted}
use opatchy.Storage.Documents.Pruned.{prune_ledger-IsDurable}
use opatchy.Storage.Documents.States.{StateError, decode_state}
use opatchy.Storage.Durable.{validate_state-IsDurable, validate_state_of_IsDurable}
use opatchy.Storage.Generations.{StorageError, Stored, of_state}
use opatchy.Storage.State.{prune_ledger, validate_state}
use opatchy.Wire.Protocol.{decoded}

continue-ok :
    {A B : Type 0} (result : Stored A × Disk) (next : A → Action B) (b : B)
    → (continue result next).0 ≡ ok b
    → (a : A) × (result.0 ≡ ok a) × ((next a result.1).0 ≡ ok b)
continue-ok (ok a, disk) next b h = (a, refl, h)
continue-ok (err e, disk) next b h = absurd cc

-- an operation that gives a value after another one that gave a value
pub bind-ok :
    {A B : Type 0} (first : Action A) (next : A → Action B) (disk : Disk) {b : B}
    → ((first >>= next) disk).0 ≡ ok b
    → (a : A) × ((first disk).0 ≡ ok a) × ((next a (first disk).1).0 ≡ ok b)
bind-ok first next disk {b} h = continue-ok (first disk) next b h

-- a value that is given below a `try` is the body's or the handler's
recovered-ok :
    {A : Type 0} (result : Stored A × Disk) (handler : Action A) (a : A)
    → (recovered result handler).0 ≡ ok a
    → (result.0 ≡ ok a) ⊎ ((handler result.1).0 ≡ ok a)
recovered-ok (ok b, disk) handler a h = inl h
recovered-ok (err (StorageError.protocol_error e), disk) handler a h = inr h
recovered-ok (err (StorageError.state_corrupt e), disk) handler a h = inr h
recovered-ok (err (StorageError.schema_incompatible e), disk) handler a h = absurd cc
recovered-ok (err StorageError.unicode_error, disk) handler a h = absurd cc
recovered-ok (err StorageError.value_error, disk) handler a h = absurd cc
recovered-ok (err (StorageError.transition_error e), disk) handler a h = absurd cc

of_state-ok :
    {A : Type 0} (result : Result StateError A) (a : A) → of_state result ≡ ok a → result ≡ ok a
of_state-ok (ok b) a h = cc
of_state-ok (err (StateError.state_corrupt e)) a h = cc
of_state-ok (err (StateError.schema_incompatible e)) a h = cc
of_state-ok (err (StateError.protocol_error e)) a h = cc
of_state-ok (err StateError.value_error) a h = cc

empty_state-accepted : validate_state empty_state ≡ ok tt
unfolding validate_state
empty_state-accepted = refl

empty-accepted :
    (load : StateLoad) {corrupt : Bool}
    → ◌≡◌ {A = Stored StateLoad} (ok (record { state = empty_state; corrupt = corrupt })) (ok load)
    → validate_state load.state ≡ ok tt
empty-accepted load h =
    let same : load.state ≡ empty_state = ap (λ l. l.state) (sym (ok-injective h)) in
    rw same empty_state-accepted

module _ (env : Environment) where
  loaded_generation-ok :
      (result : Stored GenerationBundle) (disk : Disk) (bundle : GenerationBundle)
      → (loaded_generation env result disk).0 ≡ ok (some bundle)
      → result ≡ ok bundle
  unfolding loaded_generation
  loaded_generation-ok (ok b) disk bundle h = cc
  loaded_generation-ok (err (StorageError.protocol_error e)) disk bundle h = cc
  loaded_generation-ok (err (StorageError.state_corrupt e)) disk bundle h = cc
  loaded_generation-ok (err (StorageError.schema_incompatible e)) disk bundle h = cc
  loaded_generation-ok (err StorageError.unicode_error) disk bundle h = cc
  loaded_generation-ok (err StorageError.value_error) disk bundle h = cc
  loaded_generation-ok (err (StorageError.transition_error e)) disk bundle h = cc

  load_generation_from-accepted :
      (content : Option (List ℕ)) (disk : Disk) (bundle : GenerationBundle)
      → (load_generation_from env content disk).0 ≡ ok (some bundle)
      → validate_bundle env.json env.base64 env.calendar bundle ≡ ok tt
  unfolding load_generation_from
  load_generation_from-accepted none disk bundle h = absurd cc
  load_generation_from-accepted (some raw) disk bundle h =
      decode_generation-accepted env.json env.calendar env.base64 raw bundle
        (loaded_generation-ok _ disk bundle h)

  -- A generation that is loaded passes its checks.
  pub load_generation-accepted :
      (disk : Disk) (bundle : GenerationBundle)
      → (load_generation env disk).0 ≡ ok (some bundle)
      → validate_bundle env.json env.base64 env.calendar bundle ≡ ok tt
  unfolding load_generation
  load_generation-accepted disk bundle h =
      load_generation_from-accepted disk.generation_file disk bundle h

  load_decoded-accepted :
      (p : Bool) (decoded : PersistentState) (disk : Disk) (load : StateLoad)
      → validate_state decoded ≡ ok tt
      → (load_decoded env p decoded disk).0 ≡ ok load
      → validate_state load.state ≡ ok tt
  unfolding load_decoded
  load_decoded-accepted p decoded disk load valid h =
      let moment = env.clock disk.readings in
      let pruned = prune_ledger decoded moment in
      let step = bind-ok (persist env p pruned decoded) _ _ h in
      let same : load.state ≡ pruned = ap (λ l. l.state) (sym (ok-injective step.2)) in
      rw same (
        validate_state_of_IsDurable pruned
          (prune_ledger-IsDurable decoded moment (validate_state-IsDurable decoded valid)))

  load_file-accepted :
      (p : Bool) (content : Option (List ℕ)) (disk : Disk) (load : StateLoad)
      → (load_file env p content disk).0 ≡ ok load
      → validate_state load.state ≡ ok tt
  unfolding load_file
  load_file-accepted p none disk load h = empty-accepted load h
  load_file-accepted p (some raw) disk load h = elim (recovered-ok _ _ load h) [
    | inl body ↦
        let decoded = of_state (decode_state env.calendar env.json raw) in
        let step = bind-ok (lift decoded) (load_decoded env p) disk body in
        load_decoded-accepted p step.0 disk load
          (decode_state-accepted env.calendar env.json raw step.0 (of_state-ok _ step.0 step.1))
          step.2
    | inr handled ↦ empty-accepted load handled
  ]

  load_from-accepted :
      (p : Bool) (generation : Option GenerationBundle) (disk : Disk) (load : StateLoad)
      → ((bundle : GenerationBundle)
          → generation ≡ some bundle
          → validate_bundle env.json env.base64 env.calendar bundle ≡ ok tt)
      → (load_from env p generation disk).0 ≡ ok load
      → validate_state load.state ≡ ok tt
  unfolding load_from
  load_from-accepted p none disk load valid h = load_file-accepted p disk.state_file disk load h
  load_from-accepted p (some bundle) disk load valid h =
      let parts = validate_bundle_lem env.json env.calendar env.base64 bundle (valid bundle refl) in
      load_decoded-accepted p bundle.state disk load parts.2 h

  -- A state that is loaded is one that the storage accepts, whatever the files hold.
  pub load_state-accepted :
      (p : Bool) (disk : Disk) (load : StateLoad)
      → (load_state env p disk).0 ≡ ok load
      → validate_state load.state ≡ ok tt
  unfolding load_state
  load_state-accepted p disk load h =
      let step = bind-ok (load_generation env) (load_from env p) disk h in
      load_from-accepted p step.0 _ load
        (λ bundle e. load_generation-accepted disk bundle (step.1 ∙ ap ok e)) step.2
