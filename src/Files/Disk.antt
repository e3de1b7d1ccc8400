-- ===== src/Files/Disk.antt =====
-- The files that helper/opatchy_helper/storage.py keeps, and operations on them that may raise. The
-- lock makes an operation a single step. An operation keeps what it wrote when it raises later. Writing,
-- renaming and deleting a file succeed here; `storage_io.py` only wraps the system calls.
use opatchy.Base.{
  List, Option, bool_eq, err, if◌then◌else◌, list_eq, nat_eq, none, ok, option_eq, some, string_eq,
  suc, ℕ, ◌==◌, ◌∷◌,
}
use opatchy.Models.{
  Datetime, ItemSource, arch_status_eq, condition_eq, item_source_eq, provenance_eq, severity_eq,
  source_name_eq, source_scope_eq, source_status_eq, watch_eq, watch_mode_eq,
}
use opatchy.Storage.Generations.{Base64, StorageError, Stored}
use opatchy.Wire.Protocol.{JsonText}
use opatchy.Wire.Timestamps.{Calendar}

pub record Disk : Type 0 where
  pub state_file : Option (List ℕ)
  pub generation_file : Option (List ℕ)
  pub snapshot_file : Option (List ℕ)
  pub inventory_file : ItemSource → Option (List ℕ)
  pub quarantined : List (List ℕ)
  pub readings : ℕ

-- What the storage takes from outside: the standard library and the clock, at its n-th reading.
pub record Environment : Type 0 where
  pub json : JsonText
  pub base64 : Base64
  pub calendar : Calendar
  pub clock : ℕ → Datetime

abbrev pub Action : Type 0 → Type 0
Action A = Disk → Stored A × Disk

abbrev pub continue : {A B : Type 0} → Stored A × Disk → (A → Action B) → Stored B × Disk
continue (ok a, disk) next = next a disk
continue (err e, disk) next = (err e, disk)

infixl 5 ◌>>=◌
abbrev pub ◌>>=◌ : {A B : Type 0} → Action A → (A → Action B) → Action B
first >>= next = λ disk. continue (first disk) next

infixl 5 ◌>>◌
abbrev pub ◌>>◌ : {B : Type 0} → Action (Unit {0}) → Action B → Action B
first >> rest = first >>= λ _. rest

abbrev pub give : {A : Type 0} → A → Action A
give a disk = (ok a, disk)

-- code that touches no file
abbrev pub lift : {A : Type 0} → Stored A → Action A
lift result disk = (result, disk)

abbrev pub recovered : {A : Type 0} → Stored A × Disk → Action A → Stored A × Disk
recovered (ok a, disk) handler = (ok a, disk)
recovered (err (StorageError.protocol_error e), disk) handler = handler disk
recovered (err (StorageError.state_corrupt reason), disk) handler = handler disk
recovered (err (StorageError.schema_incompatible n), disk) handler =
    (err (StorageError.schema_incompatible n), disk)
recovered (err StorageError.unicode_error, disk) handler = (err StorageError.unicode_error, disk)
recovered (err StorageError.value_error, disk) handler = (err StorageError.value_error, disk)
recovered (err (StorageError.transition_error reason), disk) handler =
    (err (StorageError.transition_error reason), disk)

-- `try: body except ProtocolError, StateCorruptError: handler`
abbrev pub recover : {A : Type 0} → Action A → Action A → Action A
recover body handler = λ disk. recovered (body disk) handler

-- `self._clock()`
abbrev pub read_clock : Environment → Action Datetime
read_clock env disk = (ok (env.clock disk.readings), record disk { readings = suc disk.readings })

-- the content of a file, if it exists
abbrev pub read_state_file : Action (Option (List ℕ))
read_state_file disk = (ok disk.state_file, disk)

abbrev pub write_state_file : List ℕ → Action (Unit {0})
write_state_file raw disk = (ok tt, record disk { state_file = some raw })

abbrev pub write_generation_file : List ℕ → Action (Unit {0})
write_generation_file raw disk = (ok tt, record disk { generation_file = some raw })

-- `_quarantine`: the corrupt file moves to a name made of its digest
abbrev pub quarantine : List ℕ → Action (Unit {0})
quarantine raw disk =
    (ok tt, record disk { state_file = none; quarantined = raw ∷ disk.quarantined })

abbrev pub discard_generation : Action (Unit {0})
discard_generation disk = (ok tt, record disk { generation_file = none })

abbrev pub discard_snapshot : Action (Unit {0})
discard_snapshot disk = (ok tt, record disk { snapshot_file = none })

-- the files of the inventories, with another content for one source
abbrev pub with_inventory :
    (ItemSource → Option (List ℕ)) → ItemSource → Option (List ℕ) → ItemSource → Option (List ℕ)
with_inventory files source content other = if other == source then content else files other

abbrev pub write_inventory_file : ItemSource → Option (List ℕ) → Action (Unit {0})
write_inventory_file source content disk =
    (ok tt, record disk { inventory_file = with_inventory disk.inventory_file source content })

abbrev pub write_snapshot_file : List ℕ → Action (Unit {0})
write_snapshot_file raw disk = (ok tt, record disk { snapshot_file = some raw })
