-- ===== src/Files/Inventories.antt =====
-- Reading an inventory from its file: helper/opatchy_helper/storage_cache.py.
use mathlib.Core.Path.{fun_ext}
use opatchy.Base.{
  Bool-cases, List, Option, ap, arith, bool_eq, err, inl, inr, list_eq, nat_eq, none, ok, option_eq,
  refl, some, string_eq, sym, ℕ, ◌==◌, ◌≡◌,
}
use opatchy.Files.Caches.{accepted_inventory, load_inventory, load_inventory_from}
use opatchy.Files.Disk.{Disk, Environment, with_inventory}
use opatchy.Models.{
  InventoryResponse, ItemSource, Response, arch_status_eq, condition_eq, item_source_beq_iff,
  item_source_eq, provenance_eq, severity_eq, source_name_eq, source_scope_eq, source_status_eq,
  watch_eq, watch_mode_eq,
}
use opatchy.Storage.Generations.{StorageError, Stored}
use opatchy.Validation.{validate_response}
use opatchy.Wire.Protocol.{DecodeError, Decoded, decode_response}
use opatchy.Wire.RoundTrip.Protocol.{decode_response-accepted}

-- what a read of the inventory of a source gives and leaves, from the files `disk`
abbrev pub IsRead : ItemSource → Disk → Stored (Option InventoryResponse) × Disk → Type 0
IsRead source disk (ok (some r), after) =
    (r.payload.source ≡ source)
    × (validate_response (Response.inventory_response r) ≡ ok tt)
    × (after ≡ disk)
IsRead source disk (ok none, after) =
    after ≡ record disk { inventory_file = with_inventory disk.inventory_file source none }
IsRead source disk (err e, after) = (e ≡ StorageError.value_error) × (after ≡ disk)

with_inventory-absent :
    (disk : Disk) (source : ItemSource)
    → disk.inventory_file source ≡ none
    → with_inventory disk.inventory_file source none ≡ disk.inventory_file
with_inventory-absent disk source h = fun_ext (λ other. elim (Bool-cases (other == source)) [
  | inl same ↦
      let path : other ≡ source = ground (arith, item_source_beq_iff other source) in
      rw (same, path) (sym h)
  | inr apart ↦ rw apart refl
])

module _ (env : Environment) where
  accepted_inventory-IsRead :
      (source : ItemSource) (result : Decoded Response) (disk : Disk)
      → ((response : Response) → result ≡ ok response → validate_response response ≡ ok tt)
      → IsRead source disk (accepted_inventory env source result disk)
  unfolding accepted_inventory
  accepted_inventory-IsRead source (ok (Response.inventory_response r)) disk valid =
      elim (Bool-cases (r.payload.source == source)) [
        | inl same ↦ rw same (
          ground (arith, item_source_beq_iff r.payload.source source),
          valid (Response.inventory_response r) refl,
          refl,
        )
        | inr other ↦ rw other refl
      ]
  accepted_inventory-IsRead source (ok (Response.snapshot_response r)) disk valid = refl
  accepted_inventory-IsRead source (ok (Response.star_result_response r)) disk valid = refl
  accepted_inventory-IsRead source (ok (Response.error_response r)) disk valid = refl
  accepted_inventory-IsRead source (err (DecodeError.protocol_error e)) disk valid = refl
  accepted_inventory-IsRead source (err DecodeError.value_error) disk valid = (refl, refl)

  load_inventory_from-IsRead :
      (source : ItemSource) (disk : Disk) (content : Option (List ℕ))
      → disk.inventory_file source ≡ content
      → IsRead source disk (load_inventory_from env source content disk)
  unfolding load_inventory_from
  load_inventory_from-IsRead source disk none h =
      ap (λ files. record disk { inventory_file = files })
        (sym (with_inventory-absent disk source h))
  load_inventory_from-IsRead source disk (some raw) h =
      accepted_inventory-IsRead source (decode_response env.json env.calendar raw) disk
        (λ response e. (decode_response-accepted env.json env.calendar raw response e).0)

  -- An inventory that is read from its file is of the source that was asked for and passes validation, and
  -- the files stay as they are; where the read gives none, that file is gone and every other one stays;
  -- and it raises nothing but the plain `ValueError` of `json.loads`, and then the files stay as they are.
  pub load_inventory-IsRead :
      (source : ItemSource) (disk : Disk) → IsRead source disk (load_inventory env source disk)
  unfolding load_inventory
  load_inventory-IsRead source disk =
      load_inventory_from-IsRead source disk (disk.inventory_file source) refl
