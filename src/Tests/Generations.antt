-- ===== src/Tests/Generations.antt =====
-- Publishing generations: one of order 4 is on the disk.
use opatchy.Base.{
  All, In, List, String, [], ap, bool_eq, err, if◌then◌else◌, is_some, is_unique, list_eq, map,
  nat_eq, none, ok, option_eq, refl, some, sort_texts, string_eq, true, ℕ, ℤ, ◌==◌, ◌∷◌, ◌≡◌,
}
use opatchy.Files.Cached.{inventory_of_source, inventory_of_source-with_response}
use opatchy.Files.Caches.{load_inventory, with_response}
use opatchy.Files.Disk.{Disk, Environment}
use opatchy.Files.Inventories.{IsRead, load_inventory-IsRead}
use opatchy.Files.Loads.{load_generation-accepted}
use opatchy.Files.Operations.{commit_generation, publish}
use opatchy.Files.Published.{IsCommitted, commit_generation-IsCommitted}
use opatchy.Files.States.{load_generation, write_encoded, write_generation}
use opatchy.Models.{
  GenerationBundle, InventoryResponse, ItemSource, Provenance, Response, ScanState,
  SnapshotResponse, SourceHealth, SourceName, SourceStatus, arch_status_eq, condition_eq,
  empty_state, item_source_eq, provenance_eq, severity_eq, source_name_eq, source_scope_eq,
  source_status_eq, watch_eq, watch_mode_eq,
}
use opatchy.Storage.Accepted.{validate_bundle_lem}
use opatchy.Storage.Bundles.{decode_generation, encode_generation, validate_bundle}
use opatchy.Storage.Documents.States.{state_value}
use opatchy.Storage.Generations.{
  Base64, StorageError, key_texts, last_good_key_names, sources_of_inventories,
}
use opatchy.Storage.State.{validate_state}
use opatchy.Validation.{
  all_sources, validate_bounded, validate_groups, validate_inventory, validate_inventory_source,
  validate_items, validate_metadata, validate_nonnegative, validate_response, validate_snapshot,
  validate_source, validate_sources,
}
use opatchy.Wire.Json.{JsonItems, JsonValue, array_of, get_field, normalize_below, record_of}
use opatchy.Wire.Protocol.{DecodeError, JsonText}
use opatchy.Wire.Responses.{read_payload}
use opatchy.Wire.Timestamps.{Calendar, code_at, ends_with_z, without_last}
use opatchy.Wire.Values.{envelope_of}

abbrev new_year : String
new_year = "2026-01-01T00:00:00.000000+00:00"

abbrev calendar : Calendar
calendar = record {
  isoformat = λ moment. new_year;
  fromisoformat = λ raw. if raw == new_year then some 7 else none;
}

abbrev health : SourceName → SourceHealth
health source = record {
  source = source;
  status = SourceStatus.ok;
  provenance = Provenance.live;
  observed_at = 7;
  fresh_until = 7;
  cause = none;
  scopes = [];
}

abbrev quiet : SnapshotResponse
quiet = record {
  generated_at = 7;
  generation_id = "generation-4";
  payload = record {
    scan_state = ScanState.complete;
    sources = map health all_sources;
    summary = record {
      total_updates = ℤ.pos 0;
      watched_updates = ℤ.pos 0;
      security_findings = ℤ.pos 0;
      degraded_sources = ℤ.pos 0;
    };
    items = [];
    findings = [];
    notifications = [];
  };
  protocol_version = ℤ.pos 1;
}

abbrev arch_packages : InventoryResponse
arch_packages = record {
  generated_at = 7;
  generation_id = "generation-4";
  payload = record { source = ItemSource.arch; total = ℤ.pos 0; items = [] };
  protocol_version = ℤ.pos 1;
}

abbrev generation : ℕ → GenerationBundle
generation order = record {
  order = order;
  snapshot = quiet;
  inventories = [];
  state = empty_state;
  last_good = quiet;
  last_good_keys = "arch" ∷ [];
}

-- the document of a generation of order 4
abbrev document : JsonValue
document = record_of (
    ("inventories", JsonValue.array JsonItems.empty)
    ∷ ("lastGood", JsonValue.text "S")
    ∷ ("lastGoodKeys", array_of JsonValue.text ("arch" ∷ []))
    ∷ ("order", JsonValue.integer (ℤ.pos 4))
    ∷ ("schemaVersion", JsonValue.integer (ℤ.pos 1))
    ∷ ("snapshot", JsonValue.text "S")
    ∷ ("state", JsonValue.text "W")
    ∷ [])

abbrev text_kind : JsonValue → String
text_kind (JsonValue.object fields) =
    if is_some (get_field "kind" fields)
    then "s"
    else if is_some (get_field "order" fields)
    then "g"
    else "w"
text_kind value = ""

-- a library that knows the texts of the generation, of its snapshot and of its state
abbrev json : JsonText
json = record {
  dumps = text_kind;
  loads = λ on_object on_constant text.
      if text == "s\n"
      then some (ok (envelope_of calendar (Response.snapshot_response quiet)))
      else if text == "g\n"
      then some (ok document)
      else some (ok (state_value calendar empty_state));
  encode = λ text.
      if text == "s"
      then some (b's' ∷ [])
      else if text == "g"
      then some (b'g' ∷ [])
      else some (b'w' ∷ []);
}

abbrev base64 : Base64
base64 = record {
  b64encode = λ raw. if raw == b's' ∷ b'\n' ∷ [] then "S" else "W";
  b64decode = λ text. if text == "S" then some (b's' ∷ b'\n' ∷ []) else some (b'w' ∷ b'\n' ∷ []);
}

abbrev env : Environment
env = record { json = json; base64 = base64; calendar = calendar; clock = λ n. n }

abbrev stored : List ℕ
stored = b'g' ∷ b'\n' ∷ []

abbrev disk : Disk
disk = record {
  state_file = none;
  generation_file = some stored;
  snapshot_file = none;
  inventory_file = λ source. none;
  quarantined = [];
  readings = 0;
}

stored-decoded : decode_generation json base64 calendar stored ≡ ok (generation 4)
unfolding decode_generation normalize_below code_at ends_with_z without_last read_payload
    validate_metadata validate_bounded validate_snapshot validate_sources validate_source
    validate_items validate_groups validate_nonnegative key_texts
stored-decoded = refl

disk-loaded : load_generation env disk ≡ (ok (some (generation 4)), disk)
unfolding load_generation normalize_below code_at ends_with_z without_last read_payload
    validate_metadata validate_bounded validate_snapshot validate_sources validate_source
    validate_items validate_groups validate_nonnegative key_texts
disk-loaded = refl

load_generation-accepted_example : validate_bundle json base64 calendar (generation 4) ≡ ok tt
load_generation-accepted_example =
    load_generation-accepted env disk (generation 4) (ap (λ r. r.0) disk-loaded)

validate_bundle_lem_example :
    (validate_response (Response.snapshot_response quiet) ≡ ok tt)
    × (validate_response (Response.snapshot_response quiet) ≡ ok tt)
    × (validate_state empty_state ≡ ok tt)
    × (is_unique (sources_of_inventories []) ≡ true)
    × (sources_of_inventories [] ≡ sort_texts (sources_of_inventories []))
    × All (λ r. validate_response (Response.inventory_response r) ≡ ok tt) []
    × (is_unique {A = String} ("arch" ∷ []) ≡ true)
    × All (λ key. In key last_good_key_names) ("arch" ∷ [])
validate_bundle_lem_example =
    validate_bundle_lem json calendar base64 (generation 4) load_generation-accepted_example

next-encoded : encode_generation json base64 calendar (generation 5) 0 ≡ ok stored
unfolding encode_generation validate_metadata validate_bounded validate_snapshot validate_sources
    validate_source validate_items validate_groups validate_nonnegative
next-encoded = refl

next-published : (commit_generation env (generation 5) disk).0 ≡ ok true
unfolding commit_generation publish write_generation write_encoded
next-published = rw (disk-loaded, next-encoded) refl

commit_generation-IsCommitted_example :
    IsCommitted env (generation 5) disk (commit_generation env (generation 5) disk)
commit_generation-IsCommitted_example = commit_generation-IsCommitted env (generation 5) disk

inventory_of_source-with_response_example :
    inventory_of_source ItemSource.arch (with_response arch_packages []) ≡ some arch_packages
inventory_of_source-with_response_example =
    inventory_of_source-with_response ItemSource.arch arch_packages []

-- a library that reads the inventory of Arch
abbrev packages_env : Environment
packages_env = record env {
  json = record json {
    loads = λ on_object on_constant text.
        some (ok (envelope_of calendar (Response.inventory_response arch_packages)));
  };
}

abbrev packages_disk : Disk
packages_disk = record disk { inventory_file = λ source. some stored }

packages-read :
    load_inventory packages_env ItemSource.arch packages_disk
    ≡ (ok (some arch_packages), packages_disk)
unfolding load_inventory normalize_below code_at ends_with_z without_last read_payload
    validate_metadata validate_bounded validate_items validate_nonnegative envelope_of
    validate_inventory validate_inventory_source
packages-read = refl

load_inventory-IsRead_example :
    IsRead ItemSource.arch packages_disk (load_inventory packages_env ItemSource.arch packages_disk)
load_inventory-IsRead_example = load_inventory-IsRead packages_env ItemSource.arch packages_disk

-- a library that finds an integer of too many digits
abbrev digits_env : Environment
digits_env = record env {
  json = record json { loads = λ on_object on_constant text. some (err DecodeError.value_error) };
}

digits-raised :
    load_inventory digits_env ItemSource.arch packages_disk
    ≡ (err StorageError.value_error, packages_disk)
unfolding load_inventory
digits-raised = refl
