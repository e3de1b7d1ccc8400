-- ===== src/Tests/Files.antt =====
-- The storage on concrete files: a state with a star on `arch:vim`, and a generation.
use opatchy.Base.{
  Bool, List, [], arith, bool_eq, decode_utf8, err, false, if◌then◌else◌, list_eq, nat_eq, none, ok,
  option_eq, refl, some, string_eq, true, ℕ, ℤ, ◌++◌, ◌==◌, ◌∷◌, ◌≡◌,
}
use opatchy.Files.Commits.{
  load_state-schema, load_state-write_state, update_state-invalid, update_state-newer_schema,
}
use opatchy.Files.Disk.{Disk, Environment}
use opatchy.Files.Loads.{load_state-accepted}
use opatchy.Files.Operations.{update_state}
use opatchy.Files.States.{load_state, write_state}
use opatchy.Models.{
  PersistentState, WatchMode, WatchRecord, arch_status_eq, condition_eq, empty_state,
  item_source_eq, provenance_eq, severity_eq, source_name_eq, source_scope_eq, source_status_eq,
  watch_eq, watch_mode_eq,
}
use opatchy.Storage.Documents.Accepted.{decode_state-accepted}
use opatchy.Storage.Documents.Pruned.{prune_ledger-IsDurable}
use opatchy.Storage.Documents.RoundTrip.{IsIsoState, decode_state-encode_state}
use opatchy.Storage.Documents.Schemas.{IsNewer}
use opatchy.Storage.Documents.States.{decode_state, encode_state, state_value}
use opatchy.Storage.Durable.{IsDurable, validate_state-IsDurable}
use opatchy.Storage.Generations.{Base64, StorageError}
use opatchy.Storage.State.{prune_ledger, validate_state}
use opatchy.Storage.Watches.{
  is_advisory_id, is_arch_item_id, is_cve_id, is_printable_ascii, security_fix_condition,
  validate_condition, validate_watch,
}
use opatchy.Wire.Json.{JsonValue, dict, normalize, normalize_below, record_of}
use opatchy.Wire.Protocol.{IsReadable, JsonText, decode_json}
use opatchy.Wire.Timestamps.{Calendar}

abbrev calendar : Calendar
calendar = record { isoformat = λ moment. ""; fromisoformat = λ raw. none }

abbrev vim : WatchRecord
vim = record {
  item_id = "arch:vim";
  mode = WatchMode.temporary;
  installed_fingerprint = some "f1";
  candidate_fingerprint = none;
  armed = false;
  condition =
      some (record {
        advisory_id = "AVG-12";
        cve_ids = "CVE-2026-1234" ∷ [];
        fixed_version = "9.1-2";
      });
}

abbrev starred : PersistentState
starred = record { watches = vim ∷ []; ledger = []; sources = [] }

starred-IsValid : validate_state starred ≡ ok tt
unfolding validate_state validate_watch is_arch_item_id validate_condition is_advisory_id is_cve_id
    is_printable_ascii
starred-IsValid = refl

-- a library that writes one text, for the state above
abbrev json : JsonText
json = record {
  dumps = λ value. "{}";
  loads = λ on_object on_constant text.
      if text == "{}\n" then some (ok (state_value calendar starred)) else none;
  encode = λ text. some (b'{' ∷ b'}' ∷ []);
}

abbrev braces : List ℕ
braces = b'{' ∷ b'}' ∷ []

starred-IsIsoState : IsIsoState calendar (prune_ledger starred 0)
unfolding prune_ledger
starred-IsIsoState = record { ledger = tt; sources = tt }

starred-IsReadable : IsReadable json (state_value calendar (prune_ledger starred 0)) braces
unfolding decode_utf8 prune_ledger normalize normalize_below state_value
starred-IsReadable = record { encoded = refl; decoded = refl; loaded = refl; normal = refl }

decode_state-encode_state_example :
    (encode_state calendar json starred 0 ≡ ok (some (braces ++ (b'\n' ∷ []))))
    × (decode_state calendar json (braces ++ (b'\n' ∷ [])) ≡ ok (prune_ledger starred 0))
decode_state-encode_state_example =
    decode_state-encode_state calendar json starred 0 braces starred-IsValid starred-IsIsoState
      starred-IsReadable

decode_state-accepted_example : validate_state (prune_ledger starred 0) ≡ ok tt
decode_state-accepted_example =
    decode_state-accepted calendar json (braces ++ (b'\n' ∷ [])) (prune_ledger starred 0)
      decode_state-encode_state_example.1

abbrev base64 : Base64
base64 = record { b64encode = λ raw. ""; b64decode = λ text. none }

abbrev env : Environment
env = record { json = json; base64 = base64; calendar = calendar; clock = λ n. n }

abbrev empty_disk : Disk
empty_disk = record {
  state_file = none;
  generation_file = none;
  snapshot_file = none;
  inventory_file = λ source. none;
  quarantined = [];
  readings = 0;
}

load_state-write_state_example :
    ((write_state env starred empty_disk).0 ≡ ok tt)
    × ((load_state env false (write_state env starred empty_disk).1).0
        ≡ ok (record { state = prune_ledger (prune_ledger starred 0) 1; corrupt = false }))
load_state-write_state_example =
    load_state-write_state env starred braces empty_disk refl starred-IsValid starred-IsIsoState
      starred-IsReadable

abbrev saved_disk : Disk
saved_disk = record empty_disk { state_file = some (braces ++ (b'\n' ∷ [])) }

load_state-accepted_example : validate_state (prune_ledger (prune_ledger starred 0) 0) ≡ ok tt
unfolding load_state normalize_below security_fix_condition validate_condition is_advisory_id
    is_cve_id is_printable_ascii validate_watch is_arch_item_id
load_state-accepted_example =
    load_state-accepted env false saved_disk
      (record { state = prune_ledger (prune_ledger starred 0) 0; corrupt = false }) refl

-- a state file that is not UTF-8
abbrev broken_disk : Disk
broken_disk = record empty_disk { state_file = some (255 ∷ []) }

broken-moved : load_state env true broken_disk ≡ (
  ok (record { state = empty_state; corrupt = true }),
  record broken_disk { state_file = none; quarantined = (255 ∷ []) ∷ [] },
)
unfolding load_state decode_state
broken-moved = refl

-- a library that reads the document of a schema to come
abbrev later : Environment
later = record env {
  json = record json {
    loads = λ on_object on_constant text.
        some (ok (record_of (("schemaVersion", JsonValue.integer (ℤ.pos 3)) ∷ [])));
  };
}

saved-IsNewer : IsNewer later.json (braces ++ (b'\n' ∷ [])) 3
unfolding decode_json normalize_below decode_utf8
saved-IsNewer = (
  "{}\n",
  dict (("schemaVersion", JsonValue.integer (ℤ.pos 3)) ∷ []),
  refl,
  refl,
  refl,
  omega arith,
)

update_state-newer_schema_example :
    ((p : Bool)
      → load_state later p saved_disk ≡ (err (StorageError.schema_incompatible 3), saved_disk))
    × (update_state later (ok tt) ok saved_disk
        ≡ (err (StorageError.schema_incompatible 3), saved_disk))
update_state-newer_schema_example =
    update_state-newer_schema later saved_disk (braces ++ (b'\n' ∷ [])) 3 (ok tt) ok refl refl
      saved-IsNewer

load_state-schema_example : IsNewer later.json (braces ++ (b'\n' ∷ [])) 3
unfolding load_state normalize_below
load_state-schema_example =
    load_state-schema later saved_disk (braces ++ (b'\n' ∷ [])) 3 refl refl refl

abbrev doubled : PersistentState
doubled = record starred { watches = vim ∷ vim ∷ [] }

doubled-refused : validate_state doubled ≡ err "state has duplicate watches"
unfolding validate_state
doubled-refused = refl

empty_disk-loaded :
    load_state env false empty_disk
    ≡ (ok (record { state = empty_state; corrupt = false }), empty_disk)
unfolding load_state
empty_disk-loaded = refl

update_state-invalid_example : update_state env (ok tt) (λ state. ok doubled) empty_disk ≡ (
  err (StorageError.state_corrupt "state has duplicate watches"),
  record empty_disk { readings = 1 },
)
update_state-invalid_example =
    update_state-invalid env (λ state. ok doubled) empty_disk empty_disk
      (record { state = empty_state; corrupt = false }) doubled "state has duplicate watches"
      empty_disk-loaded refl refl doubled-refused

prune_ledger-IsDurable_example : IsDurable (prune_ledger starred 0)
prune_ledger-IsDurable_example =
    prune_ledger-IsDurable starred 0 (validate_state-IsDurable starred starred-IsValid)
