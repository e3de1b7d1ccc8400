-- ===== src/Storage/Generations.antt =====
-- helper/opatchy_helper/storage_generation.py: the document of a generation, whose parts are the
-- bytes of responses and of a state in base64. `Base64` stands for the standard library; none is a
-- `binascii.Error` or the `UnicodeEncodeError` of a text that is not ASCII.
use opatchy.Base.{
  List, Option, Result, String, [], all, bool_eq, contains, err, list_eq, map, nat_eq, none, not,
  ok, option_eq, refuse, some, string_eq, ℕ, ℤ, ◌&&◌, ◌++◌, ◌>>=◌, ◌>>◌, ◌∷◌,
}
use opatchy.Models.{
  ErrorCode, ErrorInfo, InventoryResponse, Response, SnapshotResponse, arch_status_eq, condition_eq,
  item_source_eq, item_source_value, provenance_eq, severity_eq, source_name_eq, source_name_value,
  source_scope_eq, source_status_eq, watch_eq, watch_mode_eq,
}
use opatchy.Scan.Assembly.{inventories}
use opatchy.Storage.Documents.States.{StateError}
use opatchy.Storage.Watches.{Checked}
use opatchy.Validation.{all_sources}
use opatchy.Wire.Json.{JsonObject, JsonValue, field_names, get_field, list_of}
use opatchy.Wire.Protocol.{DecodeError, Decoded, EncodeError}

pub record Base64 : Type 0 where
  pub b64encode : List ℕ → String
  pub b64decode : String → Option (List ℕ)

-- What the storage raises, the mutation of a caller included, which may raise a `WatchTransitionError`;
-- encoding and decoding raise a `ProtocolError`, a `StateCorruptError`, a
-- `StateSchemaIncompatible` or a `UnicodeEncodeError`, or the `ValueError` of `json.loads`.
pub data StorageError : Type 0 where
  protocol_error : ErrorInfo → StorageError
  state_corrupt : String → StorageError
  schema_incompatible : ℕ → StorageError
  unicode_error : StorageError
  value_error : StorageError
  transition_error : String → StorageError

abbrev pub Stored : Type 0 → Type 0
Stored A = Result StorageError A

-- `_fail`
abbrev pub bundle_error : {A : Type 0} → String → Stored A
bundle_error message =
    err (
      StorageError.protocol_error (record { code = ErrorCode.invalid_envelope; message = message }))

abbrev pub of_decoded : {A : Type 0} → Decoded A → Stored A
of_decoded (ok a) = ok a
of_decoded (err (DecodeError.protocol_error e)) = err (StorageError.protocol_error e)
of_decoded (err DecodeError.value_error) = err StorageError.value_error

abbrev pub of_encoded : {A : Type 0} → Result EncodeError A → Stored A
of_encoded (ok a) = ok a
of_encoded (err (EncodeError.protocol_error e)) = err (StorageError.protocol_error e)
of_encoded (err EncodeError.unicode_error) = err StorageError.unicode_error

abbrev pub of_state : {A : Type 0} → Result StateError A → Stored A
of_state (ok a) = ok a
of_state (err (StateError.state_corrupt reason)) = err (StorageError.state_corrupt reason)
of_state (err (StateError.schema_incompatible n)) = err (StorageError.schema_incompatible n)
of_state (err (StateError.protocol_error e)) = err (StorageError.protocol_error e)
of_state (err StateError.value_error) = err StorageError.value_error

-- the bytes of `encode_state`
abbrev pub of_state_bytes : Checked (Option (List ℕ)) → Stored (List ℕ)
of_state_bytes (ok (some raw)) = ok raw
of_state_bytes (ok none) = err StorageError.unicode_error
of_state_bytes (err reason) = err (StorageError.state_corrupt reason)

abbrev pub bundle_fields : List String
bundle_fields =
    "schemaVersion" ∷ "order" ∷ "snapshot" ∷ "inventories" ∷ "state" ∷ "lastGood" ∷ "lastGoodKeys"
    ∷ []

-- `_LAST_GOOD_KEYS`
abbrev pub last_good_key_names : List String
last_good_key_names = map source_name_value all_sources ++ ("flatpak:user" ∷ "flatpak:system" ∷ [])

-- `tuple(response.payload.source for response in inventories)`
abbrev pub sources_of_inventories : List InventoryResponse → List String
sources_of_inventories inventories = map (λ r. item_source_value r.payload.source) inventories

-- `_integer`
abbrev pub bundle_integer : JsonValue → Stored ℕ
bundle_integer (JsonValue.integer (ℤ.pos n)) = ok n
bundle_integer value = bundle_error "generation integer is invalid"

-- the entries of `_keys`
unfoldable pub key_texts : List JsonValue → Stored (List String)
key_texts [] = ok []
key_texts (JsonValue.text key ∷ values) = do keys ← key_texts values; ok (key ∷ keys)
key_texts (value ∷ values) = bundle_error "generation last-good keys are invalid"

-- `_keys`
abbrev pub bundle_keys : JsonValue → Stored (List String)
bundle_keys (JsonValue.array values) = key_texts (list_of values)
bundle_keys value = bundle_error "generation last-good keys are invalid"

abbrev pub found_bytes : Option (List ℕ) → Stored (List ℕ)
found_bytes (some raw) = ok raw
found_bytes none = bundle_error "generation encoded value is invalid"

-- `_document`, and the test of its fields
unfoldable pub bundle_document : JsonValue → Stored JsonObject
bundle_document (JsonValue.object document) = do
  refuse
      (not (
        all (λ name. contains name bundle_fields) (field_names document)
        && all (λ name. contains name (field_names document)) bundle_fields))
      (StorageError.protocol_error (record {
        code = ErrorCode.invalid_envelope;
        message = "generation cache fields are invalid";
      }))
  ok document
bundle_document value = bundle_error "generation cache must be an object"

-- `document[name]`, of a field that the document has; a `KeyError` cannot be raised below its test.
unfoldable pub bundle_field : JsonObject → String → JsonValue
bundle_field document name = elim (get_field name document) [
  | some value ↦ value
  | none ↦ JsonValue.null
]

abbrev pub as_snapshot : Response → Stored SnapshotResponse
as_snapshot (Response.snapshot_response r) = ok r
as_snapshot response = bundle_error "generation snapshot has an invalid response kind"

abbrev pub as_inventory : Response → Stored InventoryResponse
as_inventory (Response.inventory_response r) = ok r
as_inventory response = bundle_error "generation inventory has an invalid response kind"

abbrev pub text_of_bytes : Option String → Stored String
text_of_bytes (some text) = ok text
text_of_bytes none = bundle_error "generation cache is not UTF-8"
