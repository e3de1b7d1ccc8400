-- ===== src/Storage/Bundles.antt =====
-- helper/opatchy_helper/storage_generation.py: encoding, decoding and checking a generation.
-- the sources of the inventories are distinct and sorted
use opatchy.Base.{
  List, Option, [], any, bool_eq, contains, decode_utf8, err, is_unique, list_eq, nat_eq, none, not,
  ok, option_eq, refuse, some, sort_texts, string_eq, ℕ, ℤ, ◌++◌, ◌==◌, ◌>>=◌, ◌>>◌, ◌||◌, ◌∷◌,
}
use opatchy.Models.{
  Datetime, ErrorCode, GenerationBundle, InventoryResponse, Response, SnapshotResponse,
  arch_status_eq, condition_eq, item_source_eq, provenance_eq, severity_eq, source_name_eq,
  source_scope_eq, source_status_eq, watch_eq, watch_mode_eq,
}
use opatchy.Scan.Assembly.{inventories}
use opatchy.Storage.Documents.States.{decode_state, encode_state}
use opatchy.Storage.Generations.{
  Base64, StorageError, Stored, as_inventory, as_snapshot, bundle_document, bundle_error,
  bundle_field, bundle_integer, bundle_keys, found_bytes, last_good_key_names, of_decoded,
  of_encoded, of_state, of_state_bytes, sources_of_inventories, text_of_bytes,
}
use opatchy.Wire.Json.{JsonObject, JsonValue, array_of, items_of, list_of, record_of}
use opatchy.Wire.Protocol.{JsonText, decode_json, decode_response, encode_response}
use opatchy.Wire.Timestamps.{Calendar}

unfoldable pub check_sources : List InventoryResponse → Stored (Unit {0})
check_sources inventories =
    let sources = sources_of_inventories inventories in
    refuse (not (is_unique sources) || not (sources == sort_texts sources)) (
      StorageError.protocol_error (record {
        code = ErrorCode.invalid_envelope;
        message = "generation inventories are not deterministically unique";
      }))

module _ (json : JsonText) (base64 : Base64) (calendar : Calendar) where
  -- `encode_response` of each inventory, for what it raises
  unfoldable pub check_inventories : List InventoryResponse → Stored (Unit {0})
  unfolding encode_response
  check_inventories [] = ok tt
  check_inventories (r ∷ rs) = do
    raw ← of_encoded (encode_response json calendar (Response.inventory_response r))
    check_inventories rs

  unfoldable pub validate_bundle : GenerationBundle → Stored (Unit {0})
  unfolding check_sources check_inventories encode_state
  validate_bundle bundle = do
    snapshot ←
        of_encoded (encode_response json calendar (Response.snapshot_response bundle.snapshot))
    last_good ←
        of_encoded (encode_response json calendar (Response.snapshot_response bundle.last_good))
    check_sources bundle.inventories
    check_inventories bundle.inventories
    state ← of_state_bytes (encode_state calendar json bundle.state bundle.snapshot.generated_at)
    refuse (not (is_unique bundle.last_good_keys)) (
        StorageError.protocol_error (record {
          code = ErrorCode.invalid_envelope;
          message = "generation last-good keys are duplicated";
        }))
    refuse (any (λ key. not (contains key last_good_key_names)) bundle.last_good_keys) (
        StorageError.protocol_error (record {
          code = ErrorCode.invalid_envelope;
          message = "generation last-good key is invalid";
        }))

  -- `_encoded_response`
  unfoldable pub encoded_response : Response → Stored JsonValue
  unfolding encode_response
  encoded_response response = do
    raw ← of_encoded (encode_response json calendar response)
    ok (JsonValue.text (base64.b64encode raw))

  unfoldable pub encoded_inventories : List InventoryResponse → Stored (List JsonValue)
  unfolding encoded_response
  encoded_inventories [] = ok []
  encoded_inventories (r ∷ rs) = do
    value ← encoded_response (Response.inventory_response r)
    values ← encoded_inventories rs
    ok (value ∷ values)

  -- the dict of `encode_generation`
  unfoldable pub bundle_value : GenerationBundle → Datetime → Stored JsonValue
  unfolding validate_bundle encoded_response encoded_inventories encode_state
  bundle_value bundle now = do
    validate_bundle bundle
    snapshot ← encoded_response (Response.snapshot_response bundle.snapshot)
    inventories ← encoded_inventories bundle.inventories
    raw ← of_state_bytes (encode_state calendar json bundle.state now)
    last_good ← encoded_response (Response.snapshot_response bundle.last_good)
    ok (
        record_of (
          ("inventories", JsonValue.array (items_of inventories))
          ∷ ("lastGood", last_good)
          ∷ ("lastGoodKeys", array_of JsonValue.text bundle.last_good_keys)
          ∷ ("order", JsonValue.integer (ℤ.pos bundle.order))
          ∷ ("schemaVersion", JsonValue.integer (ℤ.pos 1))
          ∷ ("snapshot", snapshot)
          ∷ ("state", JsonValue.text (base64.b64encode raw))
          ∷ []))

  abbrev bytes_of_text : Option (List ℕ) → Stored (List ℕ)
  bytes_of_text (some raw) = ok (raw ++ (b'\n' ∷ []))
  bytes_of_text none = err StorageError.unicode_error

  unfoldable pub encode_generation : GenerationBundle → Datetime → Stored (List ℕ)
  unfolding bundle_value
  encode_generation bundle now = do
    value ← bundle_value bundle now
    bytes_of_text (json.encode (json.dumps value))

  -- `_decoded_bytes`
  abbrev decoded_bytes : JsonValue → Stored (List ℕ)
  decoded_bytes (JsonValue.text value) = found_bytes (base64.b64decode value)
  decoded_bytes value = bundle_error "generation encoded value is invalid"

  -- `_snapshot`
  unfoldable pub bundle_snapshot : JsonValue → Stored SnapshotResponse
  unfolding decode_response
  bundle_snapshot value = do
    raw ← decoded_bytes value
    response ← of_decoded (decode_response json calendar raw)
    as_snapshot response

  -- the loop of `_inventories`
  unfoldable pub bundle_inventories : List JsonValue → Stored (List InventoryResponse)
  unfolding decode_response
  bundle_inventories [] = ok []
  bundle_inventories (value ∷ values) = do
    raw ← decoded_bytes value
    response ← of_decoded (decode_response json calendar raw)
    inventory ← as_inventory response
    inventories ← bundle_inventories values
    ok (inventory ∷ inventories)

  -- `_inventories`
  abbrev read_inventories : JsonValue → Stored (List InventoryResponse)
  read_inventories (JsonValue.array values) = bundle_inventories (list_of values)
  read_inventories value = bundle_error "generation inventories must be an array"

  -- `_validate_bundle(bundle)`, then `return bundle`
  unfoldable pub checked_bundle : GenerationBundle → Stored GenerationBundle
  unfolding validate_bundle
  checked_bundle bundle = do validate_bundle bundle; ok bundle

  -- the bundle of a document, before its check
  unfoldable pub read_parts : JsonObject → Stored GenerationBundle
  unfolding bundle_field bundle_snapshot bundle_inventories decode_state
  read_parts document = do
    schema_version ← bundle_integer (bundle_field document "schemaVersion")
    refuse (not (schema_version == 1)) (
        StorageError.protocol_error (record {
          code = ErrorCode.invalid_envelope;
          message = "generation cache schema is unsupported";
        }))
    snapshot ← bundle_snapshot (bundle_field document "snapshot")
    inventories ← read_inventories (bundle_field document "inventories")
    state_bytes ← decoded_bytes (bundle_field document "state")
    state ← of_state (decode_state calendar json state_bytes)
    last_good ← bundle_snapshot (bundle_field document "lastGood")
    keys ← bundle_keys (bundle_field document "lastGoodKeys")
    order ← bundle_integer (bundle_field document "order")
    ok (record {
      order = order;
      snapshot = snapshot;
      inventories = inventories;
      state = state;
      last_good = last_good;
      last_good_keys = keys;
    })

  unfoldable pub read_bundle : JsonObject → Stored GenerationBundle
  unfolding read_parts checked_bundle
  read_bundle document = do bundle ← read_parts document; checked_bundle bundle

  unfoldable pub decode_generation : List ℕ → Stored GenerationBundle
  unfolding decode_utf8 decode_json bundle_document read_bundle
  decode_generation raw = do
    text ← text_of_bytes (decode_utf8 raw)
    value ← of_decoded (decode_json json text)
    document ← bundle_document value
    read_bundle document
