-- ===== src/Storage/Documents/States.antt =====
-- helper/opatchy_helper/storage_state.py: the document of a state, its schemas and migrations.
use opatchy.Base.{
  Bool, List, Option, Result, String, [], decode_utf8, err, false, none, not, ok, refuse, some, suc,
  zero, ℕ, ℤ, ◌+++◌, ◌++◌, ◌>>=◌, ◌>>◌, ◌∷◌,
}
use opatchy.Models.{Datetime, ErrorInfo, LedgerEntry, PersistentState, SourceMetadata, WatchRecord}
use opatchy.Stars.{fingerprint}
use opatchy.Storage.Documents.{
  corrupt, read_array, read_each, read_flag, read_integer, read_member, read_object,
  read_optional_string, read_string, state_field,
}
use opatchy.Storage.Documents.Watches.{parse_v0_watch, parse_v1_watch, parse_watch, watch_value}
use opatchy.Storage.State.{prune_ledger, validate_state}
use opatchy.Storage.Watches.{Checked}
use opatchy.Wire.Enums.{
  arch_status_enum, error_code_enum, item_source_enum, kev_status_enum, notification_status_enum,
  provenance_enum, response_kind_enum, scan_state_enum, severity_enum, source_name_enum,
  source_scope_enum, source_status_enum, text_of, watch_mode_enum,
}
use opatchy.Wire.Json.{JsonObject, JsonValue, array_of, get_field, optional_text, record_of}
use opatchy.Wire.Protocol.{DecodeError, Decoded, JsonText, decode_json}
use opatchy.Wire.Timestamps.{Calendar, ends_with_z, timestamp_text, without_last}

abbrev pub state_schema_version : ℕ
state_schema_version = 2

-- What `decode_state` may raise: `StateCorruptError`, `StateSchemaIncompatible`, or the
-- `ProtocolError` or the `ValueError` of `decode_json`.
pub data StateError : Type 0 where
  state_corrupt : String → StateError
  schema_incompatible : ℕ → StateError
  protocol_error : ErrorInfo → StateError
  value_error : StateError

abbrev pub corrupt_or : {A : Type 0} → Checked A → Result StateError A
corrupt_or (ok a) = ok a
corrupt_or (err reason) = err (StateError.state_corrupt reason)

abbrev pub protocol_or : {A : Type 0} → Decoded A → Result StateError A
protocol_or (ok a) = ok a
protocol_or (err (DecodeError.protocol_error e)) = err (StateError.protocol_error e)
protocol_or (err DecodeError.value_error) = err StateError.value_error

abbrev parsed_or : {A : Type 0} → Option A → String → Checked A
parsed_or (some a) reason = ok a
parsed_or none reason = corrupt reason

abbrev pub state_text : Option String → Result StateError String
state_text (some text) = ok text
state_text none = err (StateError.state_corrupt "state is not UTF-8")

-- `_source_failure_count`
abbrev pub failure_count_of : Option JsonValue → Checked ℕ
failure_count_of none = ok 0
failure_count_of (some value) = read_integer value "source.failureCount" >>= λ count. elim count [
  | ℤ.pos n ↦ ok n
  | ℤ.negsuc n ↦ corrupt "source.failureCount must be non-negative"
]

-- `_source_permanent_failure`
abbrev pub permanent_failure_of : Option JsonValue → Checked Bool
permanent_failure_of none = ok false
permanent_failure_of (some value) = read_flag value "source.permanentFailure"

-- `_optional_ledger_string`
abbrev pub ledger_string_of : Option JsonValue → String → Checked (Option String)
ledger_string_of none path = ok none
ledger_string_of (some value) path = read_optional_string value path

-- `validate_state(state)`, then `return state`
unfoldable pub checked_state : PersistentState → Checked PersistentState
unfolding validate_state
checked_state state = do validate_state state; ok state

unfoldable pub migrate_v0 : JsonObject → Checked PersistentState
unfolding state_field read_each parse_v0_watch checked_state
migrate_v0 document = do
  watches_field ← state_field document "watches"
  entries ← read_array watches_field "watches"
  watches ← read_each parse_v0_watch entries
  checked_state (record { watches = watches; ledger = []; sources = [] })

module _ (calendar : Calendar) where
  -- `_timestamp`
  unfoldable pub read_timestamp : JsonValue → String → Checked Datetime
  read_timestamp value path = do
    raw ← read_string value path
    refuse (not (ends_with_z raw)) (path +++ " must be UTC RFC3339")
    parsed_or (calendar.fromisoformat (without_last raw +++ "+00:00"))
        (path +++ " must be UTC RFC3339")

  -- `_optional_timestamp`
  abbrev pub read_optional_timestamp : JsonValue → String → Checked (Option Datetime)
  read_optional_timestamp JsonValue.null path = ok none
  read_optional_timestamp value path = do moment ← read_timestamp value path; ok (some moment)

  -- `_optional_ledger_timestamp`
  abbrev pub ledger_timestamp_of : Option JsonValue → String → Checked (Option Datetime)
  ledger_timestamp_of none path = ok none
  ledger_timestamp_of (some value) path = read_optional_timestamp value path

  unfoldable pub parse_ledger : JsonValue → Checked LedgerEntry
  unfolding state_field read_member read_timestamp
  parse_ledger value = do
    document ← read_object value "ledger entry"
    lease_token ← ledger_string_of (get_field "leaseToken" document) "ledger.leaseToken"
    lease_expires_at ←
        ledger_timestamp_of (get_field "leaseExpiresAt" document) "ledger.leaseExpiresAt"
    fingerprint_field ← state_field document "fingerprint"
    fingerprint ← read_string fingerprint_field "ledger.fingerprint"
    status_field ← state_field document "status"
    status ← read_member status_field "ledger.status" "ledger.status is invalid"
    recorded_field ← state_field document "recordedAt"
    recorded_at ← read_timestamp recorded_field "ledger.recordedAt"
    ok (record {
      fingerprint = fingerprint;
      status = status;
      recorded_at = recorded_at;
      lease_token = lease_token;
      lease_expires_at = lease_expires_at;
    })

  unfoldable pub parse_source_metadata : JsonValue → Checked SourceMetadata
  unfolding state_field read_member read_timestamp
  parse_source_metadata value = do
    document ← read_object value "source metadata"
    source_field ← state_field document "source"
    source ← read_member source_field "source.source" "source.source is invalid"
    success_field ← state_field document "lastSuccess"
    last_success ← read_optional_timestamp success_field "source.lastSuccess"
    backoff_field ← state_field document "backoffUntil"
    backoff_until ← read_optional_timestamp backoff_field "source.backoffUntil"
    failure_count ← failure_count_of (get_field "failureCount" document)
    permanent_failure ← permanent_failure_of (get_field "permanentFailure" document)
    ok (record {
      source = source;
      last_success = last_success;
      backoff_until = backoff_until;
      failure_count = failure_count;
      permanent_failure = permanent_failure;
    })

  -- `_parse`
  unfoldable pub parse_state :
      JsonObject → (JsonValue → Checked WatchRecord) → Checked PersistentState
  unfolding state_field read_each parse_ledger parse_source_metadata checked_state
  parse_state document parse_watch_record = do
    watches_field ← state_field document "watches"
    watch_entries ← read_array watches_field "watches"
    watches ← read_each parse_watch_record watch_entries
    ledger_field ← state_field document "ledger"
    ledger_entries ← read_array ledger_field "ledger"
    ledger ← read_each parse_ledger ledger_entries
    sources_field ← state_field document "sources"
    source_entries ← read_array sources_field "sources"
    sources ← read_each parse_source_metadata source_entries
    checked_state (record { watches = watches; ledger = ledger; sources = sources })

  -- `decode_state` on the schema version of the document
  unfoldable pub parse_version : JsonObject → ℤ → Result StateError PersistentState
  unfolding migrate_v0 parse_state parse_v1_watch parse_watch
  parse_version document (ℤ.pos zero) = corrupt_or (migrate_v0 document)
  parse_version document (ℤ.pos (suc zero)) = corrupt_or (parse_state document parse_v1_watch)
  parse_version document (ℤ.pos (suc (suc zero))) = corrupt_or (parse_state document parse_watch)
  parse_version document (ℤ.pos (suc (suc (suc n)))) =
      err (StateError.schema_incompatible (suc (suc (suc n))))
  parse_version document (ℤ.negsuc n) =
      err (StateError.state_corrupt "state.schemaVersion is unsupported")

  unfoldable pub decode_document : JsonValue → Result StateError PersistentState
  unfolding state_field parse_version
  decode_document value = do
    document ← corrupt_or (read_object value "state")
    version_field ← corrupt_or (state_field document "schemaVersion")
    version ← corrupt_or (read_integer version_field "state.schemaVersion")
    parse_version document version

  unfoldable pub decode_state : JsonText → List ℕ → Result StateError PersistentState
  unfolding decode_json decode_document decode_utf8
  decode_state json raw = do
    text ← state_text (decode_utf8 raw)
    value ← protocol_or (decode_json json text)
    decode_document value

  -- `_optional_timestamp_value`
  abbrev pub optional_timestamp_value : Option Datetime → JsonValue
  optional_timestamp_value none = JsonValue.null
  optional_timestamp_value (some moment) = JsonValue.text (timestamp_text calendar moment)

  unfoldable pub ledger_value : LedgerEntry → JsonValue
  unfolding timestamp_text
  ledger_value entry = record_of (
      ("fingerprint", JsonValue.text entry.fingerprint)
      ∷ ("leaseExpiresAt", optional_timestamp_value entry.lease_expires_at)
      ∷ ("leaseToken", optional_text entry.lease_token)
      ∷ ("recordedAt", JsonValue.text (timestamp_text calendar entry.recorded_at))
      ∷ ("status", text_of entry.status)
      ∷ [])

  unfoldable pub source_metadata_value : SourceMetadata → JsonValue
  unfolding timestamp_text
  source_metadata_value source = record_of (
      ("backoffUntil", optional_timestamp_value source.backoff_until)
      ∷ ("failureCount", JsonValue.integer (ℤ.pos source.failure_count))
      ∷ ("lastSuccess", optional_timestamp_value source.last_success)
      ∷ ("permanentFailure", JsonValue.boolean source.permanent_failure)
      ∷ ("source", text_of source.source)
      ∷ [])

  -- the dict of `encode_state`, of the pruned state
  unfoldable pub state_value : PersistentState → JsonValue
  unfolding ledger_value source_metadata_value watch_value
  state_value state = record_of (
      ("ledger", array_of ledger_value state.ledger)
      ∷ ("schemaVersion", JsonValue.integer (ℤ.pos state_schema_version))
      ∷ ("sources", array_of source_metadata_value state.sources)
      ∷ ("watches", array_of watch_value state.watches)
      ∷ [])

  -- `encode_state` up to the text
  unfoldable pub encode_document : PersistentState → Datetime → Checked JsonValue
  unfolding validate_state prune_ledger state_value
  encode_document state now = do validate_state state; ok (state_value (prune_ledger state now))

  abbrev with_newline : Option (List ℕ) → Option (List ℕ)
  with_newline (some raw) = some (raw ++ (b'\n' ∷ []))
  with_newline none = none

  -- none is the `UnicodeEncodeError` of `str.encode`.
  unfoldable pub encode_state : JsonText → PersistentState → Datetime → Checked (Option (List ℕ))
  unfolding encode_document
  encode_state json state now = do
    value ← encode_document state now
    ok (with_newline (json.encode (json.dumps value)))
