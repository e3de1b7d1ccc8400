-- ===== src/Storage/Documents/Schemas.antt =====
-- Which bytes `decode_state` of helper/opatchy_helper/storage_state.py refuses for their schema.
use opatchy.Base.{
  List, Option, Result, String, ap, arith, decode_utf8, err, none, ok, refl, some, suc, zero, ℕ, ℤ,
  ◌<◌, ◌>>=◌, ◌∙◌, ◌≡◌,
}
use opatchy.Storage.Documents.{read_integer, read_object, state_field}
use opatchy.Storage.Documents.States.{
  StateError, corrupt_or, decode_document, decode_state, parse_version, protocol_or,
  state_schema_version, state_text,
}
use opatchy.Storage.Watches.{Checked}
use opatchy.Wire.Json.{JsonObject, JsonValue, get_field}
use opatchy.Wire.Protocol.{DecodeError, Decoded, JsonText, decode_json, decoded}
use opatchy.Wire.Timestamps.{Calendar}

-- the bytes are the text of a JSON object with a schema version above that of the helper
abbrev pub IsNewer : JsonText → List ℕ → ℕ → Type 0
IsNewer json raw version =
    (text : String) × (document : JsonObject) × (decode_utf8 raw ≡ some text)
    × (decode_json json text ≡ ok (JsonValue.object document))
    × (get_field "schemaVersion" document ≡ some (JsonValue.integer (ℤ.pos version)))
    × (state_schema_version < version)

corrupt_or-compatible :
    {A : Type 0} (result : Checked A) (version : ℕ)
    → corrupt_or result ≡ err (StateError.schema_incompatible version)
    → ⊥
corrupt_or-compatible (ok a) version h = absurd cc
corrupt_or-compatible (err e) version h = absurd cc

-- what stood before a refusal for the schema was found
corrupt_or-bind :
    {A B : Type 0} (result : Checked A) (next : A → Result StateError B) (version : ℕ)
    → (corrupt_or result >>= next) ≡ err (StateError.schema_incompatible version)
    → (a : A) × (result ≡ ok a) × (next a ≡ err (StateError.schema_incompatible version))
corrupt_or-bind (ok a) next version h = (a, refl, h)
corrupt_or-bind (err e) next version h = absurd cc

protocol_or-bind :
    {A B : Type 0} (result : Decoded A) (next : A → Result StateError B) (version : ℕ)
    → (protocol_or result >>= next) ≡ err (StateError.schema_incompatible version)
    → (a : A) × (result ≡ ok a) × (next a ≡ err (StateError.schema_incompatible version))
protocol_or-bind (ok a) next version h = (a, refl, h)
protocol_or-bind (err (DecodeError.protocol_error e)) next version h = absurd cc
protocol_or-bind (err DecodeError.value_error) next version h = absurd cc

state_text-bind :
    {B : Type 0} (result : Option String) (next : String → Result StateError B) (version : ℕ)
    → (state_text result >>= next) ≡ err (StateError.schema_incompatible version)
    → (text : String) × (result ≡ some text)
      × (next text ≡ err (StateError.schema_incompatible version))
state_text-bind (some text) next version h = (text, refl, h)
state_text-bind none next version h = absurd cc

read_object-ok :
    (value : JsonValue) (path : String) (document : JsonObject)
    → read_object value path ≡ ok document
    → value ≡ JsonValue.object document
read_object-ok (JsonValue.object fields) path document h = cc
read_object-ok (JsonValue.array values) path document h = absurd cc
read_object-ok (JsonValue.text s) path document h = absurd cc
read_object-ok (JsonValue.integer n) path document h = absurd cc
read_object-ok (JsonValue.floating s) path document h = absurd cc
read_object-ok (JsonValue.boolean b) path document h = absurd cc
read_object-ok JsonValue.null path document h = absurd cc

read_integer-ok :
    (value : JsonValue) (path : String) (n : ℤ)
    → read_integer value path ≡ ok n
    → value ≡ JsonValue.integer n
read_integer-ok (JsonValue.object fields) path n h = absurd cc
read_integer-ok (JsonValue.array values) path n h = absurd cc
read_integer-ok (JsonValue.text s) path n h = absurd cc
read_integer-ok (JsonValue.integer m) path n h = cc
read_integer-ok (JsonValue.floating s) path n h = absurd cc
read_integer-ok (JsonValue.boolean b) path n h = absurd cc
read_integer-ok JsonValue.null path n h = absurd cc

state_field-ok :
    (document : JsonObject) (name : String) (value : JsonValue)
    → state_field document name ≡ ok value
    → get_field name document ≡ some value
unfolding state_field
state_field-ok document name value h = ground arith

state_field-found :
    (document : JsonObject) (name : String) (value : JsonValue)
    → get_field name document ≡ some value
    → state_field document name ≡ ok value
unfolding state_field
state_field-found document name value h = ground arith

module _ (calendar : Calendar) where
  parse_version-newer :
      (document : JsonObject) (version : ℕ)
      → state_schema_version < version
      → parse_version calendar document (ℤ.pos version)
        ≡ err (StateError.schema_incompatible version)
  unfolding parse_version
  parse_version-newer document zero h = absurd (omega arith)
  parse_version-newer document (suc zero) h = absurd (omega arith)
  parse_version-newer document (suc (suc zero)) h = absurd (omega arith)
  parse_version-newer document (suc (suc (suc n))) h = refl

  parse_version-refused :
      (document : JsonObject) (found : ℤ) (version : ℕ)
      → parse_version calendar document found ≡ err (StateError.schema_incompatible version)
      → (found ≡ ℤ.pos version) × (state_schema_version < version)
  unfolding parse_version
  parse_version-refused document (ℤ.pos zero) version h = absurd (corrupt_or-compatible _ version h)
  parse_version-refused document (ℤ.pos (suc zero)) version h =
      absurd (corrupt_or-compatible _ version h)
  parse_version-refused document (ℤ.pos (suc (suc zero))) version h =
      absurd (corrupt_or-compatible _ version h)
  parse_version-refused document (ℤ.pos (suc (suc (suc n)))) version h =
      let same : suc (suc (suc n)) ≡ version = cc in (ap ℤ.pos same, omega arith)
  parse_version-refused document (ℤ.negsuc n) version h = absurd cc

  module _ (json : JsonText) where
    pub decode_state-newer :
        (raw : List ℕ) (version : ℕ)
        → IsNewer json raw version
        → decode_state calendar json raw ≡ err (StateError.schema_incompatible version)
    unfolding decode_state decode_document
    decode_state-newer raw version (text, document, decoded, read, found, newer) =
        let field = state_field-found document "schemaVersion" _ found in
        rw (decoded, read)
          (rw (field, decode_document) (parse_version-newer document version newer))

    pub decode_state-refused :
        (raw : List ℕ) (version : ℕ)
        → decode_state calendar json raw ≡ err (StateError.schema_incompatible version)
        → IsNewer json raw version
    unfolding decode_state decode_document
    decode_state-refused raw version h =
        let text = state_text-bind (decode_utf8 raw) _ version h in
        let value = protocol_or-bind (decode_json json text.0) _ version text.2 in
        let document = corrupt_or-bind (read_object value.0 "state") _ version value.2 in
        let field = corrupt_or-bind (state_field document.0 "schemaVersion") _ version document.2 in
        let number =
          corrupt_or-bind (read_integer field.0 "state.schemaVersion") _ version field.2 in
        let refused = parse_version-refused document.0 number.0 version number.2 in
        (
          text.0,
          document.0,
          text.1,
          value.1 ∙ ap ok (read_object-ok value.0 "state" document.0 document.1),
          state_field-ok document.0 "schemaVersion" field.0 field.1
              ∙ ap some (read_integer-ok field.0 "state.schemaVersion" number.0 number.1)
              ∙ ap (λ n. some (JsonValue.integer n)) refused.0,
          refused.1,
        )
