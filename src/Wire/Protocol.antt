-- ===== src/Wire/Protocol.antt =====
-- helper/opatchy_helper/protocol.py and `decode_json` of json_value.py: responses as bytes.
-- `JsonText` stands for the standard library: `json.dumps` at the options of the helper; `json.loads`,
-- called with what it does with the entries of an object and with a constant such as `NaN`, where none
-- is a `JSONDecodeError` or a `RecursionError`; and `str.encode`, where none is a `UnicodeEncodeError`.
use opatchy.Base.{
  List, Option, Result, String, [], decode_utf8, err, if◌then◌else◌, is_some, leb, length, none, ok,
  refl, refuse, some, text_leb, ℕ, ◌+++◌, ◌++◌, ◌>>=◌, ◌>>◌, ◌∷◌, ◌≡◌,
}
use opatchy.Models.{ErrorCode, ErrorInfo, Response}
use opatchy.Validation.{Validated, fail_if}
use opatchy.Wire.Fields.{fail}
use opatchy.Wire.Json.{JsonObject, JsonValue, get_field, normalize}
use opatchy.Wire.Responses.{parse_response}
use opatchy.Wire.Timestamps.{Calendar}
use opatchy.Wire.Values.{response_value}

-- What decoding may raise: a `ProtocolError`, or the plain `ValueError` that `json.loads` raises for an
-- integer of more than 4300 digits.
pub data DecodeError : Type 0 where
  protocol_error : ErrorInfo → DecodeError
  value_error : DecodeError

abbrev pub Decoded : Type 0 → Type 0
Decoded A = Result DecodeError A

abbrev pub decoded : {A : Type 0} → Validated A → Decoded A
decoded (ok a) = ok a
decoded (err e) = err (DecodeError.protocol_error e)

pub record JsonText : Type 0 where
  pub dumps : JsonValue → String
  pub loads :
      (List (String × JsonValue) → Validated JsonObject)
      → (String → Validated JsonValue)
      → String
      → Option (Decoded JsonValue)
  pub encode : String → Option (List ℕ)

-- `value[key] = item`, of a key that is not there
abbrev pub set_key : String → JsonValue → JsonObject → JsonObject
set_key key item JsonObject.end = JsonObject.entry key item JsonObject.end
set_key key item (JsonObject.entry other value rest) =
    let later = set_key key item rest in
    if text_leb key other
    then JsonObject.entry key item (JsonObject.entry other value rest)
    else JsonObject.entry other value later

-- the loop of `_unique_object`, from the dict so far
unfoldable pub unique_entries : JsonObject → List (String × JsonValue) → Validated JsonObject
unique_entries value [] = ok value
unique_entries value ((key, item) ∷ pairs) = do
  fail_if (is_some (get_field key value)) ErrorCode.malformed_json
      "input contains a duplicate object key"
  unique_entries (set_key key item value) pairs

unfoldable pub unique_object : List (String × JsonValue) → Validated JsonObject
unfolding unique_entries
unique_object pairs = unique_entries JsonObject.end pairs

abbrev pub reject_constant : String → Validated JsonValue
reject_constant name = fail ErrorCode.malformed_json "input is not valid JSON"

abbrev normalized : Option (Decoded JsonValue) → Decoded JsonValue
normalized none = decoded (fail ErrorCode.malformed_json "input is not valid JSON")
normalized (some loaded) = do value ← loaded; decoded (normalize value 0)

abbrev pub max_protocol_bytes : ℕ
max_protocol_bytes = 5242880

abbrev pub response_text : Option String → Validated String
response_text (some text) = ok text
response_text none = fail ErrorCode.invalid_utf8 "input is not UTF-8"

-- What `encode_response` may raise: a `ProtocolError`, or the `UnicodeEncodeError` of `str.encode`.
pub data EncodeError : Type 0 where
  protocol_error : ErrorInfo → EncodeError
  unicode_error : EncodeError

abbrev encoded_bytes : Option (List ℕ) → Result EncodeError (List ℕ)
encoded_bytes (some raw) = ok (raw ++ (b'\n' ∷ []))
encoded_bytes none = err EncodeError.unicode_error

abbrev raised : {A : Type 0} → Validated A → Result EncodeError A
raised (ok a) = ok a
raised (err e) = err (EncodeError.protocol_error e)

unfoldable pub decode_json : JsonText → String → Decoded JsonValue
unfolding unique_object normalize
decode_json json text = normalized (json.loads unique_object reject_constant text)

-- What it takes for a value to be read back from bytes: `str.encode` gives the bytes of what
-- `json.dumps` wrote, they are the UTF-8 of that text, and `json.loads` reads the value in it; and the
-- value has no surrogate and no excessive depth.
pub record IsReadable (json : JsonText) (value : JsonValue) (raw : List ℕ) : Type 0 where
  pub encoded : json.encode (json.dumps value) ≡ some raw
  pub decoded : decode_utf8 (raw ++ (b'\n' ∷ [])) ≡ some (json.dumps value +++ "\n")
  pub loaded :
      json.loads unique_object reject_constant (json.dumps value +++ "\n") ≡ some (ok value)
  pub normal : normalize value 0 ≡ ok value

pub decode_json-dumps :
    {json : JsonText} {value : JsonValue} {raw : List ℕ} (readable : IsReadable json value raw)
    → decode_json json (json.dumps value +++ "\n") ≡ ok value
unfolding decode_json
decode_json-dumps readable = rw (readable.loaded, readable.normal) refl

module _ (json : JsonText) (calendar : Calendar) where
  -- `_encode_json`
  unfoldable pub encode_json : Response → Result EncodeError (List ℕ)
  unfolding response_value
  encode_json response = do
    value ← raised (response_value calendar response)
    encoded_bytes (json.encode (json.dumps value))

  unfoldable pub encode_response : Response → Result EncodeError (List ℕ)
  unfolding encode_json
  encode_response response = do
    encoded ← encode_json response
    refuse (leb max_protocol_bytes (length encoded)) (
        EncodeError.protocol_error (record {
          code = ErrorCode.output_too_large;
          message = "encoded response reaches the five MiB limit";
        }))
    ok encoded

  unfoldable pub decode_response : List ℕ → Decoded Response
  unfolding decode_json parse_response decode_utf8
  decode_response raw = do
    decoded (
        fail_if (leb max_protocol_bytes (length raw)) ErrorCode.payload_too_large
          "input reaches the five MiB limit")
    text ← decoded (response_text (decode_utf8 raw))
    value ← decode_json json text
    decoded (parse_response calendar value)
