-- ===== src/Wire/Fields.antt =====
-- helper/opatchy_helper/parser_fields.py: the readers of single fields.
use text.Mathlib.TextLemmas.{length-append}
use opatchy.Base.{
  All, Bool, List, Option, String, [], ap, arith, bool_eq, contains, err, false, filter, is_some,
  list_eq, ltb, map, nat_eq, none, not, ok, option_eq, refl, some, sort_texts, string_eq,
  text_length, ℕ, ℤ, ◌+++◌, ◌==◌, ◌>>=◌, ◌>>◌, ◌||◌, ◌∷◌, ◌≡◌,
}
use opatchy.Models.{
  Datetime, ErrorCode, arch_status_eq, condition_eq, item_source_eq, provenance_eq, severity_eq,
  source_name_eq, source_scope_eq, source_status_eq, watch_eq, watch_mode_eq,
}
use opatchy.Validation.{Check, Validated, fail_if, validate_bounded}
use opatchy.Wire.Enums.{
  StrEnum, arch_status_enum, error_code_enum, item_source_enum, kev_status_enum, member_of,
  notification_status_enum, provenance_enum, response_kind_enum, scan_state_enum, severity_enum,
  source_name_enum, source_scope_enum, source_status_enum, text_of, watch_mode_enum,
}
use opatchy.Wire.Json.{JsonObject, JsonValue, field_names, get_field, items_of, list_of}
use opatchy.Wire.Timestamps.{
  Calendar, IsIso, code_at, code_at-append, ends_with_z, ends_with_z-append, replace-plain,
  timestamp_text, without_last, without_last-append,
}

abbrev pub fail : {A : Type 0} → ErrorCode → String → Validated A
fail code message = err (record { code = code; message = message })

pub record Reader : Type 0 where
  pub value : JsonObject
  pub path : String

-- `Reader.field`
unfoldable pub field : Reader → String → Validated JsonValue
field reader name = elim (get_field name reader.value) [
  | some value ↦ ok value
  | none ↦ fail ErrorCode.missing_field ("missing " +++ reader.path +++ "." +++ name)
]

-- `if unknown_fields: fail(...)`, of the sorted names
abbrev refuse_unknown : List String → String → Check
refuse_unknown [] path = ok tt
refuse_unknown (name ∷ names) path =
    fail ErrorCode.unknown_field ("unknown " +++ path +++ "." +++ name)

unfoldable pub reader : JsonValue → String → List String → Validated Reader
reader (JsonValue.object value) path fields = do
  refuse_unknown (sort_texts (filter (λ name. not (contains name fields)) (field_names value))) path
  ok (record { value = value; path = path })
reader value path fields = fail ErrorCode.invalid_type (path +++ " must be an object")

abbrev pub string : JsonValue → String → Validated String
string (JsonValue.text value) path = ok value
string value path = fail ErrorCode.invalid_type (path +++ " must be a string")

abbrev pub identifier : JsonValue → String → Validated String
identifier value path = string value path

abbrev pub optional_string : JsonValue → String → Validated (Option String)
optional_string JsonValue.null path = ok none
optional_string value path = do raw ← string value path; ok (some raw)

abbrev pub read_boolean : JsonValue → String → Validated Bool
read_boolean (JsonValue.boolean value) path = ok value
read_boolean value path = fail ErrorCode.invalid_type (path +++ " must be a boolean")

abbrev pub nonnegative_int : JsonValue → String → Validated ℤ
nonnegative_int (JsonValue.integer (ℤ.pos n)) path = ok (ℤ.pos n)
nonnegative_int value path =
    fail ErrorCode.invalid_type (path +++ " must be a non-negative exact integer")

abbrev pub list_value : JsonValue → String → Validated (List JsonValue)
list_value (JsonValue.array values) path = ok (list_of values)
list_value value path = fail ErrorCode.invalid_type (path +++ " must be an array")

unfoldable pub bounded_string : JsonValue → String → ℕ → Validated String
bounded_string value path maximum_length = do
  raw ← string value path
  fail_if (raw == "" || ltb maximum_length (text_length raw)) ErrorCode.invalid_type
      (path +++ " must be a bounded non-empty string")
  ok raw

unfoldable pub protocol_version : JsonValue → Validated ℤ
protocol_version (JsonValue.integer (ℤ.negsuc n)) =
    fail ErrorCode.protocol_version_invalid "protocolVersion is unsupported"
protocol_version (JsonValue.integer (ℤ.pos n)) = do
  fail_if (ltb 1 n) ErrorCode.protocol_version_future "protocolVersion is newer than this helper"
  fail_if (not (n == 1)) ErrorCode.protocol_version_invalid "protocolVersion is unsupported"
  ok (ℤ.pos n)
protocol_version value =
    fail ErrorCode.protocol_version_invalid "protocolVersion must be an exact integer"

-- `len(raw) < 21 or raw[10] != "T" or not raw.endswith("Z")`
unfoldable pub not_rfc3339 : String → Bool
not_rfc3339 raw =
    ltb (text_length raw) 21 || not (code_at 10 raw == some b'T') || not (ends_with_z raw)

abbrev parsed_moment : Option Datetime → String → Validated Datetime
parsed_moment (some moment) path = ok moment
parsed_moment none path = fail ErrorCode.invalid_timestamp (path +++ " must be UTC RFC3339")

unfoldable pub timestamp : Calendar → JsonValue → String → Validated Datetime
unfolding not_rfc3339
timestamp calendar value path = do
  raw ← string value path
  fail_if (not_rfc3339 raw) ErrorCode.invalid_timestamp (path +++ " must be UTC RFC3339")
  parsed_moment (calendar.fromisoformat (without_last raw +++ "+00:00")) path

-- the member that was found, or `ValueError`
abbrev known_member : {A : Type 0} → Option A → String → Validated A
known_member (some member) path = ok member
known_member none path = fail ErrorCode.unknown_enum ("unknown enum at " +++ path)

module _ {A : Type 0} ⦃e : StrEnum A⦄ where
  unfoldable pub enum : JsonValue → String → Validated A
  enum value path = do raw ← string value path; known_member (member_of raw) path

unfoldable pub reject_field : Reader → String → Check
reject_field reader name =
    fail_if (is_some (get_field name reader.value)) ErrorCode.invalid_envelope
      ("response." +++ name +++ " is incompatible with response.kind")

-- `tuple(f(entry) for entry in entries)`
unfoldable pub read_all :
    {A : Type 0} → (JsonValue → Validated A) → List JsonValue → Validated (List A)
read_all f [] = ok []
read_all f (v ∷ vs) = do a ← f v; rest ← read_all f vs; ok (a ∷ rest)

-- reading back what was written
module _ {A : Type 0} where
  pub read_all-map :
      (f : JsonValue → Validated A) (g : A → JsonValue) (xs : List A)
      → All (λ a. f (g a) ≡ ok a) xs
      → read_all f (list_of (items_of (map g xs))) ≡ ok xs
  unfolding read_all
  read_all-map f g [] h = refl
  read_all-map f g (x ∷ xs) (h, hs) = rw (h, read_all-map f g xs hs) refl

module _ {A : Type 0} ⦃e : StrEnum A⦄ where
  pub enum-value : (a : A) (path : String) → enum (text_of a) path ≡ ok a
  unfolding enum
  enum-value a path = ap (λ found. known_member found path) (e.found a)

pub bounded_string-text :
    (raw path place : String) (bound : ℕ)
    → validate_bounded raw place bound ≡ ok tt
    → bounded_string (JsonValue.text raw) path bound ≡ ok raw
unfolding bounded_string validate_bounded
bounded_string-text raw path place bound h = ground arith

not_rfc3339-append :
    {calendar : Calendar} {value : Datetime} (iso : IsIso calendar value)
    → not_rfc3339 (iso.local +++ "Z") ≡ false
unfolding not_rfc3339
not_rfc3339-append iso =
    rw
      (
        length-append iso.local "Z",
        iso.size,
        code_at-append 10 iso.local "Z" iso.separator,
        ends_with_z-append iso.local,
      )
      refl

pub timestamp-text :
    (calendar : Calendar) (value : Datetime) (path : String)
    → IsIso calendar value
    → timestamp calendar (JsonValue.text (timestamp_text calendar value)) path ≡ ok value
unfolding timestamp timestamp_text
timestamp-text calendar value path iso =
    rw
      (
        iso.text,
        replace-plain iso.local iso.plain,
        not_rfc3339-append iso,
        without_last-append iso.local,
        iso.back,
      )
      refl
