-- ===== src/Storage/Documents.antt =====
-- The JSON documents of the durable state: the readers that helper/opatchy_helper/storage_state.py
-- and storage_watches.py share.
pub mod Watches
pub mod States
pub mod Pruned
pub mod RoundTrip
pub mod Schemas
pub mod Accepted
use opatchy.Base.{
  All, Bool, List, Option, String, [], ap, bool_eq, err, list_eq, map, nat_eq, none, ok, option_eq,
  refl, some, string_eq, ℤ, ◌+++◌, ◌>>=◌, ◌>>◌, ◌∷◌, ◌≡◌,
}
use opatchy.Models.{
  arch_status_eq, condition_eq, item_source_eq, provenance_eq, severity_eq, source_name_eq,
  source_scope_eq, source_status_eq, watch_eq, watch_mode_eq,
}
use opatchy.Storage.Watches.{Checked}
use opatchy.Wire.Enums.{
  StrEnum, arch_status_enum, error_code_enum, item_source_enum, kev_status_enum, member_of,
  notification_status_enum, provenance_enum, response_kind_enum, scan_state_enum, severity_enum,
  source_name_enum, source_scope_enum, source_status_enum, text_of, watch_mode_enum,
}
use opatchy.Wire.Json.{JsonObject, JsonValue, get_field, items_of, list_of}

abbrev pub corrupt : {A : Type 0} → String → Checked A
corrupt reason = err reason

-- `_field`
unfoldable pub state_field : JsonObject → String → Checked JsonValue
state_field document name = elim (get_field name document) [
  | some value ↦ ok value
  | none ↦ corrupt ("state is missing " +++ name)
]

-- `_object`, `_array`, `_string`, `_integer` and `_boolean`
abbrev pub read_object : JsonValue → String → Checked JsonObject
read_object (JsonValue.object value) path = ok value
read_object value path = corrupt (path +++ " must be an object")

abbrev pub read_array : JsonValue → String → Checked (List JsonValue)
read_array (JsonValue.array values) path = ok (list_of values)
read_array value path = corrupt (path +++ " must be an array")

abbrev pub read_string : JsonValue → String → Checked String
read_string (JsonValue.text value) path = ok value
read_string value path = corrupt (path +++ " must be a string")

abbrev pub read_integer : JsonValue → String → Checked ℤ
read_integer (JsonValue.integer value) path = ok value
read_integer value path = corrupt (path +++ " must be an integer")

abbrev pub read_flag : JsonValue → String → Checked Bool
read_flag (JsonValue.boolean value) path = ok value
read_flag value path = corrupt (path +++ " must be a boolean")

abbrev pub read_optional_string : JsonValue → String → Checked (Option String)
read_optional_string JsonValue.null path = ok none
read_optional_string value path = do raw ← read_string value path; ok (some raw)

-- a member that was found, or `ValueError`
abbrev pub member_or : {A : Type 0} → Option A → String → Checked A
member_or (some member) reason = ok member
member_or none reason = corrupt reason

module _ {A : Type 0} ⦃e : StrEnum A⦄ where
  -- `_watch_mode`, `_notification_status` and `_source_name`
  unfoldable pub read_member : JsonValue → String → String → Checked A
  read_member value path reason = do raw ← read_string value path; member_or (member_of raw) reason

  pub read_member-value :
      (a : A) (path reason : String) → read_member (text_of a) path reason ≡ ok a
  unfolding read_member
  read_member-value a path reason = ap (λ found. member_or found reason) (e.found a)

-- `tuple(f(value) for value in values)`
unfoldable pub read_each :
    {A : Type 0} → (JsonValue → Checked A) → List JsonValue → Checked (List A)
read_each f [] = ok []
read_each f (v ∷ vs) = do a ← f v; rest ← read_each f vs; ok (a ∷ rest)

pub read_each-map :
    {A : Type 0} (f : JsonValue → Checked A) (g : A → JsonValue) (xs : List A)
    → All (λ a. f (g a) ≡ ok a) xs
    → read_each f (list_of (items_of (map g xs))) ≡ ok xs
unfolding read_each
read_each-map f g [] h = refl
read_each-map f g (x ∷ xs) (h, hs) = rw (h, read_each-map f g xs hs) refl
