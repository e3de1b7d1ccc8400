-- ===== src/Wire/Json.antt =====
-- helper/opatchy_helper/json_value.py: JSON values. A dict is the list of its entries in the order of
-- their keys, without repetition, since the helper only asks for a key, for the set of the keys, or
-- for the text with sorted keys. A float is the text of its literal; no code looks into one.
use Prim.Native.Char.{code}
use opatchy.Base.{
  Bool, List, Option, Result, String, [], ap, bool_eq, false, if◌then◌else◌, leb, list_eq, ltb, map,
  nat_eq, none, ok, option_eq, refl, refuse, some, string_eq, suc, ℕ, ℤ, ◌&&◌, ◌==◌, ◌>>=◌, ◌>>◌,
  ◌||◌, ◌∷◌, ◌≡◌,
}
use opatchy.Models.{
  ErrorCode, ErrorInfo, arch_status_eq, condition_eq, item_source_eq, provenance_eq, severity_eq,
  source_name_eq, source_scope_eq, source_status_eq, watch_eq, watch_mode_eq,
}

mutual
  pub data JsonValue : Type 0 where
    null : JsonValue
    boolean : Bool → JsonValue
    integer : ℤ → JsonValue
    floating : String → JsonValue
    text : String → JsonValue
    array : JsonItems → JsonValue
    object : JsonObject → JsonValue

  pub data JsonItems : Type 0 where
    empty : JsonItems
    item : JsonValue → JsonItems → JsonItems

  pub data JsonObject : Type 0 where
    end : JsonObject
    entry : String → JsonValue → JsonObject → JsonObject

abbrev pub items_of : List JsonValue → JsonItems
items_of [] = JsonItems.empty
items_of (v ∷ vs) = JsonItems.item v (items_of vs)

abbrev pub list_of : JsonItems → List JsonValue
list_of JsonItems.empty = []
list_of (JsonItems.item v vs) = v ∷ list_of vs

-- `[f(x) for x in xs]`
abbrev pub array_of {ℓ} : {A : Type ℓ} → (A → JsonValue) → List A → JsonValue
array_of f xs = JsonValue.array (items_of (map f xs))

pub list_of-items_of : (vs : List JsonValue) → list_of (items_of vs) ≡ vs
list_of-items_of [] = refl
list_of-items_of (v ∷ vs) = ap (λ ws. v ∷ ws) (list_of-items_of vs)

-- `value or None`
abbrev pub optional_text : Option String → JsonValue
optional_text none = JsonValue.null
optional_text (some s) = JsonValue.text s

-- `document[name]`, where there is such a key
abbrev pub get_field : String → JsonObject → Option JsonValue
get_field name JsonObject.end = none
get_field name (JsonObject.entry key value rest) =
    if key == name then some value else get_field name rest

abbrev pub field_names : JsonObject → List String
field_names JsonObject.end = []
field_names (JsonObject.entry key value rest) = key ∷ field_names rest

abbrev pub max_json_depth : ℕ
max_json_depth = 100

abbrev malformed : String → ErrorInfo
malformed message = record { code = ErrorCode.malformed_json; message = message }

-- `0xD800 <= ord(character) <= 0xDFFF` of some character
abbrev pub has_surrogate : String → Bool
has_surrogate String.[] = false
has_surrogate (String.◌∷◌ c s) = leb 55296 (code c) && leb (code c) 57343 || has_surrogate s

-- `_reject_surrogate`
abbrev pub reject_surrogate : String → Result ErrorInfo (Unit {0})
reject_surrogate value =
    refuse (has_surrogate value) (malformed "input contains an unpaired surrogate")

-- `_normalize` below its test of the depth
unfoldable mutual
  pub normalize_below : JsonValue → ℕ → Result ErrorInfo JsonValue
  normalize_below JsonValue.null depth = ok JsonValue.null
  normalize_below (JsonValue.boolean b) depth = ok (JsonValue.boolean b)
  normalize_below (JsonValue.integer n) depth = ok (JsonValue.integer n)
  normalize_below (JsonValue.floating s) depth = ok (JsonValue.floating s)
  normalize_below (JsonValue.text s) depth = do reject_surrogate s; ok (JsonValue.text s)
  normalize_below (JsonValue.array vs) depth = do
    ws ← normalize_items vs (suc depth)
    ok (JsonValue.array ws)
  normalize_below (JsonValue.object fs) depth = do
    gs ← normalize_fields fs (suc depth)
    ok (JsonValue.object gs)

  pub normalize_items : JsonItems → ℕ → Result ErrorInfo JsonItems
  normalize_items JsonItems.empty depth = ok JsonItems.empty
  normalize_items (JsonItems.item v vs) depth = do
    refuse (ltb max_json_depth depth) (malformed "input exceeds the JSON nesting limit")
    w ← normalize_below v depth
    ws ← normalize_items vs depth
    ok (JsonItems.item w ws)

  pub normalize_fields : JsonObject → ℕ → Result ErrorInfo JsonObject
  normalize_fields JsonObject.end depth = ok JsonObject.end
  normalize_fields (JsonObject.entry key v vs) depth = do
    reject_surrogate key
    refuse (ltb max_json_depth depth) (malformed "input exceeds the JSON nesting limit")
    w ← normalize_below v depth
    ws ← normalize_fields vs depth
    ok (JsonObject.entry key w ws)

-- `_normalize`
unfoldable pub normalize : JsonValue → ℕ → Result ErrorInfo JsonValue
normalize value depth = do
  refuse (ltb max_json_depth depth) (malformed "input exceeds the JSON nesting limit")
  normalize_below value depth

-- a dict literal, whose entries are in the order of the keys
abbrev pub dict : List (String × JsonValue) → JsonObject
dict [] = JsonObject.end
dict ((key, value) ∷ rest) = JsonObject.entry key value (dict rest)

abbrev pub record_of : List (String × JsonValue) → JsonValue
record_of fields = JsonValue.object (dict fields)
