-- ===== src/Tests/Wires.antt =====
-- The codec of responses at concrete responses.
use opatchy.Base.{
  String, [], all_chars, bool_eq, decode_utf8, false, if◌then◌else◌, leb, list_eq, nat_eq, none, ok,
  option_eq, refl, some, string_eq, true, ℤ, ◌+++◌, ◌==◌, ◌>>=◌, ◌∷◌, ◌≡◌,
}
use opatchy.Models.{
  ItemSource, NormalizedItem, Provenance, Response, WatchMode, arch_status_eq, condition_eq,
  item_source_eq, provenance_eq, severity_eq, source_name_eq, source_scope_eq, source_status_eq,
  watch_eq, watch_mode_eq,
}
use opatchy.Validation.{
  validate_bounded, validate_inventory, validate_inventory_source, validate_item, validate_items,
  validate_metadata, validate_nonnegative, validate_response,
}
use opatchy.Wire.Json.{normalize, normalize_below}
use opatchy.Wire.Protocol.{
  IsReadable, JsonText, decode_response, encode_response, max_protocol_bytes,
}
use opatchy.Wire.Responses.{parse_response}
use opatchy.Wire.RoundTrip.Protocol.{decode_response-accepted, decode_response-encode_response}
use opatchy.Wire.RoundTrip.Responses.{parse_response-response_value}
use opatchy.Wire.Timestamps.{Calendar, IsIso, code_at}
use opatchy.Wire.Values.{envelope_of, response_value}

abbrev new_year : String
new_year = "2026-01-01T00:00:00.000000"

-- a calendar that knows one datetime
abbrev calendar : Calendar
calendar = record {
  isoformat = λ moment. new_year +++ "+00:00";
  fromisoformat = λ raw. if raw == new_year +++ "+00:00" then some 7 else none;
}

new_year-IsIso : IsIso calendar 7
unfolding code_at all_chars
new_year-IsIso = record {
  local = new_year;
  text = refl;
  size = refl;
  separator = refl;
  plain = refl;
  back = refl;
}

abbrev bash : NormalizedItem
bash = record {
  item_id = "arch:bash";
  source = ItemSource.arch;
  label = "bash";
  installed = some "5.2-1";
  candidate = some "5.3-1";
  watch_mode = WatchMode.temporary;
  watchable = true;
  provenance = Provenance.live;
  installed_fingerprint = some "f1";
  candidate_fingerprint = none;
  watch_armed = false;
}

abbrev packages : Response
packages = Response.inventory_response (record {
  generated_at = 7;
  generation_id = "generation-1";
  payload = record { source = ItemSource.arch; total = ℤ.pos 3; items = bash ∷ [] };
  protocol_version = ℤ.pos 1;
})

packages-IsValid : validate_response packages ≡ ok tt
unfolding validate_response validate_metadata validate_bounded validate_inventory
    validate_inventory_source validate_nonnegative validate_items validate_item
packages-IsValid = refl

parse_response-response_value_example :
    (response_value calendar packages >>= parse_response calendar) ≡ ok packages
parse_response-response_value_example =
    parse_response-response_value calendar packages packages-IsValid new_year-IsIso

-- a library that writes one text
abbrev json : JsonText
json = record {
  dumps = λ value. "{}";
  loads = λ on_object on_constant text.
      if text == "{}\n" then some (ok (envelope_of calendar packages)) else none;
  encode = λ text. some (b'{' ∷ b'}' ∷ []);
}

packages-IsReadable : IsReadable json (envelope_of calendar packages) (b'{' ∷ b'}' ∷ [])
unfolding decode_utf8 normalize normalize_below envelope_of
packages-IsReadable = record { encoded = refl; decoded = refl; loaded = refl; normal = refl }

decode_response-encode_response_example :
    (encode_response json calendar packages ≡ ok (b'{' ∷ b'}' ∷ b'\n' ∷ []))
    × (decode_response json calendar (b'{' ∷ b'}' ∷ b'\n' ∷ []) ≡ ok packages)
decode_response-encode_response_example =
    decode_response-encode_response json calendar packages (b'{' ∷ b'}' ∷ []) packages-IsValid
      new_year-IsIso packages-IsReadable refl

decode_response-accepted_example :
    (validate_response packages ≡ ok tt) × (leb max_protocol_bytes 3 ≡ false)
decode_response-accepted_example =
    decode_response-accepted json calendar (b'{' ∷ b'}' ∷ b'\n' ∷ []) packages
      decode_response-encode_response_example.1
