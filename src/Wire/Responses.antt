-- ===== src/Wire/Responses.antt =====
-- helper/opatchy_helper/parser.py: the reader of responses.
-- `_validated`
use opatchy.Base.{
  List, String, [], bool_eq, is_some, list_eq, nat_eq, not, ok, option_eq, string_eq, ℤ, ◌>>=◌,
  ◌>>◌, ◌∷◌,
}
use opatchy.Models.{
  Datetime, ErrorCode, Response, arch_status_eq, condition_eq, item_source_eq, provenance_eq,
  severity_eq, source_name_eq, source_scope_eq, source_status_eq, watch_eq, watch_mode_eq,
}
use opatchy.Validation.{Validated, fail_if, validate_response}
use opatchy.Wire.Enums.{
  ResponseKind, arch_status_enum, error_code_enum, item_source_enum, kev_status_enum,
  notification_status_enum, provenance_enum, response_kind_enum, scan_state_enum, severity_enum,
  source_name_enum, source_scope_enum, source_status_enum, watch_mode_enum,
}
use opatchy.Wire.Fields.{
  Reader, enum, field, identifier, protocol_version, reader, reject_field, timestamp,
}
use opatchy.Wire.Items.{parse_error}
use opatchy.Wire.Json.{JsonValue, get_field}
use opatchy.Wire.Payloads.{parse_inventory, parse_snapshot, parse_star_result}
use opatchy.Wire.Timestamps.{Calendar}

unfoldable pub validated : Response → Validated Response
unfolding validate_response
validated response = do validate_response response; ok response

abbrev response_fields : List String
response_fields =
    "protocolVersion" ∷ "kind" ∷ "generatedAt" ∷ "generationId" ∷ "payload" ∷ "error" ∷ []

-- what `parse_response` reads before its `match`
pub record Envelope : Type 0 where
  pub reader_value : Reader
  pub version : ℤ
  pub generated_at : Datetime
  pub generation_id : String
  pub kind : ResponseKind

-- the field with the payload, where the other one is rejected
unfoldable pub read_payload :
    {A : Type 0} → (JsonValue → Validated A) → Reader → String → String → Validated A
unfolding reject_field field
read_payload parse r rejected name = do
  reject_field r rejected
  payload_field ← field r name
  parse payload_field

module _ (calendar : Calendar) where
  -- the `match` of `parse_response`
  unfoldable pub parse_kind : Envelope → ResponseKind → Validated Response
  unfolding reader field reject_field parse_snapshot parse_inventory parse_star_result parse_error
      validated
  parse_kind e ResponseKind.snapshot = do
    payload ← read_payload (parse_snapshot calendar) e.reader_value "error" "payload"
    validated (
        Response.snapshot_response (record {
          generated_at = e.generated_at;
          generation_id = e.generation_id;
          payload = payload;
          protocol_version = e.version;
        }))
  parse_kind e ResponseKind.inventory = do
    payload ← read_payload parse_inventory e.reader_value "error" "payload"
    validated (
        Response.inventory_response (record {
          generated_at = e.generated_at;
          generation_id = e.generation_id;
          payload = payload;
          protocol_version = e.version;
        }))
  parse_kind e ResponseKind.star_result = do
    payload ← read_payload parse_star_result e.reader_value "error" "payload"
    validated (
        Response.star_result_response (record {
          generated_at = e.generated_at;
          generation_id = e.generation_id;
          payload = payload;
          protocol_version = e.version;
        }))
  parse_kind e ResponseKind.error = do
    error ←
        read_payload (λ value. parse_error value "response.error") e.reader_value "payload" "error"
    validated (
        Response.error_response (record {
          generated_at = e.generated_at;
          generation_id = e.generation_id;
          error = error;
          protocol_version = e.version;
        }))

  unfoldable pub read_envelope : JsonValue → Validated Envelope
  unfolding reader field protocol_version timestamp enum
  read_envelope value = do
    r ← reader value "response" response_fields
    fail_if (not (is_some (get_field "protocolVersion" r.value))) ErrorCode.protocol_version_missing
        "protocolVersion is required"
    version_field ← field r "protocolVersion"
    version ← protocol_version version_field
    generated_field ← field r "generatedAt"
    generated_at ← timestamp calendar generated_field "response.generatedAt"
    generation_field ← field r "generationId"
    generation_id ← identifier generation_field "response.generationId"
    kind_field ← field r "kind"
    kind ← enum kind_field "response.kind"
    ok (record {
      reader_value = r;
      version = version;
      generated_at = generated_at;
      generation_id = generation_id;
      kind = kind;
    })

  unfoldable pub parse_response : JsonValue → Validated Response
  unfolding read_envelope parse_kind
  parse_response value = do e ← read_envelope value; parse_kind e e.kind
