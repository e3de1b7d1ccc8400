-- ===== src/Wire/RoundTrip/Responses.antt =====
-- Reading back a response: helper/opatchy_helper/wire.py, parser.py and protocol.py.
-- the datetimes of a response have an ISO text
use opatchy.Base.{
  >>=-eq-ok, All, String, arith, bool_eq, list_eq, nat_eq, ok, option_eq, refl, string_eq, ℤ, ◌>>=◌,
  ◌≡◌,
}
use opatchy.Models.{
  Response, arch_status_eq, condition_eq, item_source_eq, provenance_eq, severity_eq,
  source_name_eq, source_scope_eq, source_status_eq, watch_eq, watch_mode_eq,
}
use opatchy.Validation.{
  validate_error, validate_inventory, validate_metadata, validate_response, validate_snapshot,
  validate_star_result, validate_version,
}
use opatchy.Wire.Enums.{
  arch_status_enum, error_code_enum, item_source_enum, kev_status_enum, notification_status_enum,
  provenance_enum, response_kind_enum, scan_state_enum, severity_enum, source_name_enum,
  source_scope_enum, source_status_enum, watch_mode_enum,
}
use opatchy.Wire.Fields.{enum, field, protocol_version, reader, reject_field, timestamp-text}
use opatchy.Wire.Json.{JsonValue}
use opatchy.Wire.Responses.{parse_kind, parse_response, read_envelope, read_payload, validated}
use opatchy.Wire.RoundTrip.Sources.{
  IsIsoSource, parse_inventory-value, parse_snapshot-value, parse_star_result-value,
}
use opatchy.Wire.RoundTrip.Values.{parse_error-value}
use opatchy.Wire.Timestamps.{Calendar, IsIso}
use opatchy.Wire.Values.{envelope, envelope_of, error_envelope, response_value}

abbrev pub IsIsoResponse : Calendar → Response → Type 0
IsIsoResponse calendar (Response.snapshot_response r) =
    IsIso calendar r.generated_at × All (IsIsoSource calendar) r.payload.sources
IsIsoResponse calendar (Response.inventory_response r) = IsIso calendar r.generated_at
IsIsoResponse calendar (Response.star_result_response r) = IsIso calendar r.generated_at
IsIsoResponse calendar (Response.error_response r) = IsIso calendar r.generated_at

protocol_version-integer :
    (version : ℤ) (generation_id : String)
    → validate_metadata version generation_id ≡ ok tt
    → protocol_version (JsonValue.integer version) ≡ ok version
unfolding protocol_version validate_metadata validate_version
protocol_version-integer version generation_id h = ground arith

module _ (calendar : Calendar) where
  pub parse_response-envelope :
      (response : Response)
      → validate_response response ≡ ok tt
      → IsIsoResponse calendar response
      → parse_response calendar (envelope_of calendar response) ≡ ok response
  unfolding parse_response read_envelope parse_kind read_payload envelope_of envelope error_envelope
      reader field reject_field enum validated validate_response
  parse_response-envelope (Response.snapshot_response r) h (iso, isos) =
      let step =
        >>=-eq-ok (validate_metadata r.protocol_version r.generation_id)
          (λ _. validate_snapshot r.payload) h in
      rw
        (
          protocol_version-integer r.protocol_version r.generation_id step.1,
          timestamp-text calendar r.generated_at "response.generatedAt" iso,
          parse_snapshot-value calendar r.payload step.2 isos,
          h,
        )
        refl
  parse_response-envelope (Response.inventory_response r) h iso =
      let step =
        >>=-eq-ok (validate_metadata r.protocol_version r.generation_id)
          (λ _. validate_inventory r.payload) h in
      rw
        (
          protocol_version-integer r.protocol_version r.generation_id step.1,
          timestamp-text calendar r.generated_at "response.generatedAt" iso,
          parse_inventory-value r.payload step.2,
          h,
        )
        refl
  parse_response-envelope (Response.star_result_response r) h iso =
      let step =
        >>=-eq-ok (validate_metadata r.protocol_version r.generation_id)
          (λ _. validate_star_result r.payload) h in
      rw
        (
          protocol_version-integer r.protocol_version r.generation_id step.1,
          timestamp-text calendar r.generated_at "response.generatedAt" iso,
          parse_star_result-value r.payload,
          h,
        )
        refl
  parse_response-envelope (Response.error_response r) h iso =
      let step =
        >>=-eq-ok (validate_metadata r.protocol_version r.generation_id)
          (λ _. validate_error r.error) h in
      rw
        (
          protocol_version-integer r.protocol_version r.generation_id step.1,
          timestamp-text calendar r.generated_at "response.generatedAt" iso,
          parse_error-value r.error "response.error" step.2,
          h,
        )
        refl

  -- A response that passes validation and whose datetimes have an ISO text is written without an
  -- error, and reading what was written gives the response back.
  pub parse_response-response_value :
      (response : Response)
      → validate_response response ≡ ok tt
      → IsIsoResponse calendar response
      → (response_value calendar response >>= parse_response calendar) ≡ ok response
  unfolding response_value
  parse_response-response_value response h iso = rw h (parse_response-envelope response h iso)
