-- ===== src/Wire/RoundTrip/Protocol.antt =====
-- Reading back the bytes of a response, and what a response that was read satisfies:
-- helper/opatchy_helper/protocol.py, parser.py and validation.py.
use opatchy.Base.{
  >>=-eq-ok, Bool, List, [], arith, decode_utf8, err, false, leb, length, ok, refl, ℕ, ◌++◌, ◌∷◌,
  ◌≡◌,
}
use opatchy.Models.{ErrorCode, Response}
use opatchy.Validation.{Validated, fail_if, validate_response}
use opatchy.Wire.Enums.{ResponseKind}
use opatchy.Wire.Json.{JsonValue}
use opatchy.Wire.Protocol.{
  IsReadable, JsonText, decode_json, decode_json-dumps, decode_response, decoded, encode_json,
  encode_response, max_protocol_bytes, response_text,
}
use opatchy.Wire.Responses.{Envelope, parse_kind, parse_response, read_envelope, validated}
use opatchy.Wire.RoundTrip.Responses.{IsIsoResponse, parse_response-envelope}
use opatchy.Wire.Timestamps.{Calendar}
use opatchy.Wire.Values.{envelope_of, response_value}

validated-accepted :
    (response result : Response) → validated response ≡ ok result → validate_response result ≡ ok tt
unfolding validated
validated-accepted response result h = grind arith

module _ (calendar : Calendar) where
  parse_kind-accepted :
      (e : Envelope) (kind : ResponseKind) (response : Response)
      → parse_kind calendar e kind ≡ ok response
      → validate_response response ≡ ok tt
  unfolding parse_kind
  parse_kind-accepted e ResponseKind.snapshot response h = grind (arith, validated-accepted)
  parse_kind-accepted e ResponseKind.inventory response h = grind (arith, validated-accepted)
  parse_kind-accepted e ResponseKind.star_result response h = grind (arith, validated-accepted)
  parse_kind-accepted e ResponseKind.error response h = grind (arith, validated-accepted)

  parse_response-accepted :
      (value : JsonValue) (response : Response)
      → parse_response calendar value ≡ ok response
      → validate_response response ≡ ok tt
  unfolding parse_response
  parse_response-accepted value response h =
      let e = >>=-eq-ok (read_envelope calendar value) (λ e. parse_kind calendar e e.kind) h in
      parse_kind-accepted e.0 e.0.kind response e.2

decoded-ok : {A : Type 0} (result : Validated A) (a : A) → decoded result ≡ ok a → result ≡ ok a
decoded-ok (ok b) a h = cc
decoded-ok (err e) a h = absurd cc

below_limit :
    (b : Bool)
    → fail_if b ErrorCode.payload_too_large "input reaches the five MiB limit" ≡ ok tt
    → b ≡ false
below_limit b h = ground arith

module _ (json : JsonText) (calendar : Calendar) where
  -- A response that passes validation, whose datetimes have an ISO text and whose JSON the standard
  -- library writes and reads back in fewer bytes than the limit, is encoded without an error, and
  -- decoding the bytes gives the response back.
  pub decode_response-encode_response :
      (response : Response) (raw : List ℕ)
      → validate_response response ≡ ok tt
      → IsIsoResponse calendar response
      → IsReadable json (envelope_of calendar response) raw
      → leb max_protocol_bytes (length (raw ++ (b'\n' ∷ []))) ≡ false
      → (encode_response json calendar response ≡ ok (raw ++ (b'\n' ∷ [])))
        × (decode_response json calendar (raw ++ (b'\n' ∷ [])) ≡ ok response)
  unfolding encode_response encode_json response_value decode_response
  decode_response-encode_response response raw h iso readable size = (
    rw (h, readable.encoded, size) refl,
    rw
        (
          size,
          readable.decoded,
          decode_json-dumps readable,
          parse_response-envelope calendar response h iso,
        )
        refl,
  )

  -- A response that is decoded from bytes passes validation, and the bytes are fewer than the limit.
  pub decode_response-accepted :
      (raw : List ℕ) (response : Response)
      → decode_response json calendar raw ≡ ok response
      → (validate_response response ≡ ok tt) × (leb max_protocol_bytes (length raw) ≡ false)
  unfolding decode_response
  decode_response-accepted raw response h =
      let size =
        fail_if (leb max_protocol_bytes (length raw)) ErrorCode.payload_too_large
          "input reaches the five MiB limit" in
      let bounded = >>=-eq-ok (decoded size) _ h in
      let text = >>=-eq-ok (decoded (response_text (decode_utf8 raw))) _ bounded.2 in
      let value = >>=-eq-ok (decode_json json text.0) _ text.2 in
      (
        parse_response-accepted calendar value.0 response
            (decoded-ok (parse_response calendar value.0) response value.2),
        below_limit (leb max_protocol_bytes (length raw)) (decoded-ok size tt bounded.1),
      )
