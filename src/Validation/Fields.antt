-- ===== src/Validation/Fields.antt =====
-- helper/opatchy_helper/validation.py: the checks of single fields. The tests that a field of
-- type `int` holds an exact integer hold of every ℤ.
use opatchy.Base.{
  Bool, Option, Result, String, err, is_avg_id, is_some, ltb, nat_eq, none, not, ok, refuse, some,
  string_eq, text_length, ℕ, ℤ, ◌+++◌, ◌==◌, ◌>>◌, ◌||◌,
}
use opatchy.Models.{ErrorCode, ErrorInfo, KevStatus, Provenance}

-- A `ProtocolError` is its `ErrorInfo`.
abbrev pub Validated : Type 0 → Type 0
Validated A = Result ErrorInfo A

abbrev pub Check : Type 0
Check = Validated (Unit {0})

-- `if test: _fail(code, message)`
abbrev pub fail_if : Bool → ErrorCode → String → Check
fail_if test code message = refuse test (record { code = code; message = message })

abbrev pub max_identifier_length : ℕ
max_identifier_length = 128

abbrev pub max_error_message_length : ℕ
max_error_message_length = 512

unfoldable pub validate_bounded : String → String → ℕ → Check
validate_bounded value path maximum_length =
    fail_if (value == "" || ltb maximum_length (text_length value)) ErrorCode.invalid_type
      (path +++ " must be a bounded non-empty string")

-- `_validate_identifier` at its default length
abbrev pub validate_identifier : String → String → Check
validate_identifier value path = validate_bounded value path max_identifier_length

-- `if value is not None: _validate_identifier(value, path)`
abbrev pub validate_optional : Option String → String → Check
validate_optional none path = ok tt
validate_optional (some value) path = validate_identifier value path

unfoldable pub validate_avg_identifier : String → String → Check
unfolding validate_bounded
validate_avg_identifier value path = do
  validate_identifier value path
  fail_if (not (is_avg_id value)) ErrorCode.invalid_type
      (path +++ " must be an AVG advisory identifier")

unfoldable pub validate_error : ErrorInfo → Check
unfolding validate_bounded
validate_error error = validate_bounded error.message "error.message" max_error_message_length

abbrev pub validate_cause : Option ErrorInfo → Check
validate_cause none = ok tt
validate_cause (some cause) = validate_error cause

unfoldable pub validate_nonnegative : ℤ → String → Check
validate_nonnegative (ℤ.pos n) path = ok tt
validate_nonnegative (ℤ.negsuc n) path = err (record {
  code = ErrorCode.invalid_type;
  message = path +++ " must be a non-negative exact integer";
})

unfoldable pub validate_kev : Bool → KevStatus → Option Provenance → Check
validate_kev known_exploited KevStatus.listed provenance =
    fail_if (not known_exploited || not (is_some provenance)) ErrorCode.invalid_envelope
      "listed KEV finding is inconsistent"
validate_kev known_exploited KevStatus.not_listed provenance =
    fail_if (known_exploited || not (is_some provenance)) ErrorCode.invalid_envelope
      "not-listed KEV finding is inconsistent"
validate_kev known_exploited KevStatus.unavailable provenance =
    fail_if (known_exploited || is_some provenance) ErrorCode.invalid_envelope
      "unavailable KEV finding is inconsistent"

unfoldable pub validate_version : ℤ → Check
validate_version (ℤ.negsuc n) = err (record {
  code = ErrorCode.protocol_version_invalid;
  message = "protocolVersion is unsupported";
})
validate_version (ℤ.pos version) = do
  fail_if (ltb 1 version) ErrorCode.protocol_version_future
      "protocolVersion is newer than this helper"
  fail_if (not (version == 1)) ErrorCode.protocol_version_invalid "protocolVersion is unsupported"

-- `_validate_metadata`
unfoldable pub validate_metadata : ℤ → String → Check
unfolding validate_version
validate_metadata version generation_id = do
  validate_version version
  validate_identifier generation_id "generationId"
