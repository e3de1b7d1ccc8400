-- ===== src/Wire.antt =====
-- The format of responses: helper/opatchy_helper/json_value.py, wire.py, parser_fields.py,
-- payload_parser.py, parser.py and protocol.py.
pub mod Json
pub mod Timestamps
pub mod Fields
pub mod Enums
pub mod Values
pub mod Items
pub mod Payloads
pub mod Responses
pub mod Protocol
pub mod RoundTrip
