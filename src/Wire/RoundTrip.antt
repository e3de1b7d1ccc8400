-- ===== src/Wire/RoundTrip.antt =====
-- Reading back what helper/opatchy_helper/wire.py writes, with helper/opatchy_helper/parser.py.
pub mod Values
pub mod Sources
pub mod Responses
pub mod Protocol
