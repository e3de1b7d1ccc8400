-- ===== src/Cli.antt =====
-- The command line of the helper: helper/opatchy_helper/cli_requests.py and cli_operations.py.
pub mod Requests
pub mod Arguments
pub mod Parsed
pub mod Operations
pub mod SetStar
pub mod Stars
pub mod Reported
pub mod Pages
