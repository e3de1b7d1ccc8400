-- ===== src/Adapters.antt =====
-- Of helper/opatchy_helper/adapters, which read the host's package tools: the comparison of versions.
pub mod Versions
