-- ===== src/Storage/Documents/Accepted.antt =====
-- What is decoded is a state that the storage accepts: helper/opatchy_helper/storage_state.py.
use opatchy.Base.{
  List, arith, bool_eq, err, list_eq, nat_eq, ok, option_eq, string_eq, suc, zero, ℕ, ℤ, ◌≡◌,
}
use opatchy.Models.{
  PersistentState, WatchRecord, arch_status_eq, condition_eq, item_source_eq, provenance_eq,
  severity_eq, source_name_eq, source_scope_eq, source_status_eq, watch_eq, watch_mode_eq,
}
use opatchy.Storage.Documents.States.{
  checked_state, corrupt_or, decode_document, decode_state, migrate_v0, parse_state, parse_version,
}
use opatchy.Storage.Documents.Watches.{parse_v1_watch, parse_watch}
use opatchy.Storage.State.{validate_state}
use opatchy.Storage.Watches.{Checked}
use opatchy.Wire.Enums.{
  arch_status_enum, error_code_enum, item_source_enum, kev_status_enum, notification_status_enum,
  provenance_enum, response_kind_enum, scan_state_enum, severity_enum, source_name_enum,
  source_scope_enum, source_status_enum, watch_mode_enum,
}
use opatchy.Wire.Json.{JsonObject, JsonValue}
use opatchy.Wire.Protocol.{JsonText}
use opatchy.Wire.Timestamps.{Calendar}

checked_state-accepted :
    (state result : PersistentState)
    → checked_state state ≡ ok result
    → validate_state result ≡ ok tt
unfolding checked_state
checked_state-accepted state result h = grind arith

corrupt_or-ok :
    {A : Type 0} (checked : Checked A) (a : A) → corrupt_or checked ≡ ok a → checked ≡ ok a
corrupt_or-ok (ok b) a h = cc
corrupt_or-ok (err reason) a h = cc

migrate_v0-accepted :
    (document : JsonObject) (result : PersistentState)
    → migrate_v0 document ≡ ok result
    → validate_state result ≡ ok tt
unfolding migrate_v0
migrate_v0-accepted document result h = grind (arith, checked_state-accepted)

module _ (calendar : Calendar) where
  parse_state-accepted :
      (document : JsonObject) (parse_watch_record : JsonValue → Checked WatchRecord)
      (result : PersistentState)
      → parse_state calendar document parse_watch_record ≡ ok result
      → validate_state result ≡ ok tt
  unfolding parse_state
  parse_state-accepted document parse_watch_record result h = grind (arith, checked_state-accepted)

  parse_version-accepted :
      (document : JsonObject) (version : ℤ) (result : PersistentState)
      → parse_version calendar document version ≡ ok result
      → validate_state result ≡ ok tt
  unfolding parse_version
  parse_version-accepted document (ℤ.pos zero) result h =
      migrate_v0-accepted document result (corrupt_or-ok _ result h)
  parse_version-accepted document (ℤ.pos (suc zero)) result h =
      parse_state-accepted document parse_v1_watch result (corrupt_or-ok _ result h)
  parse_version-accepted document (ℤ.pos (suc (suc zero))) result h =
      parse_state-accepted document parse_watch result (corrupt_or-ok _ result h)
  parse_version-accepted document (ℤ.pos (suc (suc (suc n)))) result h = absurd cc
  parse_version-accepted document (ℤ.negsuc n) result h = absurd cc

  decode_document-accepted :
      (value : JsonValue) (result : PersistentState)
      → decode_document calendar value ≡ ok result
      → validate_state result ≡ ok tt
  unfolding decode_document
  decode_document-accepted value result h = grind (arith, parse_version-accepted)

  -- Whatever the bytes and the version of their schema, a state that is decoded from them is one that
  -- the storage accepts.
  pub decode_state-accepted :
      (json : JsonText) (raw : List ℕ) (result : PersistentState)
      → decode_state calendar json raw ≡ ok result
      → validate_state result ≡ ok tt
  unfolding decode_state
  decode_state-accepted json raw result h = grind (arith, decode_document-accepted)
