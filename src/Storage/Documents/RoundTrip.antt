-- ===== src/Storage/Documents/RoundTrip.antt =====
-- Reading back the state that was written: helper/opatchy_helper/storage_state.py, storage_watches.py.
use opatchy.Base.{
  All, List, Option, String, [], arith, bool_eq, list_eq, map, nat_eq, none, ok, option_eq, refl,
  some, string_eq, ℕ, ◌++◌, ◌∷◌, ◌≡◌,
}
use opatchy.Base.Members.{All-each, All-map}
use opatchy.Models.{
  Datetime, LedgerEntry, PersistentState, SecurityFixCondition, SourceMetadata, WatchMode,
  WatchRecord, arch_status_eq, condition_eq, item_source_eq, provenance_eq, severity_eq,
  source_name_eq, source_scope_eq, source_status_eq, watch_eq, watch_mode_eq,
}
use opatchy.Storage.Documents.{
  read_each, read_each-map, read_member-value, read_optional_string, read_string, state_field,
}
use opatchy.Storage.Documents.Pruned.{prune_ledger-IsDurable}
use opatchy.Storage.Documents.States.{
  checked_state, decode_document, decode_state, encode_document, encode_state, ledger_value,
  optional_timestamp_value, parse_ledger, parse_source_metadata, parse_state, parse_version,
  read_optional_timestamp, read_timestamp, source_metadata_value, state_value,
}
use opatchy.Storage.Documents.Watches.{
  condition_value, parse_condition, parse_watch, read_condition, read_cve_ids, read_watch,
  watch_value,
}
use opatchy.Storage.Durable.{IsDurable, validate_state-IsDurable, validate_state_of_IsDurable}
use opatchy.Storage.State.{prune_ledger, validate_state}
use opatchy.Storage.Watches.{
  check_condition, security_fix_condition, validate_condition, validate_watch,
}
use opatchy.Wire.Enums.{
  arch_status_enum, error_code_enum, item_source_enum, kev_status_enum, notification_status_enum,
  provenance_enum, response_kind_enum, scan_state_enum, severity_enum, source_name_enum,
  source_scope_enum, source_status_enum, watch_mode_enum,
}
use opatchy.Wire.Json.{JsonValue, items_of, list_of, optional_text}
use opatchy.Wire.Protocol.{IsReadable, JsonText, decode_json-dumps}
use opatchy.Wire.Timestamps.{
  Calendar, IsIso, ends_with_z-append, replace-plain, timestamp_text, without_last-append,
}

read_optional_string-text :
    (value : Option String) (path : String)
    → read_optional_string (optional_text value) path ≡ ok value
read_optional_string-text none path = refl
read_optional_string-text (some s) path = refl

read_strings-texts :
    (values : List String) (path : String)
    → read_each (λ entry. read_string entry path) (list_of (items_of (map JsonValue.text values)))
      ≡ ok values
unfolding read_each
read_strings-texts [] path = refl
read_strings-texts (value ∷ values) path = rw (read_strings-texts values path) refl

read_condition-value :
    (condition : SecurityFixCondition)
    → validate_condition condition ≡ ok tt
    → read_condition (condition_value (some condition)) ≡ ok condition
unfolding read_condition state_field read_cve_ids security_fix_condition
read_condition-value condition h =
    rw (read_strings-texts condition.cve_ids "watch.condition.cveIds", h) refl

-- the condition of the watch, if it has one, is valid
abbrev IsValidCondition : Option SecurityFixCondition → Type 0
IsValidCondition none = Unit
IsValidCondition (some condition) = validate_condition condition ≡ ok tt

check_condition-IsValidCondition :
    (item_id : String) (condition : Option SecurityFixCondition)
    → check_condition item_id condition ≡ ok tt
    → IsValidCondition condition
unfolding check_condition
check_condition-IsValidCondition item_id none h = tt
check_condition-IsValidCondition item_id (some condition) h = ground arith

validate_watch-IsValidCondition :
    (watch : WatchRecord) → validate_watch watch ≡ ok tt → IsValidCondition watch.condition
unfolding validate_watch
validate_watch-IsValidCondition watch h =
    (elim watch.mode as (λ mode. watch.mode ≡ mode → IsValidCondition watch.condition) [
      | WatchMode.permanent ↦
          λ e. let absent : watch.condition ≡ none = ground arith in rw absent tt
      | WatchMode.temporary ↦
          λ e. check_condition-IsValidCondition watch.item_id watch.condition (ground arith)
      | WatchMode.off ↦ λ e. absurd (ground arith)
    ])
      refl

parse_condition-value :
    (condition : Option SecurityFixCondition)
    → IsValidCondition condition
    → parse_condition (condition_value condition) ≡ ok condition
parse_condition-value none h = refl
parse_condition-value (some condition) h = rw (read_condition-value condition h) refl

parse_watch-value :
    (watch : WatchRecord)
    → validate_watch watch ≡ ok tt
    → parse_watch (watch_value watch) ≡ ok watch
unfolding parse_watch watch_value state_field read_watch
parse_watch-value watch h =
    rw
      (
        parse_condition-value watch.condition (validate_watch-IsValidCondition watch h),
        read_member-value watch.mode "watch.mode" "watch.mode is invalid",
        read_optional_string-text watch.installed_fingerprint "watch.installedFingerprint",
        read_optional_string-text watch.candidate_fingerprint "watch.candidateFingerprint",
      )
      refl

-- the datetime, if there is one, has an ISO text
abbrev pub IsIsoOption : Calendar → Option Datetime → Type 0
IsIsoOption calendar none = Unit
IsIsoOption calendar (some moment) = IsIso calendar moment

abbrev pub IsIsoEntry : Calendar → LedgerEntry → Type 0
IsIsoEntry calendar entry =
    IsIso calendar entry.recorded_at × IsIsoOption calendar entry.lease_expires_at

abbrev pub IsIsoMetadata : Calendar → SourceMetadata → Type 0
IsIsoMetadata calendar source =
    IsIsoOption calendar source.last_success × IsIsoOption calendar source.backoff_until

module _ (calendar : Calendar) where
  read_timestamp-text :
      (moment : Datetime) (path : String)
      → IsIso calendar moment
      → read_timestamp calendar (JsonValue.text (timestamp_text calendar moment)) path ≡ ok moment
  unfolding read_timestamp timestamp_text
  read_timestamp-text moment path iso =
      rw
        (
          iso.text,
          replace-plain iso.local iso.plain,
          ends_with_z-append iso.local,
          without_last-append iso.local,
          iso.back,
        )
        refl

  read_optional_timestamp-value :
      (moment : Option Datetime) (path : String)
      → IsIsoOption calendar moment
      → read_optional_timestamp calendar (optional_timestamp_value calendar moment) path ≡ ok moment
  read_optional_timestamp-value none path iso = refl
  read_optional_timestamp-value (some moment) path iso =
      rw (read_timestamp-text moment path iso) refl

  parse_ledger-value :
      (entry : LedgerEntry)
      → IsIsoEntry calendar entry
      → parse_ledger calendar (ledger_value calendar entry) ≡ ok entry
  unfolding parse_ledger ledger_value state_field
  parse_ledger-value entry (recorded, expires) =
      rw
        (
          read_optional_string-text entry.lease_token "ledger.leaseToken",
          read_optional_timestamp-value entry.lease_expires_at "ledger.leaseExpiresAt" expires,
          read_member-value entry.status "ledger.status" "ledger.status is invalid",
          read_timestamp-text entry.recorded_at "ledger.recordedAt" recorded,
        )
        refl

  parse_source_metadata-value :
      (source : SourceMetadata)
      → IsIsoMetadata calendar source
      → parse_source_metadata calendar (source_metadata_value calendar source) ≡ ok source
  unfolding parse_source_metadata source_metadata_value state_field
  parse_source_metadata-value source (success, backoff) =
      rw
        (
          read_member-value source.source "source.source" "source.source is invalid",
          read_optional_timestamp-value source.last_success "source.lastSuccess" success,
          read_optional_timestamp-value source.backoff_until "source.backoffUntil" backoff,
        )
        refl

  -- the datetimes of a state have an ISO text
  pub record IsIsoState (state : PersistentState) : Type 0 where
    pub ledger : All (IsIsoEntry calendar) state.ledger
    pub sources : All (IsIsoMetadata calendar) state.sources

  pub decode_document-value :
      (state : PersistentState)
      → IsDurable state
      → IsIsoState state
      → decode_document calendar (state_value calendar state) ≡ ok state
  unfolding decode_document state_value parse_version parse_state state_field checked_state
  decode_document-value state d iso =
      rw
        (
          read_each-map parse_watch watch_value state.watches (
              All-map state.watches parse_watch-value
                (All-each validate_watch state.watches d.watches_valid)),
          read_each-map (parse_ledger calendar) (ledger_value calendar) state.ledger
              (All-map state.ledger parse_ledger-value iso.ledger),
          read_each-map (parse_source_metadata calendar) (source_metadata_value calendar)
              state.sources (All-map state.sources parse_source_metadata-value iso.sources),
          validate_state_of_IsDurable state d,
        )
        refl

  -- A state that the storage accepts is encoded without an error, and what is decoded from its bytes
  -- is the state with its ledger pruned, if the datetimes that are kept have an ISO text and the
  -- standard library writes and reads back the JSON.
  pub decode_state-encode_state :
      (json : JsonText) (state : PersistentState) (now : Datetime) (raw : List ℕ)
      → validate_state state ≡ ok tt
      → IsIsoState (prune_ledger state now)
      → IsReadable json (state_value calendar (prune_ledger state now)) raw
      → (encode_state calendar json state now ≡ ok (some (raw ++ (b'\n' ∷ []))))
        × (decode_state calendar json (raw ++ (b'\n' ∷ [])) ≡ ok (prune_ledger state now))
  unfolding encode_state encode_document decode_state
  decode_state-encode_state json state now raw h iso readable =
      let durable = prune_ledger-IsDurable state now (validate_state-IsDurable state h) in
      (
        rw (h, readable.encoded) refl,
        rw
            (
              readable.decoded,
              decode_json-dumps readable,
              decode_document-value (prune_ledger state now) durable iso,
            )
            refl,
      )
