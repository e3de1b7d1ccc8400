-- ===== src/Storage/Documents/Watches.antt =====
-- helper/opatchy_helper/storage_watches.py: the documents of watches, in the three schemas.
-- the `match` of `parse_v0_watch`
use opatchy.Base.{
  Bool, List, Option, String, [], all, bool_eq, contains, false, list_eq, nat_eq, none, not, ok,
  option_eq, refuse, some, string_eq, ◌&&◌, ◌>>=◌, ◌>>◌, ◌∷◌,
}
use opatchy.Models.{
  SecurityFixCondition, WatchMode, WatchRecord, arch_status_eq, condition_eq, item_source_eq,
  provenance_eq, severity_eq, source_name_eq, source_scope_eq, source_status_eq, watch_eq,
  watch_mode_eq,
}
use opatchy.Storage.Documents.{
  corrupt, read_array, read_each, read_flag, read_member, read_object, read_optional_string,
  read_string, state_field,
}
use opatchy.Storage.Watches.{Checked, security_fix_condition}
use opatchy.Wire.Enums.{
  arch_status_enum, error_code_enum, item_source_enum, kev_status_enum, notification_status_enum,
  provenance_enum, response_kind_enum, scan_state_enum, severity_enum, source_name_enum,
  source_scope_enum, source_status_enum, text_of, watch_mode_enum,
}
use opatchy.Wire.Json.{JsonObject, JsonValue, array_of, field_names, optional_text, record_of}

unfoldable pub migrated_watch : String → WatchMode → Checked WatchRecord
migrated_watch item_id WatchMode.off = corrupt "v0 off watches are not durable"
migrated_watch item_id _ = ok (record {
  item_id = item_id;
  mode = WatchMode.permanent;
  installed_fingerprint = none;
  candidate_fingerprint = none;
  armed = false;
  condition = none;
})

unfoldable pub parse_v0_watch : JsonValue → Checked WatchRecord
unfolding state_field read_member migrated_watch
parse_v0_watch value = do
  document ← read_object value "watch"
  id_field ← state_field document "itemId"
  item_id ← read_string id_field "watch.itemId"
  mode_field ← state_field document "mode"
  mode ← read_member mode_field "watch.mode" "watch.mode is invalid"
  migrated_watch item_id mode

-- `parse_v1_watch`, and `parse_watch` below its condition
unfoldable pub read_watch : JsonObject → Option SecurityFixCondition → Checked WatchRecord
unfolding state_field read_member
read_watch document condition = do
  id_field ← state_field document "itemId"
  item_id ← read_string id_field "watch.itemId"
  mode_field ← state_field document "mode"
  mode ← read_member mode_field "watch.mode" "watch.mode is invalid"
  installed_field ← state_field document "installedFingerprint"
  installed ← read_optional_string installed_field "watch.installedFingerprint"
  candidate_field ← state_field document "candidateFingerprint"
  candidate ← read_optional_string candidate_field "watch.candidateFingerprint"
  armed_field ← state_field document "armed"
  armed ← read_flag armed_field "watch.armed"
  ok (record {
    item_id = item_id;
    mode = mode;
    installed_fingerprint = installed;
    candidate_fingerprint = candidate;
    armed = armed;
    condition = condition;
  })

unfoldable pub parse_v1_watch : JsonValue → Checked WatchRecord
unfolding read_watch
parse_v1_watch value = do document ← read_object value "watch"; read_watch document none

abbrev condition_fields : List String
condition_fields = "advisoryId" ∷ "cveIds" ∷ "fixedVersion" ∷ []

-- `set(document) == {"advisoryId", "cveIds", "fixedVersion"}`
abbrev pub has_condition_fields : JsonObject → Bool
has_condition_fields document =
    all (λ name. contains name condition_fields) (field_names document)
    && all (λ name. contains name (field_names document)) condition_fields

-- `_cve_ids`
unfoldable pub read_cve_ids : JsonValue → Checked (List String)
unfolding read_each
read_cve_ids value = do
  entries ← read_array value "watch.condition.cveIds"
  read_each (λ entry. read_string entry "watch.condition.cveIds") entries

-- `_condition`, of a value that is not `None`
unfoldable pub read_condition : JsonValue → Checked SecurityFixCondition
unfolding state_field read_cve_ids
read_condition value = do
  document ← read_object value "watch.condition"
  refuse (not (has_condition_fields document)) "watch.condition fields are invalid"
  advisory_field ← state_field document "advisoryId"
  advisory_id ← read_string advisory_field "watch.condition.advisoryId"
  cve_field ← state_field document "cveIds"
  cve_ids ← read_cve_ids cve_field
  version_field ← state_field document "fixedVersion"
  fixed_version ← read_string version_field "watch.condition.fixedVersion"
  security_fix_condition advisory_id cve_ids fixed_version

abbrev pub parse_condition : JsonValue → Checked (Option SecurityFixCondition)
parse_condition JsonValue.null = ok none
parse_condition value = do condition ← read_condition value; ok (some condition)

unfoldable pub parse_watch : JsonValue → Checked WatchRecord
unfolding state_field read_condition read_watch
parse_watch value = do
  document ← read_object value "watch"
  condition_field ← state_field document "condition"
  condition ← parse_condition condition_field
  read_watch document condition

-- `_condition_value`
abbrev pub condition_value : Option SecurityFixCondition → JsonValue
condition_value none = JsonValue.null
condition_value (some condition) = record_of (
    ("advisoryId", JsonValue.text condition.advisory_id)
    ∷ ("cveIds", array_of JsonValue.text condition.cve_ids)
    ∷ ("fixedVersion", JsonValue.text condition.fixed_version)
    ∷ [])

unfoldable pub watch_value : WatchRecord → JsonValue
watch_value watch = record_of (
    ("armed", JsonValue.boolean watch.armed)
    ∷ ("candidateFingerprint", optional_text watch.candidate_fingerprint)
    ∷ ("condition", condition_value watch.condition)
    ∷ ("installedFingerprint", optional_text watch.installed_fingerprint)
    ∷ ("itemId", JsonValue.text watch.item_id)
    ∷ ("mode", text_of watch.mode)
    ∷ [])
