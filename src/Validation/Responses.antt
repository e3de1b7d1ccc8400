-- ===== src/Validation/Responses.antt =====
-- helper/opatchy_helper/validation.py: the inventory, the star result, and the envelope of each
-- kind of response.
use opatchy.Base.{Bool, any, err, length, ltb, not, ok, true, ℕ, ℤ, ◌&&◌, ◌==◌, ◌>>◌}
use opatchy.Models.{
  ErrorCode, InventoryPayload, ItemSource, Response, StarResultPayload, WatchMode, item_source_eq,
  watch_mode_eq,
}
use opatchy.Validation.Fields.{
  Check, fail_if, validate_error, validate_identifier, validate_metadata, validate_nonnegative,
}
use opatchy.Validation.Snapshot.{validate_items, validate_snapshot}

unfoldable pub validate_inventory_source : ItemSource → Check
validate_inventory_source ItemSource.omarchy =
    err (record { code = ErrorCode.invalid_envelope; message = "inventory source is unsupported" })
validate_inventory_source _ = ok tt

-- `total < len(items)`
abbrev pub total_below : ℤ → ℕ → Bool
total_below (ℤ.pos total) n = ltb total n
total_below (ℤ.negsuc total) n = true

unfoldable pub validate_inventory : InventoryPayload → Check
validate_inventory payload = do
  validate_inventory_source payload.source
  validate_nonnegative payload.total "inventory.total"
  fail_if (total_below payload.total (length payload.items)) ErrorCode.invalid_envelope
      "inventory.total is smaller than inventory.items"
  validate_items payload.items
  fail_if (any (λ item. not (item.source == payload.source)) payload.items)
      ErrorCode.invalid_envelope "inventory items must match inventory.source"

unfoldable pub validate_star_result : StarResultPayload → Check
validate_star_result payload = do
  validate_identifier payload.item_id "star-result.itemId"
  fail_if (payload.watch_armed && not (payload.mode == WatchMode.temporary))
      ErrorCode.invalid_envelope "only temporary star results can be armed"

unfoldable pub validate_response : Response → Check
validate_response (Response.snapshot_response r) = do
  validate_metadata r.protocol_version r.generation_id
  validate_snapshot r.payload
validate_response (Response.inventory_response r) = do
  validate_metadata r.protocol_version r.generation_id
  validate_inventory r.payload
validate_response (Response.star_result_response r) = do
  validate_metadata r.protocol_version r.generation_id
  validate_star_result r.payload
validate_response (Response.error_response r) = do
  validate_metadata r.protocol_version r.generation_id
  validate_error r.error
