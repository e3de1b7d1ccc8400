-- ===== src/Storage/Accepted.antt =====
-- What `_validate_bundle` of helper/opatchy_helper/storage_generation.py accepts.
use mathlib.Core.Path.{subst}
use opatchy.Base.{
  >>=-eq-ok, All, Bool, Eq, In, List, Option, Result, String, [], any, arith, bool_eq, contains,
  err, false, is_unique, list_eq, nat_eq, none, not, ok, ok-injective, option_eq, refuse, some,
  sort_texts, string_eq, true, ℕ, ◌==◌, ◌∷◌, ◌≡◌,
}
use opatchy.Base.Unique.{In-of_contains}
use opatchy.Models.{
  Datetime, GenerationBundle, InventoryResponse, PersistentState, Response, arch_status_eq,
  condition_eq, item_source_eq, provenance_eq, severity_eq, source_name_eq, source_scope_eq,
  source_status_eq, watch_eq, watch_mode_eq,
}
use opatchy.Scan.Assembly.{inventories}
use opatchy.Storage.Bundles.{
  check_inventories, check_sources, checked_bundle, decode_generation, read_bundle, read_parts,
  validate_bundle,
}
use opatchy.Storage.Documents.States.{encode_document, encode_state}
use opatchy.Storage.Durable.{refuse-ok}
use opatchy.Storage.Generations.{
  Base64, last_good_key_names, of_encoded, of_state_bytes, sources_of_inventories,
}
use opatchy.Storage.State.{validate_state}
use opatchy.Storage.Watches.{Checked}
use opatchy.Validation.{validate_response}
use opatchy.Wire.Json.{JsonObject}
use opatchy.Wire.Protocol.{EncodeError, JsonText, encode_json, encode_response}
use opatchy.Wire.Timestamps.{Calendar}
use opatchy.Wire.Values.{response_value}

of_encoded-ok :
    {A : Type 0} (result : Result EncodeError A) (a : A) → of_encoded result ≡ ok a → result ≡ ok a
of_encoded-ok (ok b) a h = cc
of_encoded-ok (err (EncodeError.protocol_error e)) a h = cc
of_encoded-ok (err EncodeError.unicode_error) a h = cc

of_state_bytes-ok :
    (result : Checked (Option (List ℕ))) (raw : List ℕ)
    → of_state_bytes result ≡ ok raw
    → result ≡ ok (some raw)
of_state_bytes-ok (ok (some b)) raw h = cc
of_state_bytes-ok (ok none) raw h = cc
of_state_bytes-ok (err reason) raw h = cc

check_sources_unique :
    (inventories : List InventoryResponse)
    → check_sources inventories ≡ ok tt
    → is_unique (sources_of_inventories inventories) ≡ true
unfolding check_sources
check_sources_unique inventories h = ground arith

same_lists : (xs ys : List String) → (xs == ys) ≡ true → xs ≡ ys
same_lists xs ys h = (Eq.beq_iff list_eq xs ys).0 h

check_sources_sorted :
    (inventories : List InventoryResponse)
    → check_sources inventories ≡ ok tt
    → sources_of_inventories inventories ≡ sort_texts (sources_of_inventories inventories)
unfolding check_sources
check_sources_sorted inventories h =
    let sources = sources_of_inventories inventories in
    ground (arith, same_lists sources (sort_texts sources))

of_refuted : (b : Bool) → not b ≡ false → b ≡ true
of_refuted b h = ground arith

-- keys of which none is refused are all known
known_keys :
    (keys : List String)
    → any (λ key. not (contains key last_good_key_names)) keys ≡ false
    → All (λ key. In key last_good_key_names) keys
known_keys [] h = tt
known_keys (key ∷ keys) h =
    (In-of_contains last_good_key_names (ground arith), known_keys keys (ground arith))

module _ (json : JsonText) (calendar : Calendar) where
  pub encode_state-valid :
      (state : PersistentState) (moment : Datetime) (raw : List ℕ)
      → of_state_bytes (encode_state calendar json state moment) ≡ ok raw
      → validate_state state ≡ ok tt
  unfolding encode_state encode_document
  encode_state-valid state moment raw h =
      let encoded = of_state_bytes-ok (encode_state calendar json state moment) raw h in
      let step = >>=-eq-ok (encode_document calendar state moment) _ encoded in
      let check = >>=-eq-ok (validate_state state) _ step.1 in check.1

  pub encode_response-valid :
      (response : Response) (raw : List ℕ)
      → of_encoded (encode_response json calendar response) ≡ ok raw
      → validate_response response ≡ ok tt
  unfolding encode_response encode_json response_value
  encode_response-valid response raw h =
      let encoded = of_encoded-ok (encode_response json calendar response) raw h in ground arith

  module _ (base64 : Base64) where
    check_inventories-valid :
        (rs : List InventoryResponse)
        → check_inventories json base64 calendar rs ≡ ok tt
        → All (λ r. validate_response (Response.inventory_response r) ≡ ok tt) rs
    unfolding check_inventories
    check_inventories-valid [] h = tt
    check_inventories-valid (r ∷ rs) h =
        let response = Response.inventory_response r in
        let first = >>=-eq-ok (of_encoded (encode_response json calendar response)) _ h in
        (encode_response-valid response first.0 first.1, check_inventories-valid rs first.2)

    -- In a generation that passes its checks, the snapshot, the last good snapshot and each inventory are
    -- valid responses, the state is one that the storage accepts, the inventories are of different
    -- sources in the order of their names, and the last-good keys are distinct and known.
    pub validate_bundle_lem :
        (bundle : GenerationBundle)
        → validate_bundle json base64 calendar bundle ≡ ok tt
        → (validate_response (Response.snapshot_response bundle.snapshot) ≡ ok tt)
          × (validate_response (Response.snapshot_response bundle.last_good) ≡ ok tt)
          × (validate_state bundle.state ≡ ok tt)
          × (is_unique (sources_of_inventories bundle.inventories) ≡ true)
          × (sources_of_inventories bundle.inventories
              ≡ sort_texts (sources_of_inventories bundle.inventories))
          × All (λ r. validate_response (Response.inventory_response r) ≡ ok tt) bundle.inventories
          × (is_unique bundle.last_good_keys ≡ true)
          × All (λ key. In key last_good_key_names) bundle.last_good_keys
    unfolding validate_bundle
    validate_bundle_lem bundle h =
        let snapshot = Response.snapshot_response bundle.snapshot in
        let last_good = Response.snapshot_response bundle.last_good in
        let state = encode_state calendar json bundle.state bundle.snapshot.generated_at in
        let a = >>=-eq-ok (of_encoded (encode_response json calendar snapshot)) _ h in
        let b = >>=-eq-ok (of_encoded (encode_response json calendar last_good)) _ a.2 in
        let c = >>=-eq-ok (check_sources bundle.inventories) _ b.2 in
        let d = >>=-eq-ok (check_inventories json base64 calendar bundle.inventories) _ c.2 in
        let e = >>=-eq-ok (of_state_bytes state) _ d.2 in
        let f = >>=-eq-ok (refuse (not (is_unique bundle.last_good_keys)) _) _ e.2 in
        let known = any (λ key. not (contains key last_good_key_names)) bundle.last_good_keys in
        (
          encode_response-valid snapshot a.0 a.1,
          encode_response-valid last_good b.0 b.1,
          encode_state-valid bundle.state bundle.snapshot.generated_at e.0 e.1,
          check_sources_unique bundle.inventories c.1,
          check_sources_sorted bundle.inventories c.1,
          check_inventories-valid bundle.inventories d.1,
          of_refuted (is_unique bundle.last_good_keys)
              (refuse-ok (not (is_unique bundle.last_good_keys)) _ f.1),
          known_keys bundle.last_good_keys (refuse-ok known _ f.2),
        )

    checked_bundle-accepted :
        (bundle result : GenerationBundle)
        → checked_bundle json base64 calendar bundle ≡ ok result
        → validate_bundle json base64 calendar result ≡ ok tt
    unfolding checked_bundle
    checked_bundle-accepted bundle result h =
        let step = >>=-eq-ok (validate_bundle json base64 calendar bundle) (λ _. ok bundle) h in
        let same : bundle ≡ result = ok-injective step.2 in
        subst (λ b. validate_bundle json base64 calendar b ≡ ok tt) same step.1

    read_bundle-accepted :
        (document : JsonObject) (result : GenerationBundle)
        → read_bundle json base64 calendar document ≡ ok result
        → validate_bundle json base64 calendar result ≡ ok tt
    unfolding read_bundle
    read_bundle-accepted document result h =
        let step = >>=-eq-ok (read_parts json base64 calendar document) _ h in
        checked_bundle-accepted step.0 result step.2

    -- A generation that is decoded from bytes passes its checks.
    pub decode_generation-accepted :
        (raw : List ℕ) (result : GenerationBundle)
        → decode_generation json base64 calendar raw ≡ ok result
        → validate_bundle json base64 calendar result ≡ ok tt
    unfolding decode_generation
    decode_generation-accepted raw result h = grind (arith, read_bundle-accepted)
