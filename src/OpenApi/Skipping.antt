-- ===== src/OpenApi/Skipping.antt =====
-- Which operations become tools.
use envoy_mcp_openapi_proces.Common.{
  Any, Any-of_any, Bool, Bytes, Option, [], any-of_Any, arith, false, none, refl, some, true, ◌++◌,
  ◌↔◌, ◌≡◌, ◌≢◌,
}
use envoy_mcp_openapi_proces.Common.Text.{codes, has_prefix}
use envoy_mcp_openapi_proces.OpenApi.{
  has_supported_request_body, should_skip_operation, supported_content,
}
use envoy_mcp_openapi_proces.OpenApi.Document.{Operation, RequestBody, SchemaRef}
use envoy_mcp_openapi_proces.Std.Affix.{has_prefix-append, has_prefix_sound}

-- The text is "application/json", with or without parameters after it.
abbrev NamesJson : Bytes → Type 0
NamesJson c = (rest : Bytes) × (c ≡ codes "application/json" ++ rest)

-- A request body that a tool can send: none, or one in JSON.
data SendableBody : Option (Option RequestBody) → Type 0 where
  no_reference : SendableBody none
  no_value : SendableBody (some none)
  in_json :
      {body : RequestBody}
      → Any (λ entry. NamesJson entry.0) body.content
      → SendableBody (some (some body))

names_json : Bytes → Bool
names_json c = has_prefix c (codes "application/json")

NamesJson-complete : (c : Bytes) → NamesJson c → names_json c ≡ true
unfolding names_json
NamesJson-complete c (rest, e) = rw e (has_prefix-append (codes "application/json") rest)

names_json_sound :
    (entry : Bytes × Option SchemaRef) → names_json entry.0 ≡ true → NamesJson entry.0
unfolding names_json
names_json_sound entry h = has_prefix_sound entry.0 (codes "application/json") h

supported_sound :
    (body : Option (Option RequestBody)) → supported_content body ≡ true → SendableBody body
unfolding supported_content names_json
supported_sound none h = no_reference
supported_sound (some none) h = no_value
supported_sound (some (some body)) h =
    in_json (Any-of_any (λ entry. names_json entry.0) names_json_sound body.content h)

supported_complete :
    {body : Option (Option RequestBody)} → SendableBody body → supported_content body ≡ true
unfolding supported_content names_json
supported_complete no_reference = refl
supported_complete no_value = refl
supported_complete (in_json found) =
    any-of_Any (λ (entry : Bytes × Option SchemaRef). names_json entry.0)
      (λ entry. NamesJson-complete entry.0) found

-- An operation becomes a tool exactly if it is there, has an identifier, and has no request body
-- or one that can be sent as JSON.
should_skip_operation_iff :
    (operation : Option Operation)
    → (should_skip_operation operation ≡ false) ↔ (
        (op : Operation) × (operation ≡ some op)
        × (op.operation_id ≢ [])
        × SendableBody op.request_body)
unfolding should_skip_operation has_supported_request_body
should_skip_operation_iff none = (λ h. cc, λ (op, e, named, body). cc)
should_skip_operation_iff (some op) = (
  λ h. (op, refl, ground arith, supported_sound op.request_body (ground arith)),
  λ (op', same, named, body). ground (arith, same, named, supported_complete body),
)
