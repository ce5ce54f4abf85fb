-- ===== src/Headers/Validating.antt =====
-- When a request's MCP headers mirror its body.
use envoy_mcp_openapi_proces.Common.{
  Bool-cases, Bytes, Option, Option-cases, [], arith, equal, equal_iff, equal_refl, inl, inr, none,
  some, ◌↔◌, ◌≡◌, ◌≢◌,
}
use envoy_mcp_openapi_proces.Headers.{
  McpRequestHeaders, decode_header_value, method_tools_call, validate_method,
  validate_modern_headers, validate_name,
}

pub record MirrorsName (name_param : Bytes → Option Bytes) (params header : Bytes) : Type 0 where
  pub name : Bytes
  pub in_body : name_param params ≡ some name
  pub nonempty : name ≢ []
  pub present : header ≢ []
  pub mirrored : decode_header_value header ≡ some name

-- Each mirrored header is there and says what the body says.
pub record Mirrors (name_param : Bytes → Option Bytes) (method params meta_version : Bytes)
    (hdrs : McpRequestHeaders) : Type 0 where
  pub version_present : hdrs.protocol_version ≢ []
  pub version : hdrs.protocol_version ≡ meta_version
  pub method_present : hdrs.method ≢ []
  pub same_method : hdrs.method ≡ method
  pub tool_name : method ≡ method_tools_call → MirrorsName name_param params hdrs.name

module _ (name_param : Bytes → Option Bytes) (method params : Bytes) where
  validate_name_sound :
      (header : Bytes)
      → validate_name name_param method params header ≡ none
      → MirrorsName name_param params header
  unfolding validate_name
  validate_name_sound header h = elim (Option-cases (decode_header_value header)) [
    | inl invalid ↦ absurd (let h' = rw (invalid, validate_name) at h in ground arith)
    | inr (decoded, e) ↦ elim (Option-cases (name_param params)) [
      | inl missing ↦ absurd (let h' = rw (e, missing, validate_name) at h in ground arith)
      | inr (name, found) ↦
          let h' = rw (e, found, validate_name) at h in
          record {
            name = name;
            in_body = found;
            nonempty = ground (arith, equal_iff name []);
            present = ground (arith, equal_iff header []);
            mirrored = ground (arith, equal_iff decoded name);
          }
    ]
  ]

  validate_name_complete :
      (header : Bytes)
      → MirrorsName name_param params header
      → validate_name name_param method params header ≡ none
  unfolding validate_name
  validate_name_complete header m =
      rw (m.mirrored, m.in_body, validate_name)
        (ground (
          arith,
          equal_iff header [],
          equal_iff m.name [],
          equal_refl m.name,
          m.present,
          m.nonempty,
        ))

  validate_method_complete :
      (hdrs : McpRequestHeaders)
      → hdrs.method ≢ []
      → hdrs.method ≡ method
      → (method ≡ method_tools_call → MirrorsName name_param params hdrs.name)
      → validate_method name_param method params hdrs ≡ none
  unfolding validate_method
  validate_method_complete hdrs present same named =
      elim (Bool-cases (equal method method_tools_call)) [
        | inl call ↦
            let m = validate_name_complete hdrs.name (named ((equal_iff _ _).0 call)) in
            ground (arith, equal_iff hdrs.method [], equal_iff hdrs.method method)
        | inr other ↦ ground (arith, equal_iff hdrs.method [], equal_iff hdrs.method method)
      ]

  validate_method_sound :
      (hdrs : McpRequestHeaders)
      → validate_method name_param method params hdrs ≡ none
      → (hdrs.method ≢ [])
        × (hdrs.method ≡ method)
        × (method ≡ method_tools_call → MirrorsName name_param params hdrs.name)
  unfolding validate_method
  validate_method_sound hdrs h = (
    ground (arith, equal_iff hdrs.method []),
    ground (arith, equal_iff hdrs.method method),
    λ call. validate_name_sound hdrs.name (ground (arith, equal_iff method method_tools_call)),
  )

  validate_sound :
      (meta_version : Bytes) (hdrs : McpRequestHeaders)
      → validate_modern_headers name_param method params meta_version hdrs ≡ none
      → Mirrors name_param method params meta_version hdrs
  unfolding validate_modern_headers
  validate_sound meta hdrs h =
      let (present, same, named) = validate_method_sound hdrs (ground arith) in
      record {
        version_present = ground (arith, equal_iff hdrs.protocol_version []);
        version = ground (arith, equal_iff hdrs.protocol_version meta);
        method_present = present;
        same_method = same;
        tool_name = named;
      }

  validate_complete :
      (meta_version : Bytes) (hdrs : McpRequestHeaders)
      → Mirrors name_param method params meta_version hdrs
      → validate_modern_headers name_param method params meta_version hdrs ≡ none
  unfolding validate_modern_headers
  validate_complete meta hdrs m =
      let rest = validate_method_complete hdrs m.method_present m.same_method m.tool_name in
      let present = m.version_present in
      let same = m.version in
      ground (
        arith,
        equal_iff hdrs.protocol_version [],
        equal_iff meta [],
        equal_iff hdrs.protocol_version meta,
      )

-- The check passes exactly the requests whose headers mirror the body: the protocol version and
-- the method are present and equal to the body's, and for a tool call the name header, decoded,
-- is the nonempty name in the parameters.
pub validate_modern_headers_iff :
    (name_param : Bytes → Option Bytes) (method params meta_version : Bytes)
    (hdrs : McpRequestHeaders)
    → (validate_modern_headers name_param method params meta_version hdrs ≡ none)
      ↔ Mirrors name_param method params meta_version hdrs
validate_modern_headers_iff f method params meta hdrs =
    (validate_sound f method params meta hdrs, validate_complete f method params meta hdrs)
