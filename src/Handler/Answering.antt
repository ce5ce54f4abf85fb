-- ===== src/Handler/Answering.antt =====
-- The MCP answer made of an upstream response.
use envoy_mcp_openapi_proces.Common.{
  true-false, Bool, Bool-cases, Bytes, List, [], arith, false, inl, inr, length, refl, some, sym,
  true, ℕ, ◌<◌, ◌==◌, ◌^◌, ◌↔◌, ◌∙◌, ◌≡◌, ◌≤◌,
}
use envoy_mcp_openapi_proces.Common.Text.{codes}
use envoy_mcp_openapi_proces.Era.{encode_result}
use envoy_mcp_openapi_proces.Handler.Responses.{
  RequestContext, build_mcp_response, build_mcp_response_payload, is_http_error_status,
  mcp_response_handler, protocol_era, response_bytes, upstream_result,
}
use envoy_mcp_openapi_proces.Protocol.{
  CallToolResult, Codecs, call_tool, is_valid, new_text_content, result,
}
use envoy_mcp_openapi_proces.Registry.{ToolResponseConfig}
use envoy_mcp_openapi_proces.Std.Decimal.{atoi, itoa, negsuc, pos, ℤ}
use envoy_mcp_openapi_proces.Std.Decimal.RoundTrip.{atoi-itoa}
use envoy_mcp_openapi_proces.Wire.{
  HeaderValueOption, append_header, content_headers, header_mutation, response_factory,
}

-- A status is an error exactly if it is unknown (0) or at least 400.
pub data IsErrorStatus : ℤ → Type 0 where
  unknown_status : IsErrorStatus (pos 0)
  high_status : {n : ℕ} → 400 ≤ n → IsErrorStatus (pos n)

is_http_error_status_sound : (code : ℤ) → is_http_error_status code ≡ true → IsErrorStatus code
unfolding is_http_error_status
is_http_error_status_sound (pos n) h = elim (Bool-cases (n == 0)) [
  | inl zero_status ↦ let e : n ≡ 0 = ground arith in rw e unknown_status
  | inr other ↦ high_status (ground arith)
]
is_http_error_status_sound (negsuc n) h = cc

is_http_error_status_complete : {code : ℤ} → IsErrorStatus code → is_http_error_status code ≡ true
unfolding is_http_error_status
is_http_error_status_complete unknown_status = refl
is_http_error_status_complete (high_status {n} h) = ground arith

module _ (k : Codecs) (rc : RequestContext) (config : ToolResponseConfig)
    (body json message : Bytes) (valid : is_valid rc.jsonrpc_id ≡ true)
    (configured : rc.tool_response_config ≡ some config) where
  abbrev answered : CallToolResult
  answered =
      upstream_result config (is_http_error_status rc.upstream_status_code) (k.json_is_valid body)
        body

  response_bytes_message :
      encode_result k (protocol_era rc) (call_tool answered) ≡ some json
      → k.encode_message rc.jsonrpc_id (result json) ≡ some message
      → response_bytes k rc body ≡ message
  unfolding response_bytes build_mcp_response
  response_bytes_message e f =
      rw (valid, response_bytes, build_mcp_response)
        (rw (configured, build_mcp_response) (rw (e, build_mcp_response) (rw f)))

abbrev pub json_headers : Bytes → List HeaderValueOption
json_headers value =
    append_header (append_header [] (codes "content-type") (codes "application/json"))
      (codes "content-length") value

-- What an answered tool call sends.
pub record Answers (k : Codecs) (rc : RequestContext) (config : ToolResponseConfig)
    (body message : Bytes) (answer : CallToolResult) : Type 0 where
  sent : (mcp_response_handler k rc body).body ≡ message
  verbatim : answer.contents ≡ new_text_content body
  failing : (answer.is_error ≡ true) ↔ IsErrorStatus rc.upstream_status_code
  structured : (answer.structured_content ≡ some body) ↔ (
      (config.use_structured_output ≡ true)
      × (k.json_is_valid body ≡ true)
      × (¬ IsErrorStatus rc.upstream_status_code))

handler_body :
    (k : Codecs) (rc : RequestContext) (body : Bytes)
    → (mcp_response_handler k rc body).body ≡ response_bytes k rc body
unfolding mcp_response_handler build_mcp_response_payload
handler_body k rc body = refl

verbatim_text :
    (config : ToolResponseConfig) (is_error json_valid : Bool) (body : Bytes)
    → (upstream_result config is_error json_valid body).contents ≡ new_text_content body
unfolding upstream_result
verbatim_text config is_error json_valid body = refl

upstream_is_error :
    (config : ToolResponseConfig) (is_error json_valid : Bool) (body : Bytes)
    → (upstream_result config is_error json_valid body).is_error ≡ is_error
unfolding upstream_result
upstream_is_error config is_error json_valid body = refl

structured_iff :
    (config : ToolResponseConfig) (is_error json_valid : Bool) (body : Bytes)
    → ((upstream_result config is_error json_valid body).structured_content ≡ some body)
      ↔ ((config.use_structured_output ≡ true) × (json_valid ≡ true) × (is_error ≡ false))
unfolding upstream_result
structured_iff config is_error json_valid body = ground arith

failing_iff :
    (code : ℤ) (config : ToolResponseConfig) (json_valid : Bool) (body : Bytes)
    → ((upstream_result config (is_http_error_status code) json_valid body).is_error ≡ true)
      ↔ IsErrorStatus code
failing_iff code config json_valid body = (
  λ h. is_http_error_status_sound code (sym (upstream_is_error config _ _ body) ∙ h),
  λ h. upstream_is_error config _ _ body ∙ is_http_error_status_complete h,
)

no_error_iff : (code : ℤ) → (is_http_error_status code ≡ false) ↔ (¬ IsErrorStatus code)
no_error_iff code = (
  λ h status. true-false (sym (is_http_error_status_complete status) ∙ h),
  λ none_such. elim (Bool-cases (is_http_error_status code)) [
    | inl is ↦ absurd (none_such (is_http_error_status_sound code is))
    | inr isnt ↦ isnt
  ],
)

structured_status_iff :
    (code : ℤ) (config : ToolResponseConfig) (json_valid : Bool) (body : Bytes)
    → ((upstream_result config (is_http_error_status code) json_valid body).structured_content
        ≡ some body)
      ↔ ((config.use_structured_output ≡ true) × (json_valid ≡ true) × (¬ IsErrorStatus code))
structured_status_iff code config json_valid body = (
  λ h.
      let (a, b, c) = (structured_iff config _ json_valid body).0 h in
      (a, b, (no_error_iff code).0 c),
  λ (a, b, c). (structured_iff config _ json_valid body).1 (a, b, (no_error_iff code).1 c),
)

-- An upstream response is answered in full. For a tool call whose ID is valid and whose result the
-- libraries encode: the body sent is the encoded result; the result's text is the upstream body;
-- it is an error exactly if the upstream status is unknown or at least 400; and it has structured
-- content, the upstream body itself, exactly if the tool is configured for it, the body is valid
-- JSON and the status is no error.
pub mcp_response_handler-Answers :
    (k : Codecs) (rc : RequestContext) (config : ToolResponseConfig) (body json message : Bytes)
    → is_valid rc.jsonrpc_id ≡ true
    → rc.tool_response_config ≡ some config
    → encode_result k (protocol_era rc) (
        call_tool (
          upstream_result config
            (is_http_error_status rc.upstream_status_code)
            (k.json_is_valid body)
            body))
      ≡ some json
    → k.encode_message rc.jsonrpc_id (result json) ≡ some message
    → Answers k rc config body message (
        upstream_result config
          (is_http_error_status rc.upstream_status_code)
          (k.json_is_valid body)
          body)
mcp_response_handler-Answers k rc config body json message valid configured e f = record {
  sent =
      handler_body k rc body
      ∙ response_bytes_message k rc config body json message valid configured e f;
  verbatim = verbatim_text config _ _ body;
  failing = failing_iff rc.upstream_status_code config (k.json_is_valid body) body;
  structured = structured_status_iff rc.upstream_status_code config (k.json_is_valid body) body;
}

-- The length announced is the length sent: the headers set name JSON and a content length that
-- reads back as the number of bytes of the body, provided that it is below 2^63, and the upstream's
-- own content headers are removed.
pub mcp_response_handler_content_length :
    (k : Codecs) (rc : RequestContext) (body : Bytes)
    → length (mcp_response_handler k rc body).body < 2 ^ 63
    → (value : Bytes) × ((mcp_response_handler k rc body).headers
        ≡ header_mutation response_factory (json_headers value) content_headers)
      × (atoi value ≡ some (pos (length (mcp_response_handler k rc body).body)))
unfolding mcp_response_handler build_mcp_response_payload
mcp_response_handler_content_length k rc body small =
    (itoa (length (response_bytes k rc body)), refl, atoi-itoa _ small)
