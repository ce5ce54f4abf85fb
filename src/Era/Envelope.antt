-- ===== src/Era/Envelope.antt =====
-- The envelope of the modern results.
use envoy_mcp_openapi_proces.Common.{
  Bytes, arith, equal_iff, equal_refl, inl, inr, lookup, lookup-insert, none, refl, some, ◌≡◌, ◌≢◌,
  ◌⊎◌,
}
use envoy_mcp_openapi_proces.Era.{
  ServerInfo, cache_hints, encode_result, legacy_era, meta_with_server_info, modern_era,
  result_type_complete, stamp_envelope, stamp_result,
}
use envoy_mcp_openapi_proces.Protocol.{
  CallToolResult, Codecs, DiscoverResult, InitializeResult, ListToolsResult, McpResult, ResultMeta,
  call_tool, discover, initialize, list_tools,
}

-- The metadata of a stamped result against those of the result: the program names itself, says
-- that the result is complete, and keeps all other entries.
pub record IsStamped (k : Codecs) (info : ServerInfo) (before after : ResultMeta) : Type 0 where
  complete : after.result_type ≡ result_type_complete
  signed :
      lookup k.meta_key_server_info after.meta
      ≡ some (record { name = info.name; version = info.version })
  others :
      (key : Bytes) → k.meta_key_server_info ≢ key → lookup key after.meta ≡ lookup key before.meta

-- What the modern era may send for a result: the same payload, with stamped metadata, and with the
-- cache hints where the protocol asks for them. Nothing is sent for `initialize`.
pub data Stamps (k : Codecs) (info : ServerInfo) : McpResult → McpResult → Type 0 where
  stamped_call :
      {r : CallToolResult} {after : ResultMeta}
      → IsStamped k info r.result_meta after
      → Stamps k info (call_tool r) (call_tool (record r { result_meta = after }))
  stamped_list :
      {r : ListToolsResult} {after : ResultMeta}
      → IsStamped k info r.result_meta after
      → Stamps k info
          (list_tools r)
          (list_tools (record r { result_meta = after; cacheable = some cache_hints }))
  stamped_discover :
      {r : DiscoverResult} {after : ResultMeta}
      → IsStamped k info r.result_meta after
      → Stamps k info
          (discover r)
          (discover (record r { result_meta = after; cacheable = cache_hints }))

stamp_envelope-IsStamped :
    (k : Codecs) (info : ServerInfo) (m : ResultMeta) → IsStamped k info m (stamp_envelope k info m)
unfolding stamp_envelope meta_with_server_info
stamp_envelope-IsStamped k info m = record {
  complete = refl;
  signed = ground (
    arith,
    lookup-insert k.meta_key_server_info k.meta_key_server_info
        (record { name = info.name; version = info.version }) m.meta,
    equal_refl k.meta_key_server_info,
  );
  others = λ key other. ground (
    arith,
    lookup-insert k.meta_key_server_info key (record { name = info.name; version = info.version })
        m.meta,
    equal_iff k.meta_key_server_info key,
  );
}

-- A result is encoded as its era asks. The legacy era marshals it as it is. The modern era refuses
-- the result of `initialize`; of any other it marshals the result with the same payload whose
-- metadata say that it is complete and name the server, all other entries kept, and whose cache
-- hints, on a list of tools and on a discovery, are the program's.
pub encode_result-Stamps :
    (k : Codecs) (info : ServerInfo) (r : McpResult)
    → (encode_result k legacy_era r ≡ k.marshal_result r)
      × (((i : InitializeResult) × (r ≡ initialize i)
            × (encode_result k (modern_era info) r ≡ none))
          ⊎ ((s : McpResult) × Stamps k info r s
              × (encode_result k (modern_era info) r ≡ k.marshal_result s)))
unfolding encode_result stamp_result
encode_result-Stamps k info (call_tool r) =
    (refl, inr (_, stamped_call (stamp_envelope-IsStamped k info r.result_meta), refl))
encode_result-Stamps k info (list_tools r) =
    (refl, inr (_, stamped_list (stamp_envelope-IsStamped k info r.result_meta), refl))
encode_result-Stamps k info (discover r) =
    (refl, inr (_, stamped_discover (stamp_envelope-IsStamped k info r.result_meta), refl))
encode_result-Stamps k info (initialize r) = (refl, inl (r, refl, refl))
