-- ===== src/Headers/Decoding.antt =====
-- The Base64 sentinel around a header value.
use envoy_mcp_openapi_proces.Common.{All, Bytes, Option-cases, ap, false, inl, inr, some, ◌++◌, ◌≡◌}
use envoy_mcp_openapi_proces.Common.Text.{codes, cut_prefix, has_prefix}
use envoy_mcp_openapi_proces.Headers.{decode_header_value}
use envoy_mcp_openapi_proces.Std.Affix.{
  cut_prefix-append, cut_prefix_sound, cut_suffix-append, has_prefix-append,
}
use envoy_mcp_openapi_proces.Std.Base64.{base64_encode}
use envoy_mcp_openapi_proces.Std.Base64.RoundTrip.{IsByte, base64_decode-encode}

-- A value that a client wrapped is read back as the text that it stands for, whatever its bytes; a
-- value without the sentinel's opening is read as it is.
pub decode_header_value_wrapped :
    (s value : Bytes)
    → All IsByte s
    → has_prefix value (codes "=?base64?") ≡ false
    → (decode_header_value (codes "=?base64?" ++ (base64_encode s ++ codes "?=")) ≡ some s)
      × (decode_header_value value ≡ some value)
unfolding decode_header_value
decode_header_value_wrapped s value bytes plain = (
  rw (cut_prefix-append (codes "=?base64?") (base64_encode s ++ codes "?="), decode_header_value)
      (rw (cut_suffix-append (base64_encode s) (codes "?=")) (base64_decode-encode s bytes)),
  elim (Option-cases (cut_prefix value (codes "=?base64?"))) [
    | inl no_prefix ↦ rw (no_prefix, decode_header_value)
    | inr (r, e) ↦
        let split = cut_prefix_sound value (codes "=?base64?") e in
        absurd (
          cc (
            ap (λ (v : Bytes). has_prefix v (codes "=?base64?")) split,
            has_prefix-append (codes "=?base64?") r,
          ))
  ],
)
