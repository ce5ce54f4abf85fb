-- ===== src/Std/Base64/RoundTrip.antt =====
-- Decoding an encoded text gives it back, whatever its bytes.
use envoy_mcp_openapi_proces.Common.{
  All, Bool, Bytes, [], arith, not, refl, some, true, ℕ, ◌%◌, ◌&&◌, ◌*◌, ◌+◌, ◌/◌, ◌<◌, ◌==◌, ◌∷◌,
  ◌≡◌,
}
use envoy_mcp_openapi_proces.Std.Base64.{
  base64_decode, base64_encode, decode_groups, digit_of, digit_value, skip_newlines,
}

abbrev pub IsByte : ℕ → Type 0
IsByte c = c < 256

digit_value-digit_of : (v : ℕ) → v < 64 → digit_value (digit_of v) ≡ some v
unfolding digit_value digit_of
digit_value-digit_of v h = ground arith

-- A digit is neither padding nor a line break.
abbrev plain : ℕ → Bool
plain c = not (c == b'=') && not (c == 10) && not (c == 13)

digit_of-plain : (v : ℕ) → v < 64 → plain (digit_of v) ≡ true
unfolding digit_of
digit_of-plain v h = ground arith

skip_newlines-encode :
    (s : Bytes) → All IsByte s → skip_newlines (base64_encode s) ≡ base64_encode s
unfolding skip_newlines base64_encode
skip_newlines-encode [] h = refl
skip_newlines-encode (x ∷ []) h =
    ground (arith, digit_of-plain (x / 4), digit_of-plain ((x % 4) * 16))
skip_newlines-encode (x ∷ y ∷ []) h = ground (
  arith,
  digit_of-plain (x / 4),
  digit_of-plain ((x % 4) * 16 + y / 16),
  digit_of-plain ((y % 16) * 4),
)
skip_newlines-encode (x ∷ y ∷ z ∷ rest) h = ground (
  arith,
  digit_of-plain (x / 4),
  digit_of-plain ((x % 4) * 16 + y / 16),
  digit_of-plain ((y % 16) * 4 + z / 64),
  digit_of-plain (z % 64),
  skip_newlines-encode rest h.1.1.1,
)

decode_groups-encode : (s : Bytes) → All IsByte s → decode_groups (base64_encode s) ≡ some s
unfolding decode_groups base64_encode
decode_groups-encode [] h = refl
decode_groups-encode (x ∷ []) h =
    ground (arith, digit_value-digit_of (x / 4), digit_value-digit_of ((x % 4) * 16))
decode_groups-encode (x ∷ y ∷ []) h = ground (
  arith,
  digit_of-plain ((y % 16) * 4),
  digit_value-digit_of (x / 4),
  digit_value-digit_of ((x % 4) * 16 + y / 16),
  digit_value-digit_of ((y % 16) * 4),
)
decode_groups-encode (x ∷ y ∷ z ∷ rest) h = ground (
  arith,
  digit_of-plain (z % 64),
  digit_value-digit_of (x / 4),
  digit_value-digit_of ((x % 4) * 16 + y / 16),
  digit_value-digit_of ((y % 16) * 4 + z / 64),
  digit_value-digit_of (z % 64),
  decode_groups-encode rest h.1.1.1,
)

pub base64_decode-encode : (s : Bytes) → All IsByte s → base64_decode (base64_encode s) ≡ some s
unfolding base64_decode
base64_decode-encode s h = rw (skip_newlines-encode s h) (decode_groups-encode s h)
