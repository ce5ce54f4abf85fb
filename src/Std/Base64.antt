-- ===== src/Std/Base64.antt =====
pub mod RoundTrip
-- `base64.StdEncoding`: decoding with padding, where line breaks are skipped, and the encoding
-- that a client applies.
use envoy_mcp_openapi_proces.Common.{
  Bytes, Option, [], if◌then◌else◌, is_empty, leb, ltb, none, refl, some, ℕ, ◌%◌, ◌&&◌, ◌*◌, ◌+◌,
  ◌-◌, ◌/◌, ◌==◌, ◌||◌, ◌∷◌, ◌≡◌,
}
use envoy_mcp_openapi_proces.Common.Text.{codes}

abbrev letter_base : ℕ
letter_base = 26

-- The value of a digit, or `none` for a byte outside the alphabet.
unfoldable pub digit_value : ℕ → Option ℕ
digit_value c =
    if leb b'A' c && leb c b'Z'
    then some (c - b'A')
    else if leb b'a' c && leb c b'z'
    then some (c - b'a' + letter_base)
    else if leb b'0' c && leb c b'9'
    then some (c - b'0' + 52)
    else if c == b'+'
    then some 62
    else if c == b'/'
    then some 63
    else none

unfoldable pub digit_of : ℕ → ℕ
digit_of v =
    if ltb v 26
    then v + b'A'
    else if ltb v 52
    then v - 26 + b'a'
    else if ltb v 62
    then v - 52 + b'0'
    else if v == 62
    then b'+'
    else b'/'

infixl 5 ◌>>=◌
abbrev ◌>>=◌ {ℓ κ} : {A : Type ℓ} {B : Type κ} → Option A → (A → Option B) → Option B
none >>= k = none
some a >>= k = k a

unfoldable pub skip_newlines : Bytes → Bytes
skip_newlines [] = []
skip_newlines (c ∷ s) = if c == 10 || c == 13 then skip_newlines s else c ∷ skip_newlines s

-- One group of four digits, where a padded group must be the last one.
unfoldable pub decode_groups : Bytes → Option Bytes
unfolding digit_value
decode_groups [] = some []
decode_groups (a ∷ b ∷ c ∷ d ∷ rest) =
    let more = decode_groups rest in
    if c == b'=' && d == b'='
    then (if is_empty rest
        then (do x ← digit_value a; y ← digit_value b; some ((x * 4 + y / 16) ∷ []))
        else none)
    else if d == b'='
    then (if is_empty rest
        then (do
          x ← digit_value a
          y ← digit_value b
          z ← digit_value c
          some ((x * 4 + y / 16) ∷ ((y % 16) * 16 + z / 4) ∷ []))
        else none)
    else (do
      x ← digit_value a
      y ← digit_value b
      z ← digit_value c
      w ← digit_value d
      m ← more
      some ((x * 4 + y / 16) ∷ ((y % 16) * 16 + z / 4) ∷ ((z % 4) * 64 + w) ∷ m))
decode_groups _ = none

unfoldable pub base64_decode : Bytes → Option Bytes
unfolding skip_newlines decode_groups
base64_decode s = decode_groups (skip_newlines s)

unfoldable pub base64_encode : Bytes → Bytes
unfolding digit_of
base64_encode [] = []
base64_encode (x ∷ []) = digit_of (x / 4) ∷ digit_of ((x % 4) * 16) ∷ b'=' ∷ b'=' ∷ []
base64_encode (x ∷ y ∷ []) =
    digit_of (x / 4) ∷ digit_of ((x % 4) * 16 + y / 16) ∷ digit_of ((y % 16) * 4) ∷ b'=' ∷ []
base64_encode (x ∷ y ∷ z ∷ rest) =
    digit_of (x / 4)
    ∷ digit_of ((x % 4) * 16 + y / 16)
    ∷ digit_of ((y % 16) * 4 + z / 64)
    ∷ digit_of (z % 64)
    ∷ base64_encode rest

tests :
    (base64_decode (codes "Z2V0") ≡ some (codes "get"))
    × (base64_decode (codes "Z2V0VQ==") ≡ some (codes "getU"))
    × (base64_decode (codes "Z2V0VQ=") ≡ none)
    × (base64_encode (codes "getU") ≡ codes "Z2V0VQ==")
unfolding base64_decode base64_encode
tests = (refl, refl, refl, refl)
