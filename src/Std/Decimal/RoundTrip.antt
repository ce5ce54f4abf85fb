-- ===== src/Std/Decimal/RoundTrip.antt =====
-- A printed number is read back.
use envoy_mcp_openapi_proces.Common.{
  Bool, Bytes, [], arith, false, leb, refl, some, suc, true, zero, ℕ, ◌%◌, ◌&&◌, ◌+◌, ◌/◌, ◌<◌, ◌^◌,
  ◌∙◌, ◌∷◌, ◌≡◌,
}
use envoy_mcp_openapi_proces.Std.Decimal.{atoi, digits_value, itoa, itoa_from, pos, signed_value}

digits_value-itoa_from :
    (fuel n : ℕ) (acc : Bytes)
    → n < fuel
    → digits_value 0 (itoa_from fuel n acc) ≡ digits_value n acc
unfolding digits_value itoa_from
digits_value-itoa_from zero n acc h = absurd (omega arith)
digits_value-itoa_from (suc fuel) n acc h =
    ground (arith, digits_value-itoa_from fuel (n / 10) ((b'0' + n % 10) ∷ acc))

abbrev starts_with_digit : Bytes → Bool
starts_with_digit [] = false
starts_with_digit (c ∷ s) = leb b'0' c && leb c b'9'

itoa_from-starts :
    (fuel n : ℕ) (acc : Bytes) → n < fuel → starts_with_digit (itoa_from fuel n acc) ≡ true
unfolding itoa_from
itoa_from-starts zero n acc h = absurd (omega arith)
itoa_from-starts (suc fuel) n acc h =
    ground (arith, itoa_from-starts fuel (n / 10) ((b'0' + n % 10) ∷ acc))

atoi_digits :
    (s : Bytes) (n : ℕ)
    → starts_with_digit s ≡ true
    → digits_value 0 s ≡ some n
    → n < 2 ^ 63
    → atoi s ≡ some (pos n)
unfolding atoi signed_value
atoi_digits [] n h e b = cc
atoi_digits (c ∷ s) n h e b = ground arith

pub atoi-itoa : (n : ℕ) → n < 2 ^ 63 → atoi (itoa n) ≡ some (pos n)
unfolding itoa
atoi-itoa n b =
    atoi_digits (itoa_from (suc n) n []) n (itoa_from-starts (suc n) n [] (omega arith))
      (digits_value-itoa_from (suc n) n [] (omega arith) ∙ unfold digits_value in refl) b
