-- ===== src/Std/Decimal.antt =====
-- `strconv.Itoa` on the non-negative numbers, and `strconv.Atoi` at 64 bits.

pub mod RoundTrip
use envoy_mcp_openapi_proces.Common.{
  Bool, Bytes, Option, [], false, if◌then◌else◌, leb, ltb, none, refl, some, suc, true, zero, ℕ,
  ◌%◌, ◌&&◌, ◌*◌, ◌+◌, ◌-◌, ◌/◌, ◌==◌, ◌^◌, ◌∷◌, ◌≡◌,
}
use envoy_mcp_openapi_proces.Common.Text.{codes}

-- An `int`: `negsuc n` is -(n + 1).
pub data ℤ : Type 0 where
  pos : ℕ → ℤ
  negsuc : ℕ → ℤ

-- The digits of `n` in front of `acc`. A number has at most as many digits as `n + 1`.
unfoldable pub itoa_from : ℕ → ℕ → Bytes → Bytes
itoa_from zero n acc = acc
itoa_from (suc fuel) n acc =
    let longer = itoa_from fuel (n / 10) ((b'0' + n % 10) ∷ acc) in
    if ltb n 10 then (b'0' + n) ∷ acc else longer

unfoldable pub itoa : ℕ → Bytes
itoa n = itoa_from (suc n) n []

unfoldable pub int_text : ℤ → Bytes
int_text (pos n) = itoa n
int_text (negsuc n) = b'-' ∷ itoa (suc n)

-- The digits, `none` at another byte.
unfoldable pub digits_value : ℕ → Bytes → Option ℕ
digits_value acc [] = some acc
digits_value acc (c ∷ s) =
    if leb b'0' c && leb c b'9' then digits_value (acc * 10 + (c - b'0')) s else none

abbrev to_int : Bool → ℕ → Option ℤ
to_int negative n =
    if negative
    then (if leb n (2 ^ 63) then some (elim n [ zero ↦ pos 0 | suc k ↦ negsuc k ]) else none)
    else if ltb n (2 ^ 63)
    then some (pos n)
    else none

-- At least one digit, and a value that an `int` holds.
unfoldable pub signed_value : Bool → Bytes → Option ℤ
signed_value negative [] = none
signed_value negative (c ∷ s) = elim (digits_value 0 (c ∷ s)) [
  | none ↦ none
  | some n ↦ to_int negative n
]

unfoldable pub atoi : Bytes → Option ℤ
atoi [] = none
atoi (c ∷ s) =
    if c == b'-'
    then signed_value true s
    else if c == b'+'
    then signed_value false s
    else signed_value false (c ∷ s)

tests :
    (itoa 1204 ≡ codes "1204")
    × (atoi (codes "404") ≡ some (pos 404))
    × (atoi (codes "-1") ≡ some (negsuc 0))
    × (atoi (codes "2x") ≡ none)
    × (atoi (codes "9223372036854775808") ≡ none)
unfolding itoa itoa_from atoi signed_value digits_value
tests = (refl, refl, refl, refl, refl)
