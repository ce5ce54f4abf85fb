-- ===== src/Std/Affix.antt =====
-- Prefixes and suffixes, as decompositions of the text.
use envoy_mcp_openapi_proces.Common.{
  Bool-cases, Bytes, [], ap, arith, equal, equal_iff, equal_refl, false, inl, inr, length,
  length-append, refl, some, true, ℕ, ◌++◌, ◌<◌, ◌∷◌, ◌≡◌,
}
use envoy_mcp_openapi_proces.Common.Text.{cut_prefix, cut_suffix, has_prefix, has_suffix}

pub has_prefix_sound : (s t : Bytes) → has_prefix s t ≡ true → (r : Bytes) × (s ≡ t ++ r)
unfolding has_prefix
has_prefix_sound s [] h = (s, refl)
has_prefix_sound [] (p ∷ ps) h = cc
has_prefix_sound (c ∷ s) (p ∷ ps) h =
    let later : has_prefix s ps ≡ true = ground arith in
    let same : c ≡ p = ground arith in let (r, e) = has_prefix_sound s ps later in (r, cc)

pub has_prefix-append : (t r : Bytes) → has_prefix (t ++ r) t ≡ true
unfolding has_prefix
has_prefix-append [] [] = refl
has_prefix-append [] (c ∷ r) = refl
has_prefix-append (c ∷ t) r = ground (arith, has_prefix-append t r)

pub cut_prefix-append : (t r : Bytes) → cut_prefix (t ++ r) t ≡ some r
unfolding cut_prefix
cut_prefix-append [] [] = refl
cut_prefix-append [] (c ∷ r) = refl
cut_prefix-append (c ∷ t) r = ground (arith, cut_prefix-append t r)

pub cut_prefix_sound : (s t : Bytes) {r : Bytes} → cut_prefix s t ≡ some r → s ≡ t ++ r
unfolding cut_prefix
cut_prefix_sound s [] h = ground arith
cut_prefix_sound [] (p ∷ ps) h = cc
cut_prefix_sound (c ∷ s) (p ∷ ps) {r} h =
    let later : cut_prefix s ps ≡ some r = ground arith in
    let same : c ≡ p = ground arith in let e = cut_prefix_sound s ps later in cc

pub has_suffix_sound : (s t : Bytes) → has_suffix s t ≡ true → (r : Bytes) × (s ≡ r ++ t)
unfolding has_suffix
has_suffix_sound [] t h = ([], (equal_iff [] t).0 h)
has_suffix_sound (c ∷ s) t h = elim (Bool-cases (equal (c ∷ s) t)) [
  | inl same ↦ ([], (equal_iff _ _).0 same)
  | inr other ↦
      let later : has_suffix s t ≡ true = rw other at h in
      let (r, e) = has_suffix_sound s t later in (c ∷ r, ap (◌∷◌ c) e)
]

pub has_suffix_self : (t : Bytes) → has_suffix t t ≡ true
unfolding has_suffix
has_suffix_self [] = equal_refl []
has_suffix_self (c ∷ t) = rw (equal_refl (c ∷ t))

pub has_suffix-append : (r t : Bytes) → has_suffix (r ++ t) t ≡ true
unfolding has_suffix
has_suffix-append [] t = has_suffix_self t
has_suffix-append (c ∷ r) t = ground (arith, has_suffix-append r t)

-- A text is no suffix of a shorter one.
pub has_suffix_short : (s t : Bytes) → length s < length t → has_suffix s t ≡ false
has_suffix_short s t short = elim (Bool-cases (has_suffix s t)) [
  | inl h ↦
      let (r, e) = has_suffix_sound s t h in absurd (omega (arith, ap length e, length-append r t))
  | inr h ↦ h
]

longer_ne : (c : ℕ) (r t : Bytes) → equal (c ∷ (r ++ t)) t ≡ false
longer_ne c r t = elim (Bool-cases (equal (c ∷ (r ++ t)) t)) [
  | inl h ↦ absurd (omega (arith, ap length ((equal_iff _ _).0 h), length-append r t))
  | inr h ↦ h
]

pub cut_suffix-append : (r t : Bytes) → cut_suffix (r ++ t) t ≡ some r
unfolding cut_suffix
cut_suffix-append [] [] = rw (equal_refl [])
cut_suffix-append [] (c ∷ t) = rw (equal_refl (c ∷ t))
cut_suffix-append (c ∷ r) t =
    let longer : equal (c ∷ (r ++ t)) t ≡ false = longer_ne c r t in
    rw longer (rw (cut_suffix-append r t, cut_suffix))
