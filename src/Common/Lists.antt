-- ===== src/Common/Lists.antt =====
-- Lists measured by native numbers, tests and predicates over them.
use Prim.Native.Nat.{ℕ, zero, suc, ◌+◌, ◌-◌, ◌<◌, min}
use mathlib.Core.Path.{◌≡◌, refl}
use mathlib.Core.Bool.{Bool, true, false, ◌&&◌, ◌||◌}
use mathlib.Core.List.{List, [], ◌∷◌, ◌++◌}
use mathlib.Core.Logic.{inl, inr}
use native.Mathlib.Omega.{arith}
use envoy_mcp_openapi_proces.Common.Tests.{Bool-cases}

module _ {ℓ} {A : Type ℓ} where
  abbrev pub length : List A → ℕ
  length [] = 0
  length (x ∷ xs) = suc (length xs)

  abbrev pub is_empty : List A → Bool
  is_empty [] = true
  is_empty (x ∷ xs) = false

  abbrev pub take : ℕ → List A → List A
  take zero xs = []
  take (suc n) [] = []
  take (suc n) (x ∷ xs) = x ∷ take n xs

  abbrev pub drop : ℕ → List A → List A
  drop zero xs = xs
  drop (suc n) [] = []
  drop (suc n) (x ∷ xs) = drop n xs

  abbrev pub any : (A → Bool) → List A → Bool
  any p [] = false
  any p (x ∷ xs) = p x || any p xs

  abbrev pub all : (A → Bool) → List A → Bool
  all p [] = true
  all p (x ∷ xs) = p x && all p xs

  abbrev pub concat_all : List (List A) → List A
  concat_all [] = []
  concat_all (x ∷ xs) = x ++ concat_all xs

  pub take-append-drop : (n : ℕ) (xs : List A) → take n xs ++ drop n xs ≡ xs
  take-append-drop zero xs = refl
  take-append-drop (suc n) [] = refl
  take-append-drop (suc n) (x ∷ xs) = λ i. x ∷ take-append-drop n xs i

  pub length-take : (n : ℕ) (xs : List A) → length (take n xs) ≡ min n (length xs)
  length-take zero xs = omega arith
  length-take (suc n) [] = omega arith
  length-take (suc n) (x ∷ xs) = omega (arith, length-take n xs)

  pub length-drop : (n : ℕ) (xs : List A) → length (drop n xs) ≡ length xs - n
  length-drop zero xs = omega arith
  length-drop (suc n) [] = omega arith
  length-drop (suc n) (x ∷ xs) = omega (arith, length-drop n xs)

  pub nil_of_is_empty : (xs : List A) → is_empty xs ≡ true → xs ≡ []
  nil_of_is_empty [] h = refl
  nil_of_is_empty (x ∷ xs) h = cc

  pub length-pos_of_not_empty : (xs : List A) → is_empty xs ≡ false → 0 < length xs
  length-pos_of_not_empty [] h = cc
  length-pos_of_not_empty (x ∷ xs) h = omega arith

  pub length-append : (xs ys : List A) → length (xs ++ ys) ≡ length xs + length ys
  length-append [] ys = omega arith
  length-append (x ∷ xs) ys = omega (arith, length-append xs ys)

-- Every element satisfies `P`; computes to a tuple.
abbrev pub All {ℓ κ} : {A : Type ℓ} → (A → Type κ) → List A → Type κ
All Q [] = Unit
All Q (a ∷ more) = Q a × All Q more

-- Some element satisfies `P`, with the place of the first one that is known.
pub data Any {ℓ κ} {A : Type ℓ} (P : A → Type κ) : List A → Type (ℓ ⊔ κ) where
  here : {x : A} {xs : List A} → P x → Any P (x ∷ xs)
  there : {x : A} {xs : List A} → Any P xs → Any P (x ∷ xs)

module _ {ℓ} {A : Type ℓ} (p : A → Bool) where
  pub any-append : (xs ys : List A) → any p (xs ++ ys) ≡ (any p xs || any p ys)
  any-append [] ys = refl
  any-append (x ∷ xs) ys = ground (arith, any-append xs ys)

  module _ {κ} {P : A → Type κ} where
    pub Any-of_any : ((x : A) → p x ≡ true → P x) → (xs : List A) → any p xs ≡ true → Any P xs
    Any-of_any sound [] h = cc
    Any-of_any sound (x ∷ xs) h = elim (Bool-cases (p x)) [
      | inl found ↦ here (sound x found)
      | inr other ↦ there (Any-of_any sound xs (rw other at h))
    ]

    pub any-of_Any : ((x : A) → P x → p x ≡ true) → {xs : List A} → Any P xs → any p xs ≡ true
    any-of_Any complete (here {x} h) = rw (complete x h)
    any-of_Any complete (there {x} {xs} h) = ground (arith, any-of_Any complete h)

-- Membership is that some element is equal.
pub All-of_mem {ℓ κ} :
    {A : Type ℓ} {P : A → Type κ} (xs : List A) → ((x : A) → Any (λ y. y ≡ x) xs → P x) → All P xs
All-of_mem [] h = tt
All-of_mem (x ∷ xs) h = (h x (here refl), All-of_mem xs (λ y m. h y (there m)))

pub Any-map {ℓ κ} :
    {A : Type ℓ} {P Q : A → Type κ} {xs : List A} → ((x : A) → P x → Q x) → Any P xs → Any Q xs
Any-map f (here {x} h) = here (f x h)
Any-map f (there m) = there (Any-map f m)
