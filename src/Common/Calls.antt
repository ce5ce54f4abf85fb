-- ===== src/Common/Calls.antt =====
-- Calls that may panic, and that run on fuel.
use Prim.Native.Nat.{ℕ, ◌+◌, ◌≤◌}
use mathlib.Core.Path.{◌≡◌, refl}
use native.Mathlib.Omega.{arith}

-- `unfinished` is the end of the fuel: the call has not returned by then.
pub data Call (A : Type 0) : Type 0 where
  returned : A → Call A
  panicked : Call A
  unfinished : Call A

infixl 5 ◌>>=◌
abbrev pub ◌>>=◌ : {A B : Type 0} → Call A → (A → Call B) → Call B
returned a >>= f = f a
panicked >>= f = panicked
unfinished >>= f = unfinished

-- A chain of calls returns only if each does.
pub >>=-eq-returned :
    {A B : Type 0} (m : Call A) (f : A → Call B) {b : B}
    → (m >>= f) ≡ returned b
    → (a : A) × (m ≡ returned a) × (f a ≡ returned b)
>>=-eq-returned (returned a) f h = (a, refl, h)
>>=-eq-returned panicked f h = cc
>>=-eq-returned unfinished f h = cc

pub returned-injective : {A : Type 0} {a b : A} → returned a ≡ returned b → a ≡ b
returned-injective h = cc

pub >>=-assoc :
    {A B C : Type 0} (m : Call A) (f : A → Call B) (g : B → Call C)
    → (m >>= f >>= g) ≡ (m >>= λ a. f a >>= g)
>>=-assoc (returned a) f g = refl
>>=-assoc panicked f g = refl
>>=-assoc unfinished f g = refl

-- The call returns, with the same result whatever the fuel, from some amount up.
pub record Returns {A : Type 0} (call : ℕ → Call A) : Type 0 where
  pub enough : ℕ
  pub result_of : A
  pub returns : (fuel : ℕ) → enough ≤ fuel → call fuel ≡ returned result_of

pub at_once : {A : Type 0} (a : A) → Returns (λ fuel. returned a)
at_once a = record { enough = 0; result_of = a; returns = λ fuel h. refl }

pub Returns-chain :
    {A B : Type 0} {call : ℕ → Call A} {next : ℕ → A → Call B}
    → Returns call
    → ((a : A) → Returns (λ fuel. next fuel a))
    → Returns (λ fuel. call fuel >>= next fuel)
Returns-chain first rest =
    let second = rest first.result_of in
    record {
      enough = first.enough + second.enough;
      result_of = second.result_of;
      returns = λ fuel h. rw (first.returns fuel (omega arith)) (second.returns fuel (omega arith));
    }
