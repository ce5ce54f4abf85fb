-- ===== src/Registry/Sorted.antt =====
-- Lists of tools in strict order of their names.
use envoy_mcp_openapi_proces.Common.{
  All, Bool, Bool-cases, Bytes, List, [], any, arith, equal, equal_iff, false, if◌then◌else◌, inl,
  inr, length, ltb, refl, suc, true, zero, ℕ, ◌&&◌, ◌<◌, ◌||◌, ◌∷◌, ◌≡◌, ◌≤◌,
}
use envoy_mcp_openapi_proces.Registry.{Tool, insert_at, name_at}
use envoy_mcp_openapi_proces.Std.Order.{lt_bytes, lt_bytes_irrefl, lt_bytes_total, lt_bytes_trans}

abbrev pub NameBelow : Bytes → Tool → Type 0
NameBelow name t = lt_bytes name t.name ≡ true

abbrev pub IsSorted : List Tool → Type 0
IsSorted [] = Unit
IsSorted (t ∷ ts) = All (NameBelow t.name) ts × IsSorted ts

-- Where a name belongs: the number of tools in front whose names are smaller.
abbrev pub lower_bound : List Tool → Bytes → ℕ
lower_bound [] name = 0
lower_bound (t ∷ ts) name = if lt_bytes t.name name then suc (lower_bound ts name) else 0

abbrev pub has_tool : List Tool → Bytes → Bool
has_tool ts name = any (λ t. equal t.name name) ts

pub lower_bound-le : (ts : List Tool) (name : Bytes) → lower_bound ts name ≤ length ts
lower_bound-le [] name = omega arith
lower_bound-le (t ∷ ts) name = ground (arith, lower_bound-le ts name)

-- No tool of a tail is smaller than what is above its head.
above_not_lt :
    (ts : List Tool) (low name : Bytes) (k : ℕ)
    → All (NameBelow low) ts
    → lt_bytes low name ≡ false
    → k < length ts
    → lt_bytes (name_at ts k) name ≡ false
above_not_lt [] low name k h g b = absurd (omega arith)
above_not_lt (t ∷ ts) low name zero h g b = ground (arith, lt_bytes_trans low t.name name)
above_not_lt (t ∷ ts) low name (suc k) h g b = above_not_lt ts low name k h.1 g (omega arith)

-- In a sorted list the smaller names are those before that place.
pub lt-name_at :
    (ts : List Tool) (name : Bytes) (k : ℕ)
    → IsSorted ts
    → k < length ts
    → lt_bytes (name_at ts k) name ≡ ltb k (lower_bound ts name)
lt-name_at [] name k s b = absurd (omega arith)
lt-name_at (t ∷ ts) name zero s b = ground arith
lt-name_at (t ∷ ts) name (suc k) s b =
    ground (arith, lt-name_at ts name k s.1, above_not_lt ts t.name name k s.0)

above_has_not :
    (ts : List Tool) (low name : Bytes)
    → All (NameBelow low) ts
    → lt_bytes low name ≡ false
    → has_tool ts name ≡ false
above_has_not [] low name h g = refl
above_has_not (t ∷ ts) low name h g =
    ground (arith, above_has_not ts low name h.1 g, equal_iff t.name name)

-- A name stands in a sorted list only at its place.
pub has_tool_at :
    (ts : List Tool) (name : Bytes)
    → IsSorted ts
    → (ltb (lower_bound ts name) (length ts) && equal (name_at ts (lower_bound ts name)) name)
      ≡ has_tool ts name
has_tool_at [] name s = refl
has_tool_at (t ∷ ts) name s = elim (Bool-cases (lt_bytes t.name name)) [
  | inl smaller ↦
      ground (arith, has_tool_at ts name s.1, equal_iff t.name name, lt_bytes_irrefl name)
  | inr other ↦ ground (arith, above_has_not ts t.name name s.0 other)
]

above_insert :
    (ts : List Tool) (low : Bytes) (x : Tool) (i : ℕ)
    → All (NameBelow low) ts
    → NameBelow low x
    → All (NameBelow low) (insert_at i x ts)
above_insert ts low x zero h b = (b, h)
above_insert [] low x (suc i) h b = (b, tt)
above_insert (t ∷ ts) low x (suc i) h b = (h.0, above_insert ts low x i h.1 b)

above_trans :
    (ts : List Tool) (low high : Bytes)
    → lt_bytes low high ≡ true
    → All (NameBelow high) ts
    → All (NameBelow low) ts
above_trans [] low high h a = tt
above_trans (t ∷ ts) low high h a =
    (lt_bytes_trans low high t.name h a.0, above_trans ts low high h a.1)

-- Inserting a new name at its place keeps the order.
pub insert_at-IsSorted :
    (ts : List Tool) (x : Tool)
    → IsSorted ts
    → has_tool ts x.name ≡ false
    → IsSorted (insert_at (lower_bound ts x.name) x ts)
insert_at-IsSorted [] x s new = (tt, tt)
insert_at-IsSorted (t ∷ ts) x s new = elim (Bool-cases (lt_bytes t.name x.name)) [
  | inl smaller ↦ rw smaller (
    above_insert ts t.name x (lower_bound ts x.name) s.0 smaller,
    insert_at-IsSorted ts x s.1 (ground arith),
  )
  | inr other ↦
      let above : lt_bytes x.name t.name ≡ true =
        lt_bytes_total t.name x.name other (ground arith) in
      rw other ((above, above_trans ts x.name t.name above s.0), s)
]

pub has_tool-insert_at :
    (ts : List Tool) (x : Tool) (i : ℕ) (name : Bytes)
    → has_tool (insert_at i x ts) name ≡ (equal x.name name || has_tool ts name)
has_tool-insert_at ts x zero name = refl
has_tool-insert_at [] x (suc i) name = refl
has_tool-insert_at (t ∷ ts) x (suc i) name = ground (arith, has_tool-insert_at ts x i name)
