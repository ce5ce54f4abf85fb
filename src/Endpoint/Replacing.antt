-- ===== src/Endpoint/Replacing.antt =====
-- Filling a placeholder of a path template.
use envoy_mcp_openapi_proces.Common.{
  All, Bool-cases, Bytes, List, [], ap, append_assoc, arith, equal, equal_iff, equal_refl, false,
  if◌then◌else◌, inl, inr, length, refl, subst, suc, sym, ℕ, ◌++◌, ◌-◌, ◌||◌, ◌∙◌, ◌∷◌, ◌≡◌,
}
use envoy_mcp_openapi_proces.Common.Text.{codes, contains_byte, has_prefix}
use envoy_mcp_openapi_proces.Endpoint.{
  EndpointRequest, apply_path, placeholder, replace_all, replace_from,
}

-- A template, piece by piece.
pub data Piece : Type 0 where
  literal : Bytes → Piece
  variable : Bytes → Piece

abbrev pub render : List Piece → Bytes
render [] = []
render (literal s ∷ ps) = s ++ render ps
render (variable name ∷ ps) = placeholder name ++ render ps

abbrev pub fill : (name value : Bytes) → List Piece → List Piece
fill name value [] = []
fill name value (literal s ∷ ps) = literal s ∷ fill name value ps
fill name value (variable n ∷ ps) =
    (if equal n name then literal value else variable n) ∷ fill name value ps

-- No opening brace in a literal, and no closing one either in a name.
abbrev pub IsClean : Piece → Type 0
IsClean (literal s) = contains_byte b'{' s ≡ false
IsClean (variable n) = (contains_byte b'{' n ≡ false) × (contains_byte b'}' n ≡ false)

module _ (name value : Bytes) where
  abbrev from : ℕ → Bytes → Bytes
  from = replace_from (placeholder name) value

  replace_from_plain :
      (s rest : Bytes) → contains_byte b'{' s ≡ false → from 0 (s ++ rest) ≡ s ++ from 0 rest
  unfolding replace_from has_prefix contains_byte
  replace_from_plain [] rest h = refl
  replace_from_plain (c ∷ s) rest h = ground (arith, replace_from_plain s rest)

  replace_from_skip : (s rest : Bytes) → from (length s) (s ++ rest) ≡ from 0 rest
  unfolding replace_from
  replace_from_skip [] rest = refl
  replace_from_skip (c ∷ s) rest = replace_from_skip s rest

has_prefix_closed :
    (m n rest : Bytes)
    → contains_byte b'}' m ≡ false
    → contains_byte b'}' n ≡ false
    → has_prefix (m ++ (b'}' ∷ rest)) (n ++ (b'}' ∷ [])) ≡ equal m n
unfolding has_prefix contains_byte equal
has_prefix_closed [] [] rest h k = ground arith
has_prefix_closed [] (d ∷ n) rest h k = ground arith
has_prefix_closed (c ∷ m) [] rest h k = ground arith
has_prefix_closed (c ∷ m) (d ∷ n) rest h k = ground (arith, has_prefix_closed m n rest)

contains_byte-append :
    (b : ℕ) (s t : Bytes) → contains_byte b (s ++ t) ≡ (contains_byte b s || contains_byte b t)
unfolding contains_byte
contains_byte-append b [] t = refl
contains_byte-append b (c ∷ s) t = ground (arith, contains_byte-append b s t)

-- The place of a variable starts with a placeholder exactly if it is that variable's.
has_prefix-placeholder :
    (n name rest : Bytes)
    → contains_byte b'}' n ≡ false
    → contains_byte b'}' name ≡ false
    → has_prefix (placeholder n ++ rest) (placeholder name) ≡ equal n name
has_prefix-placeholder n name rest h k =
    rw (append_assoc n (codes "}") rest) (unfold has_prefix in has_prefix_closed n name rest h k)

module _ (name value : Bytes) (closed : contains_byte b'}' name ≡ false) where
  replace_from_same :
      (rest : Bytes)
      → from name value 0 (placeholder name ++ rest) ≡ value ++ from name value 0 rest
  unfolding replace_from
  replace_from_same rest = rw (has_prefix-placeholder name name rest closed closed) (
      rw (equal_refl name) (
        let count : suc (length (name ++ codes "}")) - 1 ≡ length (name ++ codes "}") =
          omega arith in
        rw count
          (ap (λ (t : Bytes). value ++ t) (replace_from_skip name value (name ++ codes "}") rest))))

  replace_from_variable :
      (n rest : Bytes)
      → contains_byte b'{' n ≡ false
      → contains_byte b'}' n ≡ false
      → from name value 0 (placeholder n ++ rest)
        ≡ (if equal n name then value else placeholder n) ++ from name value 0 rest
  replace_from_variable n rest open_free close_free = elim (Bool-cases (equal n name)) [
    | inl same ↦ rw same (
        subst (λ m. from name value 0 (placeholder m ++ rest) ≡ value ++ from name value 0 rest)
          (sym ((equal_iff n name).0 same)) (replace_from_same rest))
    | inr other ↦
        let no_brace : contains_byte b'{' (n ++ codes "}") ≡ false =
          contains_byte-append b'{' n (codes "}") ∙ rw open_free (unfold contains_byte in refl) in
        rw other (
          unfold replace_from in
          rw (has_prefix-placeholder n name rest close_free closed) (
            rw other
              (ap (◌∷◌ b'{') (replace_from_plain name value (n ++ codes "}") rest no_brace))))
  ]

  replace_from-render :
      (ps : List Piece)
      → All IsClean ps
      → from name value 0 (render ps) ≡ render (fill name value ps)
  replace_from-render [] h = unfold replace_from in refl
  replace_from-render (literal s ∷ ps) h =
      replace_from_plain name value s (render ps) h.0
      ∙ ap (λ (t : Bytes). s ++ t) (replace_from-render ps h.1)
  replace_from-render (variable n ∷ ps) h =
      replace_from_variable n (render ps) h.0.0 h.0.1 ∙ elim (Bool-cases (equal n name)) [
        | inl same ↦ rw same (ap (λ (t : Bytes). value ++ t) (replace_from-render ps h.1))
        | inr other ↦ rw other (ap (λ (t : Bytes). placeholder n ++ t) (replace_from-render ps h.1))
      ]

-- Applying a path argument to a template puts the value, whatever it is, at every place of the
-- parameter, and leaves the literals and the places of the other parameters as they are. The
-- template's literals hold no opening brace, and no name in it a brace.
pub apply_path-render :
    (r : EndpointRequest) (ps : List Piece) (name value : Bytes)
    → r.path ≡ render ps
    → All IsClean ps
    → contains_byte b'}' name ≡ false
    → apply_path r name value ≡ record r { path = render (fill name value ps) }
unfolding apply_path replace_all
apply_path-render r ps name value e clean closed =
    let filled = replace_from-render name value closed ps clean in ground (arith, filled, e)
