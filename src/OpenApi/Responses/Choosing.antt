-- ===== src/OpenApi/Responses/Choosing.antt =====
-- Which schema is chosen.
use envoy_mcp_openapi_proces.Common.{
  All, Any, Bool-cases, Bytes, List, Option, Option-cases, [], ap, arith, equal, false, here, inl,
  inr, is_some, leb, lookup, min, none, refl, some, subst, sym, there, true, ℕ, ◌==◌, ◌∙◌, ◌∷◌, ◌≡◌,
  ◌≤◌, ◌⊎◌,
}
use envoy_mcp_openapi_proces.Common.Text.{codes}
use envoy_mcp_openapi_proces.OpenApi.Document.{Address, Content}
use envoy_mcp_openapi_proces.OpenApi.Responses.{
  Candidates, best_schema, find_json_schema_from_responses, least, schema_of_code, start_candidates,
  success_code,
}
use envoy_mcp_openapi_proces.OpenApi.Responses.Collecting.{
  IsCollected, add_code, add_schema, codes_of, consider_all-offers, consider_offers-IsCollected,
  first_other, offers, or_else, schemas_onto,
}

-- The choice among them: of the responses with a code from 200 to 299 one with the lowest; without
-- such, the default response; without that, the first of the others.
pub data Chooses (os : List (Bytes × Address)) : Option Address → Type 0 where
  lowest :
      (n : ℕ) (s : Address)
      → Any (λ o. (success_code o.0 ≡ some n) × (o.1 ≡ s)) os
      → All (λ o. (m : ℕ) → success_code o.0 ≡ some m → n ≤ m) os
      → Chooses os (some s)
  default_response :
      (s : Address)
      → All (λ o. success_code o.0 ≡ none) os
      → lookup (codes "default") os ≡ some s
      → Chooses os (some s)
  first_response :
      (status : Bytes) (s : Address) (more : List (Bytes × Address))
      → All (λ o. success_code o.0 ≡ none) os
      → lookup (codes "default") os ≡ none
      → os ≡ (status, s) ∷ more
      → Chooses os (some s)
  no_response : os ≡ [] → Chooses os none

-- The lowest code.
least-bounds : (n : ℕ) (ns : List ℕ) → (least n ns ≤ n) × All (λ m. least n ns ≤ m) ns
least-bounds n [] = (omega arith, tt)
least-bounds n (m ∷ ms) =
    let (low, all_low) = least-bounds (min n m) ms in (omega arith, (omega arith, all_low))

least-mem : (n : ℕ) (ns : List ℕ) → Any (λ m. m ≡ least n ns) (n ∷ ns)
least-mem n [] = here refl
least-mem n (m ∷ ms) = elim (least-mem (min n m) ms) [
  | here e ↦ elim (Bool-cases (leb n m)) [
    | inl low ↦ here (ground arith)
    | inr high ↦ there (here (ground arith))
  ]
  | there later ↦ there (there later)
]

All-of_codes :
    (k : ℕ) (os : List (Bytes × Address))
    → All (λ m. k ≤ m) (codes_of os)
    → All (λ o. (m : ℕ) → success_code o.0 ≡ some m → k ≤ m) os
All-of_codes k [] h = tt
All-of_codes k ((status, schema) ∷ os) h = elim (Option-cases (success_code status)) [
  | inl no_code ↦ ((λ m e. cc (no_code, e)), All-of_codes k os (rw (no_code, add_code) at h))
  | inr (n, code) ↦
      let (low, rest) = rw (code, add_code) at h in
      ((λ m e. let same : n ≡ m = cc (code, e) in omega arith), All-of_codes k os rest)
]

none_of_codes :
    (os : List (Bytes × Address)) → codes_of os ≡ [] → All (λ o. success_code o.0 ≡ none) os
none_of_codes [] h = tt
none_of_codes ((status, schema) ∷ os) h = elim (Option-cases (success_code status)) [
  | inl no_code ↦ (no_code, none_of_codes os (rw (no_code, add_code) at h))
  | inr (n, code) ↦ cc (rw (code, add_code) at h)
]

-- Where a noted schema comes from.
schemas_onto_sound :
    (k : ℕ) (s : Address) (acc : List (ℕ × Address)) (os : List (Bytes × Address))
    → schema_of_code k (schemas_onto acc os) ≡ some s
    → (schema_of_code k acc ≡ some s) ⊎ Any (λ o. (success_code o.0 ≡ some k) × (o.1 ≡ s)) os
unfolding schema_of_code
schemas_onto_sound k s acc [] h = inl h
schemas_onto_sound k s acc ((status, schema) ∷ os) h = elim (Option-cases (success_code status)) [
  | inl no_code ↦ elim (schemas_onto_sound k s acc os (rw (no_code, add_schema) at h)) [
    | inl noted ↦ inl noted
    | inr later ↦ inr (there later)
  ]
  | inr (n, code) ↦
      elim (schemas_onto_sound k s ((n, schema) ∷ acc) os (rw (code, add_schema) at h)) [
        | inr later ↦ inr (there later)
        | inl noted ↦ elim (Bool-cases (n == k)) [
          | inl same ↦ let e : n ≡ k = ground arith in inr (here (code ∙ ap some e, ground arith))
          | inr other ↦ inl (ground arith)
        ]
      ]
]

-- Every code that was met has a schema.
schemas_onto_complete :
    (k : ℕ) (acc : List (ℕ × Address)) (os : List (Bytes × Address))
    → Any (λ m. m ≡ k) (codes_of os) ⊎ (is_some (schema_of_code k acc) ≡ true)
    → is_some (schema_of_code k (schemas_onto acc os)) ≡ true
unfolding schema_of_code
schemas_onto_complete k acc [] (inr noted) = noted
schemas_onto_complete k acc [] (inl m) = elim m [ ]
schemas_onto_complete k acc ((status, schema) ∷ os) h = elim (Option-cases (success_code status)) [
  | inl no_code ↦
      rw (no_code, add_schema) (schemas_onto_complete k acc os (rw (no_code, add_code) at h))
  | inr (n, code) ↦
      rw (code, add_schema)
        (schemas_onto_complete k ((n, schema) ∷ acc) os (next n (rw (code, add_code) at h)))
]
  where
    next :
        (n : ℕ)
        → Any (λ m. m ≡ k) (n ∷ codes_of os) ⊎ (is_some (schema_of_code k acc) ≡ true)
        → Any (λ m. m ≡ k) (codes_of os) ⊎ (is_some (schema_of_code k ((n, schema) ∷ acc)) ≡ true)
    next n (inl (here e)) = inr (ground arith)
    next n (inl (there later)) = inl later
    next n (inr noted) = inr (ground arith)

first_other-Chooses :
    (os : List (Bytes × Address))
    → codes_of os ≡ []
    → lookup (codes "default") os ≡ none
    → Chooses os (first_other os)
unfolding lookup
first_other-Chooses [] no_codes no_default = no_response refl
first_other-Chooses ((status, schema) ∷ os) no_codes no_default =
    let all_none = none_of_codes ((status, schema) ∷ os) no_codes in
    let other : equal status (codes "default") ≡ false = ground arith in
    subst (Chooses ((status, schema) ∷ os)) (sym (rw (other, all_none.0) refl))
      (first_response status schema os all_none no_default refl)

module _ (c : Candidates) (os : List (Bytes × Address))
    (col : IsCollected start_candidates os c) where
  best_schema-Chooses : (ns : List ℕ) → codes_of os ≡ ns → Chooses os (best_schema c)
  unfolding best_schema
  best_schema-Chooses [] no_codes = elim (Option-cases (lookup (codes "default") os)) [
    | inr (s, default) ↦
        rw (col.found_codes, no_codes)
          (rw (col.found_default, default, or_else)
            (default_response s (none_of_codes os no_codes) default))
    | inl no_default ↦
        rw (col.found_codes, no_codes)
          (rw (col.found_default, no_default, or_else)
            (rw (col.found_any) (first_other-Chooses os no_codes no_default)))
  ]
  best_schema-Chooses (n ∷ ns) met =
      let k = least n ns in
      let has = schemas_onto_complete k [] os (inl (rw met (least-mem n ns))) in
      elim (Option-cases (schema_of_code k (schemas_onto [] os))) [
        | inl missing ↦ cc (missing, has)
        | inr (s, noted) ↦ elim (schemas_onto_sound k s [] os noted) [
          | inl h ↦ absurd (unfold schema_of_code in cc h)
          | inr offered ↦
              rw (col.found_codes, met)
                (rw (col.found_schemas)
                  (rw noted (lowest k s offered (All-of_codes k os (rw met (least-bounds n ns))))))
        ]
      ]

-- The schema of a tool's output is chosen by the rule: among the responses with a JSON schema one
-- with the lowest code from 200 to 299, without such a code the default response, without that the
-- first of the others, and nothing if there is none.
pub find_json_schema_from_responses-Chooses :
    (responses : List (Bytes × Option Content))
    → Chooses (offers responses) (find_json_schema_from_responses responses)
unfolding find_json_schema_from_responses
find_json_schema_from_responses-Chooses responses =
    rw (consider_all-offers start_candidates responses) (
      best_schema-Chooses _ (offers responses)
        (consider_offers-IsCollected start_candidates (offers responses)) _ refl)
