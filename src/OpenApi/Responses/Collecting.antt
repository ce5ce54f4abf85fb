-- ===== src/OpenApi/Responses/Collecting.antt =====
-- The variables of `findJSONSchemaFromResponses` after its loop.
use envoy_mcp_openapi_proces.Common.{
  Bool, Bytes, List, Option, Option-cases, [], ap, append-nil, append_assoc, arith, equal,
  equal_iff, if◌then◌else◌, inl, inr, is_some, lookup, none, not, refl, some, sym, true, ℕ, ◌&&◌,
  ◌++◌, ◌∙◌, ◌∷◌, ◌≡◌,
}
use envoy_mcp_openapi_proces.Common.Text.{codes}
use envoy_mcp_openapi_proces.OpenApi.Document.{Address, Content}
use envoy_mcp_openapi_proces.OpenApi.Responses.{
  Candidates, consider, consider_all, find_json_schema_in_response, keep_first, success_code,
}
use envoy_mcp_openapi_proces.Std.Decimal.{atoi, digits_value, signed_value}

-- The responses that have a JSON schema, with it.
abbrev pub offer : Bytes → Option Address → List (Bytes × Address) → List (Bytes × Address)
offer status none os = os
offer status (some schema) os = (status, schema) ∷ os

abbrev pub offers : List (Bytes × Option Content) → List (Bytes × Address)
offers [] = []
offers ((status, none) ∷ more) = offers more
offers ((status, some content) ∷ more) =
    offer status (find_json_schema_in_response content) (offers more)

abbrev pub consider_offers : Candidates → List (Bytes × Address) → Candidates
consider_offers c [] = c
consider_offers c ((status, schema) ∷ os) = consider_offers (consider c status schema) os

pub consider_all-offers :
    (c : Candidates) (responses : List (Bytes × Option Content))
    → consider_all c responses ≡ consider_offers c (offers responses)
unfolding consider_all
consider_all-offers c [] = refl
consider_all-offers c ((status, none) ∷ more) = consider_all-offers c more
consider_all-offers c ((status, some content) ∷ more) =
    elim (Option-cases (find_json_schema_in_response content)) [
      | inl without ↦ rw (without, offer) (consider_all-offers c more)
      | inr (schema, has) ↦ rw (has, offer) (consider_all-offers (consider c status schema) more)
    ]

abbrev pub add_code : Option ℕ → List ℕ → List ℕ
add_code none ns = ns
add_code (some n) ns = n ∷ ns

abbrev pub codes_of : List (Bytes × Address) → List ℕ
codes_of [] = []
codes_of ((status, schema) ∷ os) = add_code (success_code status) (codes_of os)

abbrev pub add_schema : Option ℕ → Address → List (ℕ × Address) → List (ℕ × Address)
add_schema none schema acc = acc
add_schema (some n) schema acc = (n, schema) ∷ acc

abbrev pub schemas_onto : List (ℕ × Address) → List (Bytes × Address) → List (ℕ × Address)
schemas_onto acc [] = acc
schemas_onto acc ((status, schema) ∷ os) =
    schemas_onto (add_schema (success_code status) schema acc) os

abbrev pub is_other : Bytes → Bool
is_other status = not (equal status (codes "default")) && not (is_some (success_code status))

abbrev pub first_other : List (Bytes × Address) → Option Address
first_other [] = none
first_other ((status, schema) ∷ os) = if is_other status then some schema else first_other os

abbrev pub or_else : Option Address → Option Address → Option Address
or_else (some s) other = some s
or_else none other = other

or_else-none : (o : Option Address) → o ≡ or_else o none
or_else-none none = refl
or_else-none (some s) = refl

pub default_no_code :
    (status : Bytes) → equal status (codes "default") ≡ true → success_code status ≡ none
unfolding success_code atoi signed_value digits_value
default_no_code status e = ap success_code ((equal_iff status (codes "default")).0 e)

-- The variables after the loop.
pub record IsCollected (c : Candidates) (os : List (Bytes × Address)) (out : Candidates)
    : Type 0 where
  pub found_codes : out.candidate_codes ≡ c.candidate_codes ++ codes_of os
  pub found_schemas : out.candidate_schemas ≡ schemas_onto c.candidate_schemas os
  pub found_default : out.default_schema ≡ or_else c.default_schema (lookup (codes "default") os)
  pub found_any : out.any_schema ≡ or_else c.any_schema (first_other os)

or_else-keep_first :
    (o : Option Address) (s : Address) (other : Option Address)
    → or_else (keep_first o s) other ≡ or_else o (some s)
or_else-keep_first none s other = refl
or_else-keep_first (some t) s other = refl

consider-IsCollected :
    (c : Candidates) (status : Bytes) (schema : Address)
    → IsCollected c ((status, schema) ∷ []) (consider c status schema)
unfolding consider lookup
consider-IsCollected c status schema = ground (
  arith,
  append-nil c.candidate_codes,
  default_no_code status,
  or_else-none c.default_schema,
  or_else-none c.any_schema,
)

first_other-cons :
    (status : Bytes) (schema : Address) (os : List (Bytes × Address))
    → first_other ((status, schema) ∷ os)
      ≡ or_else (first_other ((status, schema) ∷ [])) (first_other os)
first_other-cons status schema os = ground arith

lookup-cons :
    (status : Bytes) (schema : Address) (os : List (Bytes × Address))
    → lookup (codes "default") ((status, schema) ∷ os)
      ≡ or_else (lookup (codes "default") ((status, schema) ∷ [])) (lookup (codes "default") os)
unfolding lookup
lookup-cons status schema os = ground arith

codes_of-cons :
    (status : Bytes) (schema : Address) (os : List (Bytes × Address))
    → codes_of ((status, schema) ∷ os) ≡ codes_of ((status, schema) ∷ []) ++ codes_of os
codes_of-cons status schema os = ground arith

or_else_assoc : (a b c : Option Address) → or_else (or_else a b) c ≡ or_else a (or_else b c)
or_else_assoc none b c = refl
or_else_assoc (some s) b c = refl

pub consider_offers-IsCollected :
    (c : Candidates) (os : List (Bytes × Address)) → IsCollected c os (consider_offers c os)
unfolding lookup
consider_offers-IsCollected c [] = record {
  found_codes = sym (append-nil c.candidate_codes);
  found_schemas = refl;
  found_default = or_else-none c.default_schema;
  found_any = or_else-none c.any_schema;
}
consider_offers-IsCollected c ((status, schema) ∷ os) =
    let first = consider-IsCollected c status schema in
    let rest = consider_offers-IsCollected (consider c status schema) os in
    record {
      found_codes =
          rest.found_codes ∙ rw (first.found_codes, codes_of-cons status schema os, append_assoc);
      found_schemas = rest.found_schemas ∙ ap (λ acc. schemas_onto acc os) first.found_schemas;
      found_default =
          rest.found_default
          ∙ ap (λ o. or_else o (lookup (codes "default") os)) first.found_default
          ∙ or_else_assoc c.default_schema (lookup (codes "default") ((status, schema) ∷ []))
              (lookup (codes "default") os)
          ∙ ap (or_else c.default_schema) (sym (lookup-cons status schema os));
      found_any =
          rest.found_any
          ∙ ap (λ o. or_else o (first_other os)) first.found_any
          ∙ or_else_assoc c.any_schema (first_other ((status, schema) ∷ [])) (first_other os)
          ∙ ap (or_else c.any_schema) (sym (first_other-cons status schema os));
    }
