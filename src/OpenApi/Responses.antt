-- ===== src/OpenApi/Responses.antt =====
-- openapi.go: the schema of a tool's output, chosen among the responses of an operation.
pub mod Collecting
pub mod Choosing
use envoy_mcp_openapi_proces.Common.{
  Bytes, List, Option, [], equal, if◌then◌else◌, leb, min, none, not, some, ℕ, ◌&&◌, ◌++◌, ◌==◌,
  ◌∷◌,
}
use envoy_mcp_openapi_proces.Common.Text.{codes, has_prefix}
use envoy_mcp_openapi_proces.OpenApi.Document.{Address, Content}
use envoy_mcp_openapi_proces.Std.Decimal.{atoi, negsuc, pos}

-- The variables of `findJSONSchemaFromResponses`. Of two schemas for one code the later one is
-- found first.
pub record Candidates : Type 0 where
  pub default_schema : Option Address
  pub any_schema : Option Address
  pub candidate_codes : List ℕ
  pub candidate_schemas : List (ℕ × Address)

-- `statusCode >= 200 && statusCode <= 299` of a status that is a number.
unfoldable pub success_code : Bytes → Option ℕ
success_code status = elim (atoi status) [
  | some (pos n) ↦ if leb 200 n && leb n 299 then some n else none
  | some (negsuc n) ↦ none
  | none ↦ none
]

abbrev pub least : ℕ → List ℕ → ℕ
least n [] = n
least n (m ∷ ms) = least (min n m) ms

unfoldable pub find_json_schema_in_response : Content → Option Address
find_json_schema_in_response [] = none
find_json_schema_in_response ((content_type, media) ∷ more) =
    let rest = find_json_schema_in_response more in
    if not (has_prefix content_type (codes "application/json"))
    then rest
    else elim media [ none ↦ rest | some none ↦ rest | some (some value) ↦ value ]

abbrev pub keep_first : Option Address → Address → Option Address
keep_first none schema = some schema
keep_first (some first) schema = some first

-- One round of the loop, for a response with a JSON schema.
unfoldable pub consider : Candidates → Bytes → Address → Candidates
consider c status schema =
    if equal status (codes "default")
    then record c { default_schema = keep_first c.default_schema schema }
    else elim (success_code status) [
      | some n ↦ record c {
        candidate_codes = c.candidate_codes ++ n ∷ [];
        candidate_schemas = (n, schema) ∷ c.candidate_schemas;
      }
      | none ↦ record c { any_schema = keep_first c.any_schema schema }
    ]

unfoldable pub consider_all : Candidates → List (Bytes × Option (Content)) → Candidates
consider_all c [] = c
consider_all c ((status, none) ∷ more) = consider_all c more
consider_all c ((status, some content) ∷ more) =
    consider_all
      (elim (find_json_schema_in_response content) [
        | none ↦ c
        | some schema ↦ consider c status schema
      ])
      more

unfoldable pub schema_of_code : ℕ → List (ℕ × Address) → Option Address
schema_of_code n [] = none
schema_of_code n ((m, schema) ∷ more) = if m == n then some schema else schema_of_code n more

unfoldable pub best_schema : Candidates → Option Address
best_schema c = elim c.candidate_codes [
  | n ∷ ns ↦ schema_of_code (least n ns) c.candidate_schemas
  | [] ↦ elim c.default_schema [ some schema ↦ some schema | none ↦ c.any_schema ]
]

abbrev pub start_candidates : Candidates
start_candidates = record {
  default_schema = none;
  any_schema = none;
  candidate_codes = [];
  candidate_schemas = [];
}

unfoldable pub find_json_schema_from_responses : List (Bytes × Option Content) → Option Address
find_json_schema_from_responses responses = best_schema (consider_all start_candidates responses)
