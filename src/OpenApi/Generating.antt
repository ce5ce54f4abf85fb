-- ===== src/OpenApi/Generating.antt =====
-- What a generated tool accepts.
use envoy_mcp_openapi_proces.Common.{
  >>=-eq-returned, All, Bool-cases, Bytes, List, Option, [], ap, append-nil, append_assoc, arith,
  equal, equal_iff, false, if◌then◌else◌, inl, inr, insert, is_empty, lookup, lookup-insert, none,
  refl, returned, some, subst, sym, true, ℕ, ◌++◌, ◌↔◌, ◌∙◌, ◌∷◌, ◌≡◌, ◌≢◌,
}
use envoy_mcp_openapi_proces.Common.Text.{codes}
use envoy_mcp_openapi_proces.Endpoint.{param_in_of, required_of}
use envoy_mcp_openapi_proces.Endpoint.Building.{Acceptable, Fits, Served-Acceptable}
use envoy_mcp_openapi_proces.Json.{Json, array, fields, null, object, to_fields}
use envoy_mcp_openapi_proces.OpenApi.Document.{Heap, Parameter, RequestBody}
use envoy_mcp_openapi_proces.OpenApi.Schemas.{Map, texts}
use envoy_mcp_openapi_proces.OpenApi.Tools.{
  Inputs, add_input, add_inputs, endpoint_param, input_schema, open_api_parameter_to_schema,
}

-- The parameters that are there.
abbrev pub present : List (Option Parameter) → List Parameter
present [] = []
present (none ∷ more) = present more
present (some p ∷ more) = p ∷ present more

abbrev pub DistinctNames : List Parameter → Type 0
DistinctNames [] = Unit
DistinctNames (p ∷ ps) = All (λ q. p.name ≢ q.name) ps × DistinctNames ps

abbrev pub endpoint_entries : List Parameter → Map
endpoint_entries [] = []
endpoint_entries (p ∷ ps) = (p.name, endpoint_param p) ∷ endpoint_entries ps

abbrev pub required_names : List Parameter → List Bytes
required_names [] = []
required_names (p ∷ ps) = if p.required then p.name ∷ required_names ps else required_names ps

-- A required parameter has an argument, and an argument fits the place of its parameter.
abbrev pub Serves : List (Bytes × Json) → Parameter → Type 0
Serves arguments p =
    (lookup p.name arguments ≡ none → p.required ≡ false)
    × ((v : Json) → lookup p.name arguments ≡ some v → Fits p.param_in v)

insert_fresh :
    (key : Bytes) (v : Json) (m : Map) → lookup key m ≡ none → insert key v m ≡ m ++ (key, v) ∷ []
unfolding lookup insert
insert_fresh key v [] h = refl
insert_fresh key v ((j, w) ∷ m) h = ground (arith, insert_fresh key v m)

-- No parameter of the list is noted yet.
abbrev pub Fresh : Map → List Parameter → Type 0
Fresh m ps = All (λ p. lookup p.name m ≡ none) ps

Fresh-insert :
    (p : Parameter) (v : Json) (m : Map) (ps : List Parameter)
    → All (λ q. p.name ≢ q.name) ps
    → Fresh m ps
    → Fresh (insert p.name v m) ps
Fresh-insert p v m [] distinct fresh = tt
Fresh-insert p v m (q ∷ ps) distinct fresh = (
  ground (arith, lookup-insert p.name q.name v m, equal_iff p.name q.name),
  Fresh-insert p v m ps distinct.1 fresh.1,
)

-- The variables after the loop over the parameters.
pub record IsFilled (ps : List Parameter) (before after : Inputs) : Type 0 where
  pub params : after.endpoint_params ≡ before.endpoint_params ++ endpoint_entries ps
  pub required : after.required_fields ≡ before.required_fields ++ required_names ps

noted :
    (p : Parameter) (before : Inputs) (schema : Map) (names : List Bytes)
    → (add_input p before schema).required_fields ++ names
      ≡ before.required_fields ++ (if p.required then p.name ∷ names else names)
unfolding add_input
noted p before schema names = elim (Bool-cases p.required) [
  | inl needed ↦ rw needed (append_assoc before.required_fields _ names)
  | inr optional ↦ rw optional refl
]

noted_params :
    (p : Parameter) (before : Inputs) (schema : Map) (entries : Map)
    → lookup p.name before.endpoint_params ≡ none
    → (add_input p before schema).endpoint_params ++ entries
      ≡ before.endpoint_params ++ (p.name, endpoint_param p) ∷ entries
unfolding add_input
noted_params p before schema entries new =
    rw (insert_fresh p.name (endpoint_param p) before.endpoint_params new)
      (append_assoc before.endpoint_params _ entries)

pub add_inputs-IsFilled :
    (heap : Heap) (fuel : ℕ) (refs : List (Option Parameter)) (before after : Inputs)
    → DistinctNames (present refs)
    → Fresh before.endpoint_params (present refs)
    → add_inputs heap fuel refs before ≡ returned after
    → IsFilled (present refs) before after
unfolding add_inputs
add_inputs-IsFilled heap fuel [] before after distinct fresh h =
    let same : before ≡ after = cc in
    record {
      params = ap (λ st. st.endpoint_params) (sym same) ∙ sym (append-nil _);
      required = ap (λ st. st.required_fields) (sym same) ∙ sym (append-nil _);
    }
add_inputs-IsFilled heap fuel (none ∷ more) before after distinct fresh h = cc
add_inputs-IsFilled heap fuel (some p ∷ more) before after distinct fresh h =
    let (schema, converted, rest) =
      >>=-eq-returned (open_api_parameter_to_schema heap fuel p) _ h in
    let filled =
      add_inputs-IsFilled heap fuel more (add_input p before schema) after distinct.1
        (unfold add_input in
          Fresh-insert p (endpoint_param p) before.endpoint_params (present more) distinct.0
            fresh.1)
        rest in
    record {
      params =
          filled.params ∙ noted_params p before schema (endpoint_entries (present more)) fresh.0;
      required = filled.required ∙ noted p before schema (required_names (present more));
    }

pub endpoint_entries-Accepts :
    (arguments : Map) (ps : List Parameter)
    → All (λ e. Acceptable arguments e.0 e.1) (endpoint_entries ps) ↔ All (Serves arguments) ps
unfolding required_of param_in_of lookup equal fields
endpoint_entries-Accepts arguments [] = (λ h. tt, λ h. tt)
endpoint_entries-Accepts arguments (p ∷ ps) =
    let (sound, complete) = endpoint_entries-Accepts arguments ps in
    (λ h. (h.0 _ refl, sound h.1), λ h. (Served-Acceptable arguments p.name _ h.0, complete h.1))

pub is_empty-insert : (key : Bytes) (v : Json) (m : Map) → is_empty (insert key v m) ≡ false
unfolding insert
is_empty-insert key v [] = refl
is_empty-insert key v ((j, w) ∷ m) = ground arith

-- Nothing is required where there is no property.
abbrev pub IsClosed : Inputs → Type 0
IsClosed st = is_empty st.schema_props ≡ true → st.required_fields ≡ []

pub add_inputs-IsClosed :
    (heap : Heap) (fuel : ℕ) (refs : List (Option Parameter)) (before after : Inputs)
    → IsClosed before
    → add_inputs heap fuel refs before ≡ returned after
    → IsClosed after
unfolding add_inputs
add_inputs-IsClosed heap fuel [] before after nothing h =
    let same : before ≡ after = cc in subst IsClosed same nothing
add_inputs-IsClosed heap fuel (none ∷ more) before after nothing h = cc
add_inputs-IsClosed heap fuel (some p ∷ more) before after nothing h =
    let (schema, converted, rest) =
      >>=-eq-returned (open_api_parameter_to_schema heap fuel p) _ h in
    add_inputs-IsClosed heap fuel more (add_input p before schema) after
      (unfold add_input in
        λ none_there.
          absurd (
            cc
              (is_empty-insert p.name (object (to_fields schema)) before.schema_props, none_there)))
      rest

-- What a schema requires.
abbrev pub required_by : Json → Json
required_by (object fs) = elim (lookup (codes "required") (fields fs)) [
  | some names ↦ names
  | none ↦ array (texts [])
]
required_by _ = null

abbrev pub required_body : Option (Option RequestBody) → List Bytes
required_body (some (some body)) = if body.required then codes "body" ∷ [] else []
required_body _ = []

pub required_by-input_schema :
    (st : Inputs) → IsClosed st → required_by (input_schema st) ≡ array (texts st.required_fields)
unfolding input_schema lookup equal fields to_fields
required_by-input_schema st nothing = elim (Bool-cases (is_empty st.schema_props)) [
  | inl bare ↦ rw (bare, nothing bare)
  | inr filled ↦ rw filled
]
