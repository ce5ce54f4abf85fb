-- ===== src/Endpoint/Building.antt =====
-- Which arguments make a request.
use mathlib.Core.Bool.{and-eq-true_iff}
use envoy_mcp_openapi_proces.Common.{
  All, Bool, Bool-cases, Bytes, List, Option-cases, Result, Result-cases, [], arith, equal,
  equal_iff, err, false, inl, inr, is_some, lookup, none, ok, refl, some, subst, sym, true, ◌&&◌,
  ◌↔◌, ◌∙◌, ◌∷◌, ◌≡◌, ◌≢◌,
}
use envoy_mcp_openapi_proces.Common.Text.{codes}
use envoy_mcp_openapi_proces.Endpoint.{
  EndpointRequest, apply_config, apply_endpoint_argument, apply_parameter, apply_parameters,
  element_values, json_scalar_to_string, new_endpoint_request, param_in_of, query_param_values,
  required_of, scalar_param_string, single_value,
}
use envoy_mcp_openapi_proces.Json.{
  Fields, Items, Json, array, boolean, fields, item, items, no_items, null, number, object, string,
}
use envoy_mcp_openapi_proces.Registry.{Endpoint}

pub data IsScalar : Json → Type 0 where
  a_text : (s : Bytes) → IsScalar (string s)
  a_number : (n : Bytes) → IsScalar (number n)
  a_truth : (b : Bool) → IsScalar (boolean b)

pub data FitsQuery : Json → Type 0 where
  one : {v : Json} → IsScalar v → FitsQuery v
  several : {vs : Items} → All IsScalar (items vs) → FitsQuery (array vs)

-- A value can be put where the parameter stands.
abbrev pub Fits : Bytes → Json → Type 0
Fits place v =
    (place ≡ codes "path" → IsScalar v)
    × (place ≡ codes "query" → FitsQuery v)
    × (place ≡ codes "header" → IsScalar v)

-- A required parameter has an argument, and an argument fits.
abbrev Served : List (Bytes × Json) → Bytes → Fields → Type 0
Served arguments name fs =
    (lookup name arguments ≡ none → required_of (fields fs) ≡ false)
    × ((v : Json) → lookup name arguments ≡ some v → Fits (param_in_of (fields fs)) v)

abbrev pub Acceptable : List (Bytes × Json) → Bytes → Json → Type 0
Acceptable arguments name config = (fs : Fields) → config ≡ object fs → Served arguments name fs

pub Served-Acceptable :
    (arguments : List (Bytes × Json)) (name : Bytes) (fs : Fields)
    → Served arguments name fs
    → Acceptable arguments name (object fs)
Served-Acceptable arguments name fs served gs same =
    let same_fs : fs ≡ gs = cc in subst (Served arguments name) same_fs served

abbrev pub is_ok {ℓ κ} : {E : Type ℓ} {A : Type κ} → Result E A → Bool
is_ok (ok a) = true
is_ok (err e) = false

IsScalar-sound : (v : Json) → is_some (json_scalar_to_string v) ≡ true → IsScalar v
unfolding json_scalar_to_string
IsScalar-sound (string s) h = a_text s
IsScalar-sound (number n) h = a_number n
IsScalar-sound (boolean b) h = a_truth b
IsScalar-sound null h = cc
IsScalar-sound (array vs) h = cc
IsScalar-sound (object fs) h = cc

several_elements : {vs : Items} → FitsQuery (array vs) → All IsScalar (items vs)
several_elements (several h) = h
several_elements (one scalar) = elim scalar [ ]

single-IsScalar : {v : Json} → FitsQuery v → ((vs : Items) → v ≢ array vs) → IsScalar v
single-IsScalar (one scalar) no_array = scalar
single-IsScalar (several {vs} h) no_array = absurd (no_array vs refl)

scalar_complete : {v : Json} → IsScalar v → is_some (json_scalar_to_string v) ≡ true
unfolding json_scalar_to_string
scalar_complete (a_text s) = refl
scalar_complete (a_number n) = refl
scalar_complete (a_truth true) = refl
scalar_complete (a_truth false) = refl

-- Both directions of a test, as one statement.
abbrev Decides : Bool → Type 0 → Type 0
Decides b P = (b ≡ true → P) × (P → b ≡ true)

IsScalar-decides : (v : Json) → Decides (is_some (json_scalar_to_string v)) (IsScalar v)
IsScalar-decides v = (IsScalar-sound v, scalar_complete)

scalar_param_ok :
    (place name : Bytes) (v : Json)
    → is_ok (scalar_param_string place name v) ≡ is_some (json_scalar_to_string v)
unfolding scalar_param_string
scalar_param_ok place name v = ground arith

element_values_ok :
    (name : Bytes) (v : Json) (vs : Items)
    → is_ok (element_values name (item v vs))
      ≡ (is_some (json_scalar_to_string v) && is_ok (element_values name vs))
unfolding element_values
element_values_ok name v vs = ground arith

element_values_decides :
    (name : Bytes) (vs : Items) → Decides (is_ok (element_values name vs)) (All IsScalar (items vs))
unfolding items
element_values_decides name no_items = (λ h. tt, λ h. unfold element_values in refl)
element_values_decides name (item v vs) =
    let (sound, complete) = element_values_decides name vs in
    (
      λ h.
          let (this, others) = (and-eq-true_iff _ _).0 (sym (element_values_ok name v vs) ∙ h) in
          (IsScalar-sound v this, sound others),
      λ p.
          element_values_ok name v vs ∙ (and-eq-true_iff _ _).1 (scalar_complete p.0, complete p.1),
    )

-- A value that is no array fits as one text.
single_decides :
    (name : Bytes) (v : Json)
    → query_param_values name v ≡ single_value name (json_scalar_to_string v)
    → ((vs : Items) → v ≢ array vs)
    → Decides (is_ok (query_param_values name v)) (FitsQuery v)
single_decides name v e no_array = (
  λ h. one (IsScalar-sound v (ground arith)),
  λ f. let text = scalar_complete (single-IsScalar f no_array) in ground arith,
)

query_decides :
    (name : Bytes) (v : Json) → Decides (is_ok (query_param_values name v)) (FitsQuery v)
unfolding query_param_values
query_decides name (array vs) =
    let (sound, complete) = element_values_decides name vs in
    (λ h. several (sound h), λ f. complete (several_elements f))
query_decides name (string s) = single_decides name (string s) refl (λ vs e. cc e)
query_decides name (number n) = single_decides name (number n) refl (λ vs e. cc e)
query_decides name (boolean b) = single_decides name (boolean b) refl (λ vs e. cc e)
query_decides name null = single_decides name null refl (λ vs e. cc e)
query_decides name (object fs) = single_decides name (object fs) refl (λ vs e. cc e)

module _ (r : EndpointRequest) (name : Bytes) (v : Json) where
  argument_sound :
      (place : Bytes) → is_ok (apply_endpoint_argument r place name v) ≡ true → Fits place v
  unfolding apply_endpoint_argument
  argument_sound place h = (
    λ e.
        IsScalar-sound v
          (ground (arith, equal_iff place (codes "path"), scalar_param_ok place name v)),
    λ e.
        (query_decides name v).0
          (ground (arith, equal_iff place (codes "path"), equal_iff place (codes "query"))),
    λ e. IsScalar-sound v (
        ground (
          arith,
          equal_iff place (codes "path"),
          equal_iff place (codes "query"),
          equal_iff place (codes "header"),
          scalar_param_ok place name v,
        )),
  )

  argument_complete :
      (place : Bytes) → Fits place v → is_ok (apply_endpoint_argument r place name v) ≡ true
  unfolding apply_endpoint_argument
  argument_complete place (path, query, header) = elim (Bool-cases (equal place (codes "path"))) [
    | inl in_path ↦
        let text = scalar_complete (path ((equal_iff _ _).0 in_path)) in
        ground (arith, scalar_param_ok place name v)
    | inr not_path ↦ elim (Bool-cases (equal place (codes "query"))) [
      | inl in_query ↦
          let values = (query_decides name v).1 (query ((equal_iff _ _).0 in_query)) in ground arith
      | inr not_query ↦ elim (Bool-cases (equal place (codes "header"))) [
        | inl in_header ↦
            let text = scalar_complete (header ((equal_iff _ _).0 in_header)) in
            ground (arith, scalar_param_ok place name v)
        | inr not_header ↦ ground arith
      ]
    ]
  ]

module _ (arguments : List (Bytes × Json)) (r : EndpointRequest) (name : Bytes) where
  parameter_sound :
      (fs : Fields)
      → is_ok (apply_parameter arguments r name (fields fs)) ≡ true
      → Acceptable arguments name (object fs)
  unfolding apply_parameter
  parameter_sound fs h = Served-Acceptable arguments name fs (
    λ missing. ground arith,
    λ v found. argument_sound r name v (param_in_of (fields fs)) (ground arith),
  )

  parameter_complete :
      (fs : Fields)
      → Acceptable arguments name (object fs)
      → is_ok (apply_parameter arguments r name (fields fs)) ≡ true
  unfolding apply_parameter
  parameter_complete fs acceptable =
      let (optional, fitting) = acceptable fs refl in
      elim (Option-cases (lookup name arguments)) [
        | inl missing ↦ let o = optional missing in ground arith
        | inr (v, found) ↦
            let ok_arg = argument_complete r name v (param_in_of (fields fs)) (fitting v found) in
            ground arith
      ]

  config_sound :
      (config : Json)
      → is_ok (apply_config arguments r name config) ≡ true
      → Acceptable arguments name config
  unfolding apply_config
  config_sound (object fs) h = parameter_sound fs h
  config_sound _ h = λ gs e. absurd (cc e)

  config_complete :
      (config : Json)
      → Acceptable arguments name config
      → is_ok (apply_config arguments r name config) ≡ true
  unfolding apply_config
  config_complete (object fs) a = parameter_complete fs a
  config_complete _ a = refl

abbrev Accepts : List (Bytes × Json) → List (Bytes × Json) → Type 0
Accepts arguments parameters = All (λ p. Acceptable arguments p.0 p.1) parameters

parameters_sound :
    (arguments parameters : List (Bytes × Json)) (r : EndpointRequest)
    → is_ok (apply_parameters arguments r parameters) ≡ true
    → Accepts arguments parameters
unfolding apply_parameters
parameters_sound arguments [] r h = tt
parameters_sound arguments ((name, config) ∷ more) r h =
    elim (Result-cases (apply_config arguments r name config)) [
      | inl (e, failed) ↦ absurd (cc (rw (failed, apply_parameters) at h))
      | inr (r', applied) ↦ (
        config_sound arguments r name config (rw applied),
        parameters_sound arguments more r' (rw (applied, apply_parameters) at h),
      )
    ]

parameters_complete :
    (arguments parameters : List (Bytes × Json)) (r : EndpointRequest)
    → Accepts arguments parameters
    → is_ok (apply_parameters arguments r parameters) ≡ true
unfolding apply_parameters
parameters_complete arguments [] r a = refl
parameters_complete arguments ((name, config) ∷ more) r a =
    elim (Result-cases (apply_config arguments r name config)) [
      | inl (e, failed) ↦ absurd (cc (config_complete arguments r name config a.0, failed))
      | inr (r', applied) ↦
          rw (applied, apply_parameters) (parameters_complete arguments more r' a.1)
    ]

-- A request is built exactly when every parameter of the endpoint is served, in whatever order
-- they are visited: a required one has an argument, and an argument is a scalar, or for a query
-- parameter a scalar or an array of scalars. Else the tool call is refused.
pub new_endpoint_request_iff :
    (endpoint : Endpoint) (arguments : List (Bytes × Json))
    → (is_ok (new_endpoint_request endpoint arguments) ≡ true)
      ↔ All (λ p. Acceptable arguments p.0 p.1) endpoint.parameters
unfolding new_endpoint_request
new_endpoint_request_iff endpoint arguments = (
  parameters_sound arguments endpoint.parameters _,
  parameters_complete arguments endpoint.parameters _,
)
