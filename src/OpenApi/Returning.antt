-- ===== src/OpenApi/Returning.antt =====
-- When the generation of a tool, and of the tools of a document, returns.
use envoy_mcp_openapi_proces.Common.{
  >>=-eq-returned, All, Bool-cases, Bytes, List, Option, Option-cases, Returns, Returns-chain, [],
  at_once, inl, inr, lookup, none, returned, some, true, ℕ, ◌∷◌, ◌≡◌,
}
use envoy_mcp_openapi_proces.Common.Text.{codes}
use envoy_mcp_openapi_proces.Json.{Json}
use envoy_mcp_openapi_proces.OpenApi.Document.{
  Address, Content, Heap, Operation, Parameter, RequestBody, SchemaRef,
}
use envoy_mcp_openapi_proces.OpenApi.Parts.{generate_mcp_tool_from_api_operation-IsGenerated}
use envoy_mcp_openapi_proces.OpenApi.Responses.{find_json_schema_from_responses}
use envoy_mcp_openapi_proces.OpenApi.Schemas.{Map, open_api_schema_to_map}
use envoy_mcp_openapi_proces.OpenApi.Schemas.Terminating.{
  IsFinite, IsFinite-Returns, IsFinite-of_returned,
}
use envoy_mcp_openapi_proces.OpenApi.Tools.{
  Inputs, add_body, add_input, add_inputs, body_schema, default_body_schema,
  generate_mcp_tool_from_api_operation, is_top_level_object_schema, no_inputs,
  open_api_parameter_to_schema, output_schema,
}
use envoy_mcp_openapi_proces.Registry.{Tool, ToolConfig}

module _ (heap : Heap) where
  abbrev pub FiniteRef : SchemaRef → Type 0
  FiniteRef (some (some a)) = IsFinite heap a
  FiniteRef _ = Unit

  abbrev pub SafeParameter : Option Parameter → Type 0
  SafeParameter none = ⊥
  SafeParameter (some p) = FiniteRef p.schema

  abbrev pub SafeMedia : Option SchemaRef → Type 0
  SafeMedia none = ⊥
  SafeMedia (some none) = ⊥
  SafeMedia (some (some none)) = Unit
  SafeMedia (some (some (some a))) = IsFinite heap a

  abbrev pub SafeBody : Option (Option RequestBody) → Type 0
  SafeBody none = Unit
  SafeBody (some none) = ⊥
  SafeBody (some (some body)) =
      (media : Option SchemaRef)
      → lookup (codes "application/json") body.content ≡ some media
      → SafeMedia media

  abbrev pub SafeOutput : List (Bytes × Option Content) → Type 0
  SafeOutput responses =
      (a : Address)
      → find_json_schema_from_responses responses ≡ some a
      → is_top_level_object_schema (heap a) ≡ true
      → IsFinite heap a

  -- Everything that the generation follows is there, and its schemas end.
  abbrev pub SafeOperation : Operation → Type 0
  SafeOperation op =
      All SafeParameter op.parameters × SafeBody op.request_body × SafeOutput op.responses

  parameter_to_schema-Returns :
      (p : Parameter)
      → FiniteRef p.schema
      → Returns (λ fuel. open_api_parameter_to_schema heap fuel p)
  unfolding open_api_parameter_to_schema
  parameter_to_schema-Returns p safe = Returns-chain (read p.schema safe) (λ m. at_once _)
    where
      read :
          (schema : SchemaRef)
          → FiniteRef schema
          → Returns {A = Map} (λ fuel. elim schema [
            | none ↦ returned []
            | some none ↦ returned []
            | some (some a) ↦ open_api_schema_to_map heap fuel a
          ])
      read none safe = at_once []
      read (some none) safe = at_once []
      read (some (some a)) safe = IsFinite-Returns heap safe

  add_inputs-Returns :
      (refs : List (Option Parameter)) (st : Inputs)
      → All SafeParameter refs
      → Returns (λ fuel. add_inputs heap fuel refs st)
  unfolding add_inputs
  add_inputs-Returns [] st safe = at_once st
  add_inputs-Returns (none ∷ more) st safe = absurd safe.0
  add_inputs-Returns (some p ∷ more) st safe =
      Returns-chain (parameter_to_schema-Returns p safe.0)
        (λ schema. add_inputs-Returns more (add_input p st schema) safe.1)

  body_schema-Returns :
      (media : Option SchemaRef) → SafeMedia media → Returns (λ fuel. body_schema heap fuel media)
  unfolding body_schema
  body_schema-Returns none safe = absurd safe
  body_schema-Returns (some none) safe = absurd safe
  body_schema-Returns (some (some none)) safe = at_once default_body_schema
  body_schema-Returns (some (some (some a))) safe =
      Returns-chain (IsFinite-Returns heap safe) (λ m. at_once _)

  add_body-Returns :
      (body : Option (Option RequestBody)) (st : Inputs)
      → SafeBody body
      → Returns (λ fuel. add_body heap fuel body st)
  unfolding add_body
  add_body-Returns none st safe = at_once (st, [])
  add_body-Returns (some none) st safe = absurd safe
  add_body-Returns (some (some body)) st safe =
      elim (Option-cases (lookup (codes "application/json") body.content)) [
        | inl missing ↦ rw (missing, add_body) (at_once _)
        | inr (media, found) ↦
            rw (found, add_body)
              (Returns-chain (body_schema-Returns media (safe media found)) (λ m. at_once _))
      ]

  output_schema-Returns :
      (responses : List (Bytes × Option Content))
      → SafeOutput responses
      → Returns (λ fuel. output_schema heap fuel responses)
  unfolding output_schema
  output_schema-Returns responses safe =
      elim (Option-cases (find_json_schema_from_responses responses)) [
        | inl missing ↦ rw (missing, output_schema) (at_once none)
        | inr (a, found) ↦ elim (Bool-cases (is_top_level_object_schema (heap a))) [
          | inl top ↦
              rw (found, output_schema)
                (rw top (Returns-chain (IsFinite-Returns heap (safe a found top)) (λ m. at_once _)))
          | inr other ↦ rw (found, output_schema) (rw other (at_once none))
        ]
      ]

  module _ (op : Operation) (method path host tool_name : Bytes) where
    pub SafeOperation-Returns :
        SafeOperation op
        → Returns
            (λ fuel. generate_mcp_tool_from_api_operation heap fuel op method path host tool_name)
    unfolding generate_mcp_tool_from_api_operation
    SafeOperation-Returns (params, body, output) =
        Returns-chain (add_inputs-Returns op.parameters no_inputs params) (λ st.
          Returns-chain (add_body-Returns op.request_body st body) (λ (inputs, content_type).
            Returns-chain (output_schema-Returns op.responses output) (λ found. at_once _)))

  -- The converse: what a call that returned must have met.
  module _ (fuel : ℕ) where
    parameter_to_schema_sound :
        (p : Parameter) (m : Map)
        → open_api_parameter_to_schema heap fuel p ≡ returned m
        → FiniteRef p.schema
    unfolding open_api_parameter_to_schema
    parameter_to_schema_sound p m h =
        let (m', read, rest) = >>=-eq-returned _ _ h in ended p.schema m' read
      where
        ended :
            (schema : SchemaRef) (m' : Map)
            → elim schema [
              | none ↦ returned []
              | some none ↦ returned []
              | some (some a) ↦ open_api_schema_to_map heap fuel a
            ]
              ≡ returned m'
            → FiniteRef schema
        ended none m' e = tt
        ended (some none) m' e = tt
        ended (some (some a)) m' e = IsFinite-of_returned heap fuel a m' e

    add_inputs_sound :
        (refs : List (Option Parameter)) (st after : Inputs)
        → add_inputs heap fuel refs st ≡ returned after
        → All SafeParameter refs
    unfolding add_inputs
    add_inputs_sound [] st after h = tt
    add_inputs_sound (none ∷ more) st after h = cc
    add_inputs_sound (some p ∷ more) st after h =
        let (m, read, rest) = >>=-eq-returned (open_api_parameter_to_schema heap fuel p) _ h in
        (parameter_to_schema_sound p m read, add_inputs_sound more (add_input p st m) after rest)

    body_schema_sound :
        (media : Option SchemaRef) (m : Map)
        → body_schema heap fuel media ≡ returned m
        → SafeMedia media
    unfolding body_schema
    body_schema_sound none m h = absurd (cc h)
    body_schema_sound (some none) m h = absurd (cc h)
    body_schema_sound (some (some none)) m h = tt
    body_schema_sound (some (some (some a))) m h =
        let (m', read, rest) = >>=-eq-returned (open_api_schema_to_map heap fuel a) _ h in
        IsFinite-of_returned heap fuel a m' read

    add_body_sound :
        (body : Option (Option RequestBody)) (st : Inputs) (after : Inputs × Bytes)
        → add_body heap fuel body st ≡ returned after
        → SafeBody body
    unfolding add_body
    add_body_sound none st after h = tt
    add_body_sound (some none) st after h = absurd (cc h)
    add_body_sound (some (some body)) st after h = λ media found.
        let (m, read, rest) =
          >>=-eq-returned (body_schema heap fuel media) _ (rw (found, add_body) at h) in
        body_schema_sound media m read

    output_schema_sound :
        (responses : List (Bytes × Option Content)) (o : Option Json)
        → output_schema heap fuel responses ≡ returned o
        → SafeOutput responses
    unfolding output_schema
    output_schema_sound responses o h a found top =
        let (m, read, rest) =
          >>=-eq-returned (open_api_schema_to_map heap fuel a) _
            (rw top at (rw (found, output_schema) at h)) in
        IsFinite-of_returned heap fuel a m read

    pub SafeOperation-of_returned :
        (op : Operation) (method path host tool_name : Bytes) (made : Tool × ToolConfig)
        → generate_mcp_tool_from_api_operation heap fuel op method path host tool_name
          ≡ returned made
        → SafeOperation op
    SafeOperation-of_returned op method path host tool_name made h =
        let g =
          generate_mcp_tool_from_api_operation-IsGenerated heap fuel op method path host tool_name
            made h in
        (
          add_inputs_sound op.parameters no_inputs g.params g.looped,
          add_body_sound op.request_body g.params (g.inputs, g.content_type) g.embodied,
          output_schema_sound op.responses g.output g.found,
        )
