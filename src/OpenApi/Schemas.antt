-- ===== src/OpenApi/Schemas.antt =====
-- `openApiSchemaToMap` of openapi.go: a schema as a JSON object. Schemas may refer to one another
-- in a circle, so the recursion runs on fuel.
pub mod Terminating
pub mod Recursive
use envoy_mcp_openapi_proces.Common.{
  Bytes, Call, List, Option, [], if◌then◌else◌, insert, is_empty, none, panicked, returned, some,
  suc, unfinished, zero, ℕ, ◌>>=◌, ◌∷◌,
}
use envoy_mcp_openapi_proces.Common.Text.{codes}
use envoy_mcp_openapi_proces.Json.{
  Items, Json, array, item, no_items, null, object, string, to_fields,
}
use envoy_mcp_openapi_proces.OpenApi.Document.{Address, Heap, Schema, SchemaRef}

abbrev pub Map : Type 0
Map = List (Bytes × Json)

-- A `[]string` as it is written.
unfoldable pub texts : List Bytes → Items
texts [] = no_items
texts (s ∷ ss) = item (string s) (texts ss)

unfoldable pub values : List Json → Items
values [] = no_items
values (v ∷ vs) = item v (values vs)

-- `openapi3.Types` as it is written: a string for one type, an array for more.
unfoldable pub types_json : List Bytes → Json
types_json [] = null
types_json (one_type ∷ []) = string one_type
types_json types = array (texts types)

unfoldable pub with_types : Option (List Bytes) → Map → Map
with_types none m = m
with_types (some types) m = insert (codes "type") (types_json types) m

unfoldable pub with_description : Bytes → Map → Map
with_description description m =
    if is_empty description then m else insert (codes "description") (string description) m

unfoldable pub with_enum : Option (List Json) → Map → Map
with_enum none m = m
with_enum (some vs) m = insert (codes "enum") (array (values vs)) m

unfoldable pub with_required : List Bytes → Map → Map
with_required names m =
    if is_empty names then m else insert (codes "required") (array (texts names)) m

-- The entries that need no other schema.
unfoldable pub own_entries : Schema → Map
own_entries s =
    with_required s.required
      (with_enum s.enum (with_description s.description (with_types s.types [])))

module _ (convert : Address → Call Map) where
  -- The loop over the properties: a nil reference panics, a reference to nil is left out.
  unfoldable pub property_maps : List (Bytes × SchemaRef) → Map → Call Map
  property_maps [] props = returned props
  property_maps ((name, none) ∷ more) props = panicked
  property_maps ((name, some none) ∷ more) props = property_maps more props
  property_maps ((name, some (some a)) ∷ more) props =
      convert a >>= λ m. property_maps more (insert name (object (to_fields m)) props)

  unfoldable pub with_properties : Option (List (Bytes × SchemaRef)) → Map → Call Map
  with_properties none entries = returned entries
  with_properties (some properties) entries = property_maps properties [] >>= λ props.
      returned (insert (codes "properties") (object (to_fields props)) entries)

  unfoldable pub with_items : SchemaRef → Map → Call Map
  with_items none entries = returned entries
  with_items (some none) entries = returned entries
  with_items (some (some a)) entries =
      convert a >>= λ m. returned (insert (codes "items") (object (to_fields m)) entries)

unfoldable pub open_api_schema_to_map : Heap → ℕ → Address → Call Map
open_api_schema_to_map heap zero a = unfinished
open_api_schema_to_map heap (suc fuel) a =
    with_properties (open_api_schema_to_map heap fuel) (heap a).properties (own_entries (heap a))
    >>= with_items (open_api_schema_to_map heap fuel) (heap a).items
