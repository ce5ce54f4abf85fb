-- ===== src/OpenApi/Document.antt =====
-- The parsed document of the package openapi3, as far as the program reads it. A pointer that may
-- be nil is an option; a reference is a pointer to a struct whose `Value` is a pointer.
use envoy_mcp_openapi_proces.Common.{Bool, Bytes, List, Option, ℕ}
use envoy_mcp_openapi_proces.Json.{Json}

-- The place of a schema: `*openapi3.Schema`, not nil. Schemas that refer to one another are shared,
-- and may form a circle.
abbrev pub Address : Type 0
Address = ℕ

-- `*openapi3.SchemaRef`
abbrev pub SchemaRef : Type 0
SchemaRef = Option (Option Address)

pub record Schema : Type 0 where
  pub types : Option (List Bytes)
  pub description : Bytes
  pub enum : Option (List Json)
  pub required : List Bytes
  pub properties : Option (List (Bytes × SchemaRef))
  pub items : SchemaRef

-- The schemas of a document, by their places.
abbrev pub Heap : Type 0
Heap = Address → Schema

-- A map from content types to media types, which may be nil; of those the schema reference.
abbrev pub Content : Type 0
Content = List (Bytes × Option SchemaRef)

pub record Parameter : Type 0 where
  pub name : Bytes
  pub param_in : Bytes
  pub required : Bool
  pub description : Bytes
  pub schema : SchemaRef

pub record RequestBody : Type 0 where
  pub required : Bool
  pub content : Content

-- A reference that is nil counts here like one to nil where the program treats the two alike: for
-- a parameter it panics at either, for a response it passes over either.
pub record Operation : Type 0 where
  pub operation_id : Bytes
  pub summary : Bytes
  pub description : Bytes
  pub parameters : List (Option Parameter)
  pub request_body : Option (Option RequestBody)
  pub responses : List (Bytes × Option Content)

-- `openapi3.T`: the URLs of the servers, and for each path the operations by their methods.
pub record Spec : Type 0 where
  pub schemas : Heap
  pub servers : List Bytes
  pub paths : List (Bytes × List (Bytes × Option Operation))
