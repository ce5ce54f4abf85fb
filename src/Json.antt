-- ===== src/Json.antt =====
-- Values of Go's `any` as `encoding/json` decodes them. A `float64` is given by its text under
-- `%v`, the shortest one that names it and all that the program reads of it.
use envoy_mcp_openapi_proces.Common.{Bool, Bytes, List, [], ◌∷◌}

mutual
  pub data Json : Type 0 where
    null : Json
    boolean : Bool → Json
    number : Bytes → Json
    string : Bytes → Json
    array : Items → Json
    object : Fields → Json

  pub data Items : Type 0 where
    no_items : Items
    item : Json → Items → Items

  pub data Fields : Type 0 where
    no_fields : Fields
    field : Bytes → Json → Fields → Fields

unfoldable pub items : Items → List Json
items no_items = []
items (item v vs) = v ∷ items vs

unfoldable pub fields : Fields → List (Bytes × Json)
fields no_fields = []
fields (field k v fs) = (k, v) ∷ fields fs

unfoldable pub to_fields : List (Bytes × Json) → Fields
to_fields [] = no_fields
to_fields ((k, v) ∷ m) = field k v (to_fields m)
