-- ===== src/OpenApi/Schemas/Terminating.antt =====
-- When the conversion of a schema returns.
use envoy_mcp_openapi_proces.Common.{
  >>=-eq-returned, All, Any, Bytes, Call, List, Option, Returns, Returns-chain, [], arith, at_once,
  here, insert, none, refl, returned, some, subst, suc, sym, there, zero, ℕ, ◌↔◌, ◌∷◌, ◌≡◌, ◌≢◌,
  ◌≤◌,
}
use envoy_mcp_openapi_proces.Json.{object, to_fields}
use envoy_mcp_openapi_proces.OpenApi.Document.{Address, Heap, Schema, SchemaRef}
use envoy_mcp_openapi_proces.OpenApi.Schemas.{
  Map, open_api_schema_to_map, own_entries, property_maps, with_items, with_properties,
}

-- A schema names another, as a property or as its items.
pub data Names (s : Schema) (b : Address) : Type 0 where
  by_property :
      {properties : List (Bytes × SchemaRef)}
      → s.properties ≡ some properties
      → Any (λ p. p.1 ≡ some (some b)) properties
      → Names s b
  by_items : s.items ≡ some (some b) → Names s b

-- No property is a nil reference.
abbrev pub NoNil : Option (List (Bytes × SchemaRef)) → Type 0
NoNil none = Unit
NoNil (some properties) = All (λ p. p.1 ≢ none) properties

-- Following the references from a schema ends, on every way, and meets no nil reference.
pub data IsFinite (heap : Heap) : Address → Type 0 where
  finite :
      {a : Address}
      → NoNil (heap a).properties
      → ((b : Address) → Names (heap a) b → IsFinite heap b)
      → IsFinite heap a

module _ (heap : Heap) where
  abbrev convert : ℕ → Address → Call Map
  convert = open_api_schema_to_map heap

  property_maps-Returns :
      (properties : List (Bytes × SchemaRef)) (acc : Map)
      → All (λ p. p.1 ≢ none) properties
      → ((b : Address)
          → Any (λ p. p.1 ≡ some (some b)) properties
          → Returns (λ fuel. convert fuel b))
      → Returns (λ fuel. property_maps (convert fuel) properties acc)
  unfolding property_maps
  property_maps-Returns [] acc no_nil each = at_once acc
  property_maps-Returns ((name, none) ∷ more) acc no_nil each = absurd (no_nil.0 refl)
  property_maps-Returns ((name, some none) ∷ more) acc no_nil each =
      property_maps-Returns more acc no_nil.1 (λ b named. each b (there named))
  property_maps-Returns ((name, some (some a)) ∷ more) acc no_nil each =
      Returns-chain (each a (here refl)) (λ m.
        property_maps-Returns more (insert name (object (to_fields m)) acc) no_nil.1
          (λ b named. each b (there named)))

  with_properties-Returns :
      (properties : Option (List (Bytes × SchemaRef))) (entries : Map)
      → NoNil properties
      → ((ps : List (Bytes × SchemaRef))
          → properties ≡ some ps
          → (b : Address) → Any (λ p. p.1 ≡ some (some b)) ps
          → Returns (λ fuel. convert fuel b))
      → Returns (λ fuel. with_properties (convert fuel) properties entries)
  unfolding with_properties
  with_properties-Returns none entries no_nil each = at_once entries
  with_properties-Returns (some ps) entries no_nil each =
      Returns-chain (property_maps-Returns ps [] no_nil (each ps refl)) (λ props. at_once _)

  with_items-Returns :
      (items : SchemaRef) (entries : Map)
      → ((b : Address) → items ≡ some (some b) → Returns (λ fuel. convert fuel b))
      → Returns (λ fuel. with_items (convert fuel) items entries)
  unfolding with_items
  with_items-Returns none entries each = at_once entries
  with_items-Returns (some none) entries each = at_once entries
  with_items-Returns (some (some b)) entries each = Returns-chain (each b refl) (λ m. at_once _)

  one_more :
      (a : Address) (n : ℕ) (m : Map)
      → ((fuel : ℕ) → n ≤ fuel → convert (suc fuel) a ≡ returned m)
      → (fuel : ℕ) → suc n ≤ fuel
      → convert fuel a ≡ returned m
  one_more a n m h zero le = absurd (omega arith)
  one_more a n m h (suc fuel) le = h fuel (omega arith)

  pub IsFinite-Returns : {a : Address} → IsFinite heap a → Returns (λ fuel. convert fuel a)
  unfolding open_api_schema_to_map
  IsFinite-Returns (finite {a} no_nil each) =
      let body =
        Returns-chain
          (with_properties-Returns (heap a).properties (own_entries (heap a)) no_nil
            (λ ps e b named. IsFinite-Returns (each b (by_property e named))))
          (λ props.
            with_items-Returns (heap a).items props
              (λ b e. IsFinite-Returns (each b (by_items e)))) in
      record {
        enough = suc body.enough;
        result_of = body.result_of;
        returns = one_more a body.enough body.result_of body.returns;
      }

-- What a loop that returned must have met.
abbrev Passed : (Address → Call Map) → List (Bytes × SchemaRef) → Type 0
Passed convert properties =
    All (λ p. p.1 ≢ none) properties
    × ((b : Address)
        → Any (λ p. p.1 ≡ some (some b)) properties
        → (m : Map) × (convert b ≡ returned m))

module _ (convert : Address → Call Map) where
  property_maps-Passed :
      (properties : List (Bytes × SchemaRef)) (acc m : Map)
      → property_maps convert properties acc ≡ returned m
      → Passed convert properties
  unfolding property_maps
  property_maps-Passed [] acc m h = (tt, λ b. elim [ ])
  property_maps-Passed ((name, none) ∷ more) acc m h = cc
  property_maps-Passed ((name, some none) ∷ more) acc m h =
      let (no_nil, each) = property_maps-Passed more acc m h in
      (((λ e. cc), no_nil), λ b. elim [ here e ↦ cc | there named ↦ each b named ])
  property_maps-Passed ((name, some (some a)) ∷ more) acc m h =
      let (first, at_a, rest) = >>=-eq-returned (convert a) _ h in
      let (no_nil, each) = property_maps-Passed more _ m rest in
      (
        ((λ e. cc), no_nil),
        λ b. elim [
          | here e ↦
              let same : a ≡ b = cc in (first, subst (λ c. convert c ≡ returned first) same at_a)
          | there named ↦ each b named
        ],
      )

  with_properties-Passed :
      (properties : Option (List (Bytes × SchemaRef))) (entries m : Map)
      → with_properties convert properties entries ≡ returned m
      → NoNil properties
        × ((ps : List (Bytes × SchemaRef))
            → properties ≡ some ps
            → (b : Address) → Any (λ p. p.1 ≡ some (some b)) ps
            → (m' : Map) × (convert b ≡ returned m'))
  unfolding with_properties
  with_properties-Passed none entries m h = (tt, λ ps e. cc)
  with_properties-Passed (some properties) entries m h =
      let (props, looped, _) = >>=-eq-returned (property_maps convert properties []) _ h in
      let (no_nil, each) = property_maps-Passed properties [] props looped in
      (
        no_nil,
        λ ps e b named.
            let same : properties ≡ ps = cc in
            each b (subst (λ qs. Any (λ p. p.1 ≡ some (some b)) qs) (sym same) named),
      )

  with_items_passed :
      (items : SchemaRef) (entries m : Map)
      → with_items convert items entries ≡ returned m
      → (b : Address) → items ≡ some (some b)
      → (m' : Map) × (convert b ≡ returned m')
  unfolding with_items
  with_items_passed none entries m h b e = cc
  with_items_passed (some none) entries m h b e = cc
  with_items_passed (some (some a)) entries m h b e =
      let (m', at_a, _) = >>=-eq-returned (convert a) _ h in
      let same : a ≡ b = cc in (m', subst (λ c. convert c ≡ returned m') same at_a)

pub IsFinite-of_returned :
    (heap : Heap) (fuel : ℕ) (a : Address) (m : Map)
    → open_api_schema_to_map heap fuel a ≡ returned m
    → IsFinite heap a
unfolding open_api_schema_to_map
IsFinite-of_returned heap zero a m h = cc
IsFinite-of_returned heap (suc fuel) a m h =
    let (props, first, second) =
      >>=-eq-returned
        (with_properties (open_api_schema_to_map heap fuel) (heap a).properties
          (own_entries (heap a)))
        _ h in
    let (no_nil, each) =
      with_properties-Passed (open_api_schema_to_map heap fuel) (heap a).properties _ props first in
    finite no_nil (λ b. elim [
      | by_property {properties = ps} e named ↦
          let (m', at_b) = each ps e b named in IsFinite-of_returned heap fuel b m' at_b
      | by_items e ↦
          let (m', at_b) =
            with_items_passed (open_api_schema_to_map heap fuel) (heap a).items props m second b
              e in
          IsFinite-of_returned heap fuel b m' at_b
    ])

-- The conversion of a schema returns, and then with one and the same map for every depth of the
-- recursion from some depth on, exactly if the references from the schema end on every way and no
-- property among them is a nil reference.
pub open_api_schema_to_map-Returns :
    (heap : Heap) (a : Address)
    → Returns (λ fuel. open_api_schema_to_map heap fuel a) ↔ IsFinite heap a
open_api_schema_to_map-Returns heap a = (
  λ r. IsFinite-of_returned heap r.enough a r.result_of (r.returns r.enough (omega arith)),
  IsFinite-Returns heap,
)
