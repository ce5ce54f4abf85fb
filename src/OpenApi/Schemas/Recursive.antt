-- ===== src/OpenApi/Schemas/Recursive.antt =====
-- Schemas that refer back to themselves.
use envoy_mcp_openapi_proces.Common.{returned, ℕ, ◌≢◌}
use envoy_mcp_openapi_proces.OpenApi.Document.{Address, Heap}
use envoy_mcp_openapi_proces.OpenApi.Schemas.{Map, open_api_schema_to_map}
use envoy_mcp_openapi_proces.OpenApi.Schemas.Terminating.{
  IsFinite, IsFinite-of_returned, Names, finite,
}

-- A way along references, of at least one step.
data Reaches (heap : Heap) : Address → Address → Type 0 where
  step : {a b : Address} → Names (heap a) b → Reaches heap a b
  then_on : {a b c : Address} → Names (heap a) b → Reaches heap b c → Reaches heap a c

extend : (heap : Heap) {a b c : Address} → Reaches heap a b → Names (heap b) c → Reaches heap a c
extend heap (step n) m = then_on n (step m)
extend heap (then_on n r) m = then_on n (extend heap r m)

IsFinite-not-Reaches : (heap : Heap) {a : Address} → IsFinite heap a → ¬ Reaches heap a a
IsFinite-not-Reaches heap (finite no_nil each) (step n) =
    IsFinite-not-Reaches heap (each _ n) (step n)
IsFinite-not-Reaches heap (finite no_nil each) (then_on n r) =
    IsFinite-not-Reaches heap (each _ n) (extend heap r n)

-- A schema that refers back to itself, directly or through others, is never converted: whatever
-- the depth of the recursion, the call does not return.
recursive_schema_never_returns :
    (heap : Heap) (a : Address)
    → Reaches heap a a
    → (fuel : ℕ) (m : Map) → open_api_schema_to_map heap fuel a ≢ returned m
recursive_schema_never_returns heap a circle fuel m h =
    IsFinite-not-Reaches heap (IsFinite-of_returned heap fuel a m h) circle
