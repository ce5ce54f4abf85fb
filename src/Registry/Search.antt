-- ===== src/Registry/Search.antt =====
-- The binary search finds the place of a name.
use envoy_mcp_openapi_proces.Common.{
  Bytes, List, arith, length, suc, zero, ℕ, ◌+◌, ◌-◌, ◌/◌, ◌<◌, ◌≡◌, ◌≤◌,
}
use envoy_mcp_openapi_proces.Registry.{Tool, binary_search, search_loop}
use envoy_mcp_openapi_proces.Registry.Sorted.{
  IsSorted, has_tool, has_tool_at, lower_bound, lower_bound-le, lt-name_at,
}

search_loop_finds :
    (ts : List Tool) (name : Bytes) (fuel i j : ℕ)
    → IsSorted ts
    → i ≤ lower_bound ts name
    → lower_bound ts name ≤ j
    → j ≤ length ts
    → j - i < fuel
    → search_loop fuel ts name i j ≡ lower_bound ts name
unfolding search_loop
search_loop_finds ts name zero i j s lo hi n f = absurd (omega arith)
search_loop_finds ts name (suc fuel) i j s lo hi n f = ground (
  arith,
  lt-name_at ts name ((i + j) / 2) s,
  search_loop_finds ts name fuel ((i + j) / 2 + 1) j s,
  search_loop_finds ts name fuel i ((i + j) / 2) s,
)

-- On tools sorted by name the binary search always ends, at the number of tools with smaller
-- names, and reports whether a tool of that name is there.
pub binary_search_finds :
    (ts : List Tool) (name : Bytes)
    → IsSorted ts
    → binary_search ts name ≡ (lower_bound ts name, has_tool ts name)
unfolding binary_search
binary_search_finds ts name s =
    let found =
      search_loop_finds ts name (suc (length ts)) 0 (length ts) s (omega arith)
        (lower_bound-le ts name) (omega arith) (omega arith) in
    ground (arith, found, has_tool_at ts name s)
