-- ===== src/Registry/Filtering.antt =====
-- Restricting a registry to an allowlist.
use envoy_mcp_openapi_proces.Common.{
  All, Bool, Bool-cases, Bytes, List, Option-cases, Result, [], any, arith, equal, equal_iff,
  equal_refl, err, false, if◌then◌else◌, inl, inr, is_some, lookup, none, ok, refl, some, true,
  ◌&&◌, ◌∷◌, ◌≡◌, ◌≢◌,
}
use envoy_mcp_openapi_proces.Registry.{
  FilterError, Tool, ToolConfig, ToolRegistry, empty_allowlist, filter_by_allowlist, filter_tools,
  get_config, missing_names, new_tool_registry, not_found, register, validate_tool_name,
}
use envoy_mcp_openapi_proces.Registry.Registering.{
  IsWellFormed, added, added-IsWellFormed, get_config-added, new_tool_registry-IsWellFormed,
  register-outcome,
}
use envoy_mcp_openapi_proces.Registry.Sorted.{
  IsSorted, NameBelow, has_tool, has_tool-insert_at, lower_bound,
}
use envoy_mcp_openapi_proces.Std.Order.{lt_bytes_irrefl}

abbrev pub listed : List Bytes → Bytes → Bool
listed allowlist name = any (λ n. equal n name) allowlist

-- What the loop knows of the tools that are left: they are the registry's, and not yet taken over.
record Pending (r : ToolRegistry) (ts : List Tool) (filtered : ToolRegistry) : Type 0 where
  sorted : IsSorted ts
  valid_names : All (λ t. validate_tool_name t.name ≡ none) ts
  configured : All (λ t. is_some (get_config r t.name) ≡ true) ts
  absent : All (λ t. has_tool filtered.tools t.name ≡ false) ts

absent-added :
    (ts : List Tool) (t : Tool) (config : ToolConfig) (filtered : ToolRegistry)
    → All (NameBelow t.name) ts
    → All (λ u. has_tool filtered.tools u.name ≡ false) ts
    → All (λ u. has_tool (added filtered t config).tools u.name ≡ false) ts
absent-added [] t config filtered above absent = tt
absent-added (u ∷ ts) t config filtered above absent = (
  ground (
    arith,
    has_tool-insert_at filtered.tools t (lower_bound filtered.tools t.name) u.name,
    lt_bytes_irrefl t.name,
    equal_iff t.name u.name,
    above.0,
  ),
  absent-added ts t config filtered above.1 absent.1,
)

-- A tool of the registry that is new to the filtered one is registered there.
register_absent :
    (r filtered : ToolRegistry) (t : Tool) (config : ToolConfig)
    → IsWellFormed filtered
    → validate_tool_name t.name ≡ none
    → has_tool filtered.tools t.name ≡ false
    → (register filtered (some t) (some config)).0 ≡ added filtered t config
register_absent r filtered t config w valid new =
    rw (register-outcome filtered t config w.sorted) (rw (valid, new))

abbrev Takes : ToolRegistry → List Bytes → List Tool → ToolRegistry → ToolRegistry → Type 0
Takes r allowlist ts filtered final =
    IsWellFormed final
    × ((name : Bytes)
        → get_config final name ≡ (
            if has_tool ts name && listed allowlist name
            then get_config r name
            else get_config filtered name))

module _ (r : ToolRegistry) (allowlist : List Bytes) where
  filter_tools-Takes :
      (ts : List Tool) (filtered : ToolRegistry)
      → IsWellFormed filtered
      → Pending r ts filtered
      → Takes r allowlist ts filtered (filter_tools r allowlist ts filtered)
  unfolding filter_tools
  filter_tools-Takes [] filtered w p = (w, λ name. refl)
  filter_tools-Takes (t ∷ ts) filtered w p = elim (Bool-cases (listed allowlist t.name)) [
    | inr skipped ↦
        let (w', found) = filter_tools-Takes ts filtered w (record {
          sorted = p.sorted.1;
          valid_names = p.valid_names.1;
          configured = p.configured.1;
          absent = p.absent.1;
        }) in
        rw skipped (w', λ name. ground (arith, found name, equal_iff t.name name, skipped))
    | inl taken ↦ elim (Option-cases (get_config r t.name)) [
      | inl missing ↦ absurd (cc (missing, p.configured.0))
      | inr (config, has) ↦
          let (w', found) =
            filter_tools-Takes ts (added filtered t config)
              (added-IsWellFormed filtered t config w p.valid_names.0 p.absent.0)
              (record {
                sorted = p.sorted.1;
                valid_names = p.valid_names.1;
                configured = p.configured.1;
                absent = absent-added ts t config filtered p.sorted.0 p.absent.1;
              }) in
          rw taken (
            rw has (
              rw (register_absent r filtered t config w p.valid_names.0 p.absent.0) (
                w',
                λ name. ground (
                  arith,
                  found name,
                  get_config-added filtered t config name,
                  equal_iff t.name name,
                  has,
                  taken,
                ),
              )))
    ]
  ]

pub configured_of :
    (r : ToolRegistry) (ts : List Tool)
    → ((name : Bytes) → has_tool ts name ≡ true → is_some (get_config r name) ≡ true)
    → All (λ t. is_some (get_config r t.name) ≡ true) ts
configured_of r [] h = tt
configured_of r (t ∷ ts) h =
    (h t.name (rw (equal_refl t.name)), configured_of r ts (λ name has. h name (ground arith)))

none_absent : (ts : List Tool) → All (λ t. has_tool [] t.name ≡ false) ts
none_absent [] = tt
none_absent (t ∷ ts) = (refl, none_absent ts)

abbrev Lacks : ToolRegistry → List Bytes → Bytes → Type 0
Lacks r allowlist name = (listed allowlist name ≡ true) × (get_config r name ≡ none)

missing_names-All :
    (r : ToolRegistry) (allowlist names : List Bytes)
    → ((name : Bytes) → listed names name ≡ true → listed allowlist name ≡ true)
    → All (Lacks r allowlist) (missing_names r names)
unfolding missing_names
missing_names-All r allowlist [] sub = tt
missing_names-All r allowlist (n ∷ names) sub =
    let later = missing_names-All r allowlist names (λ m h. sub m (ground arith)) in
    elim (Option-cases (get_config r n)) [
      | inl lacking ↦ rw lacking ((sub n (rw (equal_refl n)), lacking), later)
      | inr (config, found) ↦ rw found later
    ]

missing_names_none :
    (r : ToolRegistry) (names : List Bytes)
    → missing_names r names ≡ []
    → All (λ n. is_some (get_config r n) ≡ true) names
unfolding missing_names
missing_names_none r [] e = tt
missing_names_none r (n ∷ names) e = (ground arith, missing_names_none r names (ground arith))

-- What is said of the answer.
abbrev pub Filters : ToolRegistry → List Bytes → Result FilterError ToolRegistry → Type 0
Filters r allowlist (err empty_allowlist) = allowlist ≡ []
Filters r allowlist (err (not_found names)) = (names ≢ []) × All (Lacks r allowlist) names
Filters r allowlist (ok filtered) =
    (allowlist ≢ [])
    × IsWellFormed filtered
    × All (λ n. is_some (get_config r n) ≡ true) allowlist
    × ((name : Bytes)
        → get_config filtered name ≡ (if listed allowlist name then get_config r name else none))

filter_nonempty :
    (r : ToolRegistry) (allowlist missing : List Bytes)
    → allowlist ≢ []
    → IsWellFormed r
    → missing_names r allowlist ≡ missing
    → Filters r allowlist (elim missing [
      | [] ↦ ok (filter_tools r allowlist r.tools new_tool_registry)
      | m ∷ ms ↦ err (not_found (m ∷ ms))
    ])
filter_nonempty r allowlist [] ne w e =
    let (w', found) =
      filter_tools-Takes r allowlist r.tools new_tool_registry new_tool_registry-IsWellFormed
        (record {
          sorted = w.sorted;
          valid_names = w.valid_names;
          configured = configured_of r r.tools (λ name has. ground (arith, w.same_names name));
          absent = none_absent r.tools;
        }) in
    (
      ne,
      w',
      missing_names_none r allowlist e,
      λ name. unfold get_config lookup in ground (arith, found name, w.same_names name),
    )
filter_nonempty r allowlist (m ∷ ms) ne w e =
    ((λ h. cc), rw e at (missing_names-All r allowlist allowlist (λ name h. h)))

-- Filtering a well-formed registry by an allowlist: where every listed name is registered, the
-- result is well formed and answers a name as the registry does if it is listed and with nothing
-- if not; an empty allowlist is refused, and so is one with names that are not registered, which
-- the error reports.
pub filter_by_allowlist-Filters :
    (r : ToolRegistry) (allowlist : List Bytes)
    → IsWellFormed r
    → Filters r allowlist (filter_by_allowlist r allowlist)
unfolding filter_by_allowlist
filter_by_allowlist-Filters r [] w = refl
filter_by_allowlist-Filters r (n ∷ names) w = filter_nonempty r (n ∷ names) _ (λ h. cc) w refl
