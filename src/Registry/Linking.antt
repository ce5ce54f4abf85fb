-- ===== src/Registry/Linking.antt =====
-- What is said of each tool together with its configuration, through the registering of others.
use envoy_mcp_openapi_proces.Common.{
  All, Bool, Bytes, List, Option, [], arith, equal, equal_iff, equal_refl, false, is_some, none,
  not, refl, some, subst, true, ◌&&◌, ◌||◌, ◌∷◌, ◌≡◌,
}
use envoy_mcp_openapi_proces.Registry.{
  RegisterError, Tool, ToolConfig, ToolRegistry, get_config, register, validate_tool_name,
}
use envoy_mcp_openapi_proces.Registry.Registering.{
  All-insert_at, IsWellFormed, added, added-IsWellFormed, get_config-added, outcome,
  register-outcome,
}
use envoy_mcp_openapi_proces.Registry.Sorted.{has_tool, has_tool-insert_at, lower_bound}

abbrev pub is_valid_name : Bytes → Bool
is_valid_name name = not (is_some (validate_tool_name name))

module _ (P : Tool → ToolConfig → Type 0) where
  -- `P` holds of every tool and the configuration that its name has.
  abbrev pub Linked : ToolRegistry → Type 0
  Linked r =
      All (λ t. (config : ToolConfig) → get_config r t.name ≡ some config → P t config) r.tools

  others :
      (r : ToolRegistry) (tool : Tool) (config : ToolConfig) (ts : List Tool)
      → has_tool ts tool.name ≡ false
      → All (λ t. (c : ToolConfig) → get_config r t.name ≡ some c → P t c) ts
      → All (λ t. (c : ToolConfig) → get_config (added r tool config) t.name ≡ some c → P t c) ts
  others r tool config [] new linked = tt
  others r tool config (t ∷ ts) new linked = (
    λ c found. linked.0 c (
        ground (
          arith,
          get_config-added r tool config t.name,
          equal_iff tool.name t.name,
          equal_refl t.name,
        )),
    others r tool config ts (ground arith) linked.1,
  )

  added-Linked :
      (r : ToolRegistry) (tool : Tool) (config : ToolConfig)
      → has_tool r.tools tool.name ≡ false
      → P tool config
      → Linked r
      → Linked (added r tool config)
  added-Linked r tool config new p linked =
      All-insert_at _ r.tools tool (lower_bound r.tools tool.name)
        (others r tool config r.tools new linked)
        (λ c found.
          let same : config ≡ c =
            ground (arith, get_config-added r tool config tool.name, equal_refl tool.name) in
          subst (P tool) same p)

  -- Registering a tool for which `P` holds: what the registry holds after, of which nothing is lost.
  pub record Extends (offered : Bytes → Bool) (before after : ToolRegistry) : Type 0 where
    pub well_formed : IsWellFormed after
    pub linked : Linked after
    pub names :
        (name : Bytes)
        → has_tool after.tools name
          ≡ (has_tool before.tools name || offered name && is_valid_name name)

  pub Extends-refl : (r : ToolRegistry) → IsWellFormed r → Linked r → Extends (λ name. false) r r
  Extends-refl r w l = record { well_formed = w; linked = l; names = λ name. ground arith }

  pub Extends-trans :
      {f g : Bytes → Bool} {a b c : ToolRegistry}
      → Extends f a b
      → Extends g b c
      → Extends (λ name. f name || g name) a c
  Extends-trans first second = record {
    well_formed = second.well_formed;
    linked = second.linked;
    names = λ name. ground (arith, first.names name, second.names name);
  }

  pub register-Extends :
      (r : ToolRegistry) (tool : Tool) (config : ToolConfig)
      → IsWellFormed r
      → Linked r
      → P tool config
      → Extends (λ name. equal tool.name name) r (register r (some tool) (some config)).0
  register-Extends r tool config w l p =
      rw (register-outcome r tool config w.sorted)
        (by_outcome (validate_tool_name tool.name) (has_tool r.tools tool.name) refl refl)
    where
      by_outcome :
          (v : Option RegisterError) (known : Bool)
          → validate_tool_name tool.name ≡ v
          → has_tool r.tools tool.name ≡ known
          → Extends (λ name. equal tool.name name) r (outcome r tool config v known).0
      by_outcome (some e) known invalid has = record {
        well_formed = w;
        linked = l;
        names = λ name. ground (arith, equal_iff tool.name name, invalid);
      }
      by_outcome none true valid has = record {
        well_formed = w;
        linked = l;
        names = λ name. ground (arith, equal_iff tool.name name, has);
      }
      by_outcome none false valid has = record {
        well_formed = added-IsWellFormed r tool config w valid has;
        linked = added-Linked r tool config has p l;
        names = λ name. ground (
          arith,
          has_tool-insert_at r.tools tool (lower_bound r.tools tool.name) name,
          equal_iff tool.name name,
          valid,
        );
      }
