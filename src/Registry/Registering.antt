-- ===== src/Registry/Registering.antt =====
-- Registering a tool: the invariant of the registry, and what each call changes.
use envoy_mcp_openapi_proces.Common.{
  All, Bool, Bytes, List, Option, [], arith, equal, false, if◌then◌else◌, inl, inr, insert, is_some,
  length, lookup-insert, none, refl, some, suc, true, zero, ℕ, ◌↔◌, ◌∷◌, ◌≡◌, ◌≢◌, ◌≤◌, ◌⊎◌,
}
use envoy_mcp_openapi_proces.Registry.{
  RegisterError, Tool, ToolConfig, ToolRegistry, already_registered, get_config, insert_at,
  is_name_char, new_tool_registry, register, validate_characters, validate_tool_name,
}
use envoy_mcp_openapi_proces.Registry.Search.{binary_search_finds}
use envoy_mcp_openapi_proces.Registry.Sorted.{
  IsSorted, has_tool, has_tool-insert_at, insert_at-IsSorted, lower_bound,
}

-- The tools stand in strict order of valid names, and exactly they have a configuration.
pub record IsWellFormed (r : ToolRegistry) : Type 0 where
  pub sorted : IsSorted r.tools
  pub valid_names : All (λ t. validate_tool_name t.name ≡ none) r.tools
  pub same_names : (name : Bytes) → is_some (get_config r name) ≡ has_tool r.tools name

pub new_tool_registry-IsWellFormed : IsWellFormed new_tool_registry
unfolding get_config
new_tool_registry-IsWellFormed = record { sorted = tt; valid_names = tt; same_names = λ name. refl }

validate_characters_sound :
    (s : Bytes) → validate_characters s ≡ none → All (λ c. is_name_char c ≡ true) s
unfolding validate_characters
validate_characters_sound [] h = tt
validate_characters_sound (c ∷ s) h = (ground arith, validate_characters_sound s (ground arith))

validate_characters_complete :
    (s : Bytes) → All (λ c. is_name_char c ≡ true) s → validate_characters s ≡ none
unfolding validate_characters
validate_characters_complete [] h = refl
validate_characters_complete (c ∷ s) h = rw h.0 (validate_characters_complete s h.1)

pub All-insert_at :
    (P : Tool → Type 0) (ts : List Tool) (x : Tool) (i : ℕ)
    → All P ts
    → P x
    → All P (insert_at i x ts)
All-insert_at P ts x zero h p = (p, h)
All-insert_at P [] x (suc i) h p = (p, tt)
All-insert_at P (t ∷ ts) x (suc i) h p = (h.0, All-insert_at P ts x i h.1 p)

-- The registry with a new tool at its place.
abbrev pub added : ToolRegistry → Tool → ToolConfig → ToolRegistry
added r tool config = record {
  tools = insert_at (lower_bound r.tools tool.name) tool r.tools;
  configs = insert tool.name config r.configs;
}

pub get_config-added :
    (r : ToolRegistry) (tool : Tool) (config : ToolConfig) (name : Bytes)
    → get_config (added r tool config) name
      ≡ (if equal tool.name name then some config else get_config r name)
unfolding get_config
get_config-added r tool config name = lookup-insert tool.name name config r.configs

pub added-IsWellFormed :
    (r : ToolRegistry) (tool : Tool) (config : ToolConfig)
    → IsWellFormed r
    → validate_tool_name tool.name ≡ none
    → has_tool r.tools tool.name ≡ false
    → IsWellFormed (added r tool config)
added-IsWellFormed r tool config w valid new = record {
  sorted = insert_at-IsSorted r.tools tool w.sorted new;
  valid_names =
      All-insert_at (λ t. validate_tool_name t.name ≡ none) r.tools tool
        (lower_bound r.tools tool.name) w.valid_names valid;
  same_names = λ name. ground (
    arith,
    get_config-added r tool config name,
    has_tool-insert_at r.tools tool (lower_bound r.tools tool.name) name,
    w.same_names name,
  );
}

-- What a call with a tool and a configuration returns, by its checks in the order of the code.
abbrev pub outcome :
    ToolRegistry
    → Tool
    → ToolConfig
    → Option RegisterError
    → Bool
    → ToolRegistry × Option RegisterError
outcome r tool config (some e) known = (r, some e)
outcome r tool config none true = (r, some already_registered)
outcome r tool config none false = (added r tool config, none)

pub register-outcome :
    (r : ToolRegistry) (tool : Tool) (config : ToolConfig)
    → IsSorted r.tools
    → register r (some tool) (some config)
      ≡ outcome r tool config (validate_tool_name tool.name) (has_tool r.tools tool.name)
unfolding register
register-outcome r tool config s = ground (arith, binary_search_finds r.tools tool.name s)

outcome-IsWellFormed :
    (r : ToolRegistry) (tool : Tool) (config : ToolConfig) (v : Option RegisterError) (known : Bool)
    → IsWellFormed r
    → validate_tool_name tool.name ≡ v
    → has_tool r.tools tool.name ≡ known
    → IsWellFormed (outcome r tool config v known).0
outcome-IsWellFormed r tool config (some e) known w valid new = w
outcome-IsWellFormed r tool config none true w valid new = w
outcome-IsWellFormed r tool config none false w valid new =
    added-IsWellFormed r tool config w valid new

-- Registering keeps the registry well formed: the tools sorted strictly by name, every name valid,
-- and a configuration for exactly the registered names.
pub register-IsWellFormed :
    (r : ToolRegistry) (tool : Option Tool) (config : Option ToolConfig)
    → IsWellFormed r
    → IsWellFormed (register r tool config).0
register-IsWellFormed r none config w = unfold register in w
register-IsWellFormed r (some tool) none w = unfold register in w
register-IsWellFormed r (some tool) (some config) w =
    rw (register-outcome r tool config w.sorted)
      (outcome-IsWellFormed r tool config _ _ w refl refl)

-- What is said of the result `out` of a call: the tool is taken, or the registry is left alone.
abbrev pub Registers :
    ToolRegistry → Tool → ToolConfig → ToolRegistry × Option RegisterError → Type 0
Registers r tool config out =
    ((out.1 ≡ none)
      × (validate_tool_name tool.name ≡ none)
      × (get_config r tool.name ≡ none)
      × ((name : Bytes)
          → get_config out.0 name
            ≡ (if equal tool.name name then some config else get_config r name)))
    ⊎ ((out.1 ≢ none)
        × ((validate_tool_name tool.name ≢ none) ⊎ (get_config r tool.name ≢ none))
        × (out.0 ≡ r))

outcome-Registers :
    (r : ToolRegistry) (tool : Tool) (config : ToolConfig) (v : Option RegisterError) (known : Bool)
    → IsWellFormed r
    → validate_tool_name tool.name ≡ v
    → has_tool r.tools tool.name ≡ known
    → Registers r tool config (outcome r tool config v known)
outcome-Registers r tool config (some e) known w valid new =
    inr (λ h. cc, inl (λ h. cc (valid, h)), refl)
outcome-Registers r tool config none true w valid new =
    inr (λ h. cc, inr (λ h. ground (arith, w.same_names tool.name)), refl)
outcome-Registers r tool config none false w valid new = inl (
  refl,
  valid,
  ground (arith, w.same_names tool.name),
  λ name. get_config-added r tool config name,
)

-- In a well-formed registry a tool with a configuration is accepted exactly when its name is valid
-- and new. It is then found under its name, and every other name is answered as before; a refused
-- call changes nothing.
pub register-Registers :
    (r : ToolRegistry) (tool : Tool) (config : ToolConfig)
    → IsWellFormed r
    → Registers r tool config (register r (some tool) (some config))
register-Registers r tool config w =
    rw (register-outcome r tool config w.sorted) (outcome-Registers r tool config _ _ w refl refl)

-- A name passes the check exactly when it has between 1 and 128 bytes, all of them ASCII letters,
-- digits, underscores, dashes or dots; so a registered name can stand in a header as it is.
validate_tool_name_iff :
    (name : Bytes)
    → (validate_tool_name name ≡ none)
      ↔ ((1 ≤ length name) × (length name ≤ 128) × All (λ c. is_name_char c ≡ true) name)
unfolding validate_tool_name
validate_tool_name_iff name = (
  λ h. (ground arith, ground arith, validate_characters_sound name (ground arith)),
  λ (low, high, chars). ground (arith, validate_characters_complete name chars),
)
