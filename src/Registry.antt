-- ===== src/Registry.antt =====
-- registry.go: the tools by name, in the order of their names, with their configurations.
pub mod Sorted
pub mod Search
pub mod Registering
pub mod Filtering
pub mod Linking
use envoy_mcp_openapi_proces.Common.{
  Bool, Bytes, List, Option, Result, [], any, drop, equal, err, if◌then◌else◌, insert, is_some, leb,
  length, lookup, ltb, none, ok, some, suc, take, zero, ℕ, ◌&&◌, ◌++◌, ◌+◌, ◌/◌, ◌==◌, ◌||◌, ◌∷◌,
}
use envoy_mcp_openapi_proces.Common.Text.{codes, to_lower}
use envoy_mcp_openapi_proces.Json.{Json}
use envoy_mcp_openapi_proces.Std.Order.{lt_bytes}

pub record Endpoint : Type 0 where
  pub host : Bytes
  pub method : Bytes
  pub path_template : Bytes
  pub parameters : List (Bytes × Json)
  pub content_type : Bytes

unfoldable pub supports_body : Endpoint → Bool
unfolding equal to_lower
supports_body e =
    let method = to_lower e.method in
    equal method (codes "post") || equal method (codes "put") || equal method (codes "patch")

pub record ToolResponseConfig : Type 0 where
  pub use_structured_output : Bool

pub record ToolConfig : Type 0 where
  pub endpoint : Endpoint
  pub response_config : ToolResponseConfig

-- `mcp.Tool`, as far as the program sets it.
pub record Tool : Type 0 where
  pub name : Bytes
  pub title : Bytes
  pub description : Bytes
  pub input_schema : Json
  pub output_schema : Option Json

pub record ToolRegistry : Type 0 where
  pub tools : List Tool
  pub configs : List (Bytes × ToolConfig)

pub data RegisterError : Type 0 where
  nil_tool nil_config bad_length already_registered : RegisterError
  bad_character : ℕ → RegisterError

abbrev pub max_tool_name_length : ℕ
max_tool_name_length = 128

abbrev pub new_tool_registry : ToolRegistry
new_tool_registry = record { tools = []; configs = [] }

unfoldable pub tool_count : ToolRegistry → ℕ
tool_count r = length r.tools

unfoldable pub is_name_char : ℕ → Bool
is_name_char c =
    leb b'A' c && leb c b'Z'
    || leb b'a' c && leb c b'z'
    || leb b'0' c && leb c b'9'
    || c == b'_'
    || c == b'-'
    || c == b'.'

-- The loop over the characters. One outside ASCII is refused like its first byte.
unfoldable pub validate_characters : Bytes → Option RegisterError
validate_characters [] = none
validate_characters (c ∷ s) =
    if is_name_char c then validate_characters s else some (bad_character c)

unfoldable pub validate_tool_name : Bytes → Option RegisterError
validate_tool_name name =
    if ltb (length name) 1 || ltb max_tool_name_length (length name)
    then some bad_length
    else validate_characters name

abbrev pub name_at : List Tool → ℕ → Bytes
name_at [] i = []
name_at (t ∷ ts) zero = t.name
name_at (t ∷ ts) (suc i) = name_at ts i

-- The loop of `slices.BinarySearchFunc` on the range from `i` to `j`, which halves each round.
unfoldable pub search_loop : ℕ → List Tool → Bytes → ℕ → ℕ → ℕ
unfolding lt_bytes
search_loop zero ts name i j = i
search_loop (suc fuel) ts name i j =
    let h = (i + j) / 2 in
    let right = search_loop fuel ts name (h + 1) j in
    let left = search_loop fuel ts name i h in
    if ltb i j then (if lt_bytes (name_at ts h) name then right else left) else i

unfoldable pub binary_search : List Tool → Bytes → ℕ × Bool
unfolding search_loop equal
binary_search ts name =
    let n = length ts in
    let i = search_loop (suc n) ts name 0 n in (i, ltb i n && equal (name_at ts i) name)

-- `slices.Insert`
abbrev pub insert_at {ℓ} : {A : Type ℓ} → ℕ → A → List A → List A
insert_at i a xs = take i xs ++ (a ∷ drop i xs)

unfoldable pub place_tool :
    ToolRegistry → Tool → ToolConfig → ℕ × Bool → ToolRegistry × Option RegisterError
unfolding insert
place_tool r tool config (position, registered) =
    if registered then (r, some already_registered) else (
      record {
        tools = insert_at position tool r.tools;
        configs = insert tool.name config r.configs;
      },
      none,
    )

unfoldable pub register :
    ToolRegistry → Option Tool → Option ToolConfig → ToolRegistry × Option RegisterError
unfolding place_tool
register r none config = (r, some nil_tool)
register r (some tool) none = (r, some nil_config)
register r (some tool) (some config) = elim (validate_tool_name tool.name) [
  | some e ↦ (r, some e)
  | none ↦ place_tool r tool config (binary_search r.tools tool.name)
]

unfoldable pub get_config : ToolRegistry → Bytes → Option ToolConfig
unfolding lookup
get_config r name = lookup name r.configs

-- The names of the allowlist that the registry does not hold, in order.
unfoldable pub missing_names : ToolRegistry → List Bytes → List Bytes
unfolding get_config
missing_names r [] = []
missing_names r (name ∷ names) =
    let more = missing_names r names in if is_some (get_config r name) then more else name ∷ more

-- The loop over the tools; a failed `Register` is logged and skipped.
unfoldable pub filter_tools : ToolRegistry → List Bytes → List Tool → ToolRegistry → ToolRegistry
filter_tools r allowlist [] filtered = filtered
filter_tools r allowlist (tool ∷ tools) filtered = filter_tools r allowlist tools (
    if any (λ name. equal name tool.name) allowlist
    then (register filtered (some tool) (get_config r tool.name)).0
    else filtered)

pub data FilterError : Type 0 where
  empty_allowlist : FilterError
  not_found : List Bytes → FilterError

unfoldable pub filter_by_allowlist : ToolRegistry → List Bytes → Result FilterError ToolRegistry
filter_by_allowlist r [] = err empty_allowlist
filter_by_allowlist r (name ∷ names) = elim (missing_names r (name ∷ names)) [
  | [] ↦ ok (filter_tools r (name ∷ names) r.tools new_tool_registry)
  | m ∷ ms ↦ err (not_found (m ∷ ms))
]
