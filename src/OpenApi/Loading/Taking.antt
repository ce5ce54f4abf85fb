-- ===== src/OpenApi/Loading/Taking.antt =====
-- Taking up the tools of the files, one file after the other.
use envoy_mcp_openapi_proces.Common.{
  >>=-assoc, >>=-eq-returned, All, Any, Bytes, Call, List, Option, Option-cases, Result-cases, [],
  arith, false, inl, inr, is_some, none, refl, returned, returned-injective, some, subst, sym, true,
  ℕ, ◌>>=◌, ◌∙◌, ◌∷◌, ◌≡◌,
}
use envoy_mcp_openapi_proces.Config.{ToolRegistryConfig}
use envoy_mcp_openapi_proces.OpenApi.{
  generate_mcp_tools_from_spec, register_loaded_tools, register_tools,
}
use envoy_mcp_openapi_proces.OpenApi.Document.{Spec}
use envoy_mcp_openapi_proces.OpenApi.Listing.{generate_mcp_tools_from_spec-IsFrom, is_offered}
use envoy_mcp_openapi_proces.OpenApi.Loading.{
  Files, load_match, load_matches, load_tools_from_open_api, take_up,
}
use envoy_mcp_openapi_proces.OpenApi.Loading.Offering.{IsLoaded, document, offered_by, offers_of}
use envoy_mcp_openapi_proces.Registry.{Tool, ToolConfig, ToolRegistry, get_config}
use envoy_mcp_openapi_proces.Registry.Filtering.{configured_of}
use envoy_mcp_openapi_proces.Registry.Linking.{
  Extends, Extends-refl, Extends-trans, Linked, register-Extends,
}
use envoy_mcp_openapi_proces.Registry.Registering.{IsWellFormed}
use envoy_mcp_openapi_proces.Registry.Sorted.{has_tool}

module _ (P : Tool → ToolConfig → Type 0) where
  register_tools-Extends :
      (loaded : ToolRegistry) (ts : List Tool) (registry : ToolRegistry)
      → All (λ t. (c : ToolConfig) → get_config loaded t.name ≡ some c → P t c) ts
      → All (λ t. is_some (get_config loaded t.name) ≡ true) ts
      → IsWellFormed registry
      → Linked P registry
      → Extends P (has_tool ts) registry (register_tools loaded ts registry)
  unfolding register_tools
  register_tools-Extends loaded [] registry linked configured w l = Extends-refl P registry w l
  register_tools-Extends loaded (t ∷ ts) registry linked configured w l =
      elim (Option-cases (get_config loaded t.name)) [
        | inl missing ↦ absurd (cc (missing, configured.0))
        | inr (config, has) ↦
            let first = register-Extends P registry t config w l (linked.0 config has) in
            rw (has, register_tools)
              (Extends-trans P first (
                register_tools-Extends loaded ts _ linked.1 configured.1 first.well_formed
                  first.linked))
      ]

  register_loaded_tools-Extends :
      (registry loaded : ToolRegistry)
      → IsWellFormed registry
      → Linked P registry
      → IsWellFormed loaded
      → Linked P loaded
      → Extends P (has_tool loaded.tools) registry (register_loaded_tools registry loaded)
  unfolding register_loaded_tools
  register_loaded_tools-Extends registry loaded w l v m =
      register_tools-Extends loaded loaded.tools registry m
        (configured_of loaded loaded.tools (λ name has. v.same_names name ∙ has)) w l

Linked-map :
    {P Q : Tool → ToolConfig → Type 0} (r : ToolRegistry)
    → ((t : Tool) (c : ToolConfig) → P t c → Q t c)
    → Linked P r
    → Linked Q r
Linked-map {P} {Q} r f linked = go r.tools linked
  where
    go :
        (ts : List Tool)
        → All (λ t. (c : ToolConfig) → get_config r t.name ≡ some c → P t c) ts
        → All (λ t. (c : ToolConfig) → get_config r t.name ≡ some c → Q t c) ts
    go [] h = tt
    go (t ∷ ts) h = ((λ c found. f t c (h.0 c found)), go ts h.1)

-- A round of the loop, by the document of the path.
abbrev pub by_document :
    Files
    → (Bytes → Option Bytes)
    → ℕ
    → ToolRegistryConfig
    → ToolRegistry
    → Option Spec
    → Call ToolRegistry
by_document files url_host fuel config registry none = returned registry
by_document files url_host fuel config registry (some spec) =
    generate_mcp_tools_from_spec url_host fuel spec config >>= λ loaded.
    returned (register_loaded_tools registry loaded)

pub load_match-document :
    (files : Files) (url_host : Bytes → Option Bytes) (fuel : ℕ) (config : ToolRegistryConfig)
    (path : Bytes) (registry : ToolRegistry)
    → load_match files url_host fuel config path registry
      ≡ by_document files url_host fuel config registry (document files path)
unfolding load_match take_up load_tools_from_open_api
load_match-document files url_host fuel config path registry =
    elim (Result-cases (files.is_dir path)) [
      | inl (e, failed) ↦ rw (failed, load_match, document) refl
      | inr (true, is_dir) ↦ rw (is_dir, load_match, document) refl
      | inr (false, is_file) ↦ elim (Result-cases (files.load_from_file path)) [
        | inl (e, failed) ↦
            rw (is_file, load_match, document) (rw (failed, load_tools_from_open_api) refl)
        | inr (spec, read) ↦
            rw (is_file, load_match, document)
              (rw (read, load_tools_from_open_api)
                (>>=-assoc (generate_mcp_tools_from_spec url_host fuel spec config) _ _))
      ]
    ]

module _ (files : Files) (url_host : Bytes → Option Bytes) (fuel : ℕ) (config : ToolRegistryConfig)
    (matches : List Bytes) where
  abbrev pub FromFiles : Tool → ToolConfig → Type 0
  FromFiles = IsLoaded files url_host config matches

  -- What is loaded from a document is taken up.
  taken_up :
      (path : Bytes) (spec : Spec) (registry after : ToolRegistry)
      → Any (λ p. p ≡ path) matches
      → document files path ≡ some spec
      → IsWellFormed registry
      → Linked FromFiles registry
      → (generate_mcp_tools_from_spec url_host fuel spec config >>= λ loaded.
          returned (register_loaded_tools registry loaded))
        ≡ returned after
      → Extends FromFiles (λ name. is_offered spec.paths name) registry after
  taken_up path spec registry after matched found w l h =
      let (loaded, generated, rest) =
        >>=-eq-returned (generate_mcp_tools_from_spec url_host fuel spec config) _ h in
      let (v, names, linked) =
        generate_mcp_tools_from_spec-IsFrom url_host fuel spec config loaded generated in
      let grown = register_loaded_tools-Extends FromFiles registry loaded w l v (
        Linked-map loaded
          (λ t c source. record {
            path = path;
            spec = spec;
            matched = matched;
            found = found;
            source = source;
          })
          linked) in
      subst (Extends FromFiles _ registry) (returned-injective rest) (record {
        well_formed = grown.well_formed;
        linked = grown.linked;
        names = λ name. ground (arith, grown.names name, names name);
      })

  load_match-Extends :
      (path : Bytes) (registry after : ToolRegistry)
      → Any (λ p. p ≡ path) matches
      → IsWellFormed registry
      → Linked FromFiles registry
      → load_match files url_host fuel config path registry ≡ returned after
      → Extends FromFiles (offers_of (document files path)) registry after
  load_match-Extends path registry after matched w l h =
      go (document files path) refl
        (sym (load_match-document files url_host fuel config path registry) ∙ h)
    where
      go :
          (d : Option Spec)
          → document files path ≡ d
          → by_document files url_host fuel config registry (document files path) ≡ returned after
          → Extends FromFiles (offers_of d) registry after
      go none nothing h =
          subst (Extends FromFiles _ registry) (returned-injective (rw nothing at h))
            (Extends-refl FromFiles registry w l)
      go (some spec) found h = taken_up path spec registry after matched found w l (rw found at h)

  pub load_matches-Extends :
      (paths : List Bytes) (registry after : ToolRegistry)
      → All (λ path. Any (λ p. p ≡ path) matches) paths
      → IsWellFormed registry
      → Linked FromFiles registry
      → load_matches files url_host fuel config paths registry ≡ returned after
      → Extends FromFiles (offered_by files paths) registry after
  unfolding load_matches
  load_matches-Extends [] registry after matched w l h =
      subst (Extends FromFiles _ registry) (returned-injective h)
        (Extends-refl FromFiles registry w l)
  load_matches-Extends (path ∷ more) registry after matched w l h =
      let (next, first, rest) =
        >>=-eq-returned (load_match files url_host fuel config path registry) _ h in
      let grown = load_match-Extends path registry next matched.0 w l first in
      Extends-trans FromFiles grown
        (load_matches-Extends more next after matched.1 grown.well_formed grown.linked rest)
