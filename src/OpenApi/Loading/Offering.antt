-- ===== src/OpenApi/Loading/Offering.antt =====
-- What is loaded from the files of a configuration.
use envoy_mcp_openapi_proces.Common.{
  All, Any, Bool, Bytes, List, Option, any, err, false, none, ok, some, true, ◌≡◌,
}
use envoy_mcp_openapi_proces.Config.{ToolRegistryConfig}
use envoy_mcp_openapi_proces.OpenApi.{extract_host_from_open_api_spec}
use envoy_mcp_openapi_proces.OpenApi.Completing.{SafeDocument}
use envoy_mcp_openapi_proces.OpenApi.Document.{Spec}
use envoy_mcp_openapi_proces.OpenApi.Listing.{IsFrom, is_offered}
use envoy_mcp_openapi_proces.OpenApi.Loading.{Files}
use envoy_mcp_openapi_proces.Registry.{Tool, ToolConfig}

-- The document of a path that is a file and can be loaded.
abbrev pub document : Files → Bytes → Option Spec
document files path = elim (files.is_dir path) [
  | err e ↦ none
  | ok true ↦ none
  | ok false ↦ elim (files.load_from_file path) [ err e ↦ none | ok spec ↦ some spec ]
]

abbrev pub offers_of : Option Spec → Bytes → Bool
offers_of none name = false
offers_of (some spec) name = is_offered spec.paths name

-- Some document of the paths offers a tool of this name.
abbrev pub offered_by : Files → List Bytes → Bytes → Bool
offered_by files paths name = any (λ path. offers_of (document files path) name) paths

-- Every document of the paths can be followed to the end.
abbrev pub AllSafe : Files → List Bytes → Type 0
AllSafe files paths =
    All (λ path. (spec : Spec) → document files path ≡ some spec → SafeDocument spec) paths

module _ (files : Files) (url_host : Bytes → Option Bytes) (config : ToolRegistryConfig)
    (matches : List Bytes) where
  -- The tool comes from the document of one of the paths.
  pub record IsLoaded (tool : Tool) (tool_config : ToolConfig) : Type 0 where
    pub path : Bytes
    pub spec : Spec
    pub matched : Any (λ p. p ≡ path) matches
    pub found : document files path ≡ some spec
    pub source :
        IsFrom spec.paths
          (extract_host_from_open_api_spec url_host spec.servers)
          config.structured_output
          tool
          tool_config
