-- ===== src/Wire/Routing.antt =====
-- The mutation that sends a request to an upstream, `rerouteWithBodyMutation` of extproc_response.go.
use envoy_mcp_openapi_proces.Common.{
  All, Bool, Bytes, List, Option, [], any, any-append, ap, equal, if◌then◌else◌, none, refl, some,
  ◌++◌, ◌||◌, ◌∙◌, ◌∷◌, ◌≡◌,
}
use envoy_mcp_openapi_proces.Common.Text.{codes}
use envoy_mcp_openapi_proces.Wire.Build.{
  append_header, append_headers, header_mutation, remove_on_routing_headers,
  reroute_with_body_mutation,
}
use envoy_mcp_openapi_proces.Wire.Types.{
  HeaderValueOption, StreamedMutation, continue, overwrite_if_exists_or_add, request_headers,
}

-- The value of a header after the settings are made in order, each over the one before.
abbrev value_after : Bytes → Option Bytes → List HeaderValueOption → Option Bytes
value_after key old [] = old
value_after key old (h ∷ hs) =
    value_after key (if equal h.header.key key then some h.header.raw_value else old) hs

abbrev extra_value : Bytes → Option Bytes → List (Bytes × Bytes) → Option Bytes
extra_value key old [] = old
extra_value key old ((name, value) ∷ more) =
    extra_value key (if equal name key then some value else old) more

-- The request that the upstream is to receive: its pseudo-headers, and the extra headers else.
abbrev upstream_value : (host method path : Bytes) → List (Bytes × Bytes) → Bytes → Option Bytes
upstream_value host method path extra key =
    if equal (codes ":authority") key
    then some host
    else if equal (codes ":path") key
    then some path
    else if equal (codes ":method") key
    then some method
    else extra_value key none extra

abbrev among : Bytes → List Bytes → Bool
among name = any (λ n. equal n name)

-- The mutation of the request's headers makes them those of the upstream request, and takes off
-- what belongs to the client's own request.
pub record IsRouted (host method path body : Bytes) (extra : List (Bytes × Bytes))
    (strip : List Bytes) (m : StreamedMutation) : Type 0 where
  pub set : List HeaderValueOption
  pub taken_off : List Bytes
  pub mutation :
      m.headers
      ≡ request_headers (record {
        status = continue;
        header_mutation = some (record { set_headers = set; remove_headers = taken_off });
        body_mutation = none;
      })
  pub overwrites : All (λ h. h.append_action ≡ overwrite_if_exists_or_add) set
  pub sets : (key : Bytes) → value_after key none set ≡ upstream_value host method path extra key
  pub takes_off :
      (name : Bytes)
      → among name taken_off ≡ (
          among name (
            codes "content-length"
            ∷ codes "content-type"
            ∷ codes "mcp-protocol-version"
            ∷ codes "mcp-method"
            ∷ codes "mcp-name"
            ∷ [])
          || among name strip)
  pub body_kept : m.body ≡ body

abbrev Overwriting : List HeaderValueOption → Type 0
Overwriting = All (λ h. h.append_action ≡ overwrite_if_exists_or_add)

append_header-Overwriting :
    (hs : List HeaderValueOption) (key value : Bytes)
    → Overwriting hs
    → Overwriting (append_header hs key value)
unfolding append_header
append_header-Overwriting [] key value h = (refl, tt)
append_header-Overwriting (x ∷ hs) key value h = (h.0, append_header-Overwriting hs key value h.1)

append_headers-Overwriting :
    (hs : List HeaderValueOption) (extra : List (Bytes × Bytes))
    → Overwriting hs
    → Overwriting (append_headers hs extra)
unfolding append_headers
append_headers-Overwriting hs [] h = h
append_headers-Overwriting hs ((key, value) ∷ more) h =
    append_headers-Overwriting (append_header hs key value) more
      (append_header-Overwriting hs key value h)

value_after-append_header :
    (hs : List HeaderValueOption) (name value key : Bytes) (old : Option Bytes)
    → value_after key old (append_header hs name value)
      ≡ (if equal name key then some value else value_after key old hs)
unfolding append_header
value_after-append_header [] name value key old = refl
value_after-append_header (h ∷ hs) name value key old =
    value_after-append_header hs name value key _

value_after-append_headers :
    (hs : List HeaderValueOption) (extra : List (Bytes × Bytes)) (key : Bytes) (old : Option Bytes)
    → value_after key old (append_headers hs extra) ≡ extra_value key (value_after key old hs) extra
unfolding append_headers
value_after-append_headers hs [] key old = refl
value_after-append_headers hs ((name, value) ∷ more) key old =
    value_after-append_headers (append_header hs name value) more key old
    ∙ ap (λ v. extra_value key v more) (value_after-append_header hs name value key old)

pub reroute_with_body_mutation-IsRouted :
    (host method path body : Bytes) (extra : List (Bytes × Bytes)) (strip : List Bytes)
    → IsRouted host method path body extra strip
        (reroute_with_body_mutation host method path body extra strip)
unfolding reroute_with_body_mutation header_mutation
reroute_with_body_mutation-IsRouted host method path body extra strip =
    let hs = append_headers [] extra in
    let with_method = append_header hs (codes ":method") method in
    let with_path = append_header with_method (codes ":path") path in
    record {
      set = append_header with_path (codes ":authority") host;
      taken_off = remove_on_routing_headers ++ strip;
      mutation = refl;
      overwrites = append_header-Overwriting _ _ _ (
          append_header-Overwriting _ _ _
            (append_header-Overwriting _ _ _ (append_headers-Overwriting [] extra tt)));
      sets = λ key.
          rw
            (
              value_after-append_header with_path (codes ":authority") host key none,
              value_after-append_header with_method (codes ":path") path key none,
              value_after-append_header hs (codes ":method") method key none,
              value_after-append_headers [] extra key none,
            )
            refl;
      takes_off = λ name. any-append (λ n. equal n name) remove_on_routing_headers strip;
      body_kept = refl;
    }
