-- ===== src/Hosts.antt =====
-- host_validation.go: the allowlist of host names and the check of the Host and Origin headers.
-- `url.Parse` with `Hostname` is a parameter: `none` where the parse fails.
pub mod Matching
pub mod Checking
use envoy_mcp_openapi_proces.Common.{
  Bool, Bytes, List, Option, [], any, drop, equal, false, if◌then◌else◌, length, none, not, some,
  take, true, ◌&&◌, ◌++◌, ◌-◌, ◌||◌, ◌∷◌,
}
use envoy_mcp_openapi_proces.Common.Text.{codes, has_prefix, has_suffix, to_lower, trim_space}
use envoy_mcp_openapi_proces.Std.HostPort.{split_host_port}
use envoy_mcp_openapi_proces.Wire.{HeaderValue}

-- `exact` is a set, as the list of its members.
pub record HostAllowlist : Type 0 where
  pub allow_any : Bool
  pub exact : List Bytes
  pub suffixes : List Bytes

abbrev pub default_allowed_hosts : List Bytes
default_allowed_hosts = codes "localhost" ∷ codes "127.0.0.1" ∷ codes "::1" ∷ []

unfoldable pub normalize_hostname : Bytes → Bytes
unfolding trim_space split_host_port has_suffix has_prefix to_lower
normalize_hostname given =
    let v = trim_space given in
    elim (split_host_port v) [
      | some (host, port) ↦ to_lower host
      | none ↦
          if has_prefix v (codes "[") && has_suffix v (codes "]")
          then to_lower (take (length v - 2) (drop 1 v))
          else to_lower v
    ]

-- One round of the loop of `newHostAllowlist`.
unfoldable pub add_entry : HostAllowlist → Bytes → HostAllowlist
unfolding normalize_hostname equal has_prefix to_lower
add_entry a h =
    if equal h (codes "*")
    then record a { allow_any = true }
    else if has_prefix h (codes "*.")
    then record a { suffixes = a.suffixes ++ to_lower (drop 1 h) ∷ [] }
    else record a { exact = a.exact ++ normalize_hostname h ∷ [] }

unfoldable pub add_entries : HostAllowlist → List Bytes → HostAllowlist
unfolding add_entry
add_entries a [] = a
add_entries a (h ∷ hs) = add_entries (add_entry a h) hs

abbrev pub effective : List Bytes → List Bytes
effective [] = default_allowed_hosts
effective (h ∷ hs) = h ∷ hs

unfoldable pub new_host_allowlist : List Bytes → HostAllowlist
unfolding add_entries
new_host_allowlist allowed =
    add_entries (record { allow_any = false; exact = []; suffixes = [] }) (effective allowed)

unfoldable pub allows : HostAllowlist → Bytes → Bool
unfolding equal has_suffix
allows a hostname =
    a.allow_any
    || any (λ e. equal e hostname) a.exact
    || any (λ s. has_suffix hostname s) a.suffixes

unfoldable pub find_header : List HeaderValue → Bytes → Option Bytes
unfolding equal
find_header [] key = none
find_header (h ∷ hs) key = if equal h.key key then some h.raw_value else find_header hs key

-- The value of `:authority`, or else of `host`.
abbrev pub host_header : List HeaderValue → Option Bytes
host_header headers = elim (find_header headers (codes ":authority")) [
  | some v ↦ some v
  | none ↦ find_header headers (codes "host")
]

module _ (url_hostname : Bytes → Option Bytes) where
  unfoldable pub origin_allowed : HostAllowlist → Bytes → Bool
  unfolding allows equal to_lower
  origin_allowed a origin = elim (url_hostname origin) [
    | none ↦ false
    | some name ↦ not (equal name []) && allows a (to_lower name)
  ]

  unfoldable pub check_origin : HostAllowlist → List HeaderValue → Bool × Bytes
  unfolding find_header origin_allowed
  check_origin a headers = elim (find_header headers (codes "origin")) [
    | none ↦ (true, [])
    | some origin ↦
        if origin_allowed a origin
        then (true, [])
        else (false, codes "origin not allowed: " ++ origin)
  ]

  unfoldable pub check_host : HostAllowlist → List HeaderValue → Bytes → Bool × Bytes
  unfolding allows normalize_hostname check_origin equal
  check_host a headers host =
      if equal host []
      then (false, codes "missing host header")
      else if allows a (normalize_hostname host)
      then check_origin a headers
      else (false, codes "host not allowed: " ++ host)

  unfoldable pub check_headers : HostAllowlist → List HeaderValue → Bool × Bytes
  unfolding find_header check_host
  check_headers a headers = elim (host_header headers) [
    | none ↦ (false, codes "missing host header")
    | some host ↦ check_host a headers host
  ]
