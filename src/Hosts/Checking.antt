-- ===== src/Hosts/Checking.antt =====
-- What the check of the Host and Origin headers lets through.
use envoy_mcp_openapi_proces.Common.{
  Bytes, List, Option, Option-cases, [], arith, equal_iff, inl, inr, some, true, ◌↔◌, ◌≡◌, ◌≢◌,
}
use envoy_mcp_openapi_proces.Common.Text.{codes, to_lower}
use envoy_mcp_openapi_proces.Hosts.{
  HostAllowlist, allows, check_headers, check_host, check_origin, find_header, host_header,
  normalize_hostname, origin_allowed,
}
use envoy_mcp_openapi_proces.Wire.{HeaderValue}

-- The requests that the policy accepts.
pub record Accepted (url_hostname : Bytes → Option Bytes) (a : HostAllowlist)
    (headers : List HeaderValue) : Type 0 where
  pub host : Bytes
  pub present : host_header headers ≡ some host
  pub nonempty : host ≢ []
  pub host_allowed : allows a (normalize_hostname host) ≡ true
  pub origin_allowed :
      (origin : Bytes)
      → find_header headers (codes "origin") ≡ some origin
      → (name : Bytes) × (url_hostname origin ≡ some name)
        × (name ≢ [])
        × (allows a (to_lower name) ≡ true)

module _ (url_hostname : Bytes → Option Bytes) (a : HostAllowlist)
    (headers : List HeaderValue) where
  abbrev Named : Bytes → Type 0
  Named origin =
      (name : Bytes) × (url_hostname origin ≡ some name)
      × (name ≢ [])
      × (allows a (to_lower name) ≡ true)

  origin_allowed_sound :
      (origin : Bytes) → origin_allowed url_hostname a origin ≡ true → Named origin
  unfolding origin_allowed
  origin_allowed_sound origin h = elim (Option-cases (url_hostname origin)) [
    | inl failed ↦ cc (rw (failed, origin_allowed) at h)
    | inr (name, parsed) ↦
        let h' = rw (parsed, origin_allowed) at h in
        (name, parsed, ground (arith, equal_iff name []), ground arith)
  ]

  origin_allowed_complete :
      (origin : Bytes) → Named origin → origin_allowed url_hostname a origin ≡ true
  unfolding origin_allowed
  origin_allowed_complete origin (name, parsed, nonempty, ok) =
      rw (parsed, origin_allowed) (ground (arith, equal_iff name []))

  check_origin_sound :
      (check_origin url_hostname a headers).0 ≡ true
      → (origin : Bytes) → find_header headers (codes "origin") ≡ some origin
      → Named origin
  unfolding check_origin
  check_origin_sound h origin found =
      origin_allowed_sound origin (let h' = rw (found, check_origin) at h in ground arith)

  check_origin_complete :
      ((origin : Bytes) → find_header headers (codes "origin") ≡ some origin → Named origin)
      → (check_origin url_hostname a headers).0 ≡ true
  unfolding check_origin
  check_origin_complete named = elim (Option-cases (find_header headers (codes "origin"))) [
    | inl missing ↦ rw (missing, check_origin)
    | inr (origin, found) ↦
        rw (found, check_origin) (rw (origin_allowed_complete origin (named origin found)))
  ]

  check_host_sound :
      (host : Bytes)
      → (check_host url_hostname a headers host).0 ≡ true
      → (host ≢ [])
        × (allows a (normalize_hostname host) ≡ true)
        × ((check_origin url_hostname a headers).0 ≡ true)
  unfolding check_host
  check_host_sound host h = (ground (arith, equal_iff host []), ground arith, ground arith)

  check_headers_sound :
      (check_headers url_hostname a headers).0 ≡ true → Accepted url_hostname a headers
  unfolding check_headers
  check_headers_sound h = elim (Option-cases (host_header headers)) [
    | inl missing ↦ cc (rw (missing, check_headers) at h)
    | inr (host, present) ↦
        let (nonempty, ok, origin) = check_host_sound host (rw (present, check_headers) at h) in
        record {
          host = host;
          present = present;
          nonempty = nonempty;
          host_allowed = ok;
          origin_allowed = check_origin_sound origin;
        }
  ]

  check_headers_complete :
      Accepted url_hostname a headers → (check_headers url_hostname a headers).0 ≡ true
  unfolding check_headers check_host
  check_headers_complete ok =
      rw (ok.present, check_headers)
        (ground (
          arith,
          equal_iff ok.host [],
          ok.nonempty,
          ok.host_allowed,
          check_origin_complete ok.origin_allowed,
        ))

-- The check passes exactly the requests that carry a nonempty Host (the `:authority` value, or
-- else `host`) whose normalized name is allowed, and whose Origin, where there is one, is a URL
-- with a nonempty host name that is allowed too.
pub check_headers_iff :
    (url_hostname : Bytes → Option Bytes) (a : HostAllowlist) (headers : List HeaderValue)
    → ((check_headers url_hostname a headers).0 ≡ true) ↔ Accepted url_hostname a headers
check_headers_iff u a headers =
    (check_headers_sound u a headers, check_headers_complete u a headers)
