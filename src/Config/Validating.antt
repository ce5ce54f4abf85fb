-- ===== src/Config/Validating.antt =====
-- Which configurations are accepted.
use mathlib.Core.List.{reverse, reverse_aux}
use envoy_mcp_openapi_proces.Common.{
  All, Any, Bool, Bool-cases, Bytes, List, Option-cases, [], ap, arith, equal, equal_iff, false,
  here, inl, inr, is_empty, none, refl, subst, sym, there, true, true-false, ℕ, ◌++◌, ◌||◌, ◌↔◌,
  ◌∙◌, ◌∷◌, ◌≡◌, ◌≢◌,
}
use envoy_mcp_openapi_proces.Common.Text.{
  codes, contains_byte, cut_prefix, has_prefix, is_space, trim_left, trim_space,
}
use envoy_mcp_openapi_proces.Config.{
  Config, valid_allowed_host, valid_trimmed, validate, validate_hosts,
}
use envoy_mcp_openapi_proces.Hosts.{allows, new_host_allowlist, normalize_hostname}
use envoy_mcp_openapi_proces.Hosts.Matching.{EntryMatches, allows_iff, exactly, subdomain, wildcard}
use envoy_mcp_openapi_proces.Std.Affix.{cut_prefix_sound, has_prefix_sound}
use envoy_mcp_openapi_proces.Std.HostPort.{split_host_port}

-- A byte that a plain host name may have.
abbrev pub IsHostByte : ℕ → Type 0
IsHostByte c = (c ≢ b'/') × (c ≢ b' ') × (c ≢ b'\t') × (c ≢ b'*')

-- An entry of `AllowedHosts` as the documentation has it.
pub data IsHostPattern : Bytes → Type 0 where
  anything : IsHostPattern (codes "*")
  subdomains_of :
      (domain : Bytes) → domain ≢ [] → All IsHostByte domain → IsHostPattern (codes "*." ++ domain)
  one_host : (name : Bytes) → name ≢ [] → All IsHostByte name → IsHostPattern name

-- Whether a slash, a blank or a tab stands in the entry.
abbrev separated : Bytes → Bool
separated s = contains_byte b'/' s || contains_byte b' ' s || contains_byte b'\t' s

contains_none : (s : Bytes) → separated s ≡ false → contains_byte b'*' s ≡ false → All IsHostByte s
unfolding contains_byte
contains_none [] h star = tt
contains_none (c ∷ s) h star = (
  (ground arith, ground arith, ground arith, ground arith),
  contains_none s (ground arith) (ground arith),
)

none_contained :
    (s : Bytes) → All IsHostByte s → (separated s ≡ false) × (contains_byte b'*' s ≡ false)
unfolding contains_byte
none_contained [] h = (refl, refl)
none_contained (c ∷ s) ((a1, a2, a3, a4), hs) =
    let (separators, star) = none_contained s hs in (ground arith, ground arith)

separated_rest : (s : Bytes) → separated (codes "*." ++ s) ≡ false → separated s ≡ false
unfolding contains_byte
separated_rest s h = ground arith

valid_trimmed_sound : (s : Bytes) → valid_trimmed s ≡ true → IsHostPattern s
unfolding valid_trimmed
valid_trimmed_sound s h = elim (Bool-cases (is_empty s || separated s)) [
  | inl bad ↦ absurd (true-false (sym h ∙ rw (bad, valid_trimmed)))
  | inr good ↦ elim (Bool-cases (equal s (codes "*"))) [
    | inl star ↦ subst IsHostPattern (sym ((equal_iff s _).0 star)) anything
    | inr other ↦ elim (Option-cases (cut_prefix s (codes "*."))) [
      | inl uncut ↦ one_host s (ground arith) (contains_none s (ground arith) (ground arith))
      | inr (rest, cut) ↦ subst IsHostPattern (sym (cut_prefix_sound s (codes "*.") cut)) (
          subdomains_of rest (ground arith) (
            contains_none rest
              (separated_rest rest (
                subst (λ t. separated t ≡ false) (cut_prefix_sound s (codes "*.") cut)
                  (ground arith)))
              (ground arith)))
    ]
  ]
]

valid_trimmed_complete : (s : Bytes) → IsHostPattern s → valid_trimmed s ≡ true
unfolding valid_trimmed contains_byte equal cut_prefix
valid_trimmed_complete _ anything = refl
valid_trimmed_complete _ (subdomains_of domain some_byte plain) =
    let (separators, star) = none_contained domain plain in ground arith
valid_trimmed_complete _ (one_host [] some_byte plain) = absurd (some_byte refl)
valid_trimmed_complete _ (one_host (c ∷ s) some_byte plain) =
    let (separators, star) = none_contained (c ∷ s) plain in ground arith

validate_hosts_iff :
    (quote : Bytes → Bytes) (hs : List Bytes)
    → (validate_hosts quote hs ≡ none) ↔ All (λ h. IsHostPattern (trim_space h)) hs
unfolding validate_hosts valid_allowed_host
validate_hosts_iff quote [] = (λ h. tt, λ h. refl)
validate_hosts_iff quote (h ∷ hs) = ground (
  arith,
  valid_trimmed_sound (trim_space h),
  valid_trimmed_complete (trim_space h),
  validate_hosts_iff quote hs,
)

-- A configuration is accepted exactly if it names a registry and a socket path, and each of its
-- allowed hosts is, trimmed of white space, "*", a domain after "*.", or a name, of no slash,
-- blank, tab or further star.
pub validate_iff :
    (quote : Bytes → Bytes) (c : Config)
    → (validate quote c ≡ none) ↔ (
        (c.tool_registry_config ≢ none)
        × (c.socket_path ≢ [])
        × All (λ h. IsHostPattern (trim_space h)) c.allowed_hosts)
unfolding validate
validate_iff quote c = ground (arith, validate_hosts_iff quote c.allowed_hosts)

contains_byte-reverse_aux :
    (b : ℕ) (s r : Bytes)
    → contains_byte b (reverse_aux s r) ≡ (contains_byte b s || contains_byte b r)
unfolding contains_byte
contains_byte-reverse_aux b [] r = refl
contains_byte-reverse_aux b (c ∷ s) r = ground (arith, contains_byte-reverse_aux b s (c ∷ r))

contains_byte-trim_left :
    (b : ℕ) (s : Bytes) → is_space b ≡ false → contains_byte b (trim_left s) ≡ contains_byte b s
unfolding contains_byte trim_left
contains_byte-trim_left b [] h = refl
contains_byte-trim_left b (c ∷ s) h = ground (arith, contains_byte-trim_left b s h)

-- Trimming takes no byte off that is not white space.
contains_byte-trim_space :
    (b : ℕ) (s : Bytes) → is_space b ≡ false → contains_byte b (trim_space s) ≡ contains_byte b s
unfolding trim_space contains_byte
contains_byte-trim_space b s h = ground (
  arith,
  contains_byte-reverse_aux b (trim_left (reverse (trim_left s))) [],
  contains_byte-trim_left b (reverse (trim_left s)) h,
  contains_byte-reverse_aux b (trim_left s) [],
  contains_byte-trim_left b s h,
)

-- The padded entry is no pattern of subdomains.
no_subdomains : (domain : Bytes) → trim_space (codes "*." ++ domain) ≢ codes "*"
unfolding contains_byte
no_subdomains domain padded = true-false (
    sym (contains_byte-trim_space b'.' (codes "*." ++ domain) refl)
    ∙ ap (contains_byte b'.') padded)

literal_star : (e : Bytes) → trim_space e ≡ codes "*" → normalize_hostname e ≡ codes "*"
unfolding normalize_hostname split_host_port
literal_star e padded = rw (padded, normalize_hostname) (rw padded refl)

-- A padded wildcard, an entry that is not "*" but is when its white space is trimmed, passes the
-- check of the configuration, and as the only entry of the allowlist it then admits the literal name
-- "*" and no other: the check trims the entry, the allowlist does not before it tests for "*".
pub padded_wildcard :
    (e hostname : Bytes)
    → trim_space e ≡ codes "*"
    → e ≢ codes "*"
    → (valid_allowed_host e ≡ true)
      × ((allows (new_host_allowlist (e ∷ [])) hostname ≡ true) ↔ (hostname ≡ codes "*"))
unfolding valid_allowed_host valid_trimmed contains_byte equal
padded_wildcard e hostname padded other = (
  rw (padded, valid_allowed_host) refl,
  (
    (λ allowed. literal ((allows_iff (e ∷ []) hostname).0 allowed)),
    λ star.
        (allows_iff (e ∷ []) hostname).1
          (here (exactly other no_prefix (star ∙ sym (literal_star e padded)))),
  ),
)
  where
    literal : Any (EntryMatches hostname) (e ∷ []) → hostname ≡ codes "*"
    literal (here (wildcard same)) = absurd (other same)
    literal (here (subdomain domain label same named)) =
        absurd (no_subdomains domain (subst (λ x. trim_space x ≡ codes "*") same padded))
    literal (here (exactly a b named)) = named ∙ literal_star e padded
    literal (there m) = elim m [ ]

    no_prefix : has_prefix e (codes "*.") ≡ false
    no_prefix = elim (Bool-cases (has_prefix e (codes "*."))) [
      | inr none_there ↦ none_there
      | inl prefixed ↦
          let (domain, same) = has_prefix_sound e (codes "*.") prefixed in
          absurd (no_subdomains domain (subst (λ x. trim_space x ≡ codes "*") same padded))
    ]
