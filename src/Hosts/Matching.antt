-- ===== src/Hosts/Matching.antt =====
-- Which host names an allowlist accepts, by its entries.
use envoy_mcp_openapi_proces.Common.{
  Any, Any-of_any, Bool, Bool-cases, Bytes, List, [], any, any-append, any-of_Any, arith, drop,
  equal, equal_iff, false, if◌then◌else◌, inl, inr, sym, true, ◌++◌, ◌||◌, ◌↔◌, ◌∷◌, ◌≡◌, ◌≢◌,
}
use envoy_mcp_openapi_proces.Common.Text.{codes, has_prefix, has_suffix, to_lower}
use envoy_mcp_openapi_proces.Hosts.{
  HostAllowlist, add_entries, add_entry, allows, effective, new_host_allowlist, normalize_hostname,
}
use envoy_mcp_openapi_proces.Std.Affix.{
  has_prefix_sound, has_suffix-append, has_suffix_short, has_suffix_sound,
}

-- What an entry of the configuration means for a host name in lower case.
pub data EntryMatches (hostname : Bytes) : Bytes → Type 0 where
  wildcard : {e : Bytes} → e ≡ codes "*" → EntryMatches hostname e
  subdomain :
      {e : Bytes} (domain label : Bytes)
      → e ≡ codes "*." ++ domain
      → hostname ≡ label ++ to_lower (codes "." ++ domain)
      → EntryMatches hostname e
  exactly :
      {e : Bytes}
      → e ≢ codes "*"
      → has_prefix e (codes "*.") ≡ false
      → hostname ≡ normalize_hostname e
      → EntryMatches hostname e

abbrev nobody : HostAllowlist
nobody = record { allow_any = false; exact = []; suffixes = [] }

-- The test that one entry adds.
entry_allows : Bytes → Bytes → Bool
entry_allows hostname e =
    if equal e (codes "*")
    then true
    else if has_prefix e (codes "*.")
    then has_suffix hostname (to_lower (drop 1 e))
    else equal (normalize_hostname e) hostname

allows-add_entry :
    (a : HostAllowlist) (e hostname : Bytes)
    → allows (add_entry a e) hostname ≡ (allows a hostname || entry_allows hostname e)
unfolding allows add_entry entry_allows
allows-add_entry a e hostname = ground (
  arith,
  any-append (λ (s : Bytes). has_suffix hostname s) a.suffixes (to_lower (drop 1 e) ∷ []),
  any-append (λ (x : Bytes). equal x hostname) a.exact (normalize_hostname e ∷ []),
)

allows-add_entries :
    (a : HostAllowlist) (es : List Bytes) (hostname : Bytes)
    → allows (add_entries a es) hostname ≡ (allows a hostname || any (entry_allows hostname) es)
unfolding add_entries
allows-add_entries a [] hostname = ground arith
allows-add_entries a (e ∷ es) hostname =
    ground (arith, allows-add_entries (add_entry a e) es hostname, allows-add_entry a e hostname)

entry_allows_sound : (hostname e : Bytes) → entry_allows hostname e ≡ true → EntryMatches hostname e
unfolding entry_allows
entry_allows_sound hostname e h = elim (Bool-cases (equal e (codes "*"))) [
  | inl star ↦ wildcard ((equal_iff _ _).0 star)
  | inr other ↦ elim (Bool-cases (has_prefix e (codes "*."))) [
    | inl sub ↦
        let (domain, split) = has_prefix_sound e (codes "*.") sub in
        let (label, found) =
          has_suffix_sound hostname (to_lower (drop 1 e)) (rw (other, sub) at h) in
        subdomain domain label split (rw split at found)
    | inr plain ↦
        exactly (λ e'. cc (other, (equal_iff e (codes "*")).1 e')) plain
          (sym ((equal_iff _ _).0 (rw (other, plain) at h)))
  ]
]

entry_allows_complete :
    (hostname e : Bytes) → EntryMatches hostname e → entry_allows hostname e ≡ true
unfolding entry_allows
entry_allows_complete hostname e (wildcard star) = rw ((equal_iff e (codes "*")).1 star)
entry_allows_complete hostname e (subdomain domain label split found) =
    rw split (
      unfold has_prefix equal in
      rw found (has_suffix-append label (to_lower (codes "." ++ domain))))
entry_allows_complete hostname e (exactly ne plain same) =
    ground (arith, equal_iff e (codes "*"), equal_iff (normalize_hostname e) hostname)

-- An allowlist built from a configuration accepts exactly the host names that some entry of it
-- matches, or that one of the loopback names matches when the configuration is empty: everything
-- for "*", the names that end in the domain after a dot for "*.domain", and else the name itself.
pub allows_iff :
    (allowed : List Bytes) (hostname : Bytes)
    → (allows (new_host_allowlist allowed) hostname ≡ true)
      ↔ Any (EntryMatches hostname) (effective allowed)
unfolding new_host_allowlist
allows_iff allowed hostname =
    let added = allows-add_entries nobody (effective allowed) hostname in
    (
      λ h.
          Any-of_any (entry_allows hostname) (entry_allows_sound hostname) (effective allowed)
            (unfold allows in ground arith),
      λ m.
          unfold allows in
          ground (arith, any-of_Any (entry_allows hostname) (entry_allows_complete hostname) m),
    )

-- A subdomain entry never accepts its own apex.
subdomain-ne-apex :
    (domain : Bytes)
    → allows (new_host_allowlist ((codes "*." ++ domain) ∷ [])) (to_lower domain) ≡ false
unfolding new_host_allowlist allows
subdomain-ne-apex domain =
    rw (has_suffix_short (to_lower domain) (b'.' ∷ to_lower domain) (omega arith))
