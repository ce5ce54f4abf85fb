-- ===== src/Std/HostPort.antt =====
-- `net.SplitHostPort`; its errors, of which the program reads nothing, are `none`.
use envoy_mcp_openapi_proces.Common.{
  Bytes, Option, drop, if◌then◌else◌, length, none, refl, some, take, ℕ, ◌+◌, ◌-◌, ◌==◌, ◌≡◌,
}
use envoy_mcp_openapi_proces.Common.Text.{
  codes, contains_byte, has_prefix, index_byte, last_index_byte,
}

abbrev without_brackets : (host port js ks : Bytes) → Option (Bytes × Bytes)
without_brackets host port js ks =
    if contains_byte b'[' js
    then none
    else if contains_byte b']' ks
    then none
    else some (host, port)

-- The branch for `[host]:port`; `i` is the place of the last colon.
unfoldable pub split_bracketed : Bytes → ℕ → Option (Bytes × Bytes)
unfolding index_byte contains_byte
split_bracketed s i = elim (index_byte b']' s) [
  | none ↦ none
  | some end ↦
      if end + 1 == length s
      then none
      else if end + 1 == i
      then without_brackets (take (end - 1) (drop 1 s)) (drop (i + 1) s) (drop 1 s)
          (drop (end + 1) s)
      else none
]

-- The branch for `host:port`.
unfoldable pub split_plain : Bytes → ℕ → Option (Bytes × Bytes)
unfolding contains_byte
split_plain s i =
    let host = take i s in
    if contains_byte b':' host then none else without_brackets host (drop (i + 1) s) s s

unfoldable pub split_host_port : Bytes → Option (Bytes × Bytes)
unfolding last_index_byte has_prefix split_bracketed split_plain
split_host_port s = elim (last_index_byte b':' s) [
  | none ↦ none
  | some i ↦ if has_prefix s (codes "[") then split_bracketed s i else split_plain s i
]

tests :
    (split_host_port (codes "a.b:80") ≡ some (codes "a.b", codes "80"))
    × (split_host_port (codes "[::1]:80") ≡ some (codes "::1", codes "80"))
    × (split_host_port (codes "[::1]") ≡ none)
    × (split_host_port (codes "::1") ≡ none)
    × (split_host_port (codes "a]:1") ≡ none)
unfolding split_host_port
tests = (refl, refl, refl, refl, refl)
