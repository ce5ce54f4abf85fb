-- ===== src/Era/Versions.antt =====
-- Version negotiation over the handshake.
use envoy_mcp_openapi_proces.Common.{
  Bool-cases, Bytes, arith, equal, equal_iff, false, inl, inr, refl, subst, sym, true, true-false,
  ◌↔◌, ◌≡◌, ◌⊎◌,
}
use envoy_mcp_openapi_proces.Common.Text.{codes}
use envoy_mcp_openapi_proces.Era.{
  is_modern_version, is_supported_version, latest_legacy_version, negotiate_legacy_version,
}
use envoy_mcp_openapi_proces.Std.Order.{lt_bytes}

latest_legacy :
    (is_supported_version latest_legacy_version ≡ true)
    × (is_modern_version latest_legacy_version ≡ false)
unfolding is_supported_version is_modern_version equal lt_bytes
latest_legacy = (refl, refl)

module _ (v : Bytes) where
  supported : is_supported_version (negotiate_legacy_version v) ≡ true
  unfolding negotiate_legacy_version
  supported = ground (arith, latest_legacy)

  legacy : is_modern_version (negotiate_legacy_version v) ≡ false
  unfolding negotiate_legacy_version
  legacy = ground (arith, latest_legacy)

  own :
      (is_supported_version v ≡ true) × (is_modern_version v ≡ false)
      → negotiate_legacy_version v ≡ v
  unfolding negotiate_legacy_version
  own h = rw (h.0, h.1) refl

  either : (negotiate_legacy_version v ≡ v) ⊎ (negotiate_legacy_version v ≡ latest_legacy_version)
  unfolding negotiate_legacy_version
  either = ground arith

latest_is_newest :
    (w : Bytes)
    → is_supported_version w ≡ true
    → is_modern_version w ≡ false
    → lt_bytes latest_legacy_version w ≡ false
unfolding is_supported_version is_modern_version lt_bytes
latest_is_newest w s l = elim (Bool-cases (equal (codes "2026-07-28") w)) [
  | inl same ↦
      let e : codes "2026-07-28" ≡ w = (equal_iff _ w).0 same in
      absurd (true-false (subst (λ x. is_modern_version x ≡ false) (sym e) l))
  | inr other ↦ elim (Bool-cases (equal (codes "2025-11-25") w)) [
    | inl same ↦
        let e : codes "2025-11-25" ≡ w = (equal_iff _ w).0 same in
        subst (λ x. lt_bytes latest_legacy_version x ≡ false) e refl
    | inr also_other ↦ elim (Bool-cases (equal (codes "2025-06-18") w)) [
      | inl same ↦
          let e : codes "2025-06-18" ≡ w = (equal_iff _ w).0 same in
          subst (λ x. lt_bytes latest_legacy_version x ≡ false) e refl
      | inr none_of_them ↦ absurd (cc (rw (other, also_other, none_of_them) at s))
    ]
  ]
]

-- The negotiated version is always one that the server supports and that belongs to the legacy
-- era. It is the client's own exactly if that one is such a version, and else the newest of them,
-- the constant `latestLegacyVersion`: no such version comes after it in the order of the dates.
pub negotiate_legacy_version_lem :
    (v : Bytes)
    → (is_supported_version (negotiate_legacy_version v) ≡ true)
      × (is_modern_version (negotiate_legacy_version v) ≡ false)
      × ((negotiate_legacy_version v ≡ v)
          ↔ ((is_supported_version v ≡ true) × (is_modern_version v ≡ false)))
      × ((negotiate_legacy_version v ≡ v) ⊎ (negotiate_legacy_version v ≡ latest_legacy_version))
      × ((w : Bytes)
          → is_supported_version w ≡ true
          → is_modern_version w ≡ false
          → (negotiate_legacy_version v ≡ v) ⊎ (lt_bytes (negotiate_legacy_version v) w ≡ false))
negotiate_legacy_version_lem v = (
  supported v,
  legacy v,
  (λ e. (rw e at (supported v), rw e at (legacy v)), own v),
  either v,
  λ w s l. elim (either v) [
    | inl same ↦ inl same
    | inr latest ↦ inr (rw latest (latest_is_newest w s l))
  ],
)
