-- ===== src/Era/Resolving.antt =====
-- Which era a request belongs to.
use envoy_mcp_openapi_proces.Common.{
  Bool-cases, Bytes, [], arith, equal, equal_iff, false, inl, inr, refl, subst, true, ◌↔◌, ◌≡◌, ◌≢◌,
  ◌⊎◌,
}
use envoy_mcp_openapi_proces.Era.{
  ServerInfo, is_modern_version, is_supported_version, legacy_era, method_initialize,
  method_notifications_initialized, modern_era, resolve_era, resolve_requested,
}

-- A request outside the handshake that names a modern version, in the body or else in the header.
pub data NamesModern (method declared mirrored : Bytes) : Bytes → Type 0 where
  by_body :
      method ≢ method_initialize
      → method ≢ method_notifications_initialized
      → is_modern_version declared ≡ true
      → NamesModern method declared mirrored declared
  by_header :
      method ≢ method_initialize
      → method ≢ method_notifications_initialized
      → is_modern_version declared ≡ false
      → is_modern_version mirrored ≡ true
      → NamesModern method declared mirrored mirrored

module _ (info : ServerInfo) (method declared mirrored : Bytes) where
  modern_complete :
      {v : Bytes}
      → NamesModern method declared mirrored v
      → resolve_era info method declared mirrored ≡ (modern_era info, v, is_supported_version v)
  unfolding resolve_era resolve_requested
  modern_complete (by_body not_init not_ack modern) =
      ground (
        arith,
        equal_iff method method_initialize,
        equal_iff method method_notifications_initialized,
      )
  modern_complete (by_header not_init not_ack old modern) =
      ground (
        arith,
        equal_iff method method_initialize,
        equal_iff method method_notifications_initialized,
      )

  modern_or_legacy :
      ((v : Bytes) × NamesModern method declared mirrored v)
      ⊎ (resolve_era info method declared mirrored ≡ (legacy_era, [], true))
  unfolding resolve_era resolve_requested
  modern_or_legacy = elim (Bool-cases (equal method method_initialize)) [
    | inl init ↦ inr (rw init refl)
    | inr not_init ↦ elim (Bool-cases (equal method method_notifications_initialized)) [
      | inl ack ↦ inr (rw (not_init, ack) refl)
      | inr not_ack ↦
          let ne : method ≢ method_initialize =
            ground (arith, equal_iff method method_initialize) in
          let na : method ≢ method_notifications_initialized =
            ground (arith, equal_iff method method_notifications_initialized) in
          elim (Bool-cases (is_modern_version declared)) [
            | inl modern ↦ inl (declared, by_body ne na modern)
            | inr old ↦ elim (Bool-cases (is_modern_version mirrored)) [
              | inl modern ↦ inl (mirrored, by_header ne na old modern)
              | inr none_named ↦ inr (rw (not_init, not_ack, old, none_named) refl)
            ]
          ]
    ]
  ]

  named :
      (v : Bytes)
      → resolve_era info method declared mirrored ≡ (modern_era info, v, is_supported_version v)
      → NamesModern method declared mirrored v
  named v e = elim modern_or_legacy [
    | inl (w, names) ↦
        let same : w ≡ v = cc (e, modern_complete names) in
        subst (NamesModern method declared mirrored) same names
    | inr legacy ↦ absurd (cc (legacy, e))
  ]

  legacy_otherwise :
      ((v : Bytes) → ¬ NamesModern method declared mirrored v)
      → resolve_era info method declared mirrored ≡ (legacy_era, [], true)
  legacy_otherwise none_named = elim modern_or_legacy [
    | inl (v, names) ↦ absurd (none_named v names)
    | inr e ↦ e
  ]

-- A request outside the handshake that names a version from 2026-07-28 on, in its body or failing
-- that in the header, is of the modern era under that version, and is served exactly if the
-- version is supported. Every other request, the handshake's included, is of the legacy era and
-- served.
pub resolve_era-NamesModern :
    (info : ServerInfo) (method declared mirrored : Bytes)
    → ((v : Bytes)
        → (resolve_era info method declared mirrored ≡ (modern_era info, v, is_supported_version v))
          ↔ NamesModern method declared mirrored v)
      × ((resolve_era info method declared mirrored ≡ (legacy_era, [], true))
          ↔ ((v : Bytes) → ¬ NamesModern method declared mirrored v))
resolve_era-NamesModern info method declared mirrored = (
  λ v. (named info method declared mirrored v, modern_complete info method declared mirrored),
  (
    λ legacy v names. cc (legacy, modern_complete info method declared mirrored names),
    legacy_otherwise info method declared mirrored,
  ),
)
