-- ===== src/RouterApi/Payloads.antt =====
-- The bodies that the router API builds (app/router_api.py), as JSON values.
use auto_vpn.Base.{
  ℕ, String, Bool, false, ◌&&◌, List, [], ◌∷◌, ◌++◌, Option, none, some, ◌==◌, if◌then◌else◌, find,
  str_eq,
}
use auto_vpn.Db.{Snapshot, Result, ok, err}
use auto_vpn.Config.{CapturedVpnConfig, AmneziaConfig, VpnClient, RouterAmneziaPeer}
use auto_vpn.ApplyResults.{Json, null, bool, int, text}
use auto_vpn.RouterApi.Outbounds.{
  obj, when_enabled, hysteria_auth, vless_outbound, hysteria_outbound, amnezia_fields,
}

-- The second peer of a router, in place of the client's own.
abbrev pub auxiliary_client : VpnClient → RouterAmneziaPeer → VpnClient
auxiliary_client client peer = record client {
  amnezia_private_key = peer.private_key;
  amnezia_public_key = peer.public_key;
  amnezia_preshared_key = peer.preshared_key;
  amnezia_ipv4 = peer.ipv4;
}

abbrev pub own_peer : String → ℕ → CapturedVpnConfig → Option RouterAmneziaPeer
own_peer router_id client_id config =
    find (λ p. str_eq p.router_id router_id && p.client_id == client_id) config.router_amnezia_peers

-- The applied snapshot, as it is read back.
pub record AppliedSnapshot : Type 0 where
  pub snapshot : Snapshot
  pub config : CapturedVpnConfig
  pub published_at : Option ℕ

-- `build_amnezia_vpn_key` of app/amnezia.py, and the texts of stored times.
pub record Rendering : Type 0 where
  pub build_amnezia_vpn_key : String → AmneziaConfig → VpnClient → String
  pub isoformat : ℕ → String

abbrev pub time_or_null : Rendering → Option ℕ → Json
time_or_null r none = null
time_or_null r (some at) = text (r.isoformat at)

module _ (rendering : Rendering) where
  unfoldable pub amnezia_profile : CapturedVpnConfig → VpnClient → Json
  unfolding amnezia_fields
  amnezia_profile config client = obj (
      amnezia_fields config client
      ++ ((
        "legacy_amnezia_vpn_import_key",
        text (rendering.build_amnezia_vpn_key config.current_ip config.amnezia client),
      )
          ∷ []))

  -- `None` where there is no peer or the protocol is off.
  unfoldable pub auxiliary_profile : CapturedVpnConfig → VpnClient → Option RouterAmneziaPeer → Json
  unfolding amnezia_fields
  auxiliary_profile config client none = null
  auxiliary_profile config client (some peer) =
      when_enabled config.amnezia.protocol.enabled
        (obj (amnezia_fields config (auxiliary_client client peer)))

  abbrev pub has_auxiliary : CapturedVpnConfig → Option RouterAmneziaPeer → Bool
  has_auxiliary config none = false
  has_auxiliary config (some peer) = config.amnezia.protocol.enabled

  -- The protocols of a snapshot's body, for the client's Hysteria password.
  abbrev pub protocols_of : CapturedVpnConfig → VpnClient → String → List (String × Json)
  protocols_of config client password =
      (
        "vless",
        obj (
            ("enabled", bool config.vless.protocol.enabled)
            ∷ (
              "outbound",
              when_enabled config.vless.protocol.enabled (vless_outbound config client),
            )
            ∷ []),
      )
      ∷ (
        "hysteria2",
        obj (
            ("enabled", bool config.hysteria.protocol.enabled)
            ∷ (
              "outbound",
              when_enabled config.hysteria.protocol.enabled (hysteria_outbound config password),
            )
            ∷ []),
      )
      ∷ (
        "amneziawg",
        obj (
            ("enabled", bool config.amnezia.protocol.enabled)
            ∷ (
              "profile",
              when_enabled config.amnezia.protocol.enabled (amnezia_profile config client),
            )
            ∷ []),
      )
      ∷ []

  abbrev pub snapshot_body : ℕ → AppliedSnapshot → VpnClient → String → List (String × Json) → Json
  snapshot_body version s client router_id protocols = obj (
      ("schema_version", int version)
      ∷ ("router_id", text router_id)
      ∷ ("revision", int s.snapshot.revision)
      ∷ ("snapshot_sha256", text s.snapshot.payload_sha256)
      ∷ ("applied_at", time_or_null rendering s.snapshot.applied_at)
      ∷ ("published_at", time_or_null rendering s.published_at)
      ∷ ("client", obj (("id", int client.id) ∷ ("name", text client.name) ∷ []))
      ∷ ("server", obj (("endpoint", text s.config.current_ip) ∷ []))
      ∷ ("protocols", obj protocols)
      ∷ [])

  -- The password is only computed where the protocol is on.
  abbrev pub password_of : CapturedVpnConfig → VpnClient → Result String
  password_of config client =
      if config.hysteria.protocol.enabled then hysteria_auth client config else ok ""

  unfoldable pub build_router_snapshot_response : AppliedSnapshot → VpnClient → String → Result Json
  build_router_snapshot_response s client router_id = elim (password_of s.config client) [
    | err e ↦ err e
    | ok password ↦ ok (snapshot_body 3 s client router_id (protocols_of s.config client password))
  ]

  -- With the second peer that was found for the router.
  unfoldable pub dual_response :
      Option RouterAmneziaPeer → AppliedSnapshot → VpnClient → String → Result Json
  unfolding auxiliary_profile
  dual_response peer s client router_id =
      let auxiliary = obj (
        ("enabled", bool (has_auxiliary s.config peer))
        ∷ ("profile", auxiliary_profile s.config client peer)
        ∷ []) in
      elim (password_of s.config client) [
        | err e ↦ err e
        | ok password ↦ ok (
            snapshot_body 4 s client router_id
              (protocols_of s.config client password ++ (("amneziawg_aux", auxiliary) ∷ [])))
      ]

  unfoldable pub build_router_dual_snapshot_response :
      AppliedSnapshot → VpnClient → String → Result Json
  unfolding dual_response
  build_router_dual_snapshot_response s client router_id =
      dual_response (own_peer router_id client.id s.config) s client router_id

  -- The body of `/amnezia/vpn-zapret`.
  unfoldable pub auxiliary_body : AppliedSnapshot → VpnClient → RouterAmneziaPeer → String → Json
  unfolding auxiliary_profile
  auxiliary_body s client peer router_id = obj (
      ("schema_version", int 1)
      ∷ ("router_id", text router_id)
      ∷ ("lane", text "vpn_zapret")
      ∷ ("revision", int s.snapshot.revision)
      ∷ ("snapshot_sha256", text s.snapshot.payload_sha256)
      ∷ ("enabled", bool s.config.amnezia.protocol.enabled)
      ∷ ("profile", auxiliary_profile s.config client (some peer))
      ∷ [])
