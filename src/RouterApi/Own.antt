-- ===== src/RouterApi/Own.antt =====
-- A router is told of its own client and its own peer only (app/router_api.py).
use auto_vpn.Base.{
  ℕ, ◌≡◌, refl, sym, ap, ◌∙◌, String, Bool, true, false, not, ◌&&◌, List, [], ◌∷◌, Option, none,
  some, ◌==◌, find, inl, inr, Option-cases, Among, find-Among, select-Among, eq_iff, subst, str_eq,
  truthy, arith,
}
use auto_vpn.Db.{Db, Result, ok, raise_if, of_result, bind_ok, of_result_ok, modify_after}
use auto_vpn.ApplyResults.{Json}
use auto_vpn.Config.{CapturedVpnConfig, VpnClient, RouterAmneziaPeer, enabled_clients}
use auto_vpn.Credentials.{AuthenticatedRouterCredential}
use auto_vpn.RouterApi.Outbounds.{amnezia_fields, vless_outbound, hysteria_outbound, hysteria_auth}
use auto_vpn.RouterApi.Payloads.{
  AppliedSnapshot, Rendering, own_peer, amnezia_profile, auxiliary_profile,
  build_router_snapshot_response, dual_response, build_router_dual_snapshot_response,
}
use auto_vpn.RouterApi.Requests.{
  ApiEnv, RouterRequest, let_others, authorize_router, load_applied_snapshot,
  client_from_applied_snapshot,
}
use auto_vpn.RouterApi.Handlers.{served_body}

abbrev pub at_most : Option RouterAmneziaPeer → List RouterAmneziaPeer
at_most none = []
at_most (some p) = p ∷ []

-- The snapshot with one client, and these peers alone.
abbrev pub own_view : AppliedSnapshot → VpnClient → List RouterAmneziaPeer → AppliedSnapshot
own_view s client peers = record s {
  config = record (s.config) { clients = client ∷ []; router_amnezia_peers = peers };
}

-- Each of the peers is in the configuration, and is that of the router and of the client.
abbrev pub AreOwn : String → ℕ → CapturedVpnConfig → List RouterAmneziaPeer → Type 0
AreOwn router_id client_id config [] = Unit
AreOwn router_id client_id config (p ∷ peers) =
    (p.router_id ≡ router_id)
    × (p.client_id ≡ client_id)
    × Among p config.router_amnezia_peers
    × AreOwn router_id client_id config peers

own_peer-AreOwn :
    (router_id : String) (client_id : ℕ) (config : CapturedVpnConfig)
    → AreOwn router_id client_id config (at_most (own_peer router_id client_id config))
own_peer-AreOwn router_id client_id config =
    elim (Option-cases (own_peer router_id client_id config)) [
      | inl e ↦ rw e tt
      | inr (p, e) ↦
          let (among, passes) =
            find-Among (λ p. str_eq p.router_id router_id && p.client_id == client_id)
              config.router_amnezia_peers p e in
          rw e (
            (eq_iff p.router_id router_id).0 (ground (arith, passes)),
            ground (arith, passes),
            among,
            tt,
          )
    ]

-- The peer of a router is found among itself.
own_peer_alone :
    (router_id : String) (client_id : ℕ) (config : CapturedVpnConfig) (clients : List VpnClient)
    → own_peer router_id client_id (record config {
      clients = clients;
      router_amnezia_peers = at_most (own_peer router_id client_id config);
    })
      ≡ own_peer router_id client_id config
own_peer_alone router_id client_id config clients =
    elim (Option-cases (own_peer router_id client_id config)) [
      | inl e ↦ rw e refl
      | inr (p, e) ↦
          let passes =
            (find-Among (λ p. str_eq p.router_id router_id && p.client_id == client_id)
              config.router_amnezia_peers p e).1 in
          rw e (ground (arith, passes))
    ]

module _ (rendering : Rendering) (s : AppliedSnapshot) (client : VpnClient)
    (router_id : String) where
  abbrev view : AppliedSnapshot
  view = own_view s client (at_most (own_peer router_id client.id s.config))

  single_own :
      build_router_snapshot_response rendering s client router_id
      ≡ build_router_snapshot_response rendering view client router_id
  unfolding build_router_snapshot_response vless_outbound hysteria_outbound hysteria_auth
      amnezia_profile amnezia_fields
  single_own = refl

  same_dual :
      (peer : Option RouterAmneziaPeer)
      → dual_response rendering peer s client router_id
        ≡ dual_response rendering peer view client router_id
  unfolding dual_response vless_outbound hysteria_outbound hysteria_auth amnezia_profile
      amnezia_fields auxiliary_profile
  same_dual none = refl
  same_dual (some p) = refl

  dual_own :
      build_router_dual_snapshot_response rendering s client router_id
      ≡ build_router_dual_snapshot_response rendering view client router_id
  unfolding build_router_dual_snapshot_response
  dual_own =
      same_dual (own_peer router_id client.id s.config)
      ∙ ap (λ peer. dual_response rendering peer view client router_id)
          (sym (own_peer_alone router_id client.id s.config (client ∷ [])))

-- The two snapshots' builders: `/snapshot/dual` and `/snapshot`.
abbrev pub builder : Rendering → Bool → AppliedSnapshot → VpnClient → String → Result Json
builder rendering true = build_router_dual_snapshot_response rendering
builder rendering false = build_router_snapshot_response rendering

module _ (env : ApiEnv) where
  -- Whose snapshot a request is answered with.
  pub record Serves (request : RouterRequest) (db : Db) (credential : AuthenticatedRouterCredential)
      (applied : AppliedSnapshot) (client : VpnClient) : Type 0 where
    pub admitted : (authorize_router env request "snapshot:read" db).0 ≡ ok credential
    pub loaded :
        (load_applied_snapshot env
          (env.between 0 (authorize_router env request "snapshot:read" db).1)).0
        ≡ ok applied
    pub among : Among client applied.config.clients
    pub own : client.id ≡ credential.client_id
    pub enabled : client.enabled ≡ true

  pub client_lem :
      (credential : AuthenticatedRouterCredential) (config : CapturedVpnConfig) (client : VpnClient)
      → client_from_applied_snapshot credential config ≡ ok client
      → Among client config.clients × (client.id ≡ credential.client_id) × (client.enabled ≡ true)
  unfolding client_from_applied_snapshot
  client_lem credential config client e =
      elim (Option-cases (find (λ c. c.id == credential.client_id) (enabled_clients config))) [
        | inl missing ↦ absurd (ground (arith, missing))
        | inr (c, found) ↦
            let same : c ≡ client = ground (arith, found) in
            let (listed, passes) =
              find-Among (λ c. c.id == credential.client_id) (enabled_clients config) c found in
            let (among, kept) = select-Among (λ c. c.enabled) config.clients c listed in
            rw (← same) (among, ground (arith, passes), kept)
      ]

  served_lem :
      (build : AppliedSnapshot → VpnClient → String → Result Json) (request : RouterRequest)
      (db : Db) (payload : Json)
      → (served_body env build request db).0 ≡ ok payload
      → (credential : AuthenticatedRouterCredential) × (applied : AppliedSnapshot)
        × (client : VpnClient) × Serves request db credential applied client
        × (build applied client credential.router_id ≡ ok payload)
  unfolding served_body
  served_lem build request db payload e =
      let (credential, admitted, e1) =
        bind_ok (authorize_router env request "snapshot:read") _ db payload e in
      let (u, others, e2) = bind_ok (let_others env 0) _ _ payload e1 in
      let (applied, loaded, e3) = bind_ok (load_applied_snapshot env) _ _ payload e2 in
      let (client, found, e4) =
        bind_ok (of_result (client_from_applied_snapshot credential applied.config)) _ _ payload
          e3 in
      let (v, checked, e5) =
        bind_ok (raise_if (not (truthy applied.config.current_ip)) _) _ _ payload e4 in
      let (among, own, enabled) =
        client_lem credential applied.config client (of_result_ok _ _ client found) in
      let here = modify_after (env.between 0) (authorize_router env request "snapshot:read" db).1 in
      (
        credential,
        applied,
        client,
        record {
          admitted = admitted;
          loaded = ap (λ s. (load_applied_snapshot env s).0) (sym here) ∙ loaded;
          among = among;
          own = own;
          enabled = enabled;
        },
        of_result_ok _ _ payload e5,
      )

-- What `/snapshot` and `/snapshot/dual` show a router is a function of its own part of the applied
-- snapshot: there are a credential that the request was let in with, the applied snapshot, in it an
-- enabled client with the identifier that the credential has, and some of its peers, each with the
-- router and the client of the credential, and the body is built of the snapshot with this client and
-- these peers alone.
pub snapshot_shows_own :
    (env : ApiEnv) (dual : Bool) (request : RouterRequest) (db : Db) (payload : Json)
    → (served_body env (builder env.rendering dual) request db).0 ≡ ok payload
    → (credential : AuthenticatedRouterCredential) × (applied : AppliedSnapshot)
      × (client : VpnClient) × (peers : List RouterAmneziaPeer) × Serves env request db credential
          applied client
      × AreOwn credential.router_id credential.client_id applied.config peers
      × (builder env.rendering dual (own_view applied client peers) client credential.router_id
          ≡ ok payload)
snapshot_shows_own env true request db payload e =
    let (c, a, client, serves, built) =
      served_lem env (build_router_dual_snapshot_response env.rendering) request db payload e in
    (
      c,
      a,
      client,
      at_most (own_peer c.router_id client.id a.config),
      serves,
      subst (λ i. AreOwn c.router_id i a.config (at_most (own_peer c.router_id client.id a.config)))
          (serves.own) (own_peer-AreOwn c.router_id client.id a.config),
      sym (dual_own env.rendering a client c.router_id) ∙ built,
    )
snapshot_shows_own env false request db payload e =
    let (c, a, client, serves, built) =
      served_lem env (build_router_snapshot_response env.rendering) request db payload e in
    (
      c,
      a,
      client,
      at_most (own_peer c.router_id client.id a.config),
      serves,
      subst (λ i. AreOwn c.router_id i a.config (at_most (own_peer c.router_id client.id a.config)))
          (serves.own) (own_peer-AreOwn c.router_id client.id a.config),
      sym (single_own env.rendering a client c.router_id) ∙ built,
    )
