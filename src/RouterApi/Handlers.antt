-- ===== src/RouterApi/Handlers.antt =====
-- The handlers of app/router_api.py that read: `/snapshot`, `/snapshot/dual` and
-- `/amnezia/vpn-zapret`.
use Prim.Native.String.{◌++◌ as concat}
use auto_vpn.Base.{String, not, [], ◌∷◌, ◌++◌, ltb, if◌then◌else◌, truthy, str_eq, char_count}
use auto_vpn.Db.{Db, Result, ok, err, Action, raise_if, or_raise, of_result, ◌>>=◌, ◌>>◌}
use auto_vpn.ApplyResults.{Json}
use auto_vpn.Config.{VpnClient}
use auto_vpn.RouterApi.Payloads.{
  AppliedSnapshot, own_peer, build_router_snapshot_response, build_router_dual_snapshot_response,
  auxiliary_body,
}
use auto_vpn.RouterApi.Requests.{
  ApiEnv, RouterRequest, Response, api_error, snapshot_not_ready, api_response_headers,
  max_conditional_header, let_others, authorize_router, load_applied_snapshot,
  client_from_applied_snapshot,
}

module _ (env : ApiEnv) where
  open env use {platform, json_text, rendering}

  unfoldable pub response_etag : Json → String
  response_etag payload = concat "\"" (concat (platform.sha256 (json_text payload)) "\"")

  -- 304 where the client has the body already, and the body with its ETag otherwise.
  unfoldable pub conditional_response : String → Json → Result Response
  unfolding char_count
  conditional_response if_none_match payload =
      let etag = response_etag payload in
      if ltb max_conditional_header (char_count if_none_match)
      then err (api_error 400 "invalid_header" "Conditional header is too long")
      else (if str_eq if_none_match etag
          then ok (record {
            status_code = 304;
            content = "";
            headers = api_response_headers ++ (("ETag", etag) ∷ []);
          })
          else ok (record {
            status_code = 200;
            content = json_text payload;
            headers = api_response_headers ++ (("ETag", etag) ∷ []);
          }))

  -- The body for a request. `/snapshot` and `/snapshot/dual` differ in how they build it.
  unfoldable pub served_body :
      (AppliedSnapshot → VpnClient → String → Result Json) → RouterRequest → Action Db Json
  served_body build request = do
    credential ← authorize_router env request "snapshot:read"
    let_others env 0
    applied ← load_applied_snapshot env
    client ← of_result (client_from_applied_snapshot credential applied.config)
    raise_if (not (truthy applied.config.current_ip))
        (snapshot_not_ready "Applied VPN snapshot has no server endpoint")
    of_result (build applied client credential.router_id)

  unfoldable pub serve_snapshot :
      (AppliedSnapshot → VpnClient → String → Result Json) → RouterRequest → Action Db Response
  unfolding served_body conditional_response
  serve_snapshot build request = do
    payload ← served_body build request
    of_result (conditional_response request.if_none_match payload)

  unfoldable pub router_snapshot : RouterRequest → Action Db Response
  unfolding serve_snapshot
  router_snapshot = serve_snapshot (build_router_snapshot_response rendering)

  unfoldable pub router_snapshot_dual : RouterRequest → Action Db Response
  unfolding serve_snapshot
  router_snapshot_dual = serve_snapshot (build_router_dual_snapshot_response rendering)

  unfoldable pub router_auxiliary_amnezia : RouterRequest → Action Db Response
  unfolding conditional_response
  router_auxiliary_amnezia request = do
    credential ← authorize_router env request "snapshot:read"
    let_others env 0
    applied ← load_applied_snapshot env
    client ← of_result (client_from_applied_snapshot credential applied.config)
    peer ← or_raise (own_peer credential.router_id credential.client_id applied.config) (
        api_error 409 "router_peer_not_applied"
          "The router VPN+zapret peer is not present in the applied snapshot")
    raise_if (not (truthy applied.config.current_ip))
        (api_error 503 "snapshot_not_ready" "Applied VPN snapshot has no server endpoint")
    of_result (
        conditional_response request.if_none_match
          (auxiliary_body rendering applied client peer credential.router_id))
