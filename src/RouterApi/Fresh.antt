-- ===== src/RouterApi/Fresh.antt =====
-- A new report is about a body that is built for its router (app/router_api.py, router_apply_result).
use auto_vpn.Base.{
  ◌≡◌, String, Bool, true, false, not, ◌||◌, ◌==◌, str_eq, Bool-cases, inl, inr, Among, arith,
}
use auto_vpn.Db.{Db, ok, raise_if, raise_if_ok, of_result, of_result_ok, bind_ok}
use auto_vpn.ApplyResults.{Json}
use auto_vpn.ApplyResults.Record.{ValidatedRouterApplyResult}
use auto_vpn.Config.{VpnClient}
use auto_vpn.Credentials.{AuthenticatedRouterCredential}
use auto_vpn.RouterApi.Payloads.{
  AppliedSnapshot, build_router_snapshot_response, build_router_dual_snapshot_response,
}
use auto_vpn.RouterApi.Requests.{
  ApiEnv, Response, load_applied_snapshot, client_from_applied_snapshot,
}
use auto_vpn.RouterApi.Handlers.{response_etag}
use auto_vpn.RouterApi.Reports.{check_report, keep_report}
use auto_vpn.RouterApi.Own.{builder, client_lem}

either_body :
    (env : ApiEnv) (applied : AppliedSnapshot) (client : VpnClient) (router_id if_match : String)
    (single dual : Json)
    → build_router_snapshot_response env.rendering applied client router_id ≡ ok single
    → build_router_dual_snapshot_response env.rendering applied client router_id ≡ ok dual
    → not (str_eq if_match (response_etag env single) || str_eq if_match (response_etag env dual))
      ≡ false
    → (which : Bool) × (payload : Json) × (builder env.rendering which applied client router_id
        ≡ ok payload)
      × (str_eq if_match (response_etag env payload) ≡ true)
either_body env applied client router_id if_match single dual built_single built_dual h =
    elim (Bool-cases (str_eq if_match (response_etag env single))) [
      | inl same ↦ (false, single, built_single, same)
      | inr other ↦ (true, dual, built_dual, ground (arith, other))
    ]

-- A report that was not stored before is taken only if it is about a body of its router: there are the
-- applied snapshot, in it an enabled client with the identifier that the credential has, and the body
-- that the builder of `/snapshot` or that of `/snapshot/dual` makes of them for the credential's router,
-- such that the If-Match header is the ETag of that body, and the report names the revision and the
-- digest of that snapshot. Whether the snapshot has a server endpoint, without which no body is served,
-- is not looked at.
pub fresh_report_is_own :
    (env : ApiEnv) (credential : AuthenticatedRouterCredential) (key : String)
    (result : ValidatedRouterApplyResult) (if_match : String) (db : Db) (response : Response)
    → (keep_report env credential key result if_match db).0 ≡ ok response
    → (applied : AppliedSnapshot) × (client : VpnClient) × ((load_applied_snapshot env db).0
        ≡ ok applied)
      × Among client applied.config.clients
      × (client.id ≡ credential.client_id)
      × (client.enabled ≡ true)
      × ((which : Bool) × (payload : Json) × (builder env.rendering which applied client
              credential.router_id
            ≡ ok payload)
          × (str_eq if_match (response_etag env payload) ≡ true))
      × ((result.revision == applied.snapshot.revision) ≡ true)
      × (str_eq result.snapshot_sha256 applied.snapshot.payload_sha256 ≡ true)
unfolding keep_report check_report
fresh_report_is_own env credential key result if_match db response e =
    let (u, checked, _) = bind_ok (check_report env credential result if_match) _ db response e in
    let (applied, loaded, e1) = bind_ok (load_applied_snapshot env) _ db u checked in
    let (client, found, e2) =
      bind_ok (of_result (client_from_applied_snapshot credential applied.config)) _ _ u e1 in
    let (single, built_single, e3) =
      bind_ok
        (of_result
          (build_router_snapshot_response env.rendering applied client credential.router_id))
        _ _ u e2 in
    let (dual, built_dual, e4) =
      bind_ok
        (of_result
          (build_router_dual_snapshot_response env.rendering applied client credential.router_id))
        _ _ u e3 in
    let (v, matching, e5) =
      bind_ok
        (raise_if
          (not (
            str_eq if_match (response_etag env single) || str_eq if_match (response_etag env dual)))
          _)
        _ _ u e4 in
    let named = raise_if_ok _ _ _ u e5 in
    let (among, own, enabled) =
      client_lem env credential applied.config client (of_result_ok _ _ client found) in
    (
      applied,
      client,
      loaded,
      among,
      own,
      enabled,
      either_body env applied client credential.router_id if_match single dual
          (of_result_ok _ _ single built_single) (of_result_ok _ _ dual built_dual)
          (raise_if_ok _ _ _ v matching),
      ground (arith, named),
      ground (arith, named),
    )
