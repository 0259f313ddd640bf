-- ===== src/RouterApi/Replays.antt =====
-- A report that was taken is answered again (app/router_api.py, router_apply_result).
use auto_vpn.Base.{◌≡◌, refl, String, true, false, some, ltb, str_eq, truthy, char_count, arith}
use auto_vpn.Db.{Db, RouterApplyResult, ok, ◌>>=◌}
use auto_vpn.Credentials.{AuthenticatedRouterCredential}
use auto_vpn.ApplyResults.Record.{
  ValidatedRouterApplyResult, stored_result, get_apply_result, is_idempotency_key, replay,
  find_router_apply_result_replay,
}
use auto_vpn.RouterApi.Requests.{ApiEnv, RouterRequest, max_conditional_header, authorize_router}
use auto_vpn.RouterApi.Reports.{
  apply_result_response, read_report, find_replay, require_if_match, router_apply_result,
}

module _ (env : ApiEnv) where
  -- The stored report is found, without a look at the applied snapshot.
  pub find_replay_lem :
      (i key : String) (result : ValidatedRouterApplyResult) (etag : String) (db : Db)
      (row : RouterApplyResult)
      → get_apply_result i key db ≡ some row
      → str_eq row.body_sha256 result.body_sha256 ≡ true
      → str_eq row.snapshot_etag etag ≡ true
      → find_replay env i key result etag db ≡ (ok (some (stored_result true row)), db)
  unfolding find_replay find_router_apply_result_replay replay ◌>>=◌
  find_replay_lem i key result etag db row found body same = ground arith

  pub if_match_lem :
      (if_match : String) (db : Db)
      → truthy if_match ≡ true
      → ltb max_conditional_header (char_count if_match) ≡ false
      → require_if_match env if_match db ≡ (ok tt, db)
  unfolding require_if_match ◌>>=◌
  if_match_lem if_match db given short = ground arith

-- The answer where the report is stored.
pub stored_report_is_answered :
    (env : ApiEnv) (request : RouterRequest) (key : String) (db : Db)
    (credential : AuthenticatedRouterCredential) (result : ValidatedRouterApplyResult)
    (row : RouterApplyResult)
    → (authorize_router env request "apply:write" db).0 ≡ ok credential
    → is_idempotency_key key ≡ true
    → truthy request.if_match ≡ true
    → ltb max_conditional_header (char_count request.if_match) ≡ false
    → read_report env request ≡ ok result
    → get_apply_result credential.credential_id key
        (env.between 0 (authorize_router env request "apply:write" db).1)
      ≡ some row
    → str_eq row.body_sha256 result.body_sha256 ≡ true
    → str_eq row.snapshot_etag request.if_match ≡ true
    → router_apply_result env request key db ≡ (
      ok (apply_result_response env (stored_result true row) row.snapshot_etag),
      env.between 1 (env.between 0 (authorize_router env request "apply:write" db).1),
    )
unfolding router_apply_result ◌>>=◌
stored_report_is_answered env request key db credential result row admitted well given short report
      found body same =
    let state = env.between 0 (authorize_router env request "apply:write" db).1 in
    rw (admitted, well)
      (rw (if_match_lem env request.if_match state given short, report)
        (rw
          (find_replay_lem env credential.credential_id key result request.if_match state row found
            body same)
          refl))
