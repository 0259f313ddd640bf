-- ===== src/RouterApi/Revalidation.antt =====
-- Conditional requests (app/router_api.py): the ETag of an answer spares the next one its body.
use Prim.Native.String.{◌++◌ as concat}
use text.Mathlib.TextPositions.{eq_refl}
use auto_vpn.Base.{
  ◌≤◌, ◌≡◌, refl, ap, ◌∙◌, String, true, false, [], ◌∷◌, ◌++◌, some, ltb, ◌↔◌, Bool-cases, inl, inr,
  str_eq, char_count, char_count-append, arith,
}
use auto_vpn.Db.{Db, Result, ok, Action, lookup_setting, bind_ok, bind_from, of_result, ◌>>=◌}
use auto_vpn.ApplyResults.{Json}
use auto_vpn.Config.{VpnClient}
use auto_vpn.RouterApi.Payloads.{AppliedSnapshot}
use auto_vpn.RouterApi.Requests.{
  authorize_router, ApiEnv, RouterRequest, Response, api_response_headers, max_conditional_header,
}
use auto_vpn.RouterApi.Handlers.{response_etag, conditional_response, served_body, serve_snapshot}

abbrev not_modified : String → Response
not_modified etag = record {
  status_code = 304;
  content = "";
  headers = api_response_headers ++ (("ETag", etag) ∷ []);
}

module _ (env : ApiEnv) where
  short_etag :
      (payload : Json)
      → ((s : String) → char_count (env.platform.sha256 s) ≤ 64)
      → ltb max_conditional_header (char_count (response_etag env payload)) ≡ false
  unfolding response_etag char_count
  short_etag payload digest =
      let hex = env.platform.sha256 (env.json_text payload) in
      ground (
        arith,
        char_count-append "\"" (concat hex "\""),
        char_count-append hex "\"",
        digest (env.json_text payload),
      )

  -- Either answer to a body tells its ETag, and which one it is depends on the header alone.
  conditional_lem :
      (header : String) (payload : Json) (response : Response)
      → conditional_response env header payload ≡ ok response
      → (lookup_setting "ETag" response.headers ≡ some (response_etag env payload))
        × ((response.status_code ≡ 304) ↔ (str_eq header (response_etag env payload) ≡ true))
  unfolding conditional_response
  conditional_lem header payload response e =
      elim (Bool-cases (ltb max_conditional_header (char_count header))) [
        | inl long ↦ absurd (ground arith)
        | inr short ↦ elim (Bool-cases (str_eq header (response_etag env payload))) [
          | inl same ↦ ground arith
          | inr other ↦ ground arith
        ]
      ]

  revalidated :
      (payload : Json)
      → ((s : String) → char_count (env.platform.sha256 s) ≤ 64)
      → conditional_response env (response_etag env payload) payload
        ≡ ok (not_modified (response_etag env payload))
  unfolding conditional_response
  revalidated payload digest =
      ground (arith, short_etag payload digest, eq_refl (response_etag env payload))

  -- The body does not depend on the conditional header.
  same_body :
      (build : AppliedSnapshot → VpnClient → String → Result Json) (request : RouterRequest)
      (header : String)
      → served_body env build (record request { if_none_match = header })
        ≡ served_body env build request
  unfolding served_body authorize_router
  same_body build request header = refl

-- When `/snapshot` or `/snapshot/dual` (or any other body that is built of the applied snapshot) is
-- answered, the answer tells an ETag, it is 304 exactly when the If-None-Match header is that ETag,
-- and the same request with the ETag as its If-None-Match header, at the same state, is answered with
-- 304, the same ETag and no body. The digests of SHA-256 are assumed to have at most 64 digits.
pub etag_revalidates :
    (env : ApiEnv) (build : AppliedSnapshot → VpnClient → String → Result Json)
    (request : RouterRequest) (db : Db) (response : Response)
    → ((s : String) → char_count (env.platform.sha256 s) ≤ 64)
    → (serve_snapshot env build request db).0 ≡ ok response
    → (etag : String) × (lookup_setting "ETag" response.headers ≡ some etag)
      × ((response.status_code ≡ 304) ↔ (str_eq request.if_none_match etag ≡ true))
      × ((again : Response) × ((serve_snapshot env build
              (record request { if_none_match = etag })
              db).0
            ≡ ok again)
          × (again.status_code ≡ 304)
          × (again.content ≡ "")
          × (lookup_setting "ETag" again.headers ≡ some etag))
unfolding serve_snapshot ◌>>=◌
etag_revalidates env build request db response digest e =
    let (payload, body, answer) =
      bind_ok (served_body env build request)
        (λ payload. of_result (conditional_response env request.if_none_match payload)) db response
        e in
    let (tells, exactly) = conditional_lem env request.if_none_match payload response answer in
    let etag = response_etag env payload in
    let request' : RouterRequest = record request { if_none_match = etag } in
    let second : (serve_snapshot env build request' db).0 ≡ ok (not_modified etag) =
      ap (λ (r : Result Response × Db). r.0)
        (bind_from (served_body env build request')
          (λ payload. of_result (conditional_response env etag payload)) db payload
          (ap (λ (m : Action Db Json). (m db).0) (same_body env build request etag) ∙ body))
      ∙ revalidated env payload digest in
    (etag, tells, exactly, (not_modified etag, second, refl, refl, refl))
