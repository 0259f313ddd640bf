-- ===== src/RouterApi/Reports.antt =====
-- `PUT /apply-results/{idempotency_key}` of app/router_api.py: how a router reports what it applied.
use Prim.Native.String.{◌++◌ as concat}
use auto_vpn.Base.{
  ℕ, String, Bool, not, ◌||◌, List, [], ◌∷◌, ◌++◌, Option, none, some, ◌==◌, ltb, if◌then◌else◌,
  truthy, str_eq, strip, char_count,
}
use auto_vpn.Db.{
  Db, Result, ok, err, Error, Action, pure, raise, raise_if, of_result, catch, case_option,
  ConflictCode, ◌>>=◌, ◌>>◌,
}
use auto_vpn.Credentials.{AuthenticatedRouterCredential}
use auto_vpn.ApplyResults.{Json, bool, int, text}
use auto_vpn.ApplyResults.Record.{
  ValidatedRouterApplyResult, StoredRouterApplyResult, is_idempotency_key,
  record_router_apply_result, find_router_apply_result_replay,
}
use auto_vpn.ApplyResults.Payload.{validate_router_apply_result, outcome_text}
use auto_vpn.Server.Texts.{partition, lower_eq}
use auto_vpn.RouterApi.Outbounds.{obj, text_or_null}
use auto_vpn.RouterApi.Payloads.{
  build_router_snapshot_response, build_router_dual_snapshot_response,
}
use auto_vpn.RouterApi.Requests.{
  ApiEnv, RouterRequest, Response, api_error, snapshot_not_ready, with_revision,
  api_response_headers, max_conditional_header, let_others, authorize_router, load_applied_snapshot,
  client_from_applied_snapshot,
}
use auto_vpn.RouterApi.Handlers.{response_etag}

abbrev pub max_body_bytes : ℕ
max_body_bytes = 16384

abbrev pub body_too_large : Error
body_too_large = api_error 413 "body_too_large" "Request body is too large"

-- The pieces of a body, until it is too large.
unfoldable pub read_chunks : String → List String → Result String
unfolding char_count
read_chunks body [] = ok body
read_chunks body (chunk ∷ chunks) =
    let longer = concat body chunk in
    let rest = read_chunks longer chunks in
    if ltb max_body_bytes (char_count longer) then err body_too_large else rest

-- The declared length, where there is one.
unfoldable pub check_content_length : Option (Bool × ℕ) → Result (Unit {0})
check_content_length none = err (api_error 400 "invalid_header" "Content-Length is invalid")
check_content_length (some (negative, n)) =
    if negative
    then err (api_error 400 "invalid_header" "Content-Length is invalid")
    else (if ltb max_body_bytes n then err body_too_large else ok tt)

-- A name for what a client conflict is answered with.
abbrev pub replay_error : ℕ → ConflictCode → Error
replay_error current ConflictCode.etag_mismatch =
    with_revision 412 "etag_mismatch" "If-Match does not match the original idempotent result"
      (some current)
replay_error current _ =
    with_revision 409 "idempotency_conflict"
      "Idempotency key was already used for a different apply result" (some current)

abbrev pub record_error : ConflictCode → Option ℕ → Error
record_error ConflictCode.snapshot_not_ready current =
    snapshot_not_ready "No applied VPN snapshot is available"
record_error ConflictCode.etag_mismatch current =
    with_revision 412 "etag_mismatch" "If-Match does not match the original idempotent result"
      current
record_error ConflictCode.idempotency_conflict current =
    with_revision 409 "idempotency_conflict"
      "Idempotency key was already used for a different apply result" current
record_error ConflictCode.snapshot_conflict current =
    with_revision 409 "snapshot_conflict" "Applied VPN snapshot changed while accepting the result"
      current

-- `except RouterApplyConflictError`: other exceptions go on.
abbrev pub on_conflict :
    {A : Type 0} → (ConflictCode → Option ℕ → Action Db A) → Error → Action Db A
on_conflict h (Error.apply_conflict code current) = h code current
on_conflict h e = raise e

-- `except RouterApplyValidationError`.
abbrev pub validation_message : Error → String → String
validation_message (Error.validation_error message) other = message
validation_message _ other = other

abbrev pub refuse_invalid : {A : Type 0} → String → Result A → Result A
refuse_invalid code (ok a) = ok a
refuse_invalid code (err (Error.validation_error message)) = err (api_error 400 code message)
refuse_invalid code (err e) = err e

abbrev pub refuse_json : Result Json → Result Json
refuse_json (ok v) = ok v
refuse_json (err e) =
    err (api_error 400 "invalid_json" (validation_message e "Request body is not valid JSON"))

module _ (env : ApiEnv) where
  open env use {platform, unicode, json_text, rendering}

  unfoldable pub read_apply_result_body : RouterRequest → Result String
  unfolding partition strip lower_eq check_content_length read_chunks
  read_apply_result_body request =
      if not (lower_eq (strip (partition 59 request.content_type).0) "application/json")
      then err (api_error 415 "unsupported_media_type" "Content-Type must be application/json")
      else (let checked =
            if truthy request.content_length
            then check_content_length (env.python_int request.content_length)
            else ok tt in
          elim checked [
            | err e ↦ err e
            | ok u ↦ elim (read_chunks "" request.chunks) [
              | err e ↦ err e
              | ok body ↦
                  if truthy body
                  then ok body
                  else err (api_error 400 "invalid_json" "Request body must contain JSON")
            ]
          ])

  unfoldable pub parse_apply_result_json : String → Result Json
  parse_apply_result_json body = refuse_json (env.json_loads body)

  unfoldable pub apply_result_response : StoredRouterApplyResult → String → Response
  apply_result_response r etag = record {
    status_code = 200;
    content = json_text (
        obj (
          ("schema_version", int 1)
          ∷ ("result_id", int r.id)
          ∷ ("idempotency_key", text r.idempotency_key)
          ∷ ("revision", int r.revision)
          ∷ ("snapshot_sha256", text r.snapshot_sha256)
          ∷ ("outcome", text (outcome_text r.outcome))
          ∷ ("active_profile", text_or_null r.active_profile)
          ∷ ("accepted_at", text (rendering.isoformat r.created_at))
          ∷ ("replayed", bool r.replayed)
          ∷ []));
    headers = api_response_headers ++ (("ETag", etag) ∷ []);
  }

  -- The report in the body.
  unfoldable pub read_report : RouterRequest → Result ValidatedRouterApplyResult
  unfolding read_apply_result_body parse_apply_result_json
  read_report request = elim (read_apply_result_body request) [
    | err e ↦ err e
    | ok body ↦ elim (parse_apply_result_json body) [
      | err e ↦ err e
      | ok parsed ↦
          refuse_invalid "invalid_apply_result"
            (validate_router_apply_result unicode json_text platform.sha256 parsed)
    ]
  ]

  -- A report that was taken before.
  unfoldable pub find_replay :
      String
      → String
      → ValidatedRouterApplyResult
      → String
      → Action Db (Option StoredRouterApplyResult)
  unfolding find_router_apply_result_replay
  find_replay credential_id key result if_match =
      catch (find_router_apply_result_replay credential_id key result if_match) (
        on_conflict λ code current. do
          applied ← load_applied_snapshot env
          raise (replay_error applied.snapshot.revision code))

  -- A new report must be about the body that the router was given of the applied snapshot.
  unfoldable pub check_report :
      AuthenticatedRouterCredential → ValidatedRouterApplyResult → String → Action Db (Unit {0})
  check_report credential result if_match = do
    applied ← load_applied_snapshot env
    client ← of_result (client_from_applied_snapshot credential applied.config)
    single ←
        of_result (build_router_snapshot_response rendering applied client credential.router_id)
    dual ←
        of_result
          (build_router_dual_snapshot_response rendering applied client credential.router_id)
    raise_if
        (not
          (str_eq if_match (response_etag env single) || str_eq if_match (response_etag env dual)))
        (with_revision 412 "etag_mismatch" "If-Match does not match the applied router snapshot"
          (some applied.snapshot.revision))
    raise_if
        (not (result.revision == applied.snapshot.revision)
          || not (str_eq result.snapshot_sha256 applied.snapshot.payload_sha256))
        (with_revision 409 "snapshot_conflict"
          "Apply result does not reference the current applied snapshot"
          (some applied.snapshot.revision))

  unfoldable pub keep_report :
      AuthenticatedRouterCredential
      → String
      → ValidatedRouterApplyResult
      → String
      → Action Db Response
  unfolding check_report apply_result_response
  keep_report credential key result if_match = do
    check_report credential result if_match
    let_others env 2
    stored ←
        catch
          (record_router_apply_result json_text (env.clock 1) credential.credential_id key result
            if_match)
          (on_conflict λ code current. raise (record_error code current))
    pure (apply_result_response stored if_match)

  -- Without an If-Match header the answer tells the applied revision.
  unfoldable pub require_if_match : String → Action Db (Unit {0})
  unfolding char_count
  require_if_match if_match = do
    raise_if (ltb max_conditional_header (char_count if_match))
        (api_error 400 "invalid_header" "Conditional header is too long")
    if truthy if_match then pure tt else do
      applied ← load_applied_snapshot env
      raise (
          with_revision 428 "if_match_required"
            "If-Match for the applied router snapshot is required" (some applied.snapshot.revision))

  unfoldable pub router_apply_result : RouterRequest → String → Action Db Response
  unfolding require_if_match read_report find_replay keep_report apply_result_response
  router_apply_result request idempotency_key = do
    credential ← authorize_router env request "apply:write"
    let_others env 0
    raise_if (not (is_idempotency_key idempotency_key))
        (api_error 400 "invalid_idempotency_key" "Invalid idempotency key")
    require_if_match request.if_match
    result ← of_result (read_report request)
    replay ← find_replay credential.credential_id idempotency_key result request.if_match
    let_others env 1
    case_option replay (keep_report credential idempotency_key result request.if_match)
        λ stored. pure (apply_result_response stored stored.snapshot_etag)
