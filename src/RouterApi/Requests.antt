-- ===== src/RouterApi/Requests.antt =====
-- What every handler of app/router_api.py does first: the token, the credential, the applied snapshot
-- and the client.
use auto_vpn.Base.{
  ℕ, String, Bool, false, not, ◌&&◌, ◌||◌, List, [], ◌∷◌, Option, none, some, ◌==◌, ltb,
  if◌then◌else◌, find, is_some, truthy, str_eq, char_count, is_within,
}
use auto_vpn.Db.{
  Db, Snapshot, IpChangeOperation, Result, ok, err, Error, router_api, Action, gets, modify,
  raise_if, or_raise, of_result, case_option, ◌>>=◌, ◌>>◌,
}
use auto_vpn.Config.{CapturedVpnConfig, VpnClient, Platform, enabled_clients}
use auto_vpn.Credentials.{
  AuthenticatedRouterCredential, Authentication, authenticated, refused, FailureCode,
}
use auto_vpn.Credentials.Access.{authenticate_router_credential}
use auto_vpn.ApplyResults.{Json, Unicode}
use auto_vpn.ApplyResults.Record.{get_applied_snapshot}
use auto_vpn.Server.Texts.{partition, lower_eq}
use auto_vpn.Server.Settings.{config_bool}
use auto_vpn.RouterApi.Payloads.{AppliedSnapshot, Rendering}

-- The body comes in pieces. A byte is a character below 256.
pub record RouterRequest : Type 0 where
  pub authorization : String
  pub if_none_match : String
  pub if_match : String
  pub content_type : String
  pub content_length : String
  pub chunks : List String

pub record Response : Type 0 where
  pub status_code : ℕ
  pub content : String
  pub headers : List (String × String)

-- The environment of a request. Between the transactions of a handler others may change the
-- database: `between n` is what they do after the n-th, when the clock shows `clock n`.
-- `json_text` is the canonical JSON. `json_loads` reports what the hooks of the reader find wrong as a
-- `validation_error`. `python_int` is the sign and the magnitude of a number that `int` reads.
pub record ApiEnv : Type 0 where
  pub platform : Platform
  pub unicode : Unicode
  pub rendering : Rendering
  pub json_text : Json → String
  pub json_loads : String → Result Json
  pub python_int : String → Option (Bool × ℕ)
  pub enable_router_api : Bool
  pub clock : ℕ → ℕ
  pub between : ℕ → Db → Db

abbrev pub api_error : ℕ → String → String → Error
api_error status code message =
    router_api
      (record { status_code = status; code = code; message = message; headers = []; extra = none })

abbrev pub unauthorized : Error
unauthorized = router_api (record {
  status_code = 401;
  code = "invalid_token";
  message = "Bearer authentication required";
  headers = ("WWW-Authenticate", "Bearer realm=\"router-api\"") ∷ [];
  extra = none;
})

abbrev pub snapshot_not_ready : String → Error
snapshot_not_ready message = router_api (record {
  status_code = 503;
  code = "snapshot_not_ready";
  message = message;
  headers = ("Retry-After", "30") ∷ [];
  extra = none;
})

abbrev pub with_revision : ℕ → String → String → Option ℕ → Error
with_revision status code message current = router_api (record {
  status_code = status;
  code = code;
  message = message;
  headers = [];
  extra = some current;
})

abbrev pub api_response_headers : List (String × String)
api_response_headers =
    ("Cache-Control", "private, no-store")
    ∷ ("Referrer-Policy", "no-referrer")
    ∷ ("Vary", "Authorization")
    ∷ []

abbrev pub max_authorization_header : ℕ
max_authorization_header = 512

abbrev pub max_conditional_header : ℕ
max_conditional_header = 256

-- `Bearer TOKEN`, where the token has no space.
abbrev pub is_bearer : String → String → Bool
is_bearer scheme token = lower_eq scheme "bearer" && (truthy token && not (is_within " " token))

unfoldable pub bearer_token : String → Result String
unfolding partition lower_eq is_within char_count
bearer_token authorization =
    if not (truthy authorization) || ltb max_authorization_header (char_count authorization)
    then err unauthorized
    else (let (scheme, rest) = partition 32 authorization in
        elim rest [
          | none ↦ err unauthorized
          | some token ↦ if is_bearer scheme token then ok token else err unauthorized
        ])

-- The answer to a refused credential.
abbrev pub failure_error : FailureCode → Error
failure_error FailureCode.invalid_token = unauthorized
failure_error FailureCode.credential_forbidden =
    api_error 403 "credential_forbidden" "Router credential is disabled or revoked"
failure_error FailureCode.client_forbidden =
    api_error 403 "client_forbidden" "Router credential client is disabled"
failure_error FailureCode.router_forbidden = api_error 403 "router_forbidden" "Router is disabled"
failure_error FailureCode.insufficient_scope =
    api_error 403 "insufficient_scope" "Router credential lacks the required scope"

unfoldable pub admitted : Authentication → Result AuthenticatedRouterCredential
admitted (authenticated c) = ok c
admitted (refused code) = err (failure_error code)

-- The time when an IP change published the revision.
abbrev pub is_publication : ℕ → IpChangeOperation → Bool
is_publication revision r = elim r.published_revision [
  | none ↦ false
  | some n ↦ n == revision && is_some r.published_at
]

abbrev pub publication_time : ℕ → Db → Option ℕ
publication_time revision db =
    case_option (find (is_publication revision) db.ip_changes) none λ r. r.published_at

unfoldable pub client_from_applied_snapshot :
    AuthenticatedRouterCredential → CapturedVpnConfig → Result VpnClient
client_from_applied_snapshot credential config =
    case_option (find (λ c. c.id == credential.client_id) (enabled_clients config))
      (err (
        api_error 409 "client_not_applied"
          "Router credential client is not present in the applied snapshot"))
      ok

module _ (env : ApiEnv) where
  open env use {platform}

  -- What others do after the n-th transaction.
  abbrev pub let_others : ℕ → Action Db (Unit {0})
  let_others n = modify (env.between n)

  unfoldable pub authorize_router : RouterRequest → String → Action Db AuthenticatedRouterCredential
  unfolding bearer_token admitted
  authorize_router request required_scope = do
    enabled ← gets (config_bool "enable_router_api" env.enable_router_api)
    raise_if (not enabled) (api_error 404 "not_found" "Resource not found")
    token ← of_result (bearer_token request.authorization)
    answer ← authenticate_router_credential platform (env.clock 0) token required_scope
    of_result (admitted answer)

  -- The snapshot's text must have the digest that is stored with it.
  unfoldable pub read_snapshot : Snapshot → Option ℕ → Result AppliedSnapshot
  read_snapshot snapshot published_at =
      if not (str_eq (platform.sha256 snapshot.payload_json) snapshot.payload_sha256)
      then err (snapshot_not_ready "Applied VPN snapshot is unavailable")
      else elim (platform.captured_vpn_config_from_json snapshot.payload_json) [
        | err e ↦ err (snapshot_not_ready "Applied VPN snapshot is unavailable")
        | ok config ↦
            ok (record { snapshot = snapshot; config = config; published_at = published_at })
      ]

  unfoldable pub load_applied_snapshot : Action Db AppliedSnapshot
  unfolding read_snapshot
  load_applied_snapshot = do
    applied ← gets (λ db. db.vpn_state.applied_revision)
    revision ← or_raise applied (snapshot_not_ready "No applied VPN snapshot is available")
    found ← gets (get_applied_snapshot revision)
    snapshot ← or_raise found (snapshot_not_ready "No applied VPN snapshot is available")
    published_at ← gets (publication_time revision)
    of_result (read_snapshot snapshot published_at)
