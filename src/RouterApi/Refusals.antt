-- ===== src/RouterApi/Refusals.antt =====
-- Who is refused by the router API (app/router_api.py, authorize_router), and that nothing is done for
-- it.
use auto_vpn.Base.{
  ℕ, ◌≡◌, refl, ◌⊎◌, inl, inr, String, Bool, true, false, not, ◌||◌, ◌==◌, Bool-cases, Option-cases,
  contains, truthy, ltb, char_count, arith,
}
use auto_vpn.Db.{Db, ok, err, Error, Action, bind_err, ◌>>=◌}
use auto_vpn.Config.{Platform}
use auto_vpn.Credentials.{
  AuthenticatedRouterCredential, authenticated, refused, FailureCode, known_scopes, parse_token,
  join_credential,
}
use auto_vpn.Credentials.Access.{granted, refusal, authenticate_router_credential}
use auto_vpn.Credentials.Authentic.{Permitted, authenticate_iff}
use auto_vpn.Server.Settings.{config_bool}
use auto_vpn.RouterApi.Requests.{
  ApiEnv, RouterRequest, Response, api_error, unauthorized, failure_error, admitted, bearer_token,
  authorize_router, max_authorization_header, is_bearer,
}
use auto_vpn.Server.Texts.{partition}
use auto_vpn.RouterApi.Handlers.{
  served_body, serve_snapshot, router_snapshot, router_snapshot_dual, router_auxiliary_amnezia,
}
use auto_vpn.RouterApi.Reports.{router_apply_result}

-- 401, 403 or 404.
abbrev pub is_refusal : Error → Bool
is_refusal (Error.router_api e) =
    e.status_code == 401 || (e.status_code == 403 || e.status_code == 404)
is_refusal _ = false

failure_refuses : (code : FailureCode) → is_refusal (failure_error code) ≡ true
failure_refuses FailureCode.invalid_token = refl
failure_refuses FailureCode.credential_forbidden = refl
failure_refuses FailureCode.client_forbidden = refl
failure_refuses FailureCode.router_forbidden = refl
failure_refuses FailureCode.insufficient_scope = refl

-- A refused token changes nothing.
authenticate-cases :
    (platform : Platform) (now : ℕ) (token scope : String) (db : Db)
    → contains scope known_scopes ≡ true
    → ((c : AuthenticatedRouterCredential) × ((authenticate_router_credential platform now token
            scope db).0
          ≡ ok (authenticated c)))
      ⊎ ((code : FailureCode) × (authenticate_router_credential platform now token scope db
            ≡ (ok (refused code), db)))
unfolding authenticate_router_credential ◌>>=◌
authenticate-cases platform now token scope db known = elim (Option-cases (parse_token token)) [
  | inl e ↦ inr (FailureCode.invalid_token, ground arith)
  | inr ((i, secret), e) ↦ elim (Option-cases (join_credential i db)) [
    | inl f ↦ inr (FailureCode.invalid_token, ground arith)
    | inr (row, f) ↦ elim (Option-cases (refusal platform now secret scope row)) [
      | inl g ↦ inl (granted row, ground arith)
      | inr (code, g) ↦ inr (code, ground arith)
    ]
  ]
]

bearer-cases :
    (authorization : String)
    → ((token : String) × (bearer_token authorization ≡ ok token))
      ⊎ (bearer_token authorization ≡ err unauthorized)
unfolding bearer_token
bearer-cases authorization =
    elim (Bool-cases
      (not (truthy authorization) || ltb max_authorization_header (char_count authorization))) [
        | inl long ↦ inr (ground (arith, long))
        | inr short ↦ elim (Option-cases (partition 32 authorization).1) [
          | inl f ↦ inr (ground (arith, short, f))
          | inr (token, f) ↦ elim (Bool-cases (is_bearer (partition 32 authorization).0 token)) [
            | inl b ↦ inl (token, ground (arith, short, f, b))
            | inr b ↦ inr (ground (arith, short, f, b))
          ]
        ]
      ]

-- The router API is on, and the request is let in with a credential. Its bearer token is written for
-- that credential, whose row admits it at the time, for the scope: by its secret, its expiry, its
-- scopes, and by the state of the credential, its router and its client.
pub record LetIn (env : ApiEnv) (request : RouterRequest) (scope : String) (db : Db)
    (c : AuthenticatedRouterCredential) : Type 0 where
  pub token : String
  pub is_on : config_bool "enable_router_api" env.enable_router_api db ≡ true
  pub authorized : (authorize_router env request scope db).0 ≡ ok c
  pub bearer : bearer_token request.authorization ≡ ok token
  pub permitted : Permitted env.platform (env.clock 0) token scope db c

-- A request is let in, with the credential of its token, or it is refused: HTTP 401, 403 or 404, with
-- nothing changed.
authorize-cases :
    (env : ApiEnv) (request : RouterRequest) (scope : String) (db : Db)
    → contains scope known_scopes ≡ true
    → ((c : AuthenticatedRouterCredential) × LetIn env request scope db c)
      ⊎ ((e : Error) × (authorize_router env request scope db ≡ (err e, db))
          × (is_refusal e ≡ true))
unfolding authorize_router admitted ◌>>=◌
authorize-cases env request scope db known =
    elim (Bool-cases (config_bool "enable_router_api" env.enable_router_api db)) [
      | inr off ↦ inr (api_error 404 "not_found" "Resource not found", ground arith, refl)
      | inl on ↦ elim (bearer-cases request.authorization) [
        | inr bad ↦ inr (unauthorized, ground arith, refl)
        | inl (token, good) ↦
            elim (authenticate-cases env.platform (env.clock 0) token scope db known) [
              | inl (c, e) ↦ inl (
                c,
                record {
                  token = token;
                  is_on = on;
                  authorized = ground arith;
                  bearer = good;
                  permitted =
                      ((authenticate_iff env.platform (env.clock 0) token scope db c).0 e).1;
                },
              )
              | inr (code, e) ↦ inr (failure_error code, ground arith, failure_refuses code)
            ]
      ]
    ]

-- Either the request is let in for the scope, or it is refused with nothing changed.
abbrev pub Guarded : ApiEnv → RouterRequest → String → Db → Action Db Response → Type 0
Guarded env request scope db handler =
    ((c : AuthenticatedRouterCredential) × LetIn env request scope db c)
    ⊎ ((e : Error) × (is_refusal e ≡ true) × (handler db ≡ (err e, db)))

guarded :
    (env : ApiEnv) (request : RouterRequest) (scope : String) (db : Db)
    → contains scope known_scopes ≡ true
    → (handler : Action Db Response)
    → ((e : Error) → authorize_router env request scope db ≡ (err e, db) → handler db ≡ (err e, db))
    → Guarded env request scope db handler
guarded env request scope db known handler refuses =
    elim (authorize-cases env request scope db known) [
      | inl granted_to ↦ inl granted_to
      | inr (e, turned_away, status) ↦ inr (e, status, refuses e turned_away)
    ]

-- Every handler of the router API either lets the request in, with a credential that its bearer token
-- is written for and whose row admits the token at that time for the scope that the handler asks for (to
-- read a snapshot or to report on one), or answers HTTP 401, 403 or 404 and leaves the database as it
-- was.
pub handlers-Guarded :
    (env : ApiEnv) (request : RouterRequest) (key : String) (db : Db)
    → Guarded env request "snapshot:read" db (router_snapshot env request)
      × Guarded env request "snapshot:read" db (router_snapshot_dual env request)
      × Guarded env request "snapshot:read" db (router_auxiliary_amnezia env request)
      × Guarded env request "apply:write" db (router_apply_result env request key)
unfolding router_snapshot router_snapshot_dual serve_snapshot served_body router_auxiliary_amnezia
    router_apply_result
handlers-Guarded env request key db = (
  guarded env request "snapshot:read" db refl (router_snapshot env request)
      (λ e h. bind_err _ _ db db e (bind_err _ _ db db e h)),
  guarded env request "snapshot:read" db refl (router_snapshot_dual env request)
      (λ e h. bind_err _ _ db db e (bind_err _ _ db db e h)),
  guarded env request "snapshot:read" db refl (router_auxiliary_amnezia env request)
      (λ e h. bind_err _ _ db db e h),
  guarded env request "apply:write" db refl (router_apply_result env request key)
      (λ e h. bind_err _ _ db db e h),
)
