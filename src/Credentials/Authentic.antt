-- ===== src/Credentials/Authentic.antt =====
-- What a router token is granted (app/router_credentials.py, authenticate_router_credential).
use auto_vpn.Base.{
  ℕ, ◌≡◌, ◌↔◌, refl, sym, ◌∙◌, String, true, false, Option, none, some, inl, inr, Bool-cases,
  Option-cases, ◌≢◌, str_eq, contains, arith,
}
use auto_vpn.Db.{Db, ok, Result, case_option, ◌>>=◌}
use auto_vpn.Config.{Platform}
use auto_vpn.Credentials.{
  CredentialRow, AuthenticatedRouterCredential, Authentication, authenticated, refused, FailureCode,
  decode_scopes, known_scopes, join_credential, parse_token,
}
use auto_vpn.Credentials.Access.{is_expired, refusal, granted, authenticate_router_credential}

module _ (platform : Platform) (now : ℕ) (secret required : String) where
  -- What must hold of the row for a secret and a scope.
  pub record Admits (row : CredentialRow) : Type 0 where
    pub secret_matches : str_eq (platform.sha256 secret) row.credential.secret_digest ≡ true
    pub not_expired : is_expired platform now row.credential.expires_at ≡ false
    pub enabled : row.credential.enabled ≡ true
    pub not_revoked : row.credential.revoked_at ≡ none
    pub client_enabled : row.client.enabled ≡ true
    pub client_live : row.client.deleted_at ≡ none
    pub router_enabled : row.router.enabled ≡ true
    pub in_scope : contains required (decode_scopes row.credential.scopes) ≡ true

  refusal_iff :
      (row : CredentialRow) → (refusal platform now secret required row ≡ none) ↔ Admits row
  unfolding refusal
  refusal_iff row = (
    λ h. record {
      secret_matches = ground arith;
      not_expired = ground arith;
      enabled = ground arith;
      not_revoked = ground arith;
      client_enabled = ground arith;
      client_live = ground arith;
      router_enabled = ground arith;
      in_scope = ground arith;
    },
    λ h. ground arith,
  )

unfoldable pub outcome :
    Platform → ℕ → String → Db → Option (String × String) → Result Authentication
outcome platform now required db none = ok (refused FailureCode.invalid_token)
outcome platform now required db (some (i, secret)) =
    case_option (join_credential i db) (ok (refused FailureCode.invalid_token)) λ row.
      case_option (refusal platform now secret required row) (ok (authenticated (granted row)))
        λ code. ok (refused code)

pub authenticate_lem :
    (platform : Platform) (now : ℕ) (token required : String) (db : Db)
    → contains required known_scopes ≡ true
    → (authenticate_router_credential platform now token required db).0
      ≡ outcome platform now required db (parse_token token)
unfolding authenticate_router_credential ◌>>=◌ outcome
authenticate_lem platform now token required db known = elim (Option-cases (parse_token token)) [
  | inl e ↦ ground arith
  | inr ((i, secret), e) ↦ elim (Option-cases (join_credential i db)) [
    | inl f ↦ ground arith
    | inr (row, f) ↦ ground arith
  ]
]

-- The token is written for a credential that admits its secret.
abbrev pub Permits :
    Platform → ℕ → String → Db → AuthenticatedRouterCredential → Option (String × String) → Type 0
Permits platform now required db a parsed =
    (i : String) × (secret : String) × (row : CredentialRow) × (parsed ≡ some (i, secret))
    × (join_credential i db ≡ some row)
    × Admits platform now secret required row
    × (granted row ≡ a)

abbrev pub Permitted : Platform → ℕ → String → String → Db → AuthenticatedRouterCredential → Type 0
Permitted platform now token required db a = Permits platform now required db a (parse_token token)

let_in :
    (platform : Platform) (now : ℕ) (required : String) (db : Db)
    (a : AuthenticatedRouterCredential) (o : Option (String × String))
    → outcome platform now required db o ≡ ok (authenticated a)
    → Permits platform now required db a o
unfolding outcome
let_in platform now required db a none h = absurd (ground arith)
let_in platform now required db a (some (i, secret)) h =
    elim (Option-cases (join_credential i db)) [
      | inl f ↦ absurd (ground arith)
      | inr (row, f) ↦ elim (Option-cases (refusal platform now secret required row)) [
        | inl g ↦ (
          i,
          secret,
          row,
          refl,
          f,
          (refusal_iff platform now secret required row).0 g,
          ground arith,
        )
        | inr (code, g) ↦ absurd (ground arith)
      ]
    ]

permit :
    (platform : Platform) (now : ℕ) (token required : String) (db : Db)
    (a : AuthenticatedRouterCredential)
    → contains required known_scopes ≡ true
    → Permitted platform now token required db a
    → (authenticate_router_credential platform now token required db).0 ≡ ok (authenticated a)
unfolding outcome
permit platform now token required db a known (i, secret, row, e, f, admits, g) =
    let free = (refusal_iff platform now secret required row).1 admits in
    authenticate_lem platform now token required db known ∙ ground arith

unknown_scope :
    (platform : Platform) (now : ℕ) (token required : String) (db : Db)
    (a : AuthenticatedRouterCredential)
    → contains required known_scopes ≡ false
    → (authenticate_router_credential platform now token required db).0 ≢ ok (authenticated a)
unfolding authenticate_router_credential ◌>>=◌
unknown_scope platform now token required db a unknown h = ground arith

-- A token is let in exactly when the scope is one of the two known and the token is written for the
-- identifier of a credential of a router of a client, its secret has the stored digest, the
-- credential is enabled, not revoked, not expired and has the scope, and the router and the client
-- are enabled and the client is not deleted; what is granted is what these rows say.
pub authenticate_iff :
    (platform : Platform) (now : ℕ) (token required : String) (db : Db)
    (a : AuthenticatedRouterCredential)
    → ((authenticate_router_credential platform now token required db).0 ≡ ok (authenticated a))
      ↔ ((contains required known_scopes ≡ true) × Permitted platform now token required db a)
authenticate_iff platform now token required db a = (
  λ h. elim (Bool-cases (contains required known_scopes)) [
    | inl known ↦ (
      known,
      let_in platform now required db a (parse_token token)
          (sym (authenticate_lem platform now token required db known) ∙ h),
    )
    | inr unknown ↦ absurd (unknown_scope platform now token required db a unknown h)
  ],
  λ h. permit platform now token required db a h.0 h.1,
)
