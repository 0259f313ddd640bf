-- ===== src/Credentials/Rotated.antt =====
-- Rotation of a credential (app/router_credentials.py, rotate_router_credential).
use text.Mathlib.TextPositions.{eq_refl}
use auto_vpn.Base.{
  ℕ, ◌≡◌, refl, ◌∙◌, String, true, false, none, some, inl, inr, Option-cases, str_eq, find,
  update_where, contains, List, [], ◌∷◌, arith,
}
use auto_vpn.Db.{Db, RouterCredential, Result-cases, ok, ◌>>=◌}
use auto_vpn.Config.{Platform}
use auto_vpn.Credentials.{
  CredentialRow, refused, authenticated, AuthenticatedRouterCredential, FailureCode, known_scopes,
  parse_token, token_of, matches, get_credential, get_router_row, join_credential,
}
use auto_vpn.Credentials.Access.{
  rotated, rotate_router_credential, rotation_refusal, write_credential, refusal,
  authenticate_router_credential, granted,
}
use auto_vpn.Credentials.Authentic.{outcome, authenticate_lem, authenticate_iff, Permitted}
use auto_vpn.Credentials.Parsing.{parse_token_iff}

module _ (platform : Platform) (now : ℕ) (i secret : String) where
  find-rotated :
      (rows : List RouterCredential)
      → find
          (λ c. str_eq c.credential_id i)
          (update_where (λ c. str_eq c.credential_id i) (rotated platform now secret) rows)
        ≡ elim (find (λ c. str_eq c.credential_id i) rows) [
          | none ↦ none
          | some c ↦ some (rotated platform now secret c)
        ]
  find-rotated [] = refl
  find-rotated (c ∷ rows) = ground (arith, find-rotated rows)

  abbrev after_rotation : Db → Db
  after_rotation db = write_credential i (rotated platform now secret) db

  rotate-writes :
      (db : Db) (t : String)
      → (rotate_router_credential platform now i secret db).0 ≡ ok t
      → (t ≡ token_of i secret)
        × ((rotate_router_credential platform now i secret db).1 ≡ after_rotation db)
  unfolding rotate_router_credential ◌>>=◌
  rotate-writes db t e = elim (Option-cases (get_credential i db)) [
    | inl f ↦ absurd (ground arith)
    | inr (c, f) ↦ elim (Result-cases (rotation_refusal platform now c.expires_at)) [
      | inl (u, g) ↦ (ground arith, ground arith)
      | inr (x, g) ↦ absurd (ground arith)
    ]
  ]

  join-rotated :
      (db : Db)
      → join_credential i (after_rotation db) ≡ elim (join_credential i db) [
        | none ↦ none
        | some row ↦ some (record row { credential = rotated platform now secret row.credential })
      ]
  unfolding join_credential
  join-rotated db = elim (Option-cases (get_credential i db)) [
    | inl f ↦ ground (arith, find-rotated db.credentials)
    | inr (c, f) ↦ elim (Option-cases (get_router_row c.router_id db)) [
      | inl g ↦ ground (arith, find-rotated db.credentials)
      | inr (r, g) ↦ ground (arith, find-rotated db.credentials)
    ]
  ]

refuse_old :
    (platform : Platform) (now : ℕ) (i secret : String) (db : Db) (later : ℕ)
    (required old : String)
    → str_eq (platform.sha256 old) (platform.sha256 secret) ≡ false
    → outcome platform later required (after_rotation platform now i secret db) (some (i, old))
      ≡ ok (refused FailureCode.invalid_token)
unfolding outcome refusal
refuse_old platform now i secret db later required old other =
    elim (Option-cases (join_credential i db)) [
      | inl f ↦ ground (arith, join-rotated platform now i secret db)
      | inr (row, f) ↦ ground (arith, join-rotated platform now i secret db)
    ]

keep_access :
    (platform : Platform) (now : ℕ) (i secret : String) (db : Db) (t : String) (later : ℕ)
    (token required old : String) (a : AuthenticatedRouterCredential)
    → t ≡ token_of i secret
    → parse_token token ≡ some (i, old)
    → matches 8 64 i ≡ true
    → matches 43 128 secret ≡ true
    → (contains required known_scopes ≡ true) × Permitted platform later token required db a
    → (authenticate_router_credential platform later t required
        (after_rotation platform now i secret db)).0
      ≡ ok (authenticated a)
unfolding granted
keep_access platform now i secret db t later token required old a told parsed hi hs
      (known, (j, used, row, parsed', joined, admits, same)) =
    let same_id : j ≡ i = ground arith in
    let after : CredentialRow = record row {
      credential = rotated platform now secret row.credential;
    } in
    (authenticate_iff platform later t required (after_rotation platform now i secret db) a).1 (
      known,
      (
        i,
        secret,
        after,
        (parse_token_iff t i secret).1 (told, hi, hs),
        join-rotated platform now i secret db ∙ ground arith,
        record {
          secret_matches = eq_refl (platform.sha256 secret);
          not_expired = admits.not_expired;
          enabled = admits.enabled;
          not_revoked = admits.not_revoked;
          client_enabled = admits.client_enabled;
          client_live = admits.client_live;
          router_enabled = admits.router_enabled;
          in_scope = admits.in_scope;
        },
        same,
      ),
    )

-- After a rotation that returns, every token of the same credential whose secret has another digest
-- than the new one is refused as invalid, at any later time and for either scope.
pub rotation_retires :
    (platform : Platform) (now : ℕ) (i secret : String) (db : Db) (t : String) (later : ℕ)
    (token required old : String)
    → (rotate_router_credential platform now i secret db).0 ≡ ok t
    → parse_token token ≡ some (i, old)
    → contains required known_scopes ≡ true
    → str_eq (platform.sha256 old) (platform.sha256 secret) ≡ false
    → (authenticate_router_credential platform later token required
        (rotate_router_credential platform now i secret db).1).0
      ≡ ok (refused FailureCode.invalid_token)
rotation_retires platform now i secret db t later token required old e parsed known other =
    rw ((rotate-writes platform now i secret db t e).1) (
      authenticate_lem platform later token required (after_rotation platform now i secret db) known
      ∙ (rw (parsed) (refuse_old platform now i secret db later required old other)))

-- A caller that had access keeps it with the token that the rotation returns: at a time and for a
-- scope at which the old token was let in before the rotation, the new one is let in after it as
-- the same caller, if the identifier and the new secret have the characters and lengths of the
-- pattern.
pub rotation_keeps_access :
    (platform : Platform) (now : ℕ) (i secret : String) (db : Db) (t : String) (later : ℕ)
    (token required old : String) (a : AuthenticatedRouterCredential)
    → (rotate_router_credential platform now i secret db).0 ≡ ok t
    → parse_token token ≡ some (i, old)
    → matches 8 64 i ≡ true
    → matches 43 128 secret ≡ true
    → (authenticate_router_credential platform later token required db).0 ≡ ok (authenticated a)
    → (authenticate_router_credential platform later t required
        (rotate_router_credential platform now i secret db).1).0
      ≡ ok (authenticated a)
rotation_keeps_access platform now i secret db t later token required old a e parsed hi hs access =
    let (told, wrote) = rotate-writes platform now i secret db t e in
    rw (wrote) (
      keep_access platform now i secret db t later token required old a told parsed hi hs
        ((authenticate_iff platform later token required db a).0 access))
