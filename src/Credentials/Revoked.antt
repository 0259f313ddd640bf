-- ===== src/Credentials/Revoked.antt =====
-- A revoked credential stays out (app/router_credentials.py).
use auto_vpn.Base.{
  ℕ, ◌≡◌, ◌≢◌, refl, ap, subst, ◌==◌, ◌∙◌, String, true, List, [], ◌∷◌, some, inl, inr,
  Option-cases, find, str_eq, eq_iff, update_where, arith,
}
use auto_vpn.Db.{Db, RouterCredential, ok, ◌>>=◌}
use auto_vpn.Config.{Platform}
use auto_vpn.Credentials.{
  CredentialRow, get_credential, get_router_row, authenticated, AuthenticatedRouterCredential,
  join_credential,
}
use auto_vpn.Credentials.Access.{
  revoke_router_credential, authenticate_router_credential, granted, disabled,
}
use auto_vpn.Credentials.Authentic.{authenticate_iff}
use auto_vpn.Credentials.Disabled.{IsOut, serve_all-IsOut}
use auto_vpn.Credentials.Requests.{Request, serve_all, DrawsNot}

module _ (i : String) where
  disabled-IsOut :
      (now : ℕ) (rows : List RouterCredential)
      → IsOut i (update_where (λ c. str_eq c.credential_id i) (disabled now) rows)
  disabled-IsOut now [] = refl
  disabled-IsOut now (c ∷ rows) = ground (arith, disabled-IsOut now rows)

  revoke-IsOut :
      (now : ℕ) (db : Db)
      → (revoke_router_credential now i db).0 ≡ ok tt
      → IsOut i (revoke_router_credential now i db).1.credentials
  unfolding revoke_router_credential ◌>>=◌
  revoke-IsOut now db e = ground (arith, disabled-IsOut now db.credentials)

  found_enabled :
      (j : String) (rows : List RouterCredential) (c : RouterCredential)
      → find (λ c. str_eq c.credential_id j) rows ≡ some c
      → c.enabled ≡ true
      → IsOut i rows
      → c.credential_id ≢ i
  found_enabled j [] c e t h = absurd (ground arith)
  found_enabled j (r ∷ rows) c e t h =
      ground (arith, found_enabled j rows c, eq_iff r.credential_id i)

  joined_enabled :
      (j : String) (db : Db) (row : CredentialRow)
      → join_credential j db ≡ some row
      → row.credential.enabled ≡ true
      → IsOut i db.credentials
      → row.credential.credential_id ≢ i
  unfolding join_credential
  joined_enabled j db row e t h = elim (Option-cases (get_credential j db)) [
    | inl f ↦ absurd (ground arith)
    | inr (c, f) ↦ elim (Option-cases (get_router_row c.router_id db)) [
      | inl g ↦ absurd (ground arith)
      | inr (r, g) ↦ elim (Option-cases (find (λ u. u.id == r.client_id) db.clients)) [
        | inl k ↦ absurd (ground arith)
        | inr (u, k) ↦
            let same : c ≡ row.credential = ground arith in
            subst (λ d. d.credential_id ≢ i) same
              (found_enabled j db.credentials c f (ap (λ d. d.enabled) same ∙ t) h)
      ]
    ]
  ]

-- Once a credential is revoked, no token is let in for it again: whatever requests follow on routers,
-- credentials and deleted clients, in any order, as long as none of them draws the same identifier
-- for a new credential, what a later authentication grants is another credential.
pub revoked_stays_out :
    (platform : Platform) (now : ℕ) (i : String) (db : Db) (rs : List (ℕ × Request)) (later : ℕ)
    (token required : String) (a : AuthenticatedRouterCredential)
    → (revoke_router_credential now i db).0 ≡ ok tt
    → DrawsNot i rs
    → (authenticate_router_credential platform later token required
        (serve_all platform rs (revoke_router_credential now i db).1)).0
      ≡ ok (authenticated a)
    → a.credential_id ≢ i
unfolding granted
revoked_stays_out platform now i db rs later token required a revoked fresh e =
    let after = serve_all platform rs (revoke_router_credential now i db).1 in
    let (j, secret, row, parsed, joined, admits, same) =
      ((authenticate_iff platform later token required after a).0 e).1 in
    subst (λ g. g.credential_id ≢ i) same
      (joined_enabled i j after row joined admits.enabled
        (serve_all-IsOut i platform rs _ fresh (revoke-IsOut i now db revoked)))
