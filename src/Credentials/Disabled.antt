-- ===== src/Credentials/Disabled.antt =====
-- No request but an issue enables a credential (app/router_credentials.py).
use auto_vpn.Base.{
  ℕ, ◌≡◌, ◌≢◌, String, Bool, true, false, ◌&&◌, List, [], ◌∷◌, Option, none, some, inl, inr,
  Option-cases, any, select, str_eq, eq_iff, update_where, arith,
}
use auto_vpn.Db.{
  Db, RouterCredential, Gives, Gives-bind, Gives-pure, Gives-read, Gives-modify, Gives-case_option,
  Keeps, Keeps-bind, Keeps-of_result, Keeps-raise_if, get_db-Keeps, delete_routers,
  delete_credentials, delete_clients, Client, Router,
}
use auto_vpn.Config.{Platform}
use auto_vpn.Clients.{purge_applied_deleted_clients}
use auto_vpn.Credentials.{RouterDraw, CredentialDraw, delete_router}
use auto_vpn.Credentials.Access.{
  insert_credential, assigned_router, issue_router_credential, rotate_router_credential,
  revoke_router_credential, authenticate_router_credential, new_credential, disabled,
}
use auto_vpn.Credentials.Still.{
  known-Gives, checked-Gives, guard-Gives, mark-Gives, ensure-Gives, insert_router-Gives,
  client-Gives, create_router-Keeps, set_router_enabled-Keeps, update_router_label-Keeps,
}
use auto_vpn.Credentials.Requests.{Request, serve, serve_all, DrawsNot}

module _ (i : String) where
  abbrev pub is_enabled_credential : RouterCredential → Bool
  is_enabled_credential c = str_eq c.credential_id i && c.enabled

  -- No credential with this identifier is enabled.
  abbrev pub IsOut : List RouterCredential → Type 0
  IsOut rows = any is_enabled_credential rows ≡ false

  select-IsOut :
      (keep : RouterCredential → Bool) (rows : List RouterCredential)
      → IsOut rows
      → IsOut (select keep rows)
  select-IsOut keep [] h = h
  select-IsOut keep (c ∷ rows) h = ground (arith, select-IsOut keep rows)

  update-IsOut :
      (p : RouterCredential → Bool) (f : RouterCredential → RouterCredential)
      → ((c : RouterCredential)
          → is_enabled_credential (f c) ≡ true
          → is_enabled_credential c ≡ true)
      → (rows : List RouterCredential) → IsOut rows
      → IsOut (update_where p f rows)
  update-IsOut p f keeps [] h = h
  update-IsOut p f keeps (c ∷ rows) h = ground (arith, keeps c, update-IsOut p f keeps rows)

  delete_routers-IsOut :
      (gone : Router → Bool) (db : Db)
      → IsOut db.credentials
      → IsOut (delete_routers gone db).credentials
  unfolding delete_routers
  delete_routers-IsOut gone db h = select-IsOut _ db.credentials h

  delete_clients-IsOut :
      (gone : Client → Bool) (db : Db)
      → IsOut db.credentials
      → IsOut (delete_clients gone db).credentials
  unfolding delete_clients delete_routers delete_credentials
  delete_clients-IsOut gone db h = select-IsOut _ _ (select-IsOut _ db.credentials h)

  purge-IsOut :
      (db : Db) → IsOut db.credentials → IsOut (purge_applied_deleted_clients db).credentials
  unfolding purge_applied_deleted_clients
  purge-IsOut db h = elim (Option-cases db.vpn_state.applied_revision) [
    | inl e ↦ rw e h
    | inr (n, e) ↦ rw e (delete_clients-IsOut _ db h)
  ]

  abbrev Out : Db → Type 0
  Out db = IsOut db.credentials

  delete_router-Keeps :
      (platform : Platform) (now : ℕ) (router_id : String)
      → Keeps Out (delete_router platform now router_id)
  unfolding delete_router
  delete_router-Keeps platform now router_id = Keeps-bind (Keeps-of_result _) λ r. get_db-Keeps (
      Gives-bind (Gives-read _) λ found. Gives-bind (guard-Gives (λ _. IsOut) _ _) λ _.
        Gives-bind (mark-Gives (λ _. IsOut) platform now)
          λ _. Gives-modify _ {Q = Out} (delete_routers-IsOut _))

  rotate-Keeps :
      (platform : Platform) (now : ℕ) (j secret : String)
      → Keeps Out (rotate_router_credential platform now j secret)
  unfolding rotate_router_credential
  rotate-Keeps platform now j secret = Keeps-bind (Keeps-raise_if _ _) λ _. get_db-Keeps (
      Gives-bind (Gives-read _) λ found. Gives-bind (known-Gives (λ _. IsOut) found _) λ existing.
        Gives-bind (guard-Gives (λ _. IsOut) _ _) λ _.
          Gives-bind (checked-Gives (λ _. IsOut) _) λ _.
            Gives-bind
              (Gives-modify _ {Q = Out} (λ db h. update-IsOut _ _ (λ c k. k) db.credentials h))
              λ _. Gives-pure _ (λ s h. h))

  revoke-Keeps : (now : ℕ) (j : String) → Keeps Out (revoke_router_credential now j)
  unfolding revoke_router_credential
  revoke-Keeps now j = Keeps-bind (Keeps-raise_if _ _) λ _. get_db-Keeps (
      Gives-bind (Gives-read _) λ found. Gives-bind (guard-Gives (λ _. IsOut) _ _) λ _.
        Gives-modify _ {Q = Out}
          (λ db h. update-IsOut _ (disabled now) (λ c k. absurd (ground arith)) db.credentials h))

  authenticate-Keeps :
      (platform : Platform) (now : ℕ) (token required : String)
      → Keeps Out (authenticate_router_credential platform now token required)
  unfolding authenticate_router_credential
  authenticate-Keeps platform now token required = Keeps-bind (Keeps-raise_if _ _) λ _.
      get_db-Keeps (
        Gives-bind (Gives-read _) λ row. Gives-case_option row (Gives-pure _ (λ s h. h)) λ r.
          Gives-case_option _
            (Gives-bind
              (Gives-modify _ {Q = Out} (λ db h. update-IsOut _ _ (λ c k. k) db.credentials h))
              λ _. Gives-pure _ (λ s h. h))
            λ code. Gives-pure _ (λ s h. h))

  assigned-Gives :
      (now : ℕ) (drawn : String) (router_id : Option String) (client_id : ℕ) (label : String)
      → Gives Out (assigned_router now drawn router_id client_id label) (λ _. Out)
  unfolding assigned_router
  assigned-Gives now drawn none client_id label =
      Gives-bind (insert_router-Gives IsOut now drawn client_id label) λ _. Gives-pure _ (λ s h. h)
  assigned-Gives now drawn (some router_id) client_id label =
      Gives-bind (checked-Gives (λ _. IsOut) _) λ j.
        Gives-bind (Gives-read _)
          λ router. Gives-bind (known-Gives (λ _. IsOut) router _) λ _. Gives-pure _ (λ s h. h)

  other-IsOut :
      (c : RouterCredential) (rows : List RouterCredential)
      → c.credential_id ≢ i
      → IsOut rows
      → IsOut (c ∷ rows)
  other-IsOut c rows other h = ground (arith, eq_iff c.credential_id i)

  issue-Keeps :
      (platform : Platform) (now : ℕ) (router_draw : RouterDraw) (drawn : CredentialDraw)
      (client_id : ℕ) (scopes : List String) (expires_at : Option String) (label : String)
      (router_id : Option String)
      → drawn.credential_id ≢ i
      → Keeps Out (
          issue_router_credential platform now router_draw drawn client_id scopes expires_at label
            router_id)
  unfolding issue_router_credential insert_credential
  issue-Keeps platform now router_draw drawn client_id scopes expires_at label router_id other =
      Keeps-bind (Keeps-of_result _) λ normalized. Keeps-bind (Keeps-of_result _) λ label'.
        Keeps-bind (Keeps-of_result _) λ expiry. get_db-Keeps (
          Gives-bind (client-Gives (λ _. IsOut) client_id) λ _.
            Gives-bind (assigned-Gives now _ router_id client_id label') λ assigned.
              Gives-bind (ensure-Gives (λ _. IsOut) platform now _ _ _ _) λ _.
                Gives-bind
                  (Gives-bind (Gives-read _) λ clash. Gives-bind (guard-Gives (λ _. IsOut) _ _) λ _.
                    Gives-modify _ {Q = Out} (λ db h.
                      other-IsOut
                        (new_credential platform now drawn normalized expiry label' assigned
                          client_id)
                        db.credentials other h))
                  λ _. Gives-pure _ (λ s h. h))

  serve-IsOut :
      (platform : Platform) (r : ℕ × Request) (rs : List (ℕ × Request)) (db : Db)
      → DrawsNot i (r ∷ rs)
      → IsOut db.credentials
      → IsOut (serve platform r db).credentials × DrawsNot i rs
  unfolding serve
  serve-IsOut platform (now, Request.create drawn name client_id) rs db d h =
      ((create_router-Keeps IsOut platform now drawn name client_id).at db h, d)
  serve-IsOut platform (now, Request.enable router_id enabled) rs db d h =
      ((set_router_enabled-Keeps IsOut platform now router_id enabled).at db h, d)
  serve-IsOut platform (now, Request.rename router_id name) rs db d h =
      ((update_router_label-Keeps IsOut now router_id name).at db h, d)
  serve-IsOut platform (now, Request.rotate j secret) rs db d h =
      ((rotate-Keeps platform now j secret).at db h, d)
  serve-IsOut platform (now, Request.authenticate token required) rs db d h =
      ((authenticate-Keeps platform now token required).at db h, d)
  serve-IsOut platform (now, Request.delete router_id) rs db d h =
      ((delete_router-Keeps platform now router_id).at db h, d)
  serve-IsOut platform (now, Request.revoke j) rs db d h = ((revoke-Keeps now j).at db h, d)
  serve-IsOut platform
        (now, Request.issue router_draw drawn client_id scopes expires_at label router_id) rs db d
        h =
      (
        (issue-Keeps platform now router_draw drawn client_id scopes expires_at label router_id
              d.0).at
            db h,
        d.1,
      )
  serve-IsOut platform (now, Request.purge) rs db d h = (purge-IsOut db h, d)

  pub serve_all-IsOut :
      (platform : Platform) (rs : List (ℕ × Request)) (db : Db)
      → DrawsNot i rs
      → IsOut db.credentials
      → IsOut (serve_all platform rs db).credentials
  unfolding serve_all
  serve_all-IsOut platform [] db d h = h
  serve_all-IsOut platform (r ∷ rs) db d h =
      let (kept, rest) = serve-IsOut platform r rs db d h in
      serve_all-IsOut platform rs (serve platform r db) rest kept
