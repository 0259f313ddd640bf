-- ===== src/Credentials/OneRouter.antt =====
-- A client has at most one router (app/router_credentials.py).
use auto_vpn.Base.{
  ℕ, ◌≡◌, refl, sym, ◌∙◌, String, Bool, true, false, not, ◌&&◌, List, [], ◌∷◌, Option, none, some,
  inl, inr, ◌==◌, Option-cases, any, select, update_where, str_eq, arith,
}
use auto_vpn.Db.{
  Db, Router, RouterCredential, Gives, Gives-bind, Gives-pure, Gives-read, Gives-gets,
  Gives-raise_if, Gives-modify, Gives-when, Gives-case_option, Keeps, Keeps-bind, Keeps-of_result,
  Keeps-raise_if, get_db-Keeps, delete_routers, delete_clients, delete_credentials,
}
use auto_vpn.Config.{Platform}
use auto_vpn.Lease.{iso}
use auto_vpn.Clients.{purge_applied_deleted_clients}
use auto_vpn.Credentials.{
  RouterDraw, CredentialDraw, new_router, insert_router, create_router, set_router_enabled,
  update_router_label, delete_router,
}
use auto_vpn.Credentials.Access.{
  insert_credential, assigned_router, issue_router_credential, rotate_router_credential,
  revoke_router_credential, authenticate_router_credential,
}
use auto_vpn.Credentials.Still.{
  known-Gives, checked-Gives, guard-Gives, mark-Gives, ensure-Gives, client-Gives,
}
use auto_vpn.Credentials.Requests.{Request, serve, serve_all}

abbrev pub has_router : ℕ → List Router → Bool
has_router i = any λ r. r.client_id == i

-- No two routers belong to one client.
abbrev pub is_one_to_client : List Router → Bool
is_one_to_client [] = true
is_one_to_client (r ∷ rs) = not (has_router r.client_id rs) && is_one_to_client rs

abbrev Lone : List Router → List RouterCredential → Type 0
Lone routers credentials = is_one_to_client routers ≡ true

abbrev IsLone : Db → Type 0
IsLone db = is_one_to_client db.routers ≡ true

module _ (keep : Router → Bool) where
  has_router-select :
      (i : ℕ) (rows : List Router)
      → has_router i (select keep rows) ≡ true
      → has_router i rows ≡ true
  has_router-select i [] h = h
  has_router-select i (r ∷ rows) h = ground (arith, has_router-select i rows)

  select-Lone :
      (rows : List Router)
      → is_one_to_client rows ≡ true
      → is_one_to_client (select keep rows) ≡ true
  select-Lone [] h = h
  select-Lone (r ∷ rows) h = ground (arith, select-Lone rows, has_router-select r.client_id rows)

module _ (p : Router → Bool) (f : Router → Router)
    (same : (r : Router) → (f r).client_id ≡ r.client_id) where
  has_router-update :
      (i : ℕ) (rows : List Router) → has_router i (update_where p f rows) ≡ has_router i rows
  has_router-update i [] = refl
  has_router-update i (r ∷ rows) = ground (arith, same r, has_router-update i rows)

  update-Lone :
      (rows : List Router)
      → is_one_to_client rows ≡ true
      → is_one_to_client (update_where p f rows) ≡ true
  update-Lone [] h = h
  update-Lone (r ∷ rows) h =
      ground (arith, same r, update-Lone rows, has_router-update r.client_id rows)

insert-Gives :
    (now : ℕ) (router_id : String) (client_id : ℕ) (label : String)
    → Gives IsLone (insert_router now router_id client_id label) (λ _. IsLone)
unfolding insert_router
insert-Gives now router_id client_id label = Gives-bind (Gives-gets _) λ taken.
    Gives-bind (Gives-raise_if taken _) λ _. Gives-bind (Gives-read _) λ clash.
      Gives-bind (Gives-raise_if _ _) λ _.
        Gives-bind
          (Gives-modify _ {Q = IsLone} (λ db h. add_router db (h.0.0.0) (sym (h.0.0.1) ∙ h.0.1)))
          λ _. Gives-pure _ (λ s h. h)
  where
    add_router :
        (db : Db)
        → IsLone db
        → has_router client_id db.routers ≡ false
        → IsLone (record db { routers = new_router now router_id client_id label ∷ db.routers })
    add_router db h free = ground arith

create-Keeps :
    (platform : Platform) (now : ℕ) (drawn : RouterDraw) (name : String) (client_id : ℕ)
    → Keeps IsLone (create_router platform now drawn name client_id)
unfolding create_router
create-Keeps platform now drawn name client_id = Keeps-bind (Keeps-of_result _) λ label.
    get_db-Keeps (
      Gives-bind (client-Gives Lone client_id) λ _.
        Gives-bind (insert-Gives now _ client_id label) λ router.
          Gives-bind (ensure-Gives Lone platform now _ _ _ _) λ _. Gives-pure _ (λ s h. h))

enable-Keeps :
    (platform : Platform) (now : ℕ) (router_id : String) (enabled : Bool)
    → Keeps IsLone (set_router_enabled platform now router_id enabled)
unfolding set_router_enabled
enable-Keeps platform now router_id enabled = Keeps-bind (Keeps-of_result _) λ i. get_db-Keeps (
    Gives-bind (Gives-read _) λ found. Gives-bind (known-Gives Lone found _) λ router.
      Gives-when _ (
        Gives-bind
          (Gives-modify _ {Q = IsLone} (λ db h.
            update-Lone (λ r. str_eq r.router_id i)
              (λ r. record r { enabled = enabled; updated_at = iso now }) (λ r. refl) db.routers h))
          λ _. Gives-bind (mark-Gives Lone platform now) λ _. Gives-pure _ (λ s h. h)))

rename-Keeps :
    (now : ℕ) (router_id name : String) → Keeps IsLone (update_router_label now router_id name)
unfolding update_router_label
rename-Keeps now router_id name = Keeps-bind (Keeps-of_result _) λ i.
    Keeps-bind (Keeps-of_result _) λ label. get_db-Keeps (
      Gives-bind (Gives-read _) λ found. Gives-bind (guard-Gives Lone _ _) λ _.
        Gives-modify _ {Q = IsLone} (λ db h.
          update-Lone (λ r. str_eq r.router_id i)
            (λ r. record r { label = label; updated_at = iso now }) (λ r. refl) db.routers h))

delete-Keeps :
    (platform : Platform) (now : ℕ) (router_id : String)
    → Keeps IsLone (delete_router platform now router_id)
unfolding delete_router delete_routers
delete-Keeps platform now router_id = Keeps-bind (Keeps-of_result _) λ r. get_db-Keeps (
    Gives-bind (Gives-read _) λ found. Gives-bind (guard-Gives Lone _ _) λ _.
      Gives-bind (mark-Gives Lone platform now)
        λ _. Gives-modify _ {Q = IsLone} (λ db h. select-Lone _ db.routers h))

rotate-Keeps :
    (platform : Platform) (now : ℕ) (i secret : String)
    → Keeps IsLone (rotate_router_credential platform now i secret)
unfolding rotate_router_credential
rotate-Keeps platform now i secret = Keeps-bind (Keeps-raise_if _ _) λ _. get_db-Keeps (
    Gives-bind (Gives-read _) λ found. Gives-bind (known-Gives Lone found _) λ existing.
      Gives-bind (guard-Gives Lone _ _) λ _.
        Gives-bind (checked-Gives Lone _)
          λ _. Gives-bind (Gives-modify _ {Q = IsLone} (λ db h. h)) λ _. Gives-pure _ (λ s h. h))

revoke-Keeps : (now : ℕ) (i : String) → Keeps IsLone (revoke_router_credential now i)
unfolding revoke_router_credential
revoke-Keeps now i = Keeps-bind (Keeps-raise_if _ _) λ _. get_db-Keeps (
    Gives-bind (Gives-read _)
      λ found. Gives-bind (guard-Gives Lone _ _) λ _. Gives-modify _ {Q = IsLone} (λ db h. h))

authenticate-Keeps :
    (platform : Platform) (now : ℕ) (token required : String)
    → Keeps IsLone (authenticate_router_credential platform now token required)
unfolding authenticate_router_credential
authenticate-Keeps platform now token required = Keeps-bind (Keeps-raise_if _ _) λ _. get_db-Keeps (
    Gives-bind (Gives-read _) λ row. Gives-case_option row (Gives-pure _ (λ s h. h)) λ r.
      Gives-case_option _
        (Gives-bind
          (Gives-modify _ {Q = IsLone} (λ db h.
            update-Lone (λ x. str_eq x.router_id r.credential.router_id)
              (λ x. record x { last_seen_at = some (iso now); updated_at = iso now }) (λ r. refl)
              db.routers h))
          λ _. Gives-pure _ (λ s h. h))
        λ code. Gives-pure _ (λ s h. h))

assigned-Gives :
    (now : ℕ) (drawn : String) (router_id : Option String) (client_id : ℕ) (label : String)
    → Gives IsLone (assigned_router now drawn router_id client_id label) (λ _. IsLone)
unfolding assigned_router
assigned-Gives now drawn none client_id label =
    Gives-bind (insert-Gives now drawn client_id label) λ _. Gives-pure _ (λ s h. h)
assigned-Gives now drawn (some router_id) client_id label = Gives-bind (checked-Gives Lone _) λ j.
    Gives-bind (Gives-read _)
      λ router. Gives-bind (known-Gives Lone router _) λ _. Gives-pure _ (λ s h. h)

issue-Keeps :
    (platform : Platform) (now : ℕ) (router_draw : RouterDraw) (drawn : CredentialDraw)
    (client_id : ℕ) (scopes : List String) (expires_at : Option String) (label : String)
    (router_id : Option String)
    → Keeps IsLone (
        issue_router_credential platform now router_draw drawn client_id scopes expires_at label
          router_id)
unfolding issue_router_credential insert_credential
issue-Keeps platform now router_draw drawn client_id scopes expires_at label router_id =
    Keeps-bind (Keeps-of_result _) λ normalized. Keeps-bind (Keeps-of_result _) λ label'.
      Keeps-bind (Keeps-of_result _) λ expiry. get_db-Keeps (
        Gives-bind (client-Gives Lone client_id) λ _.
          Gives-bind (assigned-Gives now _ router_id client_id label') λ assigned.
            Gives-bind (ensure-Gives Lone platform now _ _ _ _) λ _.
              Gives-bind
                (Gives-bind (Gives-read _) λ clash.
                  Gives-bind (guard-Gives Lone _ _) λ _. Gives-modify _ {Q = IsLone} (λ db h. h))
                λ _. Gives-pure _ (λ s h. h))

purge-Lone : (db : Db) → IsLone db → IsLone (purge_applied_deleted_clients db)
unfolding purge_applied_deleted_clients delete_clients delete_routers delete_credentials
purge-Lone db h = elim (Option-cases db.vpn_state.applied_revision) [
  | inl e ↦ rw e h
  | inr (n, e) ↦ rw e (select-Lone _ db.routers h)
]

serve-Lone :
    (platform : Platform) (r : ℕ × Request) (db : Db) → IsLone db → IsLone (serve platform r db)
unfolding serve
serve-Lone platform (now, Request.create drawn name client_id) db h =
    (create-Keeps platform now drawn name client_id).at db h
serve-Lone platform (now, Request.enable router_id enabled) db h =
    (enable-Keeps platform now router_id enabled).at db h
serve-Lone platform (now, Request.rename router_id name) db h =
    (rename-Keeps now router_id name).at db h
serve-Lone platform (now, Request.rotate i secret) db h =
    (rotate-Keeps platform now i secret).at db h
serve-Lone platform (now, Request.authenticate token required) db h =
    (authenticate-Keeps platform now token required).at db h
serve-Lone platform (now, Request.delete router_id) db h =
    (delete-Keeps platform now router_id).at db h
serve-Lone platform (now, Request.revoke i) db h = (revoke-Keeps now i).at db h
serve-Lone platform
      (now, Request.issue router_draw drawn client_id scopes expires_at label router_id) db h =
    (issue-Keeps platform now router_draw drawn client_id scopes expires_at label router_id).at db h
serve-Lone platform (now, Request.purge) db h = purge-Lone db h

-- A client keeps at most one router: if no two routers belong to one client, none do after any
-- sequence of requests on routers, credentials and deleted clients, refused ones included.
pub one_router_per_client :
    (platform : Platform) (rs : List (ℕ × Request)) (db : Db)
    → is_one_to_client db.routers ≡ true
    → is_one_to_client (serve_all platform rs db).routers ≡ true
unfolding serve_all
one_router_per_client platform [] db h = h
one_router_per_client platform (r ∷ rs) db h =
    one_router_per_client platform rs (serve platform r db) (serve-Lone platform r db h)
