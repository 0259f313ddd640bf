-- ===== src/Credentials/Requests.antt =====
-- The operations on routers and credentials as requests, and runs of them
-- (app/router_credentials.py; the purge of deleted clients is that of app/db.py).
use auto_vpn.Base.{ℕ, ◌≢◌, String, Bool, List, [], ◌∷◌, Option}
use auto_vpn.Db.{Db}
use auto_vpn.Config.{Platform}
use auto_vpn.Clients.{purge_applied_deleted_clients}
use auto_vpn.Credentials.{
  RouterDraw, CredentialDraw, create_router, set_router_enabled, update_router_label, delete_router,
}
use auto_vpn.Credentials.Access.{
  issue_router_credential, rotate_router_credential, revoke_router_credential,
  authenticate_router_credential,
}

pub data Request : Type 0 where
  create : RouterDraw → String → ℕ → Request
  enable : String → Bool → Request
  rename rotate authenticate : String → String → Request
  delete revoke : String → Request
  issue :
      RouterDraw
      → CredentialDraw
      → ℕ
      → List String
      → Option String
      → String
      → Option String
      → Request
  purge : Request

-- A request at a time; what it returns or raises is left out.
unfoldable pub serve : Platform → ℕ × Request → Db → Db
unfolding create_router set_router_enabled update_router_label delete_router issue_router_credential
    rotate_router_credential revoke_router_credential authenticate_router_credential
    purge_applied_deleted_clients
serve platform (now, create drawn name client_id) db =
    (create_router platform now drawn name client_id db).1
serve platform (now, enable router_id enabled) db =
    (set_router_enabled platform now router_id enabled db).1
serve platform (now, rename router_id name) db = (update_router_label now router_id name db).1
serve platform (now, rotate i secret) db = (rotate_router_credential platform now i secret db).1
serve platform (now, authenticate token required) db =
    (authenticate_router_credential platform now token required db).1
serve platform (now, delete router_id) db = (delete_router platform now router_id db).1
serve platform (now, revoke i) db = (revoke_router_credential now i db).1
serve platform (now, issue router_draw drawn client_id scopes expires_at label router_id) db =
    (issue_router_credential platform now router_draw drawn client_id scopes expires_at label
      router_id db).1
serve platform (now, purge) db = purge_applied_deleted_clients db

unfoldable pub serve_all : Platform → List (ℕ × Request) → Db → Db
unfolding serve
serve_all platform [] db = db
serve_all platform (r ∷ rs) db = serve_all platform rs (serve platform r db)

-- No request draws this identifier for a credential.
abbrev pub DrawsNot : String → List (ℕ × Request) → Type 0
DrawsNot i [] = Unit
DrawsNot i ((now, issue router_draw drawn client_id scopes expires_at label router_id) ∷ rs) =
    (drawn.credential_id ≢ i) × DrawsNot i rs
DrawsNot i (_ ∷ rs) = DrawsNot i rs
