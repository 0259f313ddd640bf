-- ===== src/Db/Cascade.antt =====
-- `ON DELETE CASCADE` between clients, routers, credentials, peers and apply results
-- (app/migrations.py), with `PRAGMA foreign_keys = ON`.
use auto_vpn.Base.{ℕ, Bool, not, ◌&&◌, ◌==◌, String, any, select, str_eq}
use auto_vpn.Db.Rows.{Client, Router, RouterCredential}
use auto_vpn.Db.State.{Db}

-- A credential goes with its apply results.
unfoldable pub delete_credentials : (RouterCredential → Bool) → Db → Db
delete_credentials gone db = record db {
  credentials = select (λ c. not (gone c)) db.credentials;
  apply_results =
      select (λ r. not (any (λ c. gone c && str_eq c.credential_id r.credential_id) db.credentials))
        db.apply_results;
}

-- A router goes with its peer and its credentials.
unfoldable pub delete_routers : (Router → Bool) → Db → Db
unfolding delete_credentials
delete_routers gone db =
    let of_router = λ (i : String). any (λ r. gone r && str_eq r.router_id i) db.routers in
    let rest = delete_credentials (λ c. of_router c.router_id) db in
    record rest {
      routers = select (λ r. not (gone r)) db.routers;
      peers = select (λ p. not (of_router p.router_id)) db.peers;
    }

-- A client goes with its routers and the credentials issued for it.
unfoldable pub delete_clients : (Client → Bool) → Db → Db
unfolding delete_credentials delete_routers
delete_clients gone db =
    let of_client = λ (i : ℕ). any (λ c. gone c && c.id == i) db.clients in
    let rest =
      delete_credentials (λ c. of_client c.client_id)
        (delete_routers (λ r. of_client r.client_id) db) in
    record rest { clients = select (λ c. not (gone c)) db.clients }
