-- ===== src/Clients/Deletion.antt =====
-- Deleting clients and routers frees addresses and reserves none (app/db.py, app/migrations.py).
use auto_vpn.Base.{
  ◌≡◌, String, Bool, true, not, List, [], ◌∷◌, ◌++◌, map, inl, inr, Option-cases, select, contains,
  truthy, arith,
}
use auto_vpn.Db.{Db, Client, RouterPeer, Router, delete_routers, delete_clients}
use auto_vpn.Clients.{purge_applied_deleted_clients, is_purged}
use auto_vpn.Clients.Distinct.{distinct, IsAllocated, contains-append}

-- The addresses of some clients are among those of all.
module _ (keep : Client → Bool) (ys : List String) where
  abbrev addresses : List Client → List String
  addresses rows = map (λ c. c.amnezia_ipv4) (select (λ c. truthy c.amnezia_ipv4) rows) ++ ys

  contains-select :
      (a : String) (rows : List Client)
      → contains a (addresses (select keep rows)) ≡ true
      → contains a (addresses rows) ≡ true
  contains-select a [] h = h
  contains-select a (c ∷ rows) h = ground (arith, contains-select a rows)

  distinct-select :
      (rows : List Client)
      → distinct (addresses rows) ≡ true
      → distinct (addresses (select keep rows)) ≡ true
  distinct-select [] h = h
  distinct-select (c ∷ rows) h =
      ground (arith, distinct-select rows, contains-select c.amnezia_ipv4 rows)

-- So it is with the addresses of some peers.
module _ (keep : RouterPeer → Bool) where
  abbrev peer_addresses : List RouterPeer → List String
  peer_addresses rows = map (λ p. p.ipv4) (select (λ p. truthy p.ipv4) rows)

  contains-peers :
      (a : String) (rows : List RouterPeer)
      → contains a (peer_addresses (select keep rows)) ≡ true
      → contains a (peer_addresses rows) ≡ true
  contains-peers a [] h = h
  contains-peers a (p ∷ rows) h = ground (arith, contains-peers a rows)

  distinct-peers :
      (rows : List RouterPeer)
      → distinct (peer_addresses rows) ≡ true
      → distinct (peer_addresses (select keep rows)) ≡ true
  distinct-peers [] h = h
  distinct-peers (p ∷ rows) h = ground (arith, distinct-peers rows, contains-peers p.ipv4 rows)

  distinct-append_peers :
      (xs : List String) (rows : List RouterPeer)
      → distinct (xs ++ peer_addresses rows) ≡ true
      → distinct (xs ++ peer_addresses (select keep rows)) ≡ true
  distinct-append_peers [] rows h = distinct-peers rows h
  distinct-append_peers (x ∷ xs) rows h = ground (
    arith,
    distinct-append_peers xs rows,
    contains-append x xs (peer_addresses rows),
    contains-append x xs (peer_addresses (select keep rows)),
    contains-peers x rows,
  )

-- Deleting routers or clients with what belongs to them.
pub delete_routers-IsAllocated :
    (gone : Router → Bool) (db : Db) → IsAllocated db → IsAllocated (delete_routers gone db)
unfolding delete_routers
delete_routers-IsAllocated gone db h =
    distinct-append_peers _
      (map (λ c. c.amnezia_ipv4) (select (λ c. truthy c.amnezia_ipv4) db.clients)) db.peers h

delete_clients-IsAllocated :
    (gone : Client → Bool) (db : Db) → IsAllocated db → IsAllocated (delete_clients gone db)
unfolding delete_clients
delete_clients-IsAllocated gone db h =
    distinct-select (λ c. not (gone c)) _ db.clients
      (distinct-append_peers _
        (map (λ c. c.amnezia_ipv4) (select (λ c. truthy c.amnezia_ipv4) db.clients)) db.peers h)

pub purge-IsAllocated : (db : Db) → IsAllocated db → IsAllocated (purge_applied_deleted_clients db)
unfolding purge_applied_deleted_clients
purge-IsAllocated db h = elim (Option-cases db.vpn_state.applied_revision) [
  | inl e ↦ rw e h
  | inr (n, e) ↦ rw e (delete_clients-IsAllocated (is_purged n) db h)
]
