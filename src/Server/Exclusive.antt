-- ===== src/Server/Exclusive.antt =====
-- Server operations keep the lease exclusive (app/server_operations.py).
use auto_vpn.Base.{
  ℕ, ◌≡◌, refl, Bool, true, false, List, [], ◌∷◌, inl, inr, ◌==◌, Bool-cases, Option-cases,
  marked_at, update_where, arith, ◌∙◌, sym, subst,
}
use auto_vpn.Db.{
  Db, LeaseOwner, OwnerType, Kind, same_owner, is_active, is_owner_active, ServerOperation, Gives,
  Gives-bind, Gives-read, Gives-modify, Gives-pure, Gives-if, Keeps, get_db-Keeps, After, ok,
}
use auto_vpn.Lease.{heartbeat_vps_lease, iso}
use auto_vpn.Lease.Exclusive.{IsExclusive, IsExclusiveBut, owner}
use auto_vpn.Lease.Release.{acquire-Gives}
use auto_vpn.Server.{
  server_owner, add_server, create_server_operation, create_protocol_refresh_operation,
  mark_reboot_sending, mark_sending, is_unsent,
}

add_server-IsExclusive :
    (row : ServerOperation) (db : Db)
    → IsExclusive db
    → IsExclusiveBut (server_owner row.id) (add_server row db)
add_server-IsExclusive row db h p active other = h p (still p.owner_type p.owner_id active other)
  where
    still :
        (t : OwnerType) (k : ℕ)
        → is_owner_active (owner t k) (add_server row db) ≡ true
        → same_owner (owner t k) (server_owner row.id) ≡ false
        → is_owner_active (owner t k) db ≡ true
    still OwnerType.server k active other = ground arith
    still OwnerType.ip_change k active other = active
    still OwnerType.install k active other = active

create-Keeps : (now : ℕ) (kind : Kind) → Keeps IsExclusive (create_server_operation now kind)
unfolding create_server_operation
create-Keeps now kind = get_db-Keeps (
    Gives-bind (Gives-read _) λ row.
      Gives-bind
        (Gives-modify (add_server row) {Q = IsExclusiveBut (server_owner row.id)}
          (add_server-IsExclusive row))
        λ _. Gives-bind (acquire-Gives now _ (server_owner row.id)) λ _. Gives-pure _ (λ s h. h))

create_refresh-Keeps : (now : ℕ) → Keeps IsExclusive (create_protocol_refresh_operation now)
unfolding create_protocol_refresh_operation
create_refresh-Keeps now = get_db-Keeps (
    Gives-bind (Gives-read _) λ row.
      Gives-bind
        (Gives-modify (add_server row) {Q = IsExclusiveBut (server_owner row.id)}
          (add_server-IsExclusive row))
        λ _. Gives-bind (acquire-Gives now _ (server_owner row.id)) λ _. Gives-pure _ (λ s h. h))

-- Marking rows that are active leaves the same ones active.
marked_mark :
    (i timestamp k : ℕ) (rows : List ServerOperation)
    → marked_at
        (λ r. r.id)
        (λ r. is_active r.status)
        k
        (update_where (is_unsent i) (mark_sending timestamp) rows)
      ≡ marked_at (λ r. r.id) (λ r. is_active r.status) k rows
marked_mark i timestamp k [] = refl
marked_mark i timestamp k (r ∷ rows) = elim (Bool-cases (r.id == k)) [
  | inl here ↦ ground arith
  | inr there ↦ ground (arith, marked_mark i timestamp k rows)
]

mark-IsExclusive :
    (i timestamp : ℕ) (db : Db)
    → IsExclusive db
    → IsExclusive
        (record db { servers = update_where (is_unsent i) (mark_sending timestamp) db.servers })
mark-IsExclusive i timestamp db h p active = h p (still p.owner_type p.owner_id active)
  where
    still :
        (t : OwnerType) (k : ℕ)
        → is_owner_active
            (owner t k)
            (record db { servers = update_where (is_unsent i) (mark_sending timestamp) db.servers })
          ≡ true
        → is_owner_active (owner t k) db ≡ true
    still OwnerType.server k active = sym (marked_mark i timestamp k db.servers) ∙ active
    still OwnerType.ip_change k active = active
    still OwnerType.install k active = active

heartbeat_returns :
    (now : ℕ) (o : LeaseOwner) (db : Db) → (b : Bool) × ((heartbeat_vps_lease now o db).0 ≡ ok b)
unfolding heartbeat_vps_lease
heartbeat_returns now o db = elim (Option-cases db.lease) [
  | inl e ↦ (false, ground arith)
  | inr (l, e) ↦ elim (Bool-cases (same_owner l.owner o)) [
    | inl f ↦ (true, ground arith)
    | inr f ↦ (false, ground arith)
  ]
]

heartbeat-IsExclusive :
    (now : ℕ) (o : LeaseOwner) (db : Db)
    → IsExclusive db
    → IsExclusive (heartbeat_vps_lease now o db).1
unfolding heartbeat_vps_lease
heartbeat-IsExclusive now o db h p active =
    let before : is_owner_active p db ≡ true = ground arith in ground (arith, h p before)

heartbeat-Gives :
    (now : ℕ) (o : LeaseOwner) → Gives IsExclusive (heartbeat_vps_lease now o) (λ _. IsExclusive)
heartbeat-Gives now o = record {
  at = λ db h.
      subst (λ r. After (λ _. IsExclusive) r (heartbeat_vps_lease now o db).1)
        (sym (heartbeat_returns now o db).1) (heartbeat-IsExclusive now o db h);
}

mark-Keeps : (now i : ℕ) → Keeps IsExclusive (mark_reboot_sending now i)
unfolding mark_reboot_sending
mark-Keeps now i = get_db-Keeps (
    Gives-bind (Gives-read _) λ rowcount.
      Gives-bind (Gives-modify _ {Q = IsExclusive} (mark-IsExclusive i (iso now))) λ _.
        Gives-if (rowcount == 1)
          (Gives-bind (heartbeat-Gives now (server_owner i)) λ _. Gives-pure _ (λ s h. h))
          (Gives-pure _ (λ s h. h)))

-- Creating a server operation, of either kind or for a refresh of the protocols, and marking a reboot
-- for sending keep the lease exclusive, whether they succeed or are refused.
pub server-IsExclusive :
    (now i : ℕ) (kind : Kind) (db : Db)
    → IsExclusive db
    → IsExclusive (create_server_operation now kind db).1
      × IsExclusive (create_protocol_refresh_operation now db).1
      × IsExclusive (mark_reboot_sending now i db).1
server-IsExclusive now i kind db h = (
  (create-Keeps now kind).at db h,
  (create_refresh-Keeps now).at db h,
  (mark-Keeps now i).at db h,
)
