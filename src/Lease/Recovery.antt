-- ===== src/Lease/Recovery.antt =====
-- The recovery at start-up, `recover_incomplete_vps_operations`, leaves nothing active.
use auto_vpn.Base.{
  ℕ, ◌≡◌, refl, ◌∙◌, Bool, true, false, String, List, [], ◌∷◌, none, ◌==◌, if◌then◌else◌, select,
  any, any-select_marked, arith,
}
use auto_vpn.Db.{
  Db, LeaseOwner, OwnerType, is_active, is_owner_active, InstallOperation, IpChangeOperation,
  ServerOperation,
}
use auto_vpn.Lease.{
  fail_install, fail_ip_change, fail_server, fail_owner, iso, recover_incomplete_vps_operations,
  fail_installs, fail_ip_changes, fail_servers, bounded_reason,
}
use auto_vpn.Lease.Exclusive.{owner, closes}

abbrev active_in : OwnerType → ℕ → Db → Bool
active_in t k db = is_owner_active (owner t k) db

fail_installs-install :
    (rs : List InstallOperation) (reason : String) (at k : ℕ) (db : Db)
    → active_in OwnerType.install k (fail_installs rs reason at db)
      ≡ (if any (λ r. r.id == k) rs then false else active_in OwnerType.install k db)
unfolding fail_installs fail_owner
fail_installs-install [] reason at k db = refl
fail_installs-install (r ∷ rs) reason at k db = ground (
  arith,
  fail_installs-install rs reason at k (fail_install r.id reason at db),
  closes OwnerType.install r.id OwnerType.install k reason at db,
)

fail_ip_changes-ip_change :
    (rs : List IpChangeOperation) (reason : String) (at k : ℕ) (db : Db)
    → active_in OwnerType.ip_change k (fail_ip_changes rs reason at db)
      ≡ (if any (λ r. r.id == k) rs then false else active_in OwnerType.ip_change k db)
unfolding fail_ip_changes fail_owner
fail_ip_changes-ip_change [] reason at k db = refl
fail_ip_changes-ip_change (r ∷ rs) reason at k db = ground (
  arith,
  fail_ip_changes-ip_change rs reason at k (fail_ip_change r.id reason at db),
  closes OwnerType.ip_change r.id OwnerType.ip_change k reason at db,
)

fail_servers-server :
    (rs : List ServerOperation) (reason : String) (at k : ℕ) (db : Db)
    → active_in OwnerType.server k (fail_servers rs reason at db)
      ≡ (if any (λ r. r.id == k) rs then false else active_in OwnerType.server k db)
unfolding fail_servers fail_owner
fail_servers-server [] reason at k db = refl
fail_servers-server (r ∷ rs) reason at k db = ground (
  arith,
  fail_servers-server rs reason at k (fail_server r.id reason at db),
  closes OwnerType.server r.id OwnerType.server k reason at db,
)

ip_changes-fail_installs :
    (rs : List InstallOperation) (reason : String) (at : ℕ) (db : Db)
    → (fail_installs rs reason at db).ip_changes ≡ db.ip_changes
unfolding fail_installs fail_install
ip_changes-fail_installs [] reason at db = refl
ip_changes-fail_installs (r ∷ rs) reason at db =
    ip_changes-fail_installs rs reason at (fail_install r.id reason at db)

servers-fail_installs :
    (rs : List InstallOperation) (reason : String) (at : ℕ) (db : Db)
    → (fail_installs rs reason at db).servers ≡ db.servers
unfolding fail_installs fail_install
servers-fail_installs [] reason at db = refl
servers-fail_installs (r ∷ rs) reason at db =
    servers-fail_installs rs reason at (fail_install r.id reason at db)

installs-fail_ip_changes :
    (rs : List IpChangeOperation) (reason : String) (at : ℕ) (db : Db)
    → (fail_ip_changes rs reason at db).installs ≡ db.installs
unfolding fail_ip_changes fail_ip_change
installs-fail_ip_changes [] reason at db = refl
installs-fail_ip_changes (r ∷ rs) reason at db =
    installs-fail_ip_changes rs reason at (fail_ip_change r.id reason at db)

servers-fail_ip_changes :
    (rs : List IpChangeOperation) (reason : String) (at : ℕ) (db : Db)
    → (fail_ip_changes rs reason at db).servers ≡ db.servers
unfolding fail_ip_changes fail_ip_change
servers-fail_ip_changes [] reason at db = refl
servers-fail_ip_changes (r ∷ rs) reason at db =
    servers-fail_ip_changes rs reason at (fail_ip_change r.id reason at db)

installs-fail_servers :
    (rs : List ServerOperation) (reason : String) (at : ℕ) (db : Db)
    → (fail_servers rs reason at db).installs ≡ db.installs
unfolding fail_servers fail_server
installs-fail_servers [] reason at db = refl
installs-fail_servers (r ∷ rs) reason at db =
    installs-fail_servers rs reason at (fail_server r.id reason at db)

ip_changes-fail_servers :
    (rs : List ServerOperation) (reason : String) (at : ℕ) (db : Db)
    → (fail_servers rs reason at db).ip_changes ≡ db.ip_changes
unfolding fail_servers fail_server
ip_changes-fail_servers [] reason at db = refl
ip_changes-fail_servers (r ∷ rs) reason at db =
    ip_changes-fail_servers rs reason at (fail_server r.id reason at db)

-- A row that is active is among those selected for failing, so none is active afterwards.
none_left :
    (k : ℕ) (t : Bool) (active : Bool)
    → (active ≡ true → t ≡ true)
    → (if t then false else active) ≡ false
none_left k t true h = ground (arith, h refl)
none_left k true false h = refl
none_left k false false h = refl

module _ (now : ℕ) (reason : String) (db : Db) where
  abbrev text : String
  text = bounded_reason reason

  abbrev one : Db
  one = fail_installs (select (λ r. is_active r.status) db.installs) text (iso now) db

  abbrev two : Db
  two = fail_ip_changes (select (λ r. is_active r.status) one.ip_changes) text (iso now) one

  abbrev three : Db
  three = fail_servers (select (λ r. is_active r.status) two.servers) text (iso now) two

  install_closed : (k : ℕ) → active_in OwnerType.install k three ≡ false
  install_closed k =
      rw
        (
          installs-fail_servers (select (λ r. is_active r.status) two.servers) text (iso now) two,
          installs-fail_ip_changes (select (λ r. is_active r.status) one.ip_changes) text (iso now)
              one,
        )
        (fail_installs-install (select (λ r. is_active r.status) db.installs) text (iso now) k db
          ∙ none_left k _ _ (any-select_marked (λ r. r.id) (λ r. is_active r.status) k db.installs))

  ip_change_closed : (k : ℕ) → active_in OwnerType.ip_change k three ≡ false
  ip_change_closed k =
      rw (ip_changes-fail_servers (select (λ r. is_active r.status) two.servers) text (iso now) two)
        (fail_ip_changes-ip_change (select (λ r. is_active r.status) one.ip_changes) text (iso now)
            k one
          ∙ none_left k _ _
              (any-select_marked (λ r. r.id) (λ r. is_active r.status) k one.ip_changes))

  server_closed : (k : ℕ) → active_in OwnerType.server k three ≡ false
  server_closed k =
      fail_servers-server (select (λ r. is_active r.status) two.servers) text (iso now) k two
      ∙ none_left k _ _ (any-select_marked (λ r. r.id) (λ r. is_active r.status) k two.servers)

  closed : (t : OwnerType) (k : ℕ) → active_in t k three ≡ false
  closed OwnerType.install k = install_closed k
  closed OwnerType.ip_change k = ip_change_closed k
  closed OwnerType.server k = server_closed k

-- After the recovery at start-up no operation of any kind is pending or running, and the lease is
-- free.
pub recover_closes_all :
    (now : ℕ) (reason : String) (db : Db)
    → ((o : LeaseOwner)
        → is_owner_active o (recover_incomplete_vps_operations now reason db) ≡ false)
      × ((recover_incomplete_vps_operations now reason db).lease ≡ none)
unfolding recover_incomplete_vps_operations
recover_closes_all now reason db = (λ o. closed now reason db o.owner_type o.owner_id, refl)
