-- ===== src/Installs/Exclusive.antt =====
-- The end of an installation keeps the lease exclusive (app/vpn_state.py).
use auto_vpn.Base.{
  ℕ, ◌≡◌, refl, String, Bool, true, false, ◌&&◌, Option, none, some, inl, inr, ◌==◌, marked_at,
  List, [], ◌∷◌, subst, sym, Option-cases, Bool-cases, marked_at-update, marked_at-clear,
  update_where, arith,
}
use auto_vpn.Db.{
  Db, LeaseOwner, OwnerType, same_owner, is_active, is_owner_active, InstallOperation, Gives,
  Gives-bind, Gives-read, Gives-modify, Gives-raise_if, Gives-or_raise, Gives-weaken, Gives-pure,
  Keeps, get_db-Keeps, After, ok,
}
use auto_vpn.Clients.{purge_applied_deleted_clients}
use auto_vpn.Operations.{install_owner}
use auto_vpn.Lease.{release_vps_lease}
use auto_vpn.Lease.Exclusive.{IsExclusive, owner}
use auto_vpn.Lease.Release.{release-IsExclusive}
use auto_vpn.Installs.{
  complete_install_operation, fail_install_operation, mark_install_operation_ambiguous,
  fail_snapshot,
}

-- The installation is closed, and the lease not yet released.
abbrev IsClosed : ℕ → Db → Type 0
IsClosed i db = IsExclusive db × (is_owner_active (install_owner i) db ≡ false)

other_owner :
    (i : ℕ) (t : OwnerType) (k : ℕ) (db : Db)
    → is_owner_active (install_owner i) db ≡ false
    → is_owner_active (owner t k) db ≡ true
    → same_owner (owner t k) (install_owner i) ≡ false
other_owner i OwnerType.install k db closed active = ground arith
other_owner i OwnerType.ip_change k db closed active = refl
other_owner i OwnerType.server k db closed active = refl

release_closed :
    (i : ℕ) (db : Db) → IsClosed i db → IsExclusive (release_vps_lease (install_owner i) db).1
release_closed i db (h, closed) =
    release-IsExclusive (install_owner i) db db h refl
      (λ p active. (other_owner i p.owner_type p.owner_id db closed active, active))

release_returns : (o : LeaseOwner) (db : Db) → (b : Bool) × ((release_vps_lease o db).0 ≡ ok b)
unfolding release_vps_lease
release_returns o db = elim (Option-cases db.lease) [
  | inl e ↦ (false, ground arith)
  | inr (l, e) ↦ elim (Bool-cases (same_owner l.owner o)) [
    | inl f ↦ (true, ground arith)
    | inr f ↦ (false, ground arith)
  ]
]

release-Gives :
    (i : ℕ) → Gives (IsClosed i) (release_vps_lease (install_owner i)) (λ _. IsExclusive)
release-Gives i = record {
  at = λ db h.
      subst (λ r. After (λ _. IsExclusive) r (release_vps_lease (install_owner i) db).1)
        (sym (release_returns (install_owner i) db).1) (release_closed i db h);
}

never_marked :
    {A : Type 0} (key : A → ℕ) (mark : A → Bool)
    → ((a : A) → mark a ≡ false)
    → (k : ℕ) (rows : List A) → marked_at key mark k rows ≡ false
never_marked key mark never k [] = ground arith
never_marked key mark never k (r ∷ rows) =
    ground (arith, never r, never_marked key mark never k rows)

-- An update that closes installation i.
close-IsClosed :
    (i : ℕ) (close : InstallOperation → InstallOperation)
    → ((r : InstallOperation) → (close r).id ≡ r.id)
    → ((r : InstallOperation) → is_active (close r).status ≡ false)
    → (db : Db) → IsExclusive db
    → IsClosed i (record db { installs = update_where (λ r. r.id == i) close db.installs })
close-IsClosed i close same shut db h =
    (λ p active. h p (before p.owner_type p.owner_id active), ended)
  where
    before :
        (t : OwnerType) (k : ℕ)
        → is_owner_active
            (owner t k)
            (record db { installs = update_where (λ r. r.id == i) close db.installs })
          ≡ true
        → is_owner_active (owner t k) db ≡ true
    before OwnerType.install k active = ground (
      arith,
      marked_at-update (λ r. r.id) (λ r. is_active r.status) close same i k db.installs,
      never_marked (λ r. r.id) (λ r. is_active (close r).status) shut k db.installs,
    )
    before OwnerType.ip_change k active = active
    before OwnerType.server k active = active

    ended :
        is_owner_active
          (install_owner i)
          (record db { installs = update_where (λ r. r.id == i) close db.installs })
        ≡ false
    ended = ground (
      arith,
      marked_at-update (λ r. r.id) (λ r. is_active r.status) close same i i db.installs,
      never_marked (λ r. r.id) (λ r. is_active (close r).status) shut i db.installs,
    )

-- The same, for an update that spares an installation that has ended.
clear-IsClosed :
    (i : ℕ) (close : InstallOperation → InstallOperation)
    → ((r : InstallOperation) → (close r).id ≡ r.id)
    → ((r : InstallOperation) → is_active (close r).status ≡ false)
    → (db : Db) → IsExclusive db
    → IsClosed i (record db {
      installs = update_where (λ r. r.id == i && is_active r.status) close db.installs;
    })
clear-IsClosed i close same shut db h =
    (λ p active. h p (before p.owner_type p.owner_id active), ended)
  where
    cleared : Db
    cleared = record db {
      installs = update_where (λ r. r.id == i && is_active r.status) close db.installs;
    }

    before :
        (t : OwnerType) (k : ℕ)
        → is_owner_active (owner t k) cleared ≡ true
        → is_owner_active (owner t k) db ≡ true
    before OwnerType.install k active = ground (
      arith,
      marked_at-clear (λ r. r.id) (λ r. is_active r.status) close same shut i k db.installs,
    )
    before OwnerType.ip_change k active = active
    before OwnerType.server k active = active

    ended : is_owner_active (install_owner i) cleared ≡ false
    ended = ground (
      arith,
      marked_at-clear (λ r. r.id) (λ r. is_active r.status) close same shut i i db.installs,
    )

purge-IsExclusive : (db : Db) → IsExclusive db → IsExclusive (purge_applied_deleted_clients db)
unfolding purge_applied_deleted_clients
purge-IsExclusive db h = elim (Option-cases db.vpn_state.applied_revision) [
  | inl e ↦ rw e h
  | inr (n, e) ↦ rw e h
]

fail_snapshot-IsExclusive :
    (operation : Option InstallOperation) (message : String) (at : ℕ) (db : Db)
    → IsExclusive db
    → IsExclusive (fail_snapshot operation message at db)
fail_snapshot-IsExclusive none message at db h = h
fail_snapshot-IsExclusive (some row) message at db h = elim (Option-cases row.revision) [
  | inl e ↦ rw e h
  | inr (n, e) ↦ rw e h
]

complete-Keeps :
    (now i : ℕ) (output : String) → Keeps IsExclusive (complete_install_operation now i output)
unfolding complete_install_operation
complete-Keeps now i output = get_db-Keeps (
    Gives-bind (Gives-read _) λ found.
      Gives-bind (Gives-weaken (Gives-or_raise found _) (λ a db h. h.0)) λ row.
        Gives-bind (Gives-weaken (Gives-or_raise row.revision _) (λ a db h. h.0)) λ revision.
          Gives-bind (Gives-read _) λ rowcount.
            Gives-bind (Gives-modify _ {Q = IsExclusive} (λ db h. h)) λ _.
              Gives-bind (Gives-weaken (Gives-raise_if _ _) (λ a db h. h.0)) λ _.
                Gives-bind (Gives-modify _ {Q = IsExclusive} (λ db h. h)) λ _.
                  Gives-bind (Gives-modify _ {Q = IsExclusive} purge-IsExclusive) λ _.
                    Gives-bind
                      (Gives-modify _ {Q = IsClosed i} (close-IsClosed i _ (λ r. refl) (λ r. refl)))
                      λ _. Gives-bind (release-Gives i) λ _. Gives-pure _ (λ s h. h))

fail-Keeps :
    (now i : ℕ) (message : String) → Keeps IsExclusive (fail_install_operation now i message)
unfolding fail_install_operation
fail-Keeps now i message = get_db-Keeps (
    Gives-bind (Gives-read _) λ operation.
      Gives-bind (Gives-modify _ {Q = IsExclusive} (fail_snapshot-IsExclusive operation message _))
        λ _.
          Gives-bind (Gives-modify _ {Q = IsClosed i} (close-IsClosed i _ (λ r. refl) (λ r. refl)))
            λ _. Gives-bind (release-Gives i) λ _. Gives-pure _ (λ s h. h))

ambiguous-Keeps :
    (now i : ℕ) (message : String)
    → Keeps IsExclusive (mark_install_operation_ambiguous now i message)
unfolding mark_install_operation_ambiguous
ambiguous-Keeps now i message = get_db-Keeps (
    Gives-bind (Gives-read _) λ operation.
      Gives-bind (Gives-modify _ {Q = IsExclusive} (fail_snapshot-IsExclusive operation message _))
        λ _.
          Gives-bind (Gives-modify _ {Q = IsClosed i} (clear-IsClosed i _ (λ r. refl) (λ r. refl)))
            λ _. Gives-bind (release-Gives i) λ _. Gives-pure _ (λ s h. h))

-- However an installation ends, applied, failed or in doubt, the lease stays exclusive.
pub ended_install-IsExclusive :
    (now i : ℕ) (text : String) (db : Db)
    → IsExclusive db
    → IsExclusive (complete_install_operation now i text db).1
      × IsExclusive (fail_install_operation now i text db).1
      × IsExclusive (mark_install_operation_ambiguous now i text db).1
ended_install-IsExclusive now i text db h = (
  (complete-Keeps now i text).at db h,
  (fail-Keeps now i text).at db h,
  (ambiguous-Keeps now i text).at db h,
)
