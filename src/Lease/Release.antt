-- ===== src/Lease/Release.antt =====
-- Taking the lease inside a transaction, and giving it up when an operation closes.
use auto_vpn.Base.{ℕ, ◌≡◌, refl, true, false, inl, inr, Bool-cases, arith}
use auto_vpn.Db.{
  Gives, After, Result, ok, err, Db, LeaseOwner, same_owner, is_owner_active, is_held_by,
}
use auto_vpn.Lease.{acquire_vps_lease, release_vps_lease}
use auto_vpn.Lease.Exclusive.{IsExclusiveBut, acquire-IsExclusive, IsExclusive, held_both}

-- Whoever holds a lease after a release held it before, and is not the one that released it.
pub held-release :
    (o p : LeaseOwner) (db : Db)
    → is_held_by p db.lease ≡ true
    → same_owner p o ≡ false
    → is_held_by p (release_vps_lease o db).1.lease ≡ true
unfolding release_vps_lease
held-release o p db h other = elim (Bool-cases (is_held_by o db.lease)) [
  | inl mine ↦ ground (arith, held_both p o db.lease h)
  | inr theirs ↦ ground arith
]

-- A release keeps the lease exclusive once the operation of its owner is closed.
pub release-IsExclusive :
    (o : LeaseOwner) (db after : Db)
    → IsExclusive db
    → after.lease ≡ db.lease
    → ((p : LeaseOwner)
        → is_owner_active p after ≡ true
        → (same_owner p o ≡ false) × (is_owner_active p db ≡ true))
    → IsExclusive (release_vps_lease o after).1
unfolding release_vps_lease
release-IsExclusive o db after h same closed p active =
    let still : is_owner_active p after ≡ true = ground arith in
    held-release o p after (ground (arith, h p, closed p still)) (closed p still).0

pub acquire-Gives :
    (now secs : ℕ) (o : LeaseOwner)
    → Gives (IsExclusiveBut o) (acquire_vps_lease now secs o) (λ _. IsExclusive)
acquire-Gives now secs o = record {
  at = λ db h.
      granted (acquire_vps_lease now secs o db).0 _
        (λ e. (acquire-IsExclusive now secs o db h e).0);
}
  where
    granted :
        (r : Result (Unit {0})) (after : Db)
        → (r ≡ ok tt → IsExclusive after)
        → After (λ _. IsExclusive) r after
    granted (ok u) after h = h refl
    granted (err e) after h = tt
