-- ===== src/Lease/Exclusive.antt =====
-- The lease of app/operation_coordinator.py excludes: an operation that is pending or running
-- holds it, and an operation that loses it is closed.
use auto_vpn.Base.{
  ℕ, ◌<◌, ◌≤◌, ◌≡◌, refl, true, false, String, Option, none, some, inl, inr, ◌⊎◌, ltb,
  if◌then◌else◌, Bool-cases, Option-cases, marked_at-clear, arith,
}
use auto_vpn.Db.{
  Db, Lease, LeaseOwner, OwnerType, same_owner, same_type-eq, same_type_refl, is_active,
  is_owner_active, is_held_by, IpChangeOperation, ServerOperation, busy, ok, err,
}
use auto_vpn.Lease.{
  fail_install, fail_ip_change, fail_server, fail_owner, interrupt_ip_change, interrupt_server,
  release_vps_lease, acquire_vps_lease, evict, new_lease, iso, parse,
}

-- An operation that is pending or running is the one that holds the lease.
abbrev pub IsExclusive : Db → Type 0
IsExclusive db = (o : LeaseOwner) → is_owner_active o db ≡ true → is_held_by o db.lease ≡ true

interrupt_ip_change-id :
    (reason : String) (t : ℕ) (r : IpChangeOperation) → (interrupt_ip_change reason t r).id ≡ r.id
unfolding interrupt_ip_change
interrupt_ip_change-id reason t r = ground arith

interrupt_ip_change-is_active :
    (reason : String) (t : ℕ) (r : IpChangeOperation)
    → is_active (interrupt_ip_change reason t r).status ≡ false
unfolding interrupt_ip_change
interrupt_ip_change-is_active reason t r = ground arith

interrupt_server-id :
    (reason : String) (t : ℕ) (r : ServerOperation) → (interrupt_server reason t r).id ≡ r.id
unfolding interrupt_server
interrupt_server-id reason t r = refl

interrupt_server-is_active :
    (reason : String) (t : ℕ) (r : ServerOperation)
    → is_active (interrupt_server reason t r).status ≡ false
unfolding interrupt_server
interrupt_server-is_active reason t r = ground arith

abbrev pub owner : OwnerType → ℕ → LeaseOwner
owner t i = record { owner_type = t; owner_id = i }

abbrev pub Closes : OwnerType → ℕ → OwnerType → ℕ → String → ℕ → Db → Type 0
Closes s i t k reason at db =
    is_owner_active (owner t k) (fail_owner (owner s i) reason at db)
    ≡ (if same_owner (owner t k) (owner s i) then false else is_owner_active (owner t k) db)

pub closes :
    (s : OwnerType) (i : ℕ) (t : OwnerType) (k : ℕ) (reason : String) (at : ℕ) (db : Db)
    → Closes s i t k reason at db
unfolding fail_owner fail_install fail_ip_change fail_server
closes OwnerType.install i OwnerType.install k reason at db =
    marked_at-clear _ _ _ (λ r. refl) (λ r. refl) i k db.installs
closes OwnerType.install i OwnerType.ip_change k reason at db = refl
closes OwnerType.install i OwnerType.server k reason at db = refl
closes OwnerType.ip_change i OwnerType.install k reason at db = refl
closes OwnerType.ip_change i OwnerType.ip_change k reason at db =
    marked_at-clear _ _ _ (interrupt_ip_change-id reason at)
      (interrupt_ip_change-is_active reason at) i k db.ip_changes
closes OwnerType.ip_change i OwnerType.server k reason at db = refl
closes OwnerType.server i OwnerType.install k reason at db = refl
closes OwnerType.server i OwnerType.ip_change k reason at db = refl
closes OwnerType.server i OwnerType.server k reason at db =
    marked_at-clear _ _ _ (interrupt_server-id reason at) (interrupt_server-is_active reason at) i k
      db.servers

-- Failing one owner closes its operation and leaves every other one as active as it was.
pub fail_owner_closes :
    (o p : LeaseOwner) (reason : String) (at : ℕ) (db : Db)
    → is_owner_active p (fail_owner o reason at db)
      ≡ (if same_owner p o then false else is_owner_active p db)
fail_owner_closes o p reason at db =
    closes o.owner_type o.owner_id p.owner_type p.owner_id reason at db

lease-fail_owner :
    (o : LeaseOwner) (reason : String) (at : ℕ) (db : Db)
    → (fail_owner o reason at db).lease ≡ db.lease
unfolding fail_owner fail_install fail_ip_change fail_server
lease-fail_owner o reason at db = ground arith

pub same_owner-sym : (o p : LeaseOwner) → same_owner o p ≡ true → same_owner p o ≡ true
same_owner-sym o p h =
    ground (arith, same_type-eq o.owner_type p.owner_type, same_type_refl p.owner_type)

pub same_owner_refl : (o : LeaseOwner) → same_owner o o ≡ true
same_owner_refl o = ground (arith, same_type_refl o.owner_type)

-- Taking the lease over an expired one closes the operation that held it.
evict_closes :
    (now : ℕ) (l : Lease) (p : LeaseOwner) (db : Db)
    → is_owner_active p (evict now l db)
      ≡ (if same_owner p l.owner then false else is_owner_active p db)
unfolding evict release_vps_lease
evict_closes now l p db =
    ground
      (arith, fail_owner_closes l.owner p "Operation lease expired before completion" (iso now) db)

-- Every operation but one that is pending or running holds the lease.
abbrev pub IsExclusiveBut : LeaseOwner → Db → Type 0
IsExclusiveBut o db =
    (p : LeaseOwner)
    → is_owner_active p db ≡ true
    → same_owner p o ≡ false
    → is_held_by p db.lease ≡ true

new_lease_lasts : (now secs : ℕ) (o : LeaseOwner) → now < parse (new_lease now secs o).expires_at
new_lease_lasts now secs o = ground arith

lease-acquire :
    (now secs : ℕ) (o : LeaseOwner) (db : Db)
    → (acquire_vps_lease now secs o db).0 ≡ ok tt
    → (acquire_vps_lease now secs o db).1.lease ≡ some (new_lease now secs o)
unfolding acquire_vps_lease
lease-acquire now secs o db granted = ground arith

-- After a grant only the new owner can be active.
granted_alone :
    (now secs : ℕ) (o p : LeaseOwner) (db : Db)
    → IsExclusiveBut o db
    → (acquire_vps_lease now secs o db).0 ≡ ok tt
    → is_owner_active p (acquire_vps_lease now secs o db).1 ≡ true
    → same_owner p o ≡ true
unfolding acquire_vps_lease
granted_alone now secs o p db h granted active = elim (Option-cases db.lease) [
  | inl free ↦ ground (arith, h p)
  | inr (l, e) ↦ ground (arith, h p, evict_closes now l p db, same_owner-sym l.owner p)
]

-- When every other active operation holds the lease, a grant leaves the lease with its new owner,
-- lasting past now, and no other operation active.
pub acquire-IsExclusive :
    (now secs : ℕ) (o : LeaseOwner) (db : Db)
    → IsExclusiveBut o db
    → (acquire_vps_lease now secs o db).0 ≡ ok tt
    → IsExclusive (acquire_vps_lease now secs o db).1
      × ((acquire_vps_lease now secs o db).1.lease ≡ some (new_lease now secs o))
      × (now < parse (new_lease now secs o).expires_at)
acquire-IsExclusive now secs o db h granted =
    let taken = lease-acquire now secs o db granted in
    (
      λ p active. rw taken (same_owner-sym p o (granted_alone now secs o p db h granted active)),
      taken,
      new_lease_lasts now secs o,
    )

-- The lease is granted exactly when it is free or has run out; a refusal names the holder and
-- changes nothing.
pub acquire_outcome :
    (now secs : ℕ) (o : LeaseOwner) (db : Db)
    → (((acquire_vps_lease now secs o db).0 ≡ ok tt)
        × ((l : Lease) → db.lease ≡ some l → parse l.expires_at ≤ now))
      ⊎ ((l : Lease) × (db.lease ≡ some l)
          × (now < parse l.expires_at)
          × (acquire_vps_lease now secs o db ≡ (err (busy l.owner), db)))
unfolding acquire_vps_lease
acquire_outcome now secs o db = elim (Option-cases db.lease) [
  | inl free ↦ inl (ground arith, λ l e. ground arith)
  | inr (l, e) ↦ elim (Bool-cases (ltb now (parse l.expires_at))) [
    | inl live ↦ inr (l, e, ground arith, ground arith)
    | inr over ↦ inl (ground arith, λ k e'. ground arith)
  ]
]

-- Two owners that hold one lease are the same.
pub held_both :
    (p q : LeaseOwner) (m : Option Lease)
    → is_held_by p m ≡ true
    → is_held_by q m ≡ true
    → same_owner p q ≡ true
held_both p q none h k = ground arith
held_both p q (some l) h k = ground (
  arith,
  same_type-eq l.owner.owner_type p.owner_type,
  same_type-eq l.owner.owner_type q.owner_type,
  same_type_refl l.owner.owner_type,
)

pub held_same :
    (p q : LeaseOwner) (m : Option Lease)
    → same_owner p q ≡ true
    → is_held_by q m ≡ true
    → is_held_by p m ≡ true
held_same p q none s h = ground arith
held_same p q (some l) s h = ground (arith, same_type-eq p.owner_type q.owner_type)
