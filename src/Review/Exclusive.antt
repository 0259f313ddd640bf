-- ===== src/Review/Exclusive.antt =====
-- Queueing a SprintBOX decision keeps the lease exclusive (app/sprintbox_review.py).
use auto_vpn.Base.{
  ℕ, ◌≡◌, refl, true, false, inl, inr, ◌==◌, Bool-cases, marked_at-update, update_where, arith,
}
use auto_vpn.Db.{
  Db, LeaseOwner, OwnerType, is_active, is_owner_active, is_held_by, IpChangeOperation, Gives,
  Gives-bind, Gives-modify, Keeps, get_db-Keeps, After, Result, ok, err,
}
use auto_vpn.Config.{Platform}
use auto_vpn.Operations.{ip_owner}
use auto_vpn.Lease.{acquire_vps_lease}
use auto_vpn.Lease.Exclusive.{IsExclusive, acquire-IsExclusive, same_owner_refl, held_same, owner}
use auto_vpn.Review.{prepare_cleanup, prepare_ssh_wait}
use auto_vpn.Review.Reads.{validate_review-Gives, validate_ssh_decision-Gives}

-- The rule, with the lease in the hands of `o`.
abbrev IsTaken : LeaseOwner → Db → Type 0
IsTaken o db = IsExclusive db × (is_held_by o db.lease ≡ true)

take-Gives :
    (now secs : ℕ) (o : LeaseOwner)
    → Gives IsExclusive (acquire_vps_lease now secs o) (λ _. IsTaken o)
take-Gives now secs o = record {
  at = λ db h. granted (acquire_vps_lease now secs o db).0 _ (λ e.
      let (all, lease, lasts) =
        acquire-IsExclusive now secs o db (λ p active other. h p active) e in
      (all, rw lease (same_owner_refl o)));
}
  where
    granted :
        (r : Result (Unit {0})) (after : Db)
        → (r ≡ ok tt → IsTaken o after)
        → After (λ _. IsTaken o) r after
    granted (ok u) after h = h refl
    granted (err e) after h = tt

-- Whatever is written into the row of the operation that holds the lease.
write-IsExclusive :
    (i : ℕ) (f : IpChangeOperation → IpChangeOperation)
    → ((r : IpChangeOperation) → (f r).id ≡ r.id)
    → (db : Db) → IsTaken (ip_owner i) db
    → IsExclusive (record db { ip_changes = update_where (λ r. r.id == i) f db.ip_changes })
write-IsExclusive i f same db (h, mine) p active = held p.owner_type p.owner_id active
  where
    held :
        (t : OwnerType) (k : ℕ)
        → is_owner_active
            (owner t k)
            (record db { ip_changes = update_where (λ r. r.id == i) f db.ip_changes })
          ≡ true
        → is_held_by (owner t k) db.lease ≡ true
    held OwnerType.install k active = h (owner OwnerType.install k) active
    held OwnerType.server k active = h (owner OwnerType.server k) active
    held OwnerType.ip_change k active = elim (Bool-cases (k == i)) [
      | inl here ↦ held_same (owner OwnerType.ip_change k) (ip_owner i) db.lease (ground arith) mine
      | inr there ↦ h (owner OwnerType.ip_change k) (
          ground (
            arith,
            marked_at-update (λ r. r.id) (λ r. is_active r.status) f same i k db.ip_changes,
          ))
    ]

prepare_cleanup-Keeps :
    (platform : Platform) (now i : ℕ) → Keeps IsExclusive (prepare_cleanup platform now i)
unfolding prepare_cleanup
prepare_cleanup-Keeps platform now i = get_db-Keeps (
    Gives-bind (validate_review-Gives platform i) λ row.
      Gives-bind (take-Gives now _ (ip_owner i))
        λ _. Gives-modify _ {Q = IsExclusive} (write-IsExclusive i _ (λ r. refl)))

prepare_ssh_wait-Keeps :
    (platform : Platform) (now i : ℕ) → Keeps IsExclusive (prepare_ssh_wait platform now i)
unfolding prepare_ssh_wait
prepare_ssh_wait-Keeps platform now i = get_db-Keeps (
    Gives-bind (validate_ssh_decision-Gives platform false i) λ row.
      Gives-bind (take-Gives now _ (ip_owner i))
        λ _. Gives-modify _ {Q = IsExclusive} (write-IsExclusive i _ (λ r. refl)))

-- Queueing the deletion of retained boxes, or a further wait for SSH, keeps the lease exclusive,
-- whether it succeeds or is refused.
pub decision-IsExclusive :
    (platform : Platform) (now i : ℕ) (db : Db)
    → IsExclusive db
    → IsExclusive (prepare_cleanup platform now i db).1
      × IsExclusive (prepare_ssh_wait platform now i db).1
decision-IsExclusive platform now i db h = (
  (prepare_cleanup-Keeps platform now i).at db h,
  (prepare_ssh_wait-Keeps platform now i).at db h,
)
