-- ===== src/Snapshots/Exclusive.antt =====
-- Preparing an operation keeps the lease exclusive (app/vpn_state.py).
use auto_vpn.Base.{ℕ, ◌≡◌, refl, String, Bool, true, false, Option, marked_at-update, arith}
use auto_vpn.Db.{
  Db, OwnerType, same_owner, is_active, is_owner_active, InstallOperation, IpChangeOperation,
  ActionState, Gives, Gives-bind, Gives-pure, Gives-raise, Gives-read, Gives-modify, Gives-raise_if,
  Gives-or_raise, Gives-when, Gives-case_option, Gives-weaken, Keeps, get_db-Keeps,
}
use auto_vpn.Config.{Platform}
use auto_vpn.Operations.{ip_owner, install_owner}
use auto_vpn.Lease.Release.{acquire-Gives}
use auto_vpn.Lease.Exclusive.{IsExclusive, IsExclusiveBut, owner}
use auto_vpn.Review.{bind_provider}
use auto_vpn.Review.Reads.{validate_review-Gives, validate_ssh_decision-Gives}
use auto_vpn.Snapshots.{
  ensure_snapshot, add_install, add_ip_change, add_context, set_action, prepare_install_operation,
  prepare_ip_change_operation, check_ip_change, carry_decision,
}

ensure_snapshot-IsExclusive :
    (again : Bool) (revision : ℕ) (payload sha : String) (at : ℕ)
    → Gives IsExclusive (ensure_snapshot again revision payload sha at) (λ _. IsExclusive)
unfolding ensure_snapshot
ensure_snapshot-IsExclusive again revision payload sha at = Gives-bind (Gives-read _) λ existing.
    Gives-case_option existing (Gives-modify _ {Q = IsExclusive} (λ db h. h)) λ s.
      Gives-bind (Gives-weaken (Gives-raise_if _ _) (λ a db h. h.0))
        λ _. Gives-when _ (Gives-modify _ {Q = IsExclusive} (λ db h. h))

add_install-IsExclusive :
    (row : InstallOperation) (db : Db)
    → IsExclusive db
    → IsExclusiveBut (install_owner row.id) (add_install row db)
add_install-IsExclusive row db h p active other = h p (still p.owner_type p.owner_id active other)
  where
    still :
        (t : OwnerType) (k : ℕ)
        → is_owner_active (owner t k) (add_install row db) ≡ true
        → same_owner (owner t k) (install_owner row.id) ≡ false
        → is_owner_active (owner t k) db ≡ true
    still OwnerType.install k active other = ground arith
    still OwnerType.ip_change k active other = active
    still OwnerType.server k active other = active

prepare_install_operation-Keeps :
    (platform : Platform) (now : ℕ) (target_host : String)
    → Keeps IsExclusive (prepare_install_operation platform now target_host)
unfolding prepare_install_operation
prepare_install_operation-Keeps platform now target_host = get_db-Keeps (
    Gives-bind (Gives-read _) λ config. Gives-bind (ensure_snapshot-IsExclusive true _ _ _ _) λ _.
      Gives-bind (Gives-read _) λ row.
        Gives-bind
          (Gives-modify (add_install row) {Q = IsExclusiveBut (install_owner row.id)}
            (add_install-IsExclusive row))
          λ _. Gives-bind (acquire-Gives now _ (install_owner row.id)) λ _. Gives-pure _ (λ s h. h))

add_ip_change-IsExclusive :
    (row : IpChangeOperation) (db : Db)
    → IsExclusive db
    → IsExclusiveBut (ip_owner row.id) (add_ip_change row db)
add_ip_change-IsExclusive row db h p active other = h p (still p.owner_type p.owner_id active other)
  where
    still :
        (t : OwnerType) (k : ℕ)
        → is_owner_active (owner t k) (add_ip_change row db) ≡ true
        → same_owner (owner t k) (ip_owner row.id) ≡ false
        → is_owner_active (owner t k) db ≡ true
    still OwnerType.install k active other = active
    still OwnerType.ip_change k active other = ground arith
    still OwnerType.server k active other = active

set_action-IsExclusive :
    (i : ℕ) (state : ActionState) (at : ℕ) (db : Db)
    → IsExclusive db
    → IsExclusive (set_action i state at db)
set_action-IsExclusive i state at db h p active = h p (still p.owner_type p.owner_id active)
  where
    still :
        (t : OwnerType) (k : ℕ)
        → is_owner_active (owner t k) (set_action i state at db) ≡ true
        → is_owner_active (owner t k) db ≡ true
    still OwnerType.install k active = active
    still OwnerType.ip_change k active = ground (
      arith,
      marked_at-update (λ r. r.id) (λ r. is_active r.status)
          (λ r. record r { action_state = state; updated_at = at }) (λ r. refl) i k db.ip_changes,
    )
    still OwnerType.server k active = active

-- The refusals only read.
pub check_ip_change-Gives :
    (platform : Platform) {P : Db → Type 0} (review decision : Option ℕ)
    → Gives P (check_ip_change platform review decision) (λ _. P)
unfolding check_ip_change
check_ip_change-Gives platform review decision =
    Gives-bind (Gives-weaken (Gives-raise_if _ _) (λ a db h. h.0)) λ _.
      Gives-bind
        (Gives-case_option decision (Gives-pure tt (λ s h. h)) λ i.
          Gives-bind (validate_ssh_decision-Gives platform false i) λ _. Gives-pure tt (λ s h. h))
        λ _. Gives-bind (Gives-read _) λ waiting.
          Gives-bind (Gives-weaken (Gives-raise_if _ _) (λ a db h. h.0)) λ _.
            Gives-bind
              (Gives-case_option review (Gives-pure tt (λ s h. h))
                λ i. Gives-bind (validate_review-Gives platform i) λ _. Gives-pure tt (λ s h. h))
              λ _. Gives-bind (Gives-read _) λ unresolved.
                Gives-case_option unresolved (Gives-pure tt (λ s h. h)) (λ r. Gives-raise _)

module _ (platform : Platform) where
  bind_provider-Gives : (i : ℕ) → Gives IsExclusive (bind_provider platform i) (λ _. IsExclusive)
  unfolding bind_provider
  bind_provider-Gives i = Gives-bind (Gives-read _) λ provider.
      Gives-bind (Gives-weaken (Gives-raise_if _ _) (λ a db h. h.0)) λ _.
        Gives-bind (Gives-read _) λ existing.
          Gives-bind (Gives-weaken (Gives-raise_if _ _) (λ a db h. h.0))
            λ _. Gives-modify _ {Q = IsExclusive} (λ db h. h)

  carry_decision-Gives :
      (now new_id : ℕ) (review decision : Option ℕ)
      → Gives IsExclusive (carry_decision platform now new_id review decision) (λ _. IsExclusive)
  unfolding carry_decision
  carry_decision-Gives now new_id review decision =
      Gives-bind
        (Gives-case_option decision (Gives-pure tt (λ s h. h)) λ i.
          Gives-bind (Gives-read _) λ previous.
            Gives-bind (Gives-weaken (Gives-or_raise previous _) (λ a db h. h.0)) λ row.
              Gives-bind (Gives-modify (add_context new_id i row) {Q = IsExclusive} (λ db h. h))
                λ _. Gives-modify _ {Q = IsExclusive} (set_action-IsExclusive i _ _))
        λ _.
          Gives-case_option review (Gives-pure tt (λ s h. h))
            λ i. Gives-modify _ {Q = IsExclusive} (set_action-IsExclusive i _ _)

  prepare_ip_change_operation-Keeps :
      (now : ℕ) (review decision : Option ℕ)
      → Keeps IsExclusive (prepare_ip_change_operation platform now review decision)
  unfolding prepare_ip_change_operation
  prepare_ip_change_operation-Keeps now review decision = get_db-Keeps (
      Gives-bind (check_ip_change-Gives platform review decision) λ _.
        Gives-bind (Gives-read _) λ config.
          Gives-bind (ensure_snapshot-IsExclusive false _ _ _ _) λ _.
            Gives-bind (Gives-read _) λ row.
              Gives-bind
                (Gives-modify (add_ip_change row) {Q = IsExclusiveBut (ip_owner row.id)}
                  (add_ip_change-IsExclusive row))
                λ _. Gives-bind (acquire-Gives now _ (ip_owner row.id)) λ _.
                  Gives-bind (bind_provider-Gives row.id) λ _.
                    Gives-bind (carry_decision-Gives now row.id review decision)
                      λ _. Gives-pure _ (λ s h. h))

-- Preparing an installation or an IP change, with or without a decision, keeps the lease exclusive,
-- whether it succeeds or is refused.
pub prepare-IsExclusive :
    (platform : Platform) (now : ℕ) (target_host : String) (review decision : Option ℕ) (db : Db)
    → IsExclusive db
    → IsExclusive (prepare_install_operation platform now target_host db).1
      × IsExclusive (prepare_ip_change_operation platform now review decision db).1
prepare-IsExclusive platform now target_host review decision db h = (
  (prepare_install_operation-Keeps platform now target_host).at db h,
  (prepare_ip_change_operation-Keeps platform now review decision).at db h,
)
