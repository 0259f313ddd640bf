-- ===== src/Tests/Leases.antt =====
-- The theorems on the lease, at the small installation.
use auto_vpn.Base.{◌≡◌, refl, ◌<◌, false, some, none, inl, [], ◌∷◌, arith}
use auto_vpn.Db.{LeaseOwner, OwnerType, is_owner_active, Status}
use auto_vpn.Lease.{acquire_vps_lease, new_lease, parse, recover_incomplete_vps_operations}
use auto_vpn.Lease.Exclusive.{IsExclusive, IsExclusiveBut, acquire-IsExclusive}
use auto_vpn.Lease.Recovery.{recover_closes_all}
use auto_vpn.Operations.{IpField, ip_owner, update_operation}
use auto_vpn.Operations.Exclusive.{update_operation-IsExclusive, update_operation_without_lease}
use auto_vpn.Tests.Data.{prepared_db, unleased_db}

unleased_others : IsExclusiveBut (ip_owner 1) unleased_db
unleased_others p active other = elim p.owner_type [
  | OwnerType.install ↦ ground arith
  | OwnerType.ip_change ↦ ground arith
  | OwnerType.server ↦ ground arith
]

acquire-IsExclusive_example :
    IsExclusive (acquire_vps_lease 0 3600 (ip_owner 1) unleased_db).1
    × ((acquire_vps_lease 0 3600 (ip_owner 1) unleased_db).1.lease
        ≡ some (new_lease 0 3600 (ip_owner 1)))
    × (0 < parse (new_lease 0 3600 (ip_owner 1)).expires_at)
unfolding acquire_vps_lease
acquire-IsExclusive_example =
    acquire-IsExclusive 0 3600 (ip_owner 1) unleased_db unleased_others refl

recover_closes_all_example :
    ((o : LeaseOwner)
      → is_owner_active o (recover_incomplete_vps_operations 0 "restart" prepared_db) ≡ false)
    × ((recover_incomplete_vps_operations 0 "restart" prepared_db).lease ≡ none)
recover_closes_all_example = recover_closes_all 0 "restart" prepared_db

-- The small installation keeps the rule.
pub prepared_db-IsExclusive : IsExclusive prepared_db
prepared_db-IsExclusive p active = elim p.owner_type [
  | OwnerType.install ↦ ground arith
  | OwnerType.ip_change ↦ ground arith
  | OwnerType.server ↦ ground arith
]

update_operation-IsExclusive_example :
    IsExclusive
      (update_operation 0 1
        (IpField.status Status.running ∷ IpField.current_step "apply" ∷ [])
        prepared_db).1
update_operation-IsExclusive_example =
    update_operation-IsExclusive 0 1
      (IpField.status Status.running ∷ IpField.current_step "apply" ∷ []) prepared_db
      prepared_db-IsExclusive (inl refl)

update_operation_without_lease_example :
    ¬ IsExclusive (update_operation 0 1 (IpField.status Status.running ∷ []) unleased_db).1
update_operation_without_lease_example = update_operation_without_lease 0 1 unleased_db refl refl
