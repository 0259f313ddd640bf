-- ===== src/Tests/Decisions.antt =====
-- The theorems on preparing and reconciling operations, at the small installation.
use auto_vpn.Base.{◌≡◌, refl, ◌≢◌, none, some, arith, [], ◌∷◌}
use auto_vpn.Db.{OwnerType, ◌>>=◌, Db, Status, ActionState, IpChangeOperation, ok}
use auto_vpn.Lease.Exclusive.{IsExclusive}
use auto_vpn.Operations.{reconcile_ip_operation}
use auto_vpn.Operations.Reconcile.{reconcile_once}
use auto_vpn.Lease.{acquire_vps_lease}
use auto_vpn.Review.{no_binding, prepare_cleanup, prepare_ssh_wait}
use auto_vpn.Review.Exclusive.{decision-IsExclusive}
use auto_vpn.Snapshots.{new_ip_change, prepare_install_operation, prepare_ip_change_operation}
use auto_vpn.Snapshots.Exclusive.{prepare-IsExclusive}
use auto_vpn.Tests.Data.{platform, empty_db, prepared_db}
use auto_vpn.Tests.Leases.{prepared_db-IsExclusive}

abbrev doubtful : IpChangeOperation
doubtful = record (new_ip_change 0 5 empty_db) {
  status = Status.ambiguous;
  action_state = ActionState.ambiguous;
}

abbrev doubtful_db : Db
doubtful_db = record empty_db { ip_changes = doubtful ∷ []; next_ip_change = 2 }

reconcile_once_example :
    (reconcile_ip_operation 1 1 "again" (reconcile_ip_operation 0 1 "checked" doubtful_db).1).0
    ≢ ok tt
unfolding reconcile_ip_operation
reconcile_once_example = reconcile_once 0 1 1 "checked" "again" doubtful_db refl

-- The lease of the small installation has run out by then.
prepare-IsExclusive_example :
    IsExclusive (prepare_install_operation platform 4000000000 "vpn.example" prepared_db).1
    × IsExclusive (prepare_ip_change_operation platform 4000000000 none none prepared_db).1
prepare-IsExclusive_example =
    prepare-IsExclusive platform 4000000000 "vpn.example" none none prepared_db
      prepared_db-IsExclusive

-- A published SprintBOX rotation that waits for a person.
abbrev reviewed : IpChangeOperation
reviewed = record (new_ip_change 0 5 empty_db) {
  status = Status.done;
  action_state = ActionState.awaiting_user_review;
  new_ip = some "10.0.0.1";
  new_ip_id = some "box2";
  published_revision = some 5;
}

abbrev review_db : Db
review_db = record empty_db {
  ip_changes = reviewed ∷ [];
  next_ip_change = 2;
  settings =
      ("current_ip", "10.0.0.1")
      ∷ ("config.vps_provider", "sprintbox")
      ∷ ("config.sprintbox_box_name", "box2")
      ∷ [];
  bindings = (1, record no_binding { provider = "sprintbox" }) ∷ [];
}

review_db-IsExclusive : IsExclusive review_db
review_db-IsExclusive p active = elim p.owner_type [
  | OwnerType.install ↦ ground arith
  | OwnerType.ip_change ↦ ground arith
  | OwnerType.server ↦ ground arith
]

prepare_cleanup_queues : (prepare_cleanup platform 0 1 review_db).0 ≡ ok tt
unfolding prepare_cleanup acquire_vps_lease ◌>>=◌
prepare_cleanup_queues = refl

decision-IsExclusive_example :
    IsExclusive (prepare_cleanup platform 0 1 review_db).1
    × IsExclusive (prepare_ssh_wait platform 0 1 review_db).1
decision-IsExclusive_example = decision-IsExclusive platform 0 1 review_db review_db-IsExclusive
