-- ===== src/Tests/Publications.antt =====
-- The theorems on publications, on the hold, on addresses and on installations, at the small
-- installation.
use auto_vpn.Base.{◌+◌, ◌≡◌, refl, none, [], ◌∷◌}
use auto_vpn.Db.{Db, Error, ok, err, Status, Phase, ◌>>=◌, ActionState, IpChangeOperation, get_db}
use auto_vpn.Lease.{fail_owner, external_action_started, awaits_ssh}
use auto_vpn.Lease.Exclusive.{IsExclusive}
use auto_vpn.Operations.{ip_owner}
use auto_vpn.Clients.{
  Drawn, create_client, ensure_router_amnezia_peer, purge_applied_deleted_clients,
}
use auto_vpn.Clients.Distinct.{IsAllocated}
use auto_vpn.Clients.Addresses.{addresses_stay_distinct}
use auto_vpn.Snapshots.{new_ip_change, prepare_install_operation, prepare_ip_change_operation}
use auto_vpn.Snapshots.Hold.{interrupted_holds}
use auto_vpn.Publication.{publish_ip_change}
use auto_vpn.Snapshots.Immutable.{IsStored}
use auto_vpn.Publication.Immutable.{snapshots_are_immutable}
use auto_vpn.Publication.Revisions.{Publishes, publish_ip_change-Publishes}
use auto_vpn.Installs.{
  complete_install_operation, fail_install_operation, mark_install_operation_ambiguous,
}
use auto_vpn.Installs.Exclusive.{ended_install-IsExclusive}
use auto_vpn.Tests.Data.{platform, empty_db, prepared_db}
use auto_vpn.Tests.Leases.{prepared_db-IsExclusive}

published_six : (publish_ip_change platform 0 1 "10.0.0.2" "{}" none prepared_db).0 ≡ ok 6
unfolding publish_ip_change ◌>>=◌
published_six = refl

publish_ip_change-Publishes_example :
    (6 ≡ prepared_db.vpn_state.desired_revision + 1)
    × Publishes platform 0 "10.0.0.2" 6 prepared_db
        (publish_ip_change platform 0 1 "10.0.0.2" "{}" none prepared_db).1
publish_ip_change-Publishes_example =
    publish_ip_change-Publishes platform 0 1 "10.0.0.2" "{}" none prepared_db 6 published_six

-- The operation has begun to buy.
abbrev pub buying : IpChangeOperation
buying = record (new_ip_change 0 5 empty_db) {
  status = Status.running;
  action_state = ActionState.purchase_sending;
  purchase_state = Phase.sending;
}

abbrev pub buying_db : Db
buying_db = record prepared_db { ip_changes = buying ∷ [] }

interrupted_holds_example :
    (e : Error) × (prepare_ip_change_operation platform 7 none none
        (fail_owner (ip_owner 1) "Restarted" 6 buying_db)
      ≡ (err e, fail_owner (ip_owner 1) "Restarted" 6 buying_db))
unfolding external_action_started awaits_ssh
interrupted_holds_example =
    interrupted_holds platform 7 1 6 "Restarted" none none buying_db buying refl refl refl refl

abbrev drawn : Drawn
drawn = record {
  name = "phone";
  token = "t";
  vless_uuid = "u";
  hysteria_password = "p";
  amnezia_private_key = "k";
  amnezia_public_key = "l";
  amnezia_preshared_key = "m";
}

addresses_stay_distinct_example :
    IsAllocated (create_client platform 0 drawn prepared_db).1
    × IsAllocated (get_db (ensure_router_amnezia_peer platform 0 "r" "a" "b" "c") prepared_db).1
    × IsAllocated (purge_applied_deleted_clients prepared_db)
addresses_stay_distinct_example =
    addresses_stay_distinct platform 0 drawn "r" "a" "b" "c" prepared_db refl

ended_install-IsExclusive_example :
    IsExclusive (complete_install_operation 0 1 "done" prepared_db).1
    × IsExclusive (fail_install_operation 0 1 "done" prepared_db).1
    × IsExclusive (mark_install_operation_ambiguous 0 1 "done" prepared_db).1
ended_install-IsExclusive_example =
    ended_install-IsExclusive 0 1 "done" prepared_db prepared_db-IsExclusive

snapshots_are_immutable_example :
    IsStored 5 "10.0.0.1" (prepare_install_operation platform 4000000000 "10.0.0.2" prepared_db).1
    × IsStored 5 "10.0.0.1"
        (prepare_ip_change_operation platform 4000000000 none none prepared_db).1
    × IsStored 5 "10.0.0.1"
        (publish_ip_change platform 4000000000 1 "10.0.0.2" "{}" none prepared_db).1
    × IsStored 5 "10.0.0.1" (complete_install_operation 4000000000 1 "10.0.0.2" prepared_db).1
    × IsStored 5 "10.0.0.1" (fail_install_operation 4000000000 1 "10.0.0.2" prepared_db).1
    × IsStored 5 "10.0.0.1" (mark_install_operation_ambiguous 4000000000 1 "10.0.0.2" prepared_db).1
snapshots_are_immutable_example =
    snapshots_are_immutable platform 4000000000 1 5 "10.0.0.1" "10.0.0.2" "{}" none none none
      prepared_db refl
