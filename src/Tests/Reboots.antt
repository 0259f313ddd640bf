-- ===== src/Tests/Reboots.antt =====
-- The theorems on server operations, at an installation with one reboot.
use auto_vpn.Base.{◌≡◌, refl, [], ◌∷◌, some}
use auto_vpn.Db.{Db, Kind, ServerOperation, Status, get_server_operation}
use auto_vpn.Lease.{fail_owner}
use auto_vpn.Lease.Exclusive.{IsExclusive}
use auto_vpn.Server.{
  server_owner, new_server, create_server_operation, create_protocol_refresh_operation,
  mark_reboot_sending,
}
use auto_vpn.Server.Exclusive.{server-IsExclusive}
use auto_vpn.Server.Reboot.{interrupted_reboot_ambiguous}
use auto_vpn.Tests.Data.{empty_db, prepared_db}
use auto_vpn.Tests.Leases.{prepared_db-IsExclusive}

abbrev reboot : ServerOperation
reboot = new_server 0 Kind.reboot "queued" empty_db

abbrev pub reboot_db : Db
reboot_db = record empty_db { servers = reboot ∷ []; next_server = 2 }

interrupted_reboot_ambiguous_example :
    (s : ServerOperation) × (get_server_operation 1
        (fail_owner (server_owner 1) "Restarted" 0 (mark_reboot_sending 0 1 reboot_db).1)
      ≡ some s)
    × (s.status ≡ Status.ambiguous)
interrupted_reboot_ambiguous_example =
    interrupted_reboot_ambiguous 0 1 "Restarted" 0 reboot_db reboot refl refl

-- The lease of the small installation has run out by then.
server-IsExclusive_example :
    IsExclusive (create_server_operation 4000000000 Kind.reboot prepared_db).1
    × IsExclusive (create_protocol_refresh_operation 4000000000 prepared_db).1
    × IsExclusive (mark_reboot_sending 4000000000 1 prepared_db).1
server-IsExclusive_example =
    server-IsExclusive 4000000000 1 Kind.reboot prepared_db prepared_db-IsExclusive
