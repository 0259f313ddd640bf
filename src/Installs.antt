-- ===== src/Installs.antt =====
-- How an installation ends (app/vpn_state.py): applied, failed, or in doubt.
pub mod Exclusive
use auto_vpn.Base.{
  ℕ, String, not, ◌&&◌, Option, none, some, ◌==◌, ltb, if◌then◌else◌, update_where, count_where,
}
use auto_vpn.Db.{
  Db, Lifecycle, is_applied, InstallOperation, Status, is_active, get_install, runtime_error,
  Action, pure, gets, modify, or_raise, raise_if, get_db, ◌>>=◌, ◌>>◌,
}
use auto_vpn.Clients.{purge_applied_deleted_clients}
use auto_vpn.Operations.{install_owner}
use auto_vpn.Lease.{release_vps_lease, iso}

-- `CASE WHEN applied_revision IS NULL OR applied_revision < ? THEN ? ELSE applied_revision END`.
abbrev pub later_revision : Option ℕ → ℕ → ℕ
later_revision none n = n
later_revision (some m) n = if ltb m n then n else m

abbrev pub write_applied : ℕ → ℕ → Db → Db
write_applied revision timestamp db = record db {
  snapshots =
      update_where (λ s. s.revision == revision)
        (λ s. record s {
          lifecycle = Lifecycle.applied;
          applied_at = some timestamp;
          failed_at = none;
          error_message = none;
        })
        db.snapshots;
}

abbrev pub raise_applied : ℕ → ℕ → Db → Db
raise_applied revision timestamp db = record db {
  vpn_state = record (db.vpn_state) {
    applied_revision = some (later_revision db.vpn_state.applied_revision revision);
    applied_updated_at = some timestamp;
  };
}

unfoldable pub complete_install_operation : ℕ → ℕ → String → Action Db (Unit {0})
unfolding purge_applied_deleted_clients release_vps_lease
complete_install_operation now i output = get_db do
  found ← gets (get_install i)
  row ← or_raise found (runtime_error "Install operation has no revision")
  revision ← or_raise row.revision (runtime_error "Install operation has no revision")
  rowcount ← gets (λ db. count_where (λ s. s.revision == revision) db.snapshots)
  modify (write_applied revision (iso now))
  raise_if (not (rowcount == 1)) (runtime_error "VPN snapshot does not exist")
  modify (raise_applied revision (iso now))
  modify purge_applied_deleted_clients
  modify (λ db. record db {
    installs =
        update_where (λ r. r.id == i)
          (λ r. record r {
            status = Status.done;
            current_step = "done";
            output = some output;
            error_message = none;
            updated_at = iso now;
          })
          db.installs;
  })
  release_vps_lease (install_owner i)
  pure tt

-- `UPDATE vpn_snapshots SET lifecycle = 'FAILED' ... AND lifecycle != 'APPLIED'`.
abbrev pub fail_snapshot : Option InstallOperation → String → ℕ → Db → Db
fail_snapshot none error_message timestamp db = db
fail_snapshot (some row) error_message timestamp db = elim row.revision [
  | none ↦ db
  | some revision ↦ record db {
    snapshots =
        update_where (λ s. s.revision == revision && not (is_applied s.lifecycle))
          (λ s. record s {
            lifecycle = Lifecycle.failed;
            failed_at = some timestamp;
            error_message = some error_message;
          })
          db.snapshots;
  }
]

unfoldable pub fail_install_operation : ℕ → ℕ → String → Action Db (Unit {0})
unfolding release_vps_lease
fail_install_operation now i error_message = get_db do
  operation ← gets (get_install i)
  modify (fail_snapshot operation error_message (iso now))
  modify (λ db. record db {
    installs =
        update_where (λ r. r.id == i)
          (λ r. record r {
            status = Status.failed;
            current_step = "failed";
            error_message = some error_message;
            updated_at = iso now;
          })
          db.installs;
  })
  release_vps_lease (install_owner i)
  pure tt

unfoldable pub mark_install_operation_ambiguous : ℕ → ℕ → String → Action Db (Unit {0})
unfolding release_vps_lease
mark_install_operation_ambiguous now i error_message = get_db do
  operation ← gets (get_install i)
  modify (fail_snapshot operation error_message (iso now))
  modify (λ db. record db {
    installs =
        update_where (λ r. r.id == i && is_active r.status)
          (λ r. record r {
            status = Status.ambiguous;
            current_step = "ambiguous";
            error_message = some error_message;
            updated_at = iso now;
          })
          db.installs;
  })
  release_vps_lease (install_owner i)
  pure tt
