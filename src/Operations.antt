-- ===== src/Operations.antt =====
-- The transactions of app/db.py on operation rows: an update with its heartbeat or release, the
-- reconciliation of a held IP change, and the search for an active operation.
pub mod Exclusive
pub mod Reconcile
use auto_vpn.Base.{
  ℕ, ◌+◌, String, Bool, true, false, not, ◌&&◌, ◌||◌, List, [], ◌∷◌, Option, none, some, ◌==◌,
  if◌then◌else◌, find, select, update_where, or_default, strip, truncate,
}
use auto_vpn.Db.{
  Db, LeaseOwner, OwnerType, Lease, Status, is_active, is_terminal, is_ambiguous, Phase,
  ActionState, is_cleanup_hold, is_reconciled, IpChangeOperation, InstallOperation, get_operation,
  get_install, Error, busy, lookup_error, value_error, Action, pure, raise, gets, modify, or_raise,
  raise_if, get_db, ◌>>=◌, ◌>>◌, ok, err, Result,
}
use auto_vpn.Lease.{release_vps_lease, heartbeat_vps_lease, iso}

-- One keyword argument of `update_operation`: a column and its new value.
pub data IpField : Type 0 where
  status : Status → IpField
  current_step old_ip old_ip_id new_ip new_ip_id error_message : String → IpField
  cleanup_warning rollback_outcome healthcheck_result : String → IpField
  action_state : ActionState → IpField
  purchase_state make_main_state apply_state : Phase → IpField
  published_revision server_reachable_at new_ip_created_at : ℕ → IpField
  new_main_at apply_completed_at : ℕ → IpField

abbrev pub assign : IpField → IpChangeOperation → IpChangeOperation
assign (IpField.status v) r = record r { status = v }
assign (IpField.current_step v) r = record r { current_step = v }
assign (IpField.old_ip v) r = record r { old_ip = some v }
assign (IpField.old_ip_id v) r = record r { old_ip_id = some v }
assign (IpField.new_ip v) r = record r { new_ip = some v }
assign (IpField.new_ip_id v) r = record r { new_ip_id = some v }
assign (IpField.error_message v) r = record r { error_message = some v }
assign (IpField.cleanup_warning v) r = record r { cleanup_warning = some v }
assign (IpField.rollback_outcome v) r = record r { rollback_outcome = some v }
assign (IpField.healthcheck_result v) r = record r { healthcheck_result = some v }
assign (IpField.action_state v) r = record r { action_state = v }
assign (IpField.purchase_state v) r = record r { purchase_state = v }
assign (IpField.make_main_state v) r = record r { make_main_state = v }
assign (IpField.apply_state v) r = record r { apply_state = v }
assign (IpField.published_revision v) r = record r { published_revision = some v }
assign (IpField.server_reachable_at v) r = record r { server_reachable_at = some v }
assign (IpField.new_ip_created_at v) r = record r { new_ip_created_at = some v }
assign (IpField.new_main_at v) r = record r { new_main_at = some v }
assign (IpField.apply_completed_at v) r = record r { apply_completed_at = some v }

abbrev pub assign_all : List IpField → IpChangeOperation → IpChangeOperation
assign_all [] r = r
assign_all (f ∷ fs) r = assign_all fs (assign f r)

-- `fields.get("status")`.
abbrev pub status_field : List IpField → Option Status
status_field [] = none
status_field (IpField.status v ∷ fs) = some (or_default (status_field fs) v)
status_field (_ ∷ fs) = status_field fs

abbrev pub is_terminal_field : Option Status → Bool
is_terminal_field none = false
is_terminal_field (some s) = is_terminal s

abbrev pub ip_owner : ℕ → LeaseOwner
ip_owner i = record { owner_type = OwnerType.ip_change; owner_id = i }

abbrev pub install_owner : ℕ → LeaseOwner
install_owner i = record { owner_type = OwnerType.install; owner_id = i }

-- The UPDATE statement of `update_operation`.
abbrev pub write_operation : ℕ → ℕ → List IpField → Db → Db
write_operation now i fields db = record db {
  ip_changes =
      update_where (λ r. r.id == i) (λ r. record (assign_all fields r) { updated_at = iso now })
        db.ip_changes;
}

unfoldable pub update_operation : ℕ → ℕ → List IpField → Action Db (Unit {0})
unfolding ◌>>=◌
update_operation now i [] = pure tt
update_operation now i (f ∷ fs) = get_db do
  modify (write_operation now i (f ∷ fs))
  if is_terminal_field (status_field (f ∷ fs))
      then release_vps_lease (ip_owner i)
      else heartbeat_vps_lease now (ip_owner i)
  pure tt

-- One keyword argument of `update_install_operation`.
pub data InstallField : Type 0 where
  status : Status → InstallField
  current_step target_host output error_message : String → InstallField

abbrev pub assign_install : InstallField → InstallOperation → InstallOperation
assign_install (InstallField.status v) r = record r { status = v }
assign_install (InstallField.current_step v) r = record r { current_step = v }
assign_install (InstallField.target_host v) r = record r { target_host = v }
assign_install (InstallField.output v) r = record r { output = some v }
assign_install (InstallField.error_message v) r = record r { error_message = some v }

abbrev pub assign_all_install : List InstallField → InstallOperation → InstallOperation
assign_all_install [] r = r
assign_all_install (f ∷ fs) r = assign_all_install fs (assign_install f r)

abbrev pub install_status_field : List InstallField → Option Status
install_status_field [] = none
install_status_field (InstallField.status v ∷ fs) = some (or_default (install_status_field fs) v)
install_status_field (_ ∷ fs) = install_status_field fs

unfoldable pub update_install_operation : ℕ → ℕ → List InstallField → Action Db (Unit {0})
unfolding ◌>>=◌
update_install_operation now i [] = pure tt
update_install_operation now i (f ∷ fs) = get_db do
  modify (λ db. record db {
    installs =
        update_where (λ r. r.id == i)
          (λ r. record (assign_all_install (f ∷ fs) r) { updated_at = iso now }) db.installs;
  })
  if is_terminal_field (install_status_field (f ∷ fs))
      then release_vps_lease (install_owner i)
      else heartbeat_vps_lease now (install_owner i)
  pure tt

unfoldable pub heartbeat_install_operation : ℕ → ℕ → Action Db Bool
unfolding ◌>>=◌
heartbeat_install_operation now i = get_db do
  operation ← gets (get_install i)
  elim operation [
    | none ↦ pure false
    | some r ↦ if is_active r.status then heartbeat_vps_lease now (install_owner i) else pure false
  ]

-- `UPDATE ip_change_operations SET action_state = 'RECONCILED', ...`.
abbrev pub write_reconciled : ℕ → ℕ → String → Db → Db
write_reconciled now i note db = record db {
  ip_changes =
      update_where (λ r. r.id == i)
        (λ r. record r {
          action_state = ActionState.reconciled;
          reconciled_at = some (iso now);
          reconciliation_note = some (truncate 500 (strip note));
          updated_at = iso now;
        })
        db.ip_changes;
}

abbrev pub is_hold : IpChangeOperation → Bool
is_hold r = is_ambiguous r.status || is_cleanup_hold r.action_state

unfoldable pub reconcile_ip_operation : ℕ → ℕ → String → Action Db (Unit {0})
unfolding strip truncate ◌>>=◌
reconcile_ip_operation now i note = get_db do
  operation ← gets (get_operation i)
  r ← or_raise operation (lookup_error "IP operation not found")
  raise_if (not (is_terminal r.status))
      (value_error "Only a terminal IP operation can be reconciled")
  raise_if (not (is_hold r) || is_reconciled r.action_state)
      (value_error "IP operation does not require reconciliation")
  modify (write_reconciled now i note)
