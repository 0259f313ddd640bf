-- ===== src/Server.antt =====
-- app/server_operations.py: the rows of status and reboot operations. A kind is one of the two that
-- the source accepts. The removal of secrets from an error text is a parameter.
pub mod Texts
pub mod Settings
pub mod World
pub mod Health
pub mod Runs
pub mod Restart
pub mod Surely
pub mod Closing
pub mod Cleaned
pub mod Leads
pub mod Sent
pub mod Sending
pub mod Once
pub mod Exclusive
pub mod Reboot
use auto_vpn.Base.{
  ℕ, ◌+◌, String, Bool, true, false, ◌&&◌, List, [], ◌∷◌, Option, none, some, ◌==◌, if◌then◌else◌,
  update_where, count_where, or_default,
}
use auto_vpn.Db.{
  Db, ServerOperation, Kind, is_reboot, Status, is_active, is_terminal, Phase, is_not_started,
  LeaseOwner, OwnerType, Action, pure, gets, modify, get_db, ◌>>=◌, ◌>>◌,
}
use auto_vpn.Lease.{
  acquire_vps_lease, release_vps_lease, heartbeat_vps_lease, default_lease_seconds, iso,
}
use auto_vpn.Operations.{is_terminal_field}
use auto_vpn.Server.Texts.{clean}

abbrev pub server_owner : ℕ → LeaseOwner
server_owner i = record { owner_type = OwnerType.server; owner_id = i }

-- One keyword argument of `update_server_operation`.
pub data ServerField : Type 0 where
  status : Status → ServerField
  action_state : Phase → ServerField
  started_at completed_at : ℕ → ServerField
  current_step provider_status provider_ip ssh_status : String → ServerField
  services_json protocol_health_json result_message : String → ServerField
  warning_message error_message : String → ServerField

-- `_safe_error`: app/secret_sanitization.py with the configured secrets.
pub record Cleaning : Type 0 where
  pub safe_error : String → String

abbrev pub clean_limit : ℕ
clean_limit = 4000

abbrev pub assign_server : Cleaning → ServerField → ServerOperation → ServerOperation
assign_server c (ServerField.status v) r = record r { status = v }
assign_server c (ServerField.action_state v) r = record r { action_state = v }
assign_server c (ServerField.started_at v) r = record r { started_at = some v }
assign_server c (ServerField.completed_at v) r = record r { completed_at = some v }
assign_server c (ServerField.current_step v) r = record r { current_step = clean clean_limit v }
assign_server c (ServerField.provider_status v) r = record r {
  provider_status = some (clean clean_limit v);
}
assign_server c (ServerField.provider_ip v) r = record r {
  provider_ip = some (clean clean_limit v);
}
assign_server c (ServerField.ssh_status v) r = record r { ssh_status = some (clean clean_limit v) }
assign_server c (ServerField.services_json v) r = record r {
  services_json = some (clean clean_limit v);
}
assign_server c (ServerField.protocol_health_json v) r = record r {
  protocol_health_json = some (clean clean_limit v);
}
assign_server c (ServerField.result_message v) r = record r {
  result_message = some (clean clean_limit v);
}
assign_server c (ServerField.warning_message v) r = record r {
  warning_message = some (c.safe_error v);
}
assign_server c (ServerField.error_message v) r = record r { error_message = some (c.safe_error v) }

abbrev pub assign_all_server : Cleaning → List ServerField → ServerOperation → ServerOperation
assign_all_server c [] r = r
assign_all_server c (f ∷ fs) r = assign_all_server c fs (assign_server c f r)

abbrev pub server_status_field : List ServerField → Option Status
server_status_field [] = none
server_status_field (ServerField.status v ∷ fs) = some (or_default (server_status_field fs) v)
server_status_field (_ ∷ fs) = server_status_field fs

abbrev pub new_server : ℕ → Kind → String → Db → ServerOperation
new_server now kind step db = record {
  id = db.next_server;
  kind = kind;
  status = Status.pending;
  current_step = step;
  action_state = Phase.not_started;
  provider_status = none;
  provider_ip = none;
  ssh_status = none;
  services_json = none;
  protocol_health_json = none;
  result_message = none;
  warning_message = none;
  error_message = none;
  created_at = iso now;
  updated_at = iso now;
  started_at = none;
  completed_at = none;
}

abbrev pub add_server : ServerOperation → Db → Db
add_server row db = record db { servers = row ∷ db.servers; next_server = db.next_server + 1 }

unfoldable pub create_server_operation : ℕ → Kind → Action Db ℕ
create_server_operation now kind = get_db do
  row ← gets (new_server now kind "queued")
  modify (add_server row)
  acquire_vps_lease now default_lease_seconds (server_owner row.id)
  pure row.id

unfoldable pub create_protocol_refresh_operation : ℕ → Action Db ℕ
create_protocol_refresh_operation now = get_db do
  row ← gets (new_server now Kind.status "queued_protocol_refresh")
  modify (add_server row)
  acquire_vps_lease now default_lease_seconds (server_owner row.id)
  pure row.id

unfoldable pub update_server_operation : Cleaning → ℕ → ℕ → List ServerField → Action Db (Unit {0})
update_server_operation c now i [] = pure tt
update_server_operation c now i (f ∷ fs) = get_db do
  modify (λ db. record db {
    servers =
        update_where (λ r. r.id == i)
          (λ r. record (assign_all_server c (f ∷ fs) r) { updated_at = iso now }) db.servers;
  })
  if is_terminal_field (server_status_field (f ∷ fs))
      then release_vps_lease (server_owner i)
      else heartbeat_vps_lease now (server_owner i)
  pure tt

-- May the reboot of this row still be sent?
abbrev pub is_unsent : ℕ → ServerOperation → Bool
is_unsent i r =
    r.id == i && (is_reboot r.kind && (is_active r.status && is_not_started r.action_state))

abbrev pub mark_sending : ℕ → ServerOperation → ServerOperation
mark_sending timestamp r = record r {
  status = Status.running;
  current_step = "send_reboot";
  action_state = Phase.sending;
  started_at = some (or_default r.started_at timestamp);
  updated_at = timestamp;
}

unfoldable pub mark_reboot_sending : ℕ → ℕ → Action Db Bool
mark_reboot_sending now i = get_db do
  rowcount ← gets (λ db. count_where (is_unsent i) db.servers)
  modify
      (λ db. record db { servers = update_where (is_unsent i) (mark_sending (iso now)) db.servers })
  if rowcount == 1 then heartbeat_vps_lease now (server_owner i) >> pure true else pure false
