-- ===== src/Publication.antt =====
-- `publish_ip_change` of app/vpn_state.py: one transaction that makes the new address the published
-- configuration, as the revision after the one that the operation was bound to.
pub mod Immutable
pub mod Revisions
use auto_vpn.Base.{
  ℕ, ◌+◌, String, not, List, [], ◌∷◌, Option, none, some, ◌==◌, update_where, is_some, or_default,
}
use auto_vpn.Db.{
  Db, Snapshot, Lifecycle, IpChangeOperation, Status, ActionState, get_operation, get_vpn_snapshot,
  insert_setting, runtime_error, integrity, Action, pure, gets, modify, or_raise, raise_if,
  of_result, get_db, ◌>>=◌, ◌>>◌,
}
use auto_vpn.Config.{Platform, CapturedVpnConfig}
use auto_vpn.Clients.{purge_applied_deleted_clients}
use auto_vpn.Snapshots.{bound_snapshot}
use auto_vpn.Lease.{iso}

-- What a SprintBOX rotation publishes besides: the box, and the key that reaches it.
pub record BoxAccess : Type 0 where
  pub box_name : String
  pub ssh_key_path : Option String

abbrev pub write_settings : List (String × String) → List (String × String) → List (String × String)
write_settings [] settings = settings
write_settings ((k, v) ∷ rest) settings = write_settings rest (insert_setting k v settings)

abbrev pub key_settings : Option String → List (String × String)
key_settings none = []
key_settings (some path) =
    ("config.eu_ssh_user", "root")
    ∷ ("config.eu_ssh_port", "22")
    ∷ ("config.eu_ssh_key_path", path)
    ∷ ("config.eu_ssh_password", "")
    ∷ []

abbrev pub box_settings : Option BoxAccess → List (String × String) → List (String × String)
box_settings none settings = settings
box_settings (some box) settings = write_settings (key_settings box.ssh_key_path) (
    write_settings (("config.sprintbox_box_name", box.box_name) ∷ ("config.eu_ssh_host", "") ∷ [])
      settings)

abbrev pub published_snapshot : ℕ → String → String → ℕ → Snapshot
published_snapshot revision payload_json payload_sha256 timestamp = record {
  revision = revision;
  payload_json = payload_json;
  payload_sha256 = payload_sha256;
  lifecycle = Lifecycle.applied;
  prepared_at = timestamp;
  applied_at = some timestamp;
  failed_at = none;
  error_message = none;
}

abbrev pub apply_snapshot : ℕ → Snapshot → Snapshot
apply_snapshot timestamp s = record s {
  lifecycle = Lifecycle.applied;
  applied_at = some (or_default s.applied_at timestamp);
  failed_at = none;
  error_message = none;
}

abbrev pub mark_published : ℕ → String → ℕ → IpChangeOperation → IpChangeOperation
mark_published revision healthcheck_result timestamp r = record r {
  status = Status.running;
  current_step = "delete_old_ipv4";
  action_state = ActionState.published;
  published_revision = some revision;
  published_at = some timestamp;
  healthcheck_result = some healthcheck_result;
  updated_at = timestamp;
}

module _ (platform : Platform) where
  open platform use {canonical_vpn_config_json, captured_vpn_config_from_json, sha256, isoformat}

  -- `replace(bound_config, current_ip=..., config_updated_at=..., revision=...)`.
  abbrev pub published_config : CapturedVpnConfig → String → ℕ → ℕ → CapturedVpnConfig
  published_config config new_ip timestamp revision = record config {
    current_ip = new_ip;
    config_updated_at = isoformat timestamp;
    revision = revision;
  }

  -- The writes of the transaction, once its checks have passed.
  unfoldable pub write_publication :
      ℕ → String → String → Option BoxAccess → ℕ → String → ℕ → Db → Db
  unfolding purge_applied_deleted_clients
  write_publication i new_ip health box bound payload timestamp db =
      purge_applied_deleted_clients (record db {
        snapshots =
            update_where (λ s. s.revision == bound) (apply_snapshot timestamp)
              (published_snapshot (bound + 1) payload (sha256 payload) timestamp ∷ db.snapshots);
        settings = box_settings box (
            write_settings
              (("current_ip", new_ip)
                ∷ ("vpn.config_updated_at", isoformat timestamp)
                ∷ ("last_healthcheck_status", "OK")
                ∷ [])
              db.settings);
        vpn_state = record {
          desired_revision = bound + 1;
          applied_revision = some (bound + 1);
          desired_updated_at = some timestamp;
          applied_updated_at = some timestamp;
        };
        ip_changes =
            update_where (λ r. r.id == i) (mark_published (bound + 1) health timestamp)
              db.ip_changes;
      })

  unfoldable pub publish_ip_change : ℕ → ℕ → String → String → Option BoxAccess → Action Db ℕ
  publish_ip_change now i new_ip health box = get_db do
    found ← gets (get_operation i)
    row ← or_raise found (runtime_error "IP change operation has no bound VPN snapshot")
    joined ← gets (bound_snapshot row.revision)
    s ← or_raise joined (runtime_error "IP change operation has no bound VPN snapshot")
    desired ← gets (λ db. db.vpn_state.desired_revision)
    raise_if (not (desired == s.revision))
        (runtime_error "VPN configuration changed during IP rotation; refusing to publish")
    config ← of_result (captured_vpn_config_from_json s.payload_json)
    let payload =
        canonical_vpn_config_json (published_config config new_ip (iso now) (s.revision + 1))
    taken ← gets (get_vpn_snapshot (s.revision + 1))
    raise_if (is_some taken) integrity
    modify (write_publication i new_ip health box s.revision payload (iso now))
    pure (s.revision + 1)
