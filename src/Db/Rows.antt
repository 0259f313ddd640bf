-- ===== src/Db/Rows.antt =====
-- The rows of the tables (app/migrations.py). A nullable column is an Option. A time that a column
-- keeps as text is the number of its seconds, since every writer truncates to seconds.
use auto_vpn.Base.{ℕ, String, Bool, List, Option}
use auto_vpn.Db.Vocabulary.{Status, Phase, ActionState, LeaseOwner, Lifecycle, Kind, Outcome}

-- The row of `operation_leases` for the one resource "vpn_vps".
pub record Lease : Type 0 where
  pub owner : LeaseOwner
  pub acquired_at : ℕ
  pub heartbeat_at : ℕ
  pub expires_at : ℕ

pub record InstallOperation : Type 0 where
  pub id : ℕ
  pub status : Status
  pub target_host : String
  pub current_step : String
  pub output : Option String
  pub error_message : Option String
  pub revision : Option ℕ
  pub created_at : ℕ
  pub updated_at : ℕ

pub record IpChangeOperation : Type 0 where
  pub id : ℕ
  pub status : Status
  pub old_ip : Option String
  pub new_ip : Option String
  pub old_ip_id : Option String
  pub new_ip_id : Option String
  pub current_step : String
  pub error_message : Option String
  pub created_at : ℕ
  pub updated_at : ℕ
  pub server_reachable_at : Option ℕ
  pub healthcheck_result : Option String
  pub revision : Option ℕ
  pub published_revision : Option ℕ
  pub action_state : ActionState
  pub purchase_state : Phase
  pub make_main_state : Phase
  pub apply_state : Phase
  pub cleanup_warning : Option String
  pub rollback_outcome : Option String
  pub new_ip_created_at : Option ℕ
  pub new_main_at : Option ℕ
  pub apply_completed_at : Option ℕ
  pub published_at : Option ℕ
  pub reconciled_at : Option ℕ
  pub reconciliation_note : Option String

pub record ServerOperation : Type 0 where
  pub id : ℕ
  pub kind : Kind
  pub status : Status
  pub current_step : String
  pub action_state : Phase
  pub provider_status : Option String
  pub provider_ip : Option String
  pub ssh_status : Option String
  pub services_json : Option String
  pub protocol_health_json : Option String
  pub result_message : Option String
  pub warning_message : Option String
  pub error_message : Option String
  pub created_at : ℕ
  pub updated_at : ℕ
  pub started_at : Option ℕ
  pub completed_at : Option ℕ

pub record VpnState : Type 0 where
  pub desired_revision : ℕ
  pub applied_revision : Option ℕ
  pub desired_updated_at : Option ℕ
  pub applied_updated_at : Option ℕ

pub record Snapshot : Type 0 where
  pub revision : ℕ
  pub payload_json : String
  pub payload_sha256 : String
  pub lifecycle : Lifecycle
  pub prepared_at : ℕ
  pub applied_at : Option ℕ
  pub failed_at : Option ℕ
  pub error_message : Option String

pub record Client : Type 0 where
  pub id : ℕ
  pub name : String
  pub token : String
  pub enabled : Bool
  pub vless_uuid : String
  pub hysteria_password : String
  pub amnezia_private_key : String
  pub amnezia_public_key : String
  pub amnezia_preshared_key : String
  pub amnezia_ipv4 : String
  pub created_at : ℕ
  pub deleted_at : Option ℕ
  pub deleted_revision : Option ℕ

-- The JSON object in the settings row "ip_change.N.provider" (app/vps_provider.py, bind_provider).
pub record Binding : Type 0 where
  pub provider : String
  pub login : String
  pub box_name : String
  pub service : String
  pub distributive : String
  pub credential_hash : String

-- The JSON object in the settings row "ip_change.N.sprintbox", as far as it is read here.
pub record BoxContext : Type 0 where
  pub retained_boxes : List (String × String)

pub record Router : Type 0 where
  pub router_id : String
  pub client_id : ℕ
  pub label : String
  pub enabled : Bool
  pub created_at : ℕ
  pub updated_at : ℕ
  pub last_seen_at : Option ℕ

pub record RouterCredential : Type 0 where
  pub credential_id : String
  pub router_id : String
  pub client_id : ℕ
  pub label : String
  pub secret_digest : String
  pub scopes : String
  pub enabled : Bool
  pub created_at : ℕ
  pub updated_at : ℕ
  pub last_used_at : Option ℕ
  pub expires_at : Option String
  pub revoked_at : Option ℕ

pub record RouterApplyResult : Type 0 where
  pub id : ℕ
  pub credential_id : String
  pub idempotency_key : String
  pub body_sha256 : String
  pub revision : ℕ
  pub snapshot_sha256 : String
  pub snapshot_etag : String
  pub outcome : Outcome
  pub active_profile : Option String
  pub capabilities_json : String
  pub diagnostics_json : String
  pub created_at : ℕ
  pub updated_at : ℕ

pub record RouterPeer : Type 0 where
  pub router_id : String
  pub private_key : String
  pub public_key : String
  pub preshared_key : String
  pub ipv4 : String
