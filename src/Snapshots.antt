-- ===== src/Snapshots.antt =====
-- app/vpn_state.py: immutable snapshots of the VPN configuration by revision, and the transactions
-- that bind an operation to one, publish the next one, and close an installation.
pub mod Exclusive
pub mod Hold
pub mod Immutable
use auto_vpn.Base.{
  ℕ, suc, ◌+◌, String, Bool, true, false, not, ◌&&◌, ◌||◌, List, [], ◌∷◌, ◌++◌, Option, none, some,
  ◌==◌, ltb, if◌then◌else◌, find, select, update_where, count_where, is_some, or_default, truthy,
  str_eq,
}
use auto_vpn.Db.{
  Db, Snapshot, Lifecycle, is_applied, is_prepared, VpnState, InstallOperation, IpChangeOperation,
  Status, is_active, is_done, is_ambiguous, Phase, ActionState, is_ambiguous_action,
  is_cleanup_hold, is_reconciled, is_ssh_unreachable, Binding, BoxContext, get_install,
  get_operation, get_vpn_snapshot, lookup_id, lookup_setting, insert_setting, Error,
  decision_pending, safety_hold, runtime_error, value_error, integrity, Action, pure, raise, gets,
  modify, or_raise, raise_if, of_result, when, get_db, case_option, ◌>>=◌, ◌>>◌, ok, err, Result,
}
use auto_vpn.Config.{Platform, CapturedVpnConfig, capture_vpn_config}
use auto_vpn.Clients.{purge_applied_deleted_clients}
use auto_vpn.Operations.{ip_owner, install_owner}
use auto_vpn.Lease.{acquire_vps_lease, release_vps_lease, default_lease_seconds, iso}
use auto_vpn.Review.{validate_review, validate_ssh_decision, bind_provider, context}

pub record PreparedInstall : Type 0 where
  pub operation_id : ℕ
  pub revision : ℕ
  pub payload_sha256 : String

pub record PreparedIpChange : Type 0 where
  pub operation_id : ℕ
  pub revision : ℕ
  pub payload_sha256 : String

abbrev pub prepared_snapshot : ℕ → String → String → ℕ → Snapshot
prepared_snapshot revision payload_json payload_sha256 timestamp = record {
  revision = revision;
  payload_json = payload_json;
  payload_sha256 = payload_sha256;
  lifecycle = Lifecycle.prepared;
  prepared_at = timestamp;
  applied_at = none;
  failed_at = none;
  error_message = none;
}

-- `UPDATE vpn_snapshots SET lifecycle = 'PREPARED', ... WHERE revision = ?`.
abbrev pub reprepare : ℕ → Db → Db
reprepare n db = record db {
  snapshots =
      update_where (λ s. s.revision == n)
        (λ s. record s { lifecycle = Lifecycle.prepared; failed_at = none; error_message = none })
        db.snapshots;
}

abbrev pub add_snapshot : Snapshot → Db → Db
add_snapshot s db = record db { snapshots = s ∷ db.snapshots }

abbrev pub add_install : InstallOperation → Db → Db
add_install row db = record db { installs = row ∷ db.installs; next_install = db.next_install + 1 }

abbrev pub add_ip_change : IpChangeOperation → Db → Db
add_ip_change row db = record db {
  ip_changes = row ∷ db.ip_changes;
  next_ip_change = db.next_ip_change + 1;
}

-- A snapshot is written once; later captures of its revision must have the same content.
unfoldable pub ensure_snapshot : Bool → ℕ → String → String → ℕ → Action Db (Unit {0})
ensure_snapshot reprepare_failed revision payload_json payload_sha256 timestamp = do
  existing ← gets (get_vpn_snapshot revision)
  case_option existing
      (modify (add_snapshot (prepared_snapshot revision payload_json payload_sha256 timestamp)))
      λ s. do
        raise_if
            (not (str_eq s.payload_json payload_json && str_eq s.payload_sha256 payload_sha256))
            (runtime_error "VPN revision already has different immutable content")
        when (reprepare_failed && not (is_applied s.lifecycle)) (modify (reprepare revision))

abbrev pub new_install : ℕ → String → ℕ → Db → InstallOperation
new_install now target_host revision db = record {
  id = db.next_install;
  status = Status.pending;
  target_host = target_host;
  current_step = "queued";
  output = none;
  error_message = none;
  revision = some revision;
  created_at = iso now;
  updated_at = iso now;
}

abbrev pub new_ip_change : ℕ → ℕ → Db → IpChangeOperation
new_ip_change now revision db = record {
  id = db.next_ip_change;
  status = Status.pending;
  old_ip = none;
  new_ip = none;
  old_ip_id = none;
  new_ip_id = none;
  current_step = "queued";
  error_message = none;
  created_at = iso now;
  updated_at = iso now;
  server_reachable_at = none;
  healthcheck_result = none;
  revision = some revision;
  published_revision = none;
  action_state = ActionState.not_started;
  purchase_state = Phase.not_started;
  make_main_state = Phase.not_started;
  apply_state = Phase.not_started;
  cleanup_warning = none;
  rollback_outcome = none;
  new_ip_created_at = none;
  new_main_at = none;
  apply_completed_at = none;
  published_at = none;
  reconciled_at = none;
  reconciliation_note = none;
}

-- An SSH decision that waits for a person, other than the one that is being taken.
abbrev pub is_other_decision : Option ℕ → IpChangeOperation → Bool
is_other_decision taken r =
    is_done r.status && (is_ssh_unreachable r.action_state && not (r.id == or_default taken 0))

-- An earlier IP change whose outcome nobody has checked.
abbrev pub is_unresolved : IpChangeOperation → Bool
is_unresolved r =
    (is_ambiguous r.status && not (is_reconciled r.action_state))
    || (is_ambiguous_action r.action_state || is_cleanup_hold r.action_state)

abbrev pub set_action : ℕ → ActionState → ℕ → Db → Db
set_action i state timestamp db = record db {
  ip_changes =
      update_where (λ r. r.id == i) (λ r. record r { action_state = state; updated_at = timestamp })
        db.ip_changes;
}

-- `kept[name] = ip` on a dictionary.
abbrev pub keep_box : String → String → List (String × String) → List (String × String)
keep_box = insert_setting

-- The join of an operation with the snapshot of its revision.
abbrev pub bound_snapshot : Option ℕ → Db → Option Snapshot
bound_snapshot none db = none
bound_snapshot (some n) db = get_vpn_snapshot n db

-- The boxes that the new operation keeps: those of the decision, and its own.
abbrev pub add_context : ℕ → ℕ → IpChangeOperation → Db → Db
add_context new_id i row db = record db {
  contexts =
      (
        new_id,
        record {
          retained_boxes =
              keep_box (or_default row.new_ip_id "") (or_default row.new_ip "")
                (context i db).retained_boxes;
        },
      )
      ∷ db.contexts;
}

module _ (platform : Platform) where
  open platform use {canonical_vpn_config_json, captured_vpn_config_from_json, sha256, isoformat}

  unfoldable pub prepare_install_operation : ℕ → String → Action Db PreparedInstall
  unfolding ensure_snapshot
  prepare_install_operation now target_host = get_db do
    config ← gets (capture_vpn_config platform)
    let payload = canonical_vpn_config_json config
    ensure_snapshot true config.revision payload (sha256 payload) (iso now)
    row ← gets (new_install now target_host config.revision)
    modify (add_install row)
    acquire_vps_lease now default_lease_seconds (install_owner row.id)
    pure (record {
      operation_id = row.id;
      revision = config.revision;
      payload_sha256 = sha256 payload;
    })

  -- The refusals before an IP change may start.
  unfoldable pub check_ip_change : Option ℕ → Option ℕ → Action Db (Unit {0})
  check_ip_change review_operation_id ssh_decision_id = do
    raise_if (is_some review_operation_id && is_some ssh_decision_id)
        (value_error "Choose one SprintBOX decision")
    case_option ssh_decision_id (pure tt) (λ i. validate_ssh_decision platform false i >> pure tt)
    decision ← gets (λ db. find (is_other_decision ssh_decision_id) db.ip_changes)
    raise_if (is_some decision) decision_pending
    case_option review_operation_id (pure tt) (λ i. validate_review platform i >> pure tt)
    unresolved ← gets (λ db. find is_unresolved db.ip_changes)
    case_option unresolved (pure tt) (λ r. raise (safety_hold r.id))

  -- What a decision leaves to the new operation, and its own last state.
  unfoldable pub carry_decision : ℕ → ℕ → Option ℕ → Option ℕ → Action Db (Unit {0})
  carry_decision now new_id review_operation_id ssh_decision_id = do
    case_option ssh_decision_id (pure tt) λ i. do
      previous ← gets (get_operation i)
      row ← or_raise previous (runtime_error "no row")
      modify (add_context new_id i row)
      modify (set_action i ActionState.retry_requested (iso now))
    case_option review_operation_id (pure tt)
        λ i. modify (set_action i ActionState.retry_requested (iso now))

  unfoldable pub prepare_ip_change_operation : ℕ → Option ℕ → Option ℕ → Action Db PreparedIpChange
  unfolding check_ip_change carry_decision ensure_snapshot
  prepare_ip_change_operation now review_operation_id ssh_decision_id = get_db do
    check_ip_change review_operation_id ssh_decision_id
    config ← gets (capture_vpn_config platform)
    let payload = canonical_vpn_config_json config
    ensure_snapshot false config.revision payload (sha256 payload) (iso now)
    row ← gets (new_ip_change now config.revision)
    modify (add_ip_change row)
    acquire_vps_lease now default_lease_seconds (ip_owner row.id)
    bind_provider platform row.id
    carry_decision now row.id review_operation_id ssh_decision_id
    pure (record {
      operation_id = row.id;
      revision = config.revision;
      payload_sha256 = sha256 payload;
    })

  unfoldable pub load_ip_change_snapshot : ℕ → Action Db (IpChangeOperation × CapturedVpnConfig)
  load_ip_change_snapshot i = get_db do
    found ← gets (get_operation i)
    row ← or_raise found (runtime_error "IP change operation has no bound VPN snapshot")
    joined ← gets (bound_snapshot row.revision)
    s ← or_raise joined (runtime_error "IP change operation has no bound VPN snapshot")
    config ← of_result (captured_vpn_config_from_json s.payload_json)
    pure (row, config)
