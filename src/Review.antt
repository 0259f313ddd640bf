-- ===== src/Review.antt =====
-- app/sprintbox_review.py and the binding of app/vps_provider.py: whether a decision that waits for
-- a person still fits the active server, and the provider that an IP change is bound to.
pub mod Exclusive
pub mod Reads
use Prim.Native.String.{◌++◌ as concat}
use auto_vpn.Base.{
  ℕ, suc, zero, String, Bool, true, false, not, ◌&&◌, ◌||◌, [], ◌∷◌, Option, none, some, ◌==◌,
  if◌then◌else◌, update_where, is_some, or_default, truthy, str_eq,
}
use auto_vpn.Db.{
  Db, IpChangeOperation, get_operation, Binding, BoxContext, Status, ActionState, is_done,
  is_pending, is_ssh_unreachable, is_ssh_wait_queued, is_awaiting_user_review, is_confirmed,
  is_not_started, lookup_id, lookup_setting, Action, pure, gets, modify, or_raise, raise_if, get_db,
  ◌>>=◌, ◌>>◌, ok, err, value_error, integrity,
}
use auto_vpn.Config.{Platform}
use auto_vpn.Operations.{ip_owner}
use auto_vpn.Lease.{acquire_vps_lease, default_lease_seconds, iso}

abbrev pub no_binding : Binding
no_binding = record {
  provider = "";
  login = "";
  box_name = "";
  service = "";
  distributive = "";
  credential_hash = "";
}

-- `_bound`: no row reads as an empty object.
abbrev pub bound : ℕ → Db → Binding
bound i db = or_default (lookup_id i db.bindings) no_binding

-- `context`.
abbrev pub context : ℕ → Db → BoxContext
context i db = or_default (lookup_id i db.contexts) (record { retained_boxes = [] })

-- A text column against a text: NULL differs from every text.
abbrev pub column_eq : Option String → String → Bool
column_eq none v = false
column_eq (some u) v = str_eq u v

-- A column that holds a number, read as Python's truth.
abbrev pub truthy_number : Option ℕ → Bool
truthy_number none = false
truthy_number (some zero) = false
truthy_number (some (suc n)) = true

abbrev pub truthy_column : Option String → Bool
truthy_column none = false
truthy_column (some u) = truthy u

abbrev pub same_revision : Option ℕ → ℕ → Bool
same_revision none n = false
same_revision (some m) n = m == n

module _ (platform : Platform) where
  -- `_value`: a stored value, or the default of the environment. An empty box name is a choice.
  unfoldable pub setting_value : String → Db → String
  setting_value key db = elim (lookup_setting (concat "config." key) db.settings) [
    | none ↦ platform.default_setting key
    | some v ↦
        if str_eq key "sprintbox_box_name" || truthy v then v else platform.default_setting key
  ]

  -- The account of a binding against the settings.
  unfoldable pub same_account : Binding → Db → Bool
  unfolding setting_value
  same_account b db =
      str_eq b.provider "sprintbox"
      && (str_eq (setting_value "vps_provider" db) "sprintbox"
          && (str_eq b.login (setting_value "sprintbox_login" db)
              && str_eq b.credential_hash (platform.sha256 (setting_value "sprintbox_key" db))))

  unfoldable pub is_target : IpChangeOperation → ℕ → Db → Bool
  unfolding same_account
  is_target r i db =
      same_account (bound i db) db
      && (truthy_number r.published_revision
          && (elim (lookup_setting "current_ip" db.settings) [
            | none ↦ false
            | some current ↦ column_eq r.new_ip current
          ]
              && column_eq r.new_ip_id (setting_value "sprintbox_box_name" db)))

  unfoldable pub validate_target : ℕ → Action Db IpChangeOperation
  unfolding is_target
  validate_target i db = elim (get_operation i db) [
    | none ↦ (
      err (value_error "This SprintBOX decision no longer matches the active VPN server/account"),
      db,
    )
    | some r ↦ if is_target r i db then (ok r, db) else (
      err (value_error "This SprintBOX decision no longer matches the active VPN server/account"),
      db,
    )
  ]

  unfoldable pub validate_review : ℕ → Action Db IpChangeOperation
  unfolding validate_target
  validate_review i = do
    row ← validate_target i
    raise_if (not (is_done row.status && is_awaiting_user_review row.action_state))
        (value_error "This SprintBOX decision was already submitted")
    pure row

  -- The state in which an SSH decision is expected.
  abbrev pub is_expected : Bool → IpChangeOperation → Bool
  is_expected true r = is_pending r.status && is_ssh_wait_queued r.action_state
  is_expected false r = is_done r.status && is_ssh_unreachable r.action_state

  unfoldable pub is_unchanged : IpChangeOperation → ℕ → Db → Bool
  unfolding same_account setting_value
  is_unchanged r i db =
      same_account (bound i db) db
      && (str_eq (bound i db).box_name (setting_value "sprintbox_box_name" db)
          && (str_eq (bound i db).service (setting_value "sprintbox_service" db)
              && (str_eq (bound i db).distributive (setting_value "sprintbox_distributive" db)
                  && (same_revision r.revision db.vpn_state.desired_revision
                      && (column_eq r.old_ip
                            (or_default (lookup_setting "current_ip" db.settings) "")
                          && (not (truthy_number r.published_revision)
                              && (is_confirmed r.purchase_state
                                  && (is_not_started r.apply_state
                                      && (is_not_started r.make_main_state
                                          && (truthy_column r.new_ip_id
                                              && (truthy_column r.new_ip
                                                  && not (
                                                      column_eq r.new_ip_id
                                                        (bound i db).box_name))))))))))))

  unfoldable pub validate_ssh_decision : Bool → ℕ → Action Db IpChangeOperation
  unfolding is_unchanged
  validate_ssh_decision queued i = do
    found ← gets (get_operation i)
    row ← or_raise found (value_error "This SSH decision was already submitted")
    raise_if (not (is_expected queued row)) (value_error "This SSH decision was already submitted")
    unchanged ← gets (is_unchanged row i)
    raise_if (not unchanged)
        (value_error "VPN configuration/account changed; cancel this SSH decision first")
    pure row

  unfoldable pub prepare_cleanup : ℕ → ℕ → Action Db (Unit {0})
  unfolding validate_review
  prepare_cleanup now i = get_db do
    validate_review i
    acquire_vps_lease now default_lease_seconds (ip_owner i)
    modify (λ db. record db {
      ip_changes =
          update_where (λ r. r.id == i)
            (λ r. record r {
              status = Status.pending;
              action_state = ActionState.cleanup_queued;
              current_step = "cleanup_queued";
              updated_at = iso now;
            })
            db.ip_changes;
    })

  unfoldable pub prepare_ssh_wait : ℕ → ℕ → Action Db (Unit {0})
  unfolding validate_ssh_decision
  prepare_ssh_wait now i = get_db do
    validate_ssh_decision false i
    acquire_vps_lease now default_lease_seconds (ip_owner i)
    modify (λ db. record db {
      ip_changes =
          update_where (λ r. r.id == i)
            (λ r. record r {
              status = Status.pending;
              action_state = ActionState.ssh_wait_queued;
              current_step = "wait_ssh";
              updated_at = iso now;
            })
            db.ip_changes;
    })

  -- `bind_provider`. A binding of another provider than SprintBOX has that one key.
  unfoldable pub new_binding : Db → Binding
  unfolding setting_value
  new_binding db =
      if str_eq (setting_value "vps_provider" db) "sprintbox"
      then record {
        provider = "sprintbox";
        login = setting_value "sprintbox_login" db;
        box_name = setting_value "sprintbox_box_name" db;
        service = setting_value "sprintbox_service" db;
        distributive = setting_value "sprintbox_distributive" db;
        credential_hash = platform.sha256 (setting_value "sprintbox_key" db);
      }
      else record no_binding { provider = setting_value "vps_provider" db }

  unfoldable pub bind_provider : ℕ → Action Db (Unit {0})
  unfolding new_binding
  bind_provider i = do
    provider ← gets (setting_value "vps_provider")
    raise_if (not (str_eq provider "aeza" || str_eq provider "sprintbox"))
        (value_error "Unknown VPS provider; configure Setup before rotating IP")
    existing ← gets (λ db. lookup_id i db.bindings)
    raise_if (is_some existing) integrity
    modify (λ db. record db { bindings = (i, new_binding db) ∷ db.bindings })
