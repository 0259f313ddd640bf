-- ===== src/Lease.antt =====
-- app/operation_coordinator.py: the one lease on the VPN server, and what becomes of an operation
-- that lost it. Time is a number of microseconds; a lease keeps whole seconds.
pub mod Exclusive
pub mod Recovery
pub mod Release
use auto_vpn.Base.{
  ℕ, ◌*◌, ◌+◌, ◌/◌, Bool, true, false, not, ◌&&◌, ◌||◌, String, List, [], ◌∷◌, Option, none, some,
  ◌==◌, ltb, leb, if◌then◌else◌, select, update_where, truthy, or_default, strip, truncate,
}
use auto_vpn.Db.{
  Db, Lease, LeaseOwner, OwnerType, same_owner, Status, is_active, Phase, is_not_started,
  is_confirmed, ActionState, is_waiting_ssh, Lifecycle, is_prepared, is_reboot, IpChangeOperation,
  ServerOperation, InstallOperation, Snapshot, get_install, get_operation, get_server_operation,
  Error, busy, Action, pure, raise, gets, modify, ◌>>=◌, ◌>>◌, ok, err,
}

-- `_iso` keeps whole seconds, and `_parse` reads them back.
abbrev pub iso : ℕ → ℕ
iso now = now / 1000000

abbrev pub parse : ℕ → ℕ
parse seconds = seconds * 1000000

abbrev pub default_lease_seconds : ℕ
default_lease_seconds = 3600

-- `max(1, lease_seconds)`.
abbrev pub at_least_one : ℕ → ℕ
at_least_one n = if leb 1 n then n else 1

abbrev pub is_open : Option ℕ → Bool
is_open none = false
is_open (some _) = true

-- The INSTALL case of `_fail_owner`.
unfoldable pub fail_install : ℕ → String → ℕ → Db → Db
fail_install i reason timestamp db =
    let closed =
      update_where (λ r. r.id == i && is_active r.status)
        (λ r. record r {
          status = Status.failed;
          current_step = "interrupted";
          error_message = some reason;
          updated_at = timestamp;
        })
        db.installs in
    record db { installs = closed; snapshots = snapshots }
  where
    fail_snapshot : ℕ → List Snapshot
    fail_snapshot n =
        update_where (λ s. s.revision == n && is_prepared s.lifecycle)
          (λ s. record s {
            lifecycle = Lifecycle.failed;
            failed_at = some timestamp;
            error_message = some reason;
          })
          db.snapshots

    of_revision : Option ℕ → List Snapshot
    of_revision none = db.snapshots
    of_revision (some n) = fail_snapshot n

    snapshots : List Snapshot
    snapshots = elim (get_install i db) [ none ↦ db.snapshots | some r ↦ of_revision r.revision ]

-- An IP change that has bought its address and only waits for SSH.
unfoldable pub awaits_ssh : IpChangeOperation → Bool
awaits_ssh r =
    is_waiting_ssh r.action_state
    && (is_confirmed r.purchase_state
        && (is_not_started r.make_main_state
            && (is_not_started r.apply_state
                && (truthy (or_default r.new_ip_id "") && truthy (or_default r.new_ip "")))))

unfoldable pub external_action_started : IpChangeOperation → Bool
external_action_started r =
    not (is_not_started r.purchase_state)
    || (not (is_not_started r.make_main_state) || not (is_not_started r.apply_state))

-- What `_fail_owner` makes of the row of an interrupted IP change that is still active.
unfoldable pub interrupt_ip_change : String → ℕ → IpChangeOperation → IpChangeOperation
interrupt_ip_change reason timestamp r =
    if awaits_ssh r
    then record r {
      status = Status.done;
      action_state = ActionState.ssh_unreachable;
      current_step = "ssh_decision";
      error_message = some "";
      updated_at = timestamp;
    }
    else record r {
      status = if external_action_started r then Status.ambiguous else Status.failed;
      current_step = "interrupted";
      action_state =
          if external_action_started r then ActionState.ambiguous else ActionState.not_started;
      error_message = some reason;
      updated_at = timestamp;
    }

-- The IP_CHANGE case. The row that is read is the one that is written, since `id` is the key.
unfoldable pub fail_ip_change : ℕ → String → ℕ → Db → Db
fail_ip_change i reason timestamp db = record db {
  ip_changes =
      update_where (λ r. r.id == i && is_active r.status) (interrupt_ip_change reason timestamp)
        db.ip_changes;
}

abbrev pub may_have_sent : Phase → Bool
may_have_sent Phase.sending = true
may_have_sent Phase.sent = true
may_have_sent Phase.ambiguous = true
may_have_sent _ = false

unfoldable pub may_have_sent_reboot : ServerOperation → Bool
may_have_sent_reboot r = is_reboot r.kind && may_have_sent r.action_state

unfoldable pub interrupt_server : String → ℕ → ServerOperation → ServerOperation
interrupt_server reason timestamp r = record r {
  status = if may_have_sent_reboot r then Status.ambiguous else Status.failed;
  action_state = if may_have_sent_reboot r then Phase.ambiguous else r.action_state;
  current_step = "interrupted";
  error_message = some reason;
  updated_at = timestamp;
  completed_at = some timestamp;
}

-- The SERVER case.
unfoldable pub fail_server : ℕ → String → ℕ → Db → Db
fail_server i reason timestamp db = record db {
  servers =
      update_where (λ r. r.id == i && is_active r.status) (interrupt_server reason timestamp)
        db.servers;
}

unfoldable pub fail_owner : LeaseOwner → String → ℕ → Db → Db
fail_owner o reason timestamp db = elim o.owner_type [
  | OwnerType.install ↦ fail_install o.owner_id reason timestamp db
  | OwnerType.ip_change ↦ fail_ip_change o.owner_id reason timestamp db
  | OwnerType.server ↦ fail_server o.owner_id reason timestamp db
]

-- `DELETE FROM operation_leases WHERE ... owner_type = ? AND owner_id = ?`, with `rowcount == 1`.
unfoldable pub release_vps_lease : LeaseOwner → Action Db Bool
release_vps_lease o db = elim db.lease [
  | none ↦ (ok false, db)
  | some l ↦ if same_owner l.owner o then (ok true, record db { lease = none }) else (ok false, db)
]

unfoldable pub heartbeat_vps_lease : ℕ → LeaseOwner → Action Db Bool
heartbeat_vps_lease now o db = elim db.lease [
  | none ↦ (ok false, db)
  | some l ↦
      if same_owner l.owner o
      then (ok true, record db { lease = some (renewed l) })
      else (ok false, db)
]
  where
    renewed : Lease → Lease
    renewed l = record l {
      heartbeat_at = iso now;
      expires_at = iso (now + parse default_lease_seconds);
    }

abbrev pub new_lease : ℕ → ℕ → LeaseOwner → Lease
new_lease now lease_seconds o = record {
  owner = o;
  acquired_at = iso now;
  heartbeat_at = iso now;
  expires_at = iso (now + parse (at_least_one lease_seconds));
}

-- The holder of an expired lease is failed, and its lease is released.
unfoldable pub evict : ℕ → Lease → Db → Db
unfolding fail_owner release_vps_lease
evict now l db =
    (release_vps_lease l.owner
      (fail_owner l.owner "Operation lease expired before completion" (iso now) db)).1

unfoldable pub acquire_vps_lease : ℕ → ℕ → LeaseOwner → Action Db (Unit {0})
acquire_vps_lease now lease_seconds o db = elim db.lease [
  | none ↦ (ok tt, record db { lease = some (new_lease now lease_seconds o) })
  | some l ↦
      if ltb now (parse l.expires_at)
      then (err (busy l.owner), db)
      else (ok tt, record (evict now l db) { lease = some (new_lease now lease_seconds o) })
]

unfoldable pub bounded_reason : String → String
unfolding strip truncate
bounded_reason reason =
    let text = truncate 1000 (strip reason) in
    if truthy text then text else "Interrupted operation recovered"

pub fail_installs : List InstallOperation → String → ℕ → Db → Db
fail_installs [] reason timestamp db = db
fail_installs (r ∷ rs) reason timestamp db =
    fail_installs rs reason timestamp (fail_install r.id reason timestamp db)

pub fail_ip_changes : List IpChangeOperation → String → ℕ → Db → Db
fail_ip_changes [] reason timestamp db = db
fail_ip_changes (r ∷ rs) reason timestamp db =
    fail_ip_changes rs reason timestamp (fail_ip_change r.id reason timestamp db)

pub fail_servers : List ServerOperation → String → ℕ → Db → Db
fail_servers [] reason timestamp db = db
fail_servers (r ∷ rs) reason timestamp db =
    fail_servers rs reason timestamp (fail_server r.id reason timestamp db)

-- Run once when the program starts: no operation of the last process is running any more.
unfoldable pub recover_incomplete_vps_operations : ℕ → String → Db → Db
recover_incomplete_vps_operations now reason db =
    let text = bounded_reason reason in
    let a = fail_installs (select (λ r. is_active r.status) db.installs) text (iso now) db in
    let b = fail_ip_changes (select (λ r. is_active r.status) a.ip_changes) text (iso now) a in
    let c = fail_servers (select (λ r. is_active r.status) b.servers) text (iso now) b in
    record c { lease = none }
