-- ===== src/Db/Vocabulary.antt =====
-- The closed vocabularies of the operation tables: the status, action and phase columns, the owner
-- of the lease, and the life of a snapshot (app/operation_coordinator.py, app/migrations.py).
use auto_vpn.Base.{ℕ, ◌≡◌, refl, Bool, true, false, ◌&&◌, ◌==◌, arith}

pub data Status : Type 0 where
  pending running done failed timed_out ambiguous : Status

-- `status in TERMINAL_STATUSES`.
abbrev pub is_terminal : Status → Bool
is_terminal Status.pending = false
is_terminal Status.running = false
is_terminal Status.done = true
is_terminal Status.failed = true
is_terminal Status.timed_out = true
is_terminal Status.ambiguous = true

-- `status IN ('PENDING', 'RUNNING')`.
abbrev pub is_active : Status → Bool
is_active Status.pending = true
is_active Status.running = true
is_active Status.done = false
is_active Status.failed = false
is_active Status.timed_out = false
is_active Status.ambiguous = false

abbrev pub is_done : Status → Bool
is_done Status.done = true
is_done _ = false

abbrev pub is_pending : Status → Bool
is_pending Status.pending = true
is_pending _ = false

abbrev pub is_ambiguous : Status → Bool
is_ambiguous Status.ambiguous = true
is_ambiguous _ = false

-- The columns `purchase_state`, `make_main_state` and `apply_state` of an IP change, and the
-- column `action_state` of a server operation.
pub data Phase : Type 0 where
  not_started sending sent confirmed running applied failed ambiguous rejected : Phase

abbrev pub is_not_started : Phase → Bool
is_not_started Phase.not_started = true
is_not_started _ = false

abbrev pub is_confirmed : Phase → Bool
is_confirmed Phase.confirmed = true
is_confirmed _ = false

-- The column `action_state` of an IP change.
pub data ActionState : Type 0 where
  not_started purchase_sending purchase_sent purchase_confirmed make_main_sending : ActionState
  main_changed main_confirmed applying apply_failed applied rolling_back rolled_back : ActionState
  published cleanup_sending cleanup_confirmed cleanup_ambiguous : ActionState
  published_awaiting_awg_check ambiguous failed done reconciled : ActionState
  waiting_ssh ssh_wait_queued ssh_unreachable retry_requested awaiting_user_review : ActionState
  cleanup_queued cancelled : ActionState

abbrev pub is_reconciled : ActionState → Bool
is_reconciled ActionState.reconciled = true
is_reconciled _ = false

abbrev pub is_ambiguous_action : ActionState → Bool
is_ambiguous_action ActionState.ambiguous = true
is_ambiguous_action _ = false

abbrev pub is_ssh_unreachable : ActionState → Bool
is_ssh_unreachable ActionState.ssh_unreachable = true
is_ssh_unreachable _ = false

abbrev pub is_ssh_wait_queued : ActionState → Bool
is_ssh_wait_queued ActionState.ssh_wait_queued = true
is_ssh_wait_queued _ = false

abbrev pub is_awaiting_user_review : ActionState → Bool
is_awaiting_user_review ActionState.awaiting_user_review = true
is_awaiting_user_review _ = false

-- `action_state IN ('CLEANUP_AMBIGUOUS', 'PUBLISHED_AWAITING_AWG_CHECK')`.
abbrev pub is_cleanup_hold : ActionState → Bool
is_cleanup_hold ActionState.cleanup_ambiguous = true
is_cleanup_hold ActionState.published_awaiting_awg_check = true
is_cleanup_hold _ = false

-- `action_state in {"WAITING_SSH", "SSH_WAIT_QUEUED"}`.
abbrev pub is_waiting_ssh : ActionState → Bool
is_waiting_ssh ActionState.waiting_ssh = true
is_waiting_ssh ActionState.ssh_wait_queued = true
is_waiting_ssh _ = false

pub data OwnerType : Type 0 where
  install ip_change server : OwnerType

abbrev pub same_type : OwnerType → OwnerType → Bool
same_type OwnerType.install OwnerType.install = true
same_type OwnerType.ip_change OwnerType.ip_change = true
same_type OwnerType.server OwnerType.server = true
same_type _ _ = false

pub record LeaseOwner : Type 0 where
  pub owner_type : OwnerType
  pub owner_id : ℕ

abbrev pub same_owner : LeaseOwner → LeaseOwner → Bool
same_owner a b = same_type a.owner_type b.owner_type && a.owner_id == b.owner_id

pub same_type-eq : (s t : OwnerType) → same_type s t ≡ true → s ≡ t
same_type-eq OwnerType.install OwnerType.install h = refl
same_type-eq OwnerType.install OwnerType.ip_change h = ground arith
same_type-eq OwnerType.install OwnerType.server h = ground arith
same_type-eq OwnerType.ip_change OwnerType.install h = ground arith
same_type-eq OwnerType.ip_change OwnerType.ip_change h = refl
same_type-eq OwnerType.ip_change OwnerType.server h = ground arith
same_type-eq OwnerType.server OwnerType.install h = ground arith
same_type-eq OwnerType.server OwnerType.ip_change h = ground arith
same_type-eq OwnerType.server OwnerType.server h = refl

pub same_type_refl : (t : OwnerType) → same_type t t ≡ true
same_type_refl OwnerType.install = refl
same_type_refl OwnerType.ip_change = refl
same_type_refl OwnerType.server = refl

-- The column `lifecycle` of a snapshot.
pub data Lifecycle : Type 0 where
  prepared applied failed : Lifecycle

abbrev pub is_prepared : Lifecycle → Bool
is_prepared Lifecycle.prepared = true
is_prepared _ = false

abbrev pub is_applied : Lifecycle → Bool
is_applied Lifecycle.applied = true
is_applied _ = false

-- The column `kind` of a server operation.
pub data Kind : Type 0 where
  status reboot : Kind

abbrev pub is_reboot : Kind → Bool
is_reboot Kind.reboot = true
is_reboot Kind.status = false

-- The column `outcome` of an apply result.
pub data Outcome : Type 0 where
  applied degraded failed : Outcome
