-- ===== src/Server/Restart.antt =====
-- `run_server_reboot` of app/server_operations.py: send the reboot, then poll until the server is
-- back or the attempts are used up.
use Prim.Native.String.{◌++◌ as concat}
use auto_vpn.Base.{
  ℕ, zero, suc, String, Bool, true, false, not, ◌&&◌, ◌||◌, List, [], ◌∷◌, ◌++◌, Option, none, some,
  ltb, if◌then◌else◌, truthy, str_eq,
}
use auto_vpn.Db.{
  Status, is_terminal, Phase, is_not_started, ServerOperation, get_server_operation, ok, Error,
  runtime_error, Action, pure, raise, raise_if, when, catch, case_option, ◌>>=◌, ◌>>◌,
}
use auto_vpn.Clients.{set_setting}
use auto_vpn.Lease.{iso, may_have_sent}
use auto_vpn.Server.{ServerField, mark_reboot_sending}
use auto_vpn.Server.Texts.{clean, join, decimal}
use auto_vpn.Server.Settings.{is_sprintbox, provider_label, resolve_eu_host, current_ip}
use auto_vpn.Server.World.{
  ServerEnv, ServerEvent, ServerWorld, ServerTiming, reboot_attempts, ask, in_db, reads, on_timeout,
  update_row, error_text, read_clock,
}
use auto_vpn.Server.Health.{provider_status, provider_is_up, is_down, service_and_protocol_health}
use auto_vpn.Server.Runs.{or_text, ssh_text}

-- The local variables of the verification. A `reboot_task` that is none is empty.
pub record Verification : Type 0 where
  pub host : String
  pub reboot_task : String
  pub ambiguous_action : Bool
  pub warning_messages : List String
  pub saw_ssh_down : Bool
  pub provider_waiting : Bool
  pub ssh_waiting : Bool

-- The status in which a verification ends that has seen the server back.
abbrev pub verified_status : Bool → String → Status
verified_status ambiguous health_error =
    if ambiguous
    then Status.ambiguous
    else (if truthy health_error then Status.failed else Status.done)

abbrev pub is_done : Status → Bool
is_done Status.done = true
is_done _ = false

-- The outcome of the task that the provider gave the reboot.
pub data TaskOutcome : Type 0 where
  finished failed waiting : TaskOutcome

abbrev pub task_outcome : String → TaskOutcome
task_outcome status =
    if str_eq status "error"
    then TaskOutcome.failed
    else (if str_eq status "finished" then TaskOutcome.finished else TaskOutcome.waiting)

unfoldable pub judge_task : TaskOutcome → Action ServerWorld Bool
judge_task TaskOutcome.failed =
    raise (runtime_error "SprintBOX reboot task failed; inspect the panel")
judge_task TaskOutcome.finished = pure true
judge_task TaskOutcome.waiting = pure false

abbrev pub with_warning : String → List String → List String
with_warning text warnings = if truthy text then warnings ++ (text ∷ []) else warnings

abbrev pub row_may_have_sent : Option ServerOperation → Bool
row_may_have_sent none = false
row_may_have_sent (some r) = may_have_sent r.action_state

module _ (env : ServerEnv) where
  -- The server is back: check it, and close the operation.
  unfoldable pub verify_recovery : ℕ → Verification → Action ServerWorld (Unit {0})
  verify_recovery i v = do
    let seen =
        with_warning
          (if v.saw_ssh_down then "" else "SSH-down transition was not observed before recovery")
          v.warning_messages
    health_error ← service_and_protocol_health env i v.host
    completed ← read_clock env
    update_row env i (
        ServerField.status (verified_status v.ambiguous_action health_error)
        ∷ ServerField.current_step (
            if is_done (verified_status v.ambiguous_action health_error)
            then "done"
            else "verification_complete")
        ∷ ServerField.result_message "VPS reboot verification completed"
        ∷ ServerField.warning_message (join "; " (with_warning health_error seen))
        ∷ ServerField.error_message (
            if v.ambiguous_action then "Reboot request outcome remains ambiguous" else health_error)
        ∷ ServerField.completed_at (iso completed)
        ∷ [])

  -- The attempts are used up.
  unfoldable pub give_up : ℕ → Verification → Action ServerWorld (Unit {0})
  give_up i v = do
    label ← reads (provider_label env.platform)
    completed ← read_clock env
    update_row env i (
        ServerField.status (if v.ambiguous_action then Status.ambiguous else Status.timed_out)
        ∷ ServerField.current_step (
            if v.provider_waiting
            then "wait_provider"
            else (if v.ssh_waiting then "wait_ssh" else "timed_out"))
        ∷ ServerField.error_message (
            if v.provider_waiting
            then concat label " did not report VPS recovery before timeout"
            else (if v.ssh_waiting
                then "SSH did not become reachable before timeout"
                else "VPS reboot verification timed out"))
        ∷ ServerField.warning_message (join "; " v.warning_messages)
        ∷ ServerField.completed_at (iso completed)
        ∷ [])

  -- Whether the provider's own task is over; without a task there is nothing to wait for.
  unfoldable pub task_is_over : Verification → Action ServerWorld Bool
  unfolding judge_task
  task_is_over v =
      if truthy v.reboot_task
      then (do
        status ← ask env (ServerEvent.asked_task v.reboot_task) env.task_status
        judge_task (task_outcome status))
      else pure true

  -- What the provider says of the service; a timeout counts as down.
  unfoldable pub ask_provider : ℕ → Action ServerWorld (Option Bool)
  unfolding clean provider_is_up
  ask_provider i =
      catch
        (do
          current ← provider_status env
          let state = clean 200 current.provider_status
          update_row env i (
              ServerField.provider_status state
              ∷ ServerField.provider_ip (clean 200 current.ip)
              ∷ [])
          pure (provider_is_up state))
        (on_timeout (pure (some false)))

  unfoldable pub pause : ℕ → Action ServerWorld (Unit {0})
  pause n = when (ltb 0 n) (ask env ServerEvent.waited (λ log. ok tt))

  -- One round of the loop, of which `left` more are left; `again` is the rest of the loop.
  unfoldable pub verify_round :
      ℕ
      → ℕ
      → (Verification → Action ServerWorld (Unit {0}))
      → Verification
      → Action ServerWorld (Unit {0})
  unfolding verify_recovery task_is_over ask_provider pause
  verify_round left i again v = do
    update_row env i (
        ServerField.current_step
          (if v.ambiguous_action then "verify_ambiguous_reboot" else "verify_reboot")
        ∷ [])
    over ← task_is_over v
    if not over then (do pause left; again (record v { provider_waiting = true })) else do
      provider_up ← ask_provider i
      up ← ask env (ServerEvent.probed v.host) (λ log. ok (env.tcp_check log))
      update_row env i (ServerField.ssh_status (ssh_text up) ∷ [])
      let seen = record v {
        provider_waiting = is_down provider_up;
        ssh_waiting = not up;
        saw_ssh_down = v.saw_ssh_down || not up;
      }
      if up && not (is_down provider_up) then verify_recovery i seen else do pause left; again seen

  -- The loop counts the attempts that are left.
  unfoldable pub verify_reboot : ℕ → ℕ → Verification → Action ServerWorld (Unit {0})
  unfolding give_up verify_round
  verify_reboot zero i v = give_up i v
  verify_reboot (suc n) i v = verify_round n i (verify_reboot n i) v

  -- Send the request. An answer that does not come leaves its outcome in doubt. The result is the
  -- task, whether the outcome is in doubt, and the warning.
  unfoldable pub send_reboot : ℕ → Action ServerWorld (String × (Bool × List String))
  send_reboot i =
      catch
        (do
          response ← ask env ServerEvent.rebooted env.reboot_service
          sprintbox ← reads (is_sprintbox env.platform)
          when sprintbox (
              in_db env λ now.
                set_setting env.platform now
                  (concat "server_operation." (concat (decimal i) ".sprintbox_task")) response)
          update_row env i
              (ServerField.action_state Phase.sent ∷ ServerField.current_step "wait_reboot" ∷ [])
          pure (if sprintbox then response else "", (false, [])))
        λ e. do
          label ← reads (provider_label env.platform)
          let warning =
              concat label (concat " reboot request result is ambiguous: " (error_text env e))
          update_row env i (
              ServerField.action_state Phase.ambiguous
              ∷ ServerField.current_step "verify_ambiguous_reboot"
              ∷ ServerField.warning_message warning
              ∷ [])
          pure ("", (true, warning ∷ []))

  -- Up to the moment before the request: the host.
  unfoldable pub prepare_reboot : ℕ → Action ServerWorld String
  unfolding clean
  prepare_reboot i = do
    started ← read_clock env
    update_row env i (
        ServerField.status Status.running
        ∷ ServerField.current_step "provider_status_before_reboot"
        ∷ ServerField.started_at (iso started)
        ∷ [])
    before ← provider_status env
    let ip = clean 200 before.ip
    update_row env i (
        ServerField.provider_status (clean 200 before.provider_status)
        ∷ ServerField.provider_ip ip
        ∷ [])
    host ←
        reads
          λ db. or_text (resolve_eu_host env.platform db) (or_text ip (current_ip env.platform db))
    raise_if (not (truthy host)) (runtime_error "VPN VPS host is not configured")
    pure host

  unfoldable pub reboot : ServerTiming → ℕ → Action ServerWorld (Unit {0})
  unfolding prepare_reboot send_reboot verify_reboot
  reboot timing i = do
    host ← prepare_reboot i
    marked ← in_db env (λ now. mark_reboot_sending now i)
    raise_if (not marked)
        (runtime_error "Reboot action was already started and will not be sent again")
    (task, (ambiguous, warnings)) ← send_reboot i
    verify_reboot (reboot_attempts timing) i (record {
      host = host;
      reboot_task = task;
      ambiguous_action = ambiguous;
      warning_messages = warnings;
      saw_ssh_down = false;
      provider_waiting = false;
      ssh_waiting = true;
    })

  -- The handler of every exception.
  unfoldable pub close_reboot : ℕ → Error → Action ServerWorld (Unit {0})
  close_reboot i e = do
    current ← reads (get_server_operation i)
    completed ← read_clock env
    update_row env i (
        ServerField.status (if row_may_have_sent current then Status.ambiguous else Status.failed)
        ∷ ServerField.action_state
            (if row_may_have_sent current then Phase.ambiguous else Phase.not_started)
        ∷ ServerField.current_step "failed"
        ∷ ServerField.error_message (error_text env e)
        ∷ ServerField.completed_at (iso completed)
        ∷ [])

  -- An operation whose reboot may have been sent before is not run again.
  unfoldable pub close_resumed : ℕ → Action ServerWorld (Unit {0})
  close_resumed i = do
    completed ← read_clock env
    update_row env i (
        ServerField.status Status.ambiguous
        ∷ ServerField.action_state Phase.ambiguous
        ∷ ServerField.current_step "manual_verification_required"
        ∷ ServerField.error_message "Reboot may already have been sent; it was not sent again"
        ∷ ServerField.completed_at (iso completed)
        ∷ [])

  unfoldable pub run_server_reboot : ServerTiming → ℕ → Action ServerWorld (Unit {0})
  unfolding reboot close_reboot close_resumed
  run_server_reboot timing i = do
    operation ← reads (get_server_operation i)
    case_option operation (pure tt) λ r.
        if is_not_started r.action_state
        then catch (reboot timing i) (close_reboot i)
        else (if is_terminal r.status then pure tt else close_resumed i)
