-- ===== src/Server/Runs.antt =====
-- `run_server_status` and `run_protocol_refresh` of app/server_operations.py.
use Prim.Native.String.{◌++◌ as concat}
use auto_vpn.Base.{ℕ, String, Bool, false, not, [], ◌∷◌, if◌then◌else◌, truthy, str_eq}
use auto_vpn.Db.{
  Db, Status, get_server_operation, ok, Error, runtime_error, Action, pure, raise_if, catch,
  case_option, ◌>>=◌, ◌>>◌,
}
use auto_vpn.Lease.{iso}
use auto_vpn.Server.{ServerField}
use auto_vpn.Server.Texts.{clean}
use auto_vpn.Server.Settings.{provider_label, resolve_eu_host, current_ip}
use auto_vpn.Server.World.{
  ServerEnv, ServerEvent, ServerWorld, is_timeout, ask, reads, update_row, error_text, read_clock,
}
use auto_vpn.Server.Health.{provider_status, service_and_protocol_health}

-- `first or second`.
abbrev pub or_text : String → String → String
or_text first second = if truthy first then first else second

abbrev pub ssh_text : Bool → String
ssh_text up = if up then "UP" else "DOWN"

module _ (env : ServerEnv) where
  -- The rows that the two handlers leave: `TimeoutError`, or any other exception.
  unfoldable pub close_failed : ℕ → (Db → String) → Error → Action ServerWorld (Unit {0})
  close_failed i timed_out e = do
    completed ← read_clock env
    message ← reads timed_out
    if is_timeout e
        then update_row env i (
            ServerField.status Status.timed_out
            ∷ ServerField.current_step "timed_out"
            ∷ ServerField.error_message message
            ∷ ServerField.completed_at (iso completed)
            ∷ [])
        else update_row env i (
            ServerField.status Status.failed
            ∷ ServerField.current_step "failed"
            ∷ ServerField.error_message (error_text env e)
            ∷ ServerField.completed_at (iso completed)
            ∷ [])

  -- Nothing is probed where no host is known.
  unfoldable pub probe : String → Action ServerWorld Bool
  probe host =
      if truthy host
      then ask env (ServerEvent.probed host) (λ log. ok (env.tcp_check log))
      else pure false

  unfoldable pub check_status : ℕ → Action ServerWorld (Unit {0})
  unfolding clean
  check_status i = do
    started ← read_clock env
    update_row env i (
        ServerField.status Status.running
        ∷ ServerField.current_step "provider_status"
        ∷ ServerField.started_at (iso started)
        ∷ [])
    service ← provider_status env
    let state = clean 200 service.provider_status
    let ip = clean 200 service.ip
    update_row env i (
        ServerField.provider_status state
        ∷ ServerField.provider_ip ip
        ∷ ServerField.current_step "ssh_reachability"
        ∷ [])
    host ←
        reads
          λ db. or_text (resolve_eu_host env.platform db) (or_text ip (current_ip env.platform db))
    up ← probe host
    update_row env i (ServerField.ssh_status (ssh_text up) ∷ [])
    warning ←
        if up
        then service_and_protocol_health env i host
        else pure "SSH is unreachable; service and protocol checks were skipped"
    label ← reads (provider_label env.platform)
    completed ← read_clock env
    update_row env i (
        ServerField.status Status.done
        ∷ ServerField.current_step "done"
        ∷ ServerField.result_message (concat label " VPS status refreshed")
        ∷ ServerField.warning_message warning
        ∷ ServerField.completed_at (iso completed)
        ∷ [])

  unfoldable pub run_server_status : ℕ → Action ServerWorld (Unit {0})
  unfolding check_status close_failed
  run_server_status i = catch (check_status i) (
      close_failed i
        (λ db. concat (provider_label env.platform db) " VPS status refresh timed out"))

  unfoldable pub refresh_protocols : ℕ → Action ServerWorld (Unit {0})
  refresh_protocols i = do
    host ← reads λ db. or_text (resolve_eu_host env.platform db) (current_ip env.platform db)
    raise_if (not (truthy host)) (runtime_error "VPN VPS host is not configured")
    started ← read_clock env
    update_row env i (
        ServerField.status Status.running
        ∷ ServerField.current_step "protocol_health"
        ∷ ServerField.started_at (iso started)
        ∷ [])
    summary ← ask env (ServerEvent.asked_protocols host) env.refresh_protocol_statuses
    completed ← read_clock env
    update_row env i (
        ServerField.status Status.done
        ∷ ServerField.current_step "done"
        ∷ ServerField.protocol_health_json (env.summary_json summary)
        ∷ ServerField.result_message "VPN protocol status refreshed"
        ∷ ServerField.completed_at (iso completed)
        ∷ [])

  -- Only a row that waits for a refresh is run.
  unfoldable pub run_protocol_refresh : ℕ → Action ServerWorld (Unit {0})
  unfolding refresh_protocols close_failed
  run_protocol_refresh i = do
    operation ← reads (get_server_operation i)
    case_option operation (pure tt) λ r.
        if str_eq r.current_step "queued_protocol_refresh"
        then catch (refresh_protocols i)
            (close_failed i (λ db. "VPN protocol status refresh timed out"))
        else pure tt
