-- ===== src/Tests/ServerRuns.antt =====
-- Runs of server operations: a reboot after which the server is down at the first probe and up at the
-- second, a status of a server, and the theorems at them.
use auto_vpn.Base.{
  ◌+◌, ◌≤◌, ◌≡◌, refl, Bool, true, false, List, [], ◌∷◌, some, if◌then◌else◌, arith,
}
use auto_vpn.Db.{get_server_operation, ok, ◌>>=◌}
use auto_vpn.Lease.{new_lease, release_vps_lease, heartbeat_vps_lease}
use auto_vpn.Server.{server_owner, update_server_operation, mark_reboot_sending}
use auto_vpn.Server.Settings.{resolve_eu_host, is_sprintbox, protocol_enabled}
use auto_vpn.Server.World.{ServerEnv, ServerEvent, ServerWorld, ServerTiming, ask, in_db}
use auto_vpn.Server.Health.{provider_status, service_and_protocol_health}
use auto_vpn.Server.Runs.{run_server_status, run_protocol_refresh}
use auto_vpn.Server.Restart.{run_server_reboot}
use auto_vpn.Server.Closing.{IsClosed, Closes, is_queued_refresh, is_open_reboot, runs_close}
use auto_vpn.Server.Sent.{is_sent}
use auto_vpn.Server.Sending.{reboots, Others}
use auto_vpn.Server.Once.{run_each, reboot_at_most_once}
use auto_vpn.Tests.Data.{platform}
use auto_vpn.Tests.Reboots.{reboot_db}

abbrev rebooting_world : ServerWorld
rebooting_world = record {
  db = record reboot_db { lease = some (new_lease 0 3600 (server_owner 1)) };
  log = [];
}

abbrev server_timing : ServerTiming
server_timing = record {
  request_timeout = 1000;
  reboot_timeout = 3000;
  poll_interval = 1000;
  ssh_probe_timeout = 1000;
  command_timeout = 1000;
}

-- The server is down until it has been probed once.
abbrev is_back : List ServerEvent → Bool
is_back [] = false
is_back (ServerEvent.probed h ∷ ServerEvent.asked_status ∷ ServerEvent.waited ∷ log) = true
is_back (_ ∷ log) = false

abbrev server_env : ServerEnv
server_env = record {
  platform = platform;
  cleaning = record { safe_error = λ s. s };
  now = λ log. 1000000;
  others = λ log db. db;
  get_service = λ log. ok (record { provider_status = "active"; ip = "10.0.0.1" });
  reboot_service = λ log. ok "";
  task_status = λ log. ok "finished";
  tcp_check = is_back;
  run_remote_command =
      λ log. ok (0, "xray=active\nhysteria-server=active\nawg-quick@awg0=active\n");
  refresh_protocol_statuses = λ log. ok (("vless", "OK") ∷ []);
  str_error = λ e. "error";
  services_json = λ services. "services";
  summary_json = λ summary. "summary";
}

honest : Others server_env 1
honest = record { key = λ log db h. h; sent = λ log db h. h }

reboot_at_most_once_example :
    reboots (run_each server_env 1 (server_timing ∷ server_timing ∷ []) rebooting_world).log
    ≤ reboots rebooting_world.log + (if is_sent 1 rebooting_world.db then 0 else 1)
reboot_at_most_once_example =
    reboot_at_most_once server_env 1 (server_timing ∷ server_timing ∷ []) rebooting_world honest
      (omega arith)

runs_close_example :
    (((run_server_status server_env 1 rebooting_world).0 ≡ ok tt)
      × IsClosed 1 (run_server_status server_env 1 rebooting_world).1)
    × (Closes 1
          (is_queued_refresh (get_server_operation 1 rebooting_world.db))
          (run_protocol_refresh server_env 1)
          rebooting_world
        × Closes 1
            (is_open_reboot (get_server_operation 1 rebooting_world.db))
            (run_server_reboot server_env server_timing 1)
            rebooting_world)
runs_close_example = runs_close server_env server_timing 1 rebooting_world

-- The whole run: what it asked, oldest last, and the status that it left.
run_server_reboot_done :
    (run_server_reboot server_env server_timing 1 rebooting_world).1.log
    ≡ ServerEvent.asked_protocols "10.0.0.1"
      ∷ ServerEvent.asked_services "10.0.0.1"
      ∷ ServerEvent.probed "10.0.0.1"
      ∷ ServerEvent.asked_status
      ∷ ServerEvent.waited
      ∷ ServerEvent.probed "10.0.0.1"
      ∷ ServerEvent.asked_status
      ∷ ServerEvent.rebooted
      ∷ ServerEvent.asked_status
      ∷ []
unfolding run_server_reboot ◌>>=◌ in_db update_server_operation heartbeat_vps_lease provider_status
    ask resolve_eu_host mark_reboot_sending is_sprintbox service_and_protocol_health
    protocol_enabled release_vps_lease
run_server_reboot_done = refl
