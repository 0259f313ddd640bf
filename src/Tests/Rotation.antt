-- ===== src/Tests/Rotation.antt =====
-- Runs of an IP change on the small installation, and the theorems at them.
use auto_vpn.Base.{◌≡◌, refl, [], ◌∷◌, select}
use auto_vpn.Db.{◌>>=◌}
use auto_vpn.Rotation.World.{Event, is_loud, call, with_db}
use auto_vpn.Rotation.Find.{find_main_ip, find_new_ip}
use auto_vpn.Rotation.Steps.{
  ensure_bound_revision_current, wait_for_new_ip, wait_for_main_ip, wait_for_ssh,
  verify_protocol_health, apply_bound_snapshot,
}
use auto_vpn.Rotation.Run.{
  find_old, buy, identify, move_main, deploy, publish, delete_old, finish, rotate, run_aeza,
}
use auto_vpn.Rotation.Quiet.{trace}
use auto_vpn.Rotation.Triples.{Ends}
use auto_vpn.Rotation.Outcomes.{Completed, Aborted}
use auto_vpn.Rotation.Effects.{run_aeza_effects}
use auto_vpn.Rotation.Resumed.{run_aeza_resumed}
use auto_vpn.Rotation.Find.{Known}
use auto_vpn.Rotation.World.{World}
use auto_vpn.Tests.Publications.{buying, buying_db}
use auto_vpn.Clients.{set_setting}
use auto_vpn.Operations.{update_operation}
use auto_vpn.Lease.{release_vps_lease, heartbeat_vps_lease, external_action_started}
use auto_vpn.Snapshots.{load_ip_change_snapshot}
use auto_vpn.Publication.{publish_ip_change, write_publication}
use auto_vpn.Tests.Data.{env, timing, world}

run_aeza_publishes :
    select is_loud (run_aeza env 1 timing world).1.log
    ≡ Event.deleted "a1" ∷ Event.published 6 ∷ Event.made_main "a2" ∷ Event.added ∷ []
unfolding run_aeza rotate find_old buy identify move_main deploy publish finish delete_old ◌>>=◌
    call with_db ensure_bound_revision_current wait_for_new_ip wait_for_main_ip wait_for_ssh
    verify_protocol_health apply_bound_snapshot find_main_ip find_new_ip set_setting
    update_operation release_vps_lease heartbeat_vps_lease external_action_started
    load_ip_change_snapshot publish_ip_change write_publication
run_aeza_publishes = refl

run_aeza_effects_example :
    Ends
      (λ _. Completed env [])
      (Aborted env [])
      (run_aeza env 1 timing world).0
      (trace (run_aeza env 1 timing world).1)
run_aeza_effects_example = run_aeza_effects env 1 timing world

-- The operation is running its purchase.
abbrev resumed : World
resumed = record world { db = buying_db }

run_aeza_resumed_example : (run_aeza env 1 timing resumed).1.log ≡ resumed.log
unfolding external_action_started
run_aeza_resumed_example = run_aeza_resumed env 1 timing resumed buying refl refl

abbrev known : Known
known = record {
  old_ip_id = "a1";
  old_ip = "10.0.0.1";
  created_ip_id = "";
  created_ip_address = "";
  known_ids = "a1" ∷ [];
  known_addresses = "10.0.0.1" ∷ [];
}

abbrev bought : World
bought = record world { log = Event.added ∷ [] }
