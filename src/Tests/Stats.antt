-- ===== src/Tests/Stats.antt =====
-- A refresh of the counters in which Xray answers and AmneziaWG does not, and the theorem at it.
use auto_vpn.Base.{◌≡◌, refl, true, false, [], ◌∷◌, none, some, str_eq, if◌then◌else◌, truthy, ◌⊎◌}
use auto_vpn.Db.{ok, err, external, ◌>>=◌}
use auto_vpn.Clients.{set_setting}
use auto_vpn.Server.Settings.{resolve_eu_host}
use auto_vpn.Stats.Labels.{safe_label, xray_client_email}
use auto_vpn.Stats.Refresh.{
  ClientStats, StatsWorld, StatsEnv, after_commands, get_client_stats, refresh_client_stats,
  parse_amnezia_dump_output, aggregate_amnezia_stats,
}
use auto_vpn.Stats.Kept.{IsKeptBy, refresh-IsKept}
use auto_vpn.Tests.Data.{platform}
use auto_vpn.Tests.Credentials.{routed_db}

abbrev stats_env : StatsEnv
stats_env = record {
  platform = platform;
  run_xray = ok (true, "counters");
  run_amnezia = err (external "TimeoutError");
  xray_matches = λ s. ("home-1", (true, 7)) ∷ ("home-1", (false, 9)) ∷ [];
  python_int = λ s. if str_eq s "12" then some 12 else none;
  command_error = λ source e. "failed";
  exit_error = λ source output. "exit";
  clock = 5000000;
  others = λ n w. w;
}

abbrev before : ClientStats
before = record {
  client_id = 1;
  xray = record { uplink = 3; downlink = 9 };
  amnezia = record { rx = 4; tx = 5; latest_handshake = 6 };
  last_seen_at = some 1;
  updated_at = 1;
  errors = [];
}

abbrev stats_world : StatsWorld
stats_world = record { db = routed_db; client_stats = before ∷ [] }

refresh-IsKept_example :
    ((truthy (resolve_eu_host stats_env.platform stats_world.db) ≡ false)
      × ((refresh_client_stats stats_env stats_world).1 ≡ stats_world))
    ⊎ IsKeptBy stats_env
        (get_client_stats 1 (after_commands stats_env stats_world).client_stats)
        (get_client_stats 1 (refresh_client_stats stats_env stats_world).1.client_stats)
refresh-IsKept_example = refresh-IsKept stats_env 1 stats_world

refreshed_row :
    (refresh_client_stats stats_env stats_world).1.client_stats
    ≡ (record {
      client_id = 1;
      xray = record { uplink = 7; downlink = 9 };
      amnezia = before.amnezia;
      last_seen_at = some 5;
      updated_at = 5;
      errors = "failed" ∷ [];
    })
      ∷ []
unfolding refresh_client_stats ◌>>=◌ resolve_eu_host set_setting xray_client_email
refreshed_row = refl

labelled : safe_label " a b/c- " ≡ "a-b-c"
unfolding safe_label
labelled = refl

dumped :
    aggregate_amnezia_stats ("k" ∷ "k" ∷ []) (
      parse_amnezia_dump_output
        (λ s. if str_eq s "12" then some 12 else none)
        "k psk end ips 12 12 12 off\nprivate-key x x x 12 12 12 x\nshort 12")
    ≡ record { rx = 12; tx = 12; latest_handshake = 12 }
unfolding aggregate_amnezia_stats parse_amnezia_dump_output
dumped = refl
