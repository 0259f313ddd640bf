-- ===== src/Tests/Data.antt =====
-- A small installation on which the theorems are tried: one IP change, which holds the lease, bound
-- to the snapshot of revision 5, and a provider that does all that is asked.
use auto_vpn.Base.{ℕ, Bool, true, false, List, [], ◌∷◌, none, some, str_eq, if◌then◌else◌}
use auto_vpn.Db.{Db, ok}
use auto_vpn.Config.{Platform, Protocols, ProtocolConfig, CapturedVpnConfig}
use auto_vpn.Lease.{new_lease}
use auto_vpn.Operations.{ip_owner}
use auto_vpn.Snapshots.{new_ip_change, prepared_snapshot}
use auto_vpn.Rotation.World.{Env, World, Event, Ipv4, IpRotationTiming}

abbrev port : Bool → ℕ → ProtocolConfig
port enabled number = record { enabled = enabled; port = number }

abbrev pub protocols : Protocols
protocols = record {
  vless = record {
    protocol = port true 443;
    private_key = "a";
    public_key = "b";
    short_id = "c";
    target = "example.org:443";
    server_names = "example.org" ∷ [];
    server_name = "example.org";
    fingerprint = "chrome";
    spider_x = "/";
  };
  hysteria = record {
    protocol = port true 8443;
    password = "d";
    obfs_password = "e";
    auth_type = "password";
  };
  amnezia = record {
    protocol = port false 51820;
    server_private_key = "f";
    server_public_key = "g";
    obfuscation = record {
      jc = 5;
      jmin = 40;
      jmax = 1000;
      s1 = 64;
      s2 = 128;
      h1 = 1;
      h2 = 2;
      h3 = 3;
      h4 = 4;
    };
    network_prefix = "10.8.0";
    dns = "1.1.1.1";
  };
}

abbrev pub config : CapturedVpnConfig
config = record {
  current_ip = "10.0.0.1";
  config_updated_at = "then";
  vless = protocols.vless;
  hysteria = protocols.hysteria;
  amnezia = protocols.amnezia;
  router_amnezia_peers = [];
  clients = [];
  revision = 5;
}

abbrev pub platform : Platform
platform = record {
  isoformat = λ n. "now";
  fromisoformat = λ s.
      if str_eq s "2100-01-01T00:00:00+00:00"
      then some (record { is_aware = true; at = 4102444800000000 })
      else none;
  canonical_vpn_config_json = λ c. c.current_ip;
  captured_vpn_config_from_json = λ s. ok (record config { current_ip = s });
  sha256 = λ s. s;
  hosts = λ prefix. some ("10.8.0.1" ∷ "10.8.0.2" ∷ "10.8.0.3" ∷ []);
  default_setting = λ key. if str_eq key "vps_provider" then "aeza" else "";
  capture_protocols = λ settings. protocols;
}

abbrev pub empty_db : Db
empty_db = record {
  lease = none;
  installs = [];
  next_install = 1;
  ip_changes = [];
  next_ip_change = 1;
  servers = [];
  next_server = 1;
  vpn_state = record {
    desired_revision = 5;
    applied_revision = some 4;
    desired_updated_at = none;
    applied_updated_at = none;
  };
  snapshots = prepared_snapshot 5 "10.0.0.1" "10.0.0.1" 0 ∷ [];
  settings = ("current_ip", "10.0.0.1") ∷ [];
  clients = [];
  next_client = 1;
  routers = [];
  peers = [];
  credentials = [];
  apply_results = [];
  next_apply_result = 1;
  bindings = [];
  contexts = [];
}

-- One IP change has been prepared.
abbrev pub prepared_db : Db
prepared_db = record empty_db {
  lease = some (new_lease 0 3600 (ip_owner 1));
  ip_changes = new_ip_change 0 5 empty_db ∷ [];
  next_ip_change = 2;
}

-- The same without its lease.
abbrev pub unleased_db : Db
unleased_db = record prepared_db { lease = none }

abbrev pub world : World
world = record { db = prepared_db; log = []; old_ip_id = ""; make_main_started = false }

abbrev pub old_address : Ipv4
old_address = record { id = "a1"; ip = "10.0.0.1"; is_main = true }

abbrev pub new_address : Ipv4
new_address = record { id = "a2"; ip = "10.0.0.2"; is_main = false }

-- The provider's list: the new address is there once bought, and the main one once moved.
abbrev pub listing : List Event → List Ipv4
listing [] = old_address ∷ []
listing (Event.made_main i ∷ log) =
    record old_address { is_main = false } ∷ record new_address { is_main = true } ∷ []
listing (Event.added ∷ log) = old_address ∷ new_address ∷ []
listing (_ ∷ log) = listing log

abbrev pub timing : IpRotationTiming
timing = record {
  ip_appear_timeout = 2000;
  ip_appear_interval = 1000;
  ssh_timeout = 2000;
  ssh_interval = 1000;
}

abbrev pub env : Env
env = record {
  platform = platform;
  now = λ log. 1000000;
  others = λ log db. db;
  service_id = "service";
  get_ipv4_list = λ log. ok (listing log);
  add_ipv4 = λ log. ok (record new_address { id = "" });
  make_main_ipv4 = λ log. ok tt;
  delete_ipv4 = λ log. ok tt;
  tcp_check = λ log. true;
  run_remote_command = λ log. ok 0;
  run_deep_protocol_checks = λ log. ok (("vless", true) ∷ ("hysteria_salamander", true) ∷ []);
  safe_error = λ e. "error";
  health_json = λ report. "{}";
}

-- The same, with a server that fails the health check.
abbrev pub failing_env : Env
failing_env = record env { run_deep_protocol_checks = λ log. ok (("vless", true) ∷ []) }
