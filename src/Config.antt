-- ===== src/Config.antt =====
-- app/vpn_config.py: the configuration that a snapshot captures, and what the modelled code takes
-- from libraries to write and read it.
use auto_vpn.Base.{
  ℕ, String, Bool, List, [], ◌∷◌, Option, none, some, map, select, find, any, not, ◌&&◌, ◌==◌,
  str_eq, is_some, or_default,
}
use auto_vpn.Db.{Db, Client, Router, RouterPeer, Result, lookup_setting}

pub record ProtocolConfig : Type 0 where
  pub enabled : Bool
  pub port : ℕ

pub record VlessRealityConfig : Type 0 where
  pub protocol : ProtocolConfig
  pub private_key : String
  pub public_key : String
  pub short_id : String
  pub target : String
  pub server_names : List String
  pub server_name : String
  pub fingerprint : String
  pub spider_x : String

pub record HysteriaConfig : Type 0 where
  pub protocol : ProtocolConfig
  pub password : String
  pub obfs_password : String
  pub auth_type : String

pub record AmneziaObfuscation : Type 0 where
  pub jc : ℕ
  pub jmin : ℕ
  pub jmax : ℕ
  pub s1 : ℕ
  pub s2 : ℕ
  pub h1 : ℕ
  pub h2 : ℕ
  pub h3 : ℕ
  pub h4 : ℕ

pub record AmneziaConfig : Type 0 where
  pub protocol : ProtocolConfig
  pub server_private_key : String
  pub server_public_key : String
  pub obfuscation : AmneziaObfuscation
  pub network_prefix : String
  pub dns : String

-- The parts of a configuration that are read from the settings of the three protocols.
pub record Protocols : Type 0 where
  pub vless : VlessRealityConfig
  pub hysteria : HysteriaConfig
  pub amnezia : AmneziaConfig

pub record RouterAmneziaPeer : Type 0 where
  pub router_id : String
  pub client_id : ℕ
  pub private_key : String
  pub public_key : String
  pub preshared_key : String
  pub ipv4 : String

pub record VpnClient : Type 0 where
  pub id : ℕ
  pub name : String
  pub token : String
  pub enabled : Bool
  pub vless_uuid : String
  pub hysteria_password : String
  pub amnezia_private_key : String
  pub amnezia_public_key : String
  pub amnezia_preshared_key : String
  pub amnezia_ipv4 : String
  pub created_at : ℕ

pub record CapturedVpnConfig : Type 0 where
  pub current_ip : String
  pub config_updated_at : String
  pub vless : VlessRealityConfig
  pub hysteria : HysteriaConfig
  pub amnezia : AmneziaConfig
  pub clients : List VpnClient
  pub revision : ℕ
  pub router_amnezia_peers : List RouterAmneziaPeer

-- A time that `datetime.fromisoformat` has read, in microseconds; one without an offset is taken as
-- UTC.
pub record Moment : Type 0 where
  pub is_aware : Bool
  pub at : ℕ

-- What lies outside the modelled code: the text of a time (datetime.isoformat and
-- fromisoformat, `none` for a ValueError), JSON, SHA-256, the
-- addresses of a /24 network in order (ipaddress, `none` where it refuses the prefix), the
-- defaults in the environment (app/config.py), and the protocol part of a capture.
pub record Platform : Type 0 where
  pub isoformat : ℕ → String
  pub fromisoformat : String → Option Moment
  pub canonical_vpn_config_json : CapturedVpnConfig → String
  pub captured_vpn_config_from_json : String → Result CapturedVpnConfig
  pub sha256 : String → String
  pub hosts : String → Option (List String)
  pub default_setting : String → String
  pub capture_protocols : List (String × String) → Protocols

abbrev pub capture_client : Client → VpnClient
capture_client c = record {
  id = c.id;
  name = c.name;
  token = c.token;
  enabled = c.enabled;
  vless_uuid = c.vless_uuid;
  hysteria_password = c.hysteria_password;
  amnezia_private_key = c.amnezia_private_key;
  amnezia_public_key = c.amnezia_public_key;
  amnezia_preshared_key = c.amnezia_preshared_key;
  amnezia_ipv4 = c.amnezia_ipv4;
  created_at = c.created_at;
}

abbrev pub is_live : Client → Bool
is_live c = not (is_some c.deleted_at)

-- The router of a peer, if it is enabled and belongs to a client that is enabled and not deleted.
abbrev pub router_of : RouterPeer → Db → Option Router
router_of p db =
    find
      (λ r.
        str_eq r.router_id p.router_id
        && (r.enabled && any (λ c. c.id == r.client_id && (c.enabled && is_live c)) db.clients))
      db.routers

abbrev pub capture_peer : RouterPeer → Router → RouterAmneziaPeer
capture_peer p r = record {
  router_id = p.router_id;
  client_id = r.client_id;
  private_key = p.private_key;
  public_key = p.public_key;
  preshared_key = p.preshared_key;
  ipv4 = p.ipv4;
}

-- `_capture_router_peers` at the current schema, in the order of the table; the source sorts them.
abbrev pub capture_router_peers : Db → List RouterPeer → List RouterAmneziaPeer
capture_router_peers db [] = []
capture_router_peers db (p ∷ ps) =
    let rest = capture_router_peers db ps in
    elim (router_of p db) [ none ↦ rest | some r ↦ capture_peer p r ∷ rest ]

module _ (platform : Platform) where
  -- `_capture`. The clients are read newest first, which is the order of the table.
  unfoldable pub capture_vpn_config : Db → CapturedVpnConfig
  capture_vpn_config db = record {
    current_ip = or_default (lookup_setting "current_ip" db.settings) "";
    config_updated_at = or_default (lookup_setting "vpn.config_updated_at" db.settings) "";
    vless = (platform.capture_protocols db.settings).vless;
    hysteria = (platform.capture_protocols db.settings).hysteria;
    amnezia = (platform.capture_protocols db.settings).amnezia;
    clients = map capture_client (select is_live db.clients);
    revision = db.vpn_state.desired_revision;
    router_amnezia_peers = capture_router_peers db db.peers;
  }

abbrev pub enabled_clients : CapturedVpnConfig → List VpnClient
enabled_clients config = select (λ c. c.enabled) config.clients
