-- ===== src/Clients.antt =====
-- app/db.py: settings and clients, and the desired revision that every change of them raises.
pub mod Distinct
pub mod Deletion
pub mod Addresses
use mathlib.Core.List.{tail}
use text.Mathlib.Text.{starts_with}
use auto_vpn.Base.{
  ℕ, ◌+◌, String, Bool, true, false, not, ◌&&◌, ◌||◌, List, ◌∷◌, ◌++◌, Option, none, some, map,
  ◌==◌, leb, if◌then◌else◌, find, select, update_where, is_some, or_default, truthy, str_eq,
  contains,
}
use auto_vpn.Db.{
  Db, Client, RouterPeer, Action, pure, gets, modify, or_raise, case_option, get_db, when, ◌>>=◌,
  ◌>>◌, ok, err, Result, runtime_error, value_error, lookup_error, lookup_setting, insert_setting,
  delete_clients,
}
use auto_vpn.Config.{Platform, is_live}
use auto_vpn.Lease.{iso}

abbrev pub get_client_by_id : ℕ → Db → Option Client
get_client_by_id i db = find (λ c. c.id == i && is_live c) db.clients

abbrev pub bool_eq : Bool → Bool → Bool
bool_eq true b = b
bool_eq false b = not b

unfoldable pub is_vpn_setting : String → Bool
is_vpn_setting key =
    str_eq key "current_ip"
    || (starts_with key "vless."
        || (starts_with key "hysteria."
            || (starts_with key "amnezia."
                || (starts_with key "config.vless_"
                    || (starts_with key "config.hysteria_" || starts_with key "config.amnezia_")))))

-- The random values of a new client, with its name.
pub record Drawn : Type 0 where
  pub name : String
  pub token : String
  pub vless_uuid : String
  pub hysteria_password : String
  pub amnezia_private_key : String
  pub amnezia_public_key : String
  pub amnezia_preshared_key : String

abbrev pub new_peer : String → String → String → String → String → RouterPeer
new_peer router_id private_key public_key preshared_key ipv4 = record {
  router_id = router_id;
  private_key = private_key;
  public_key = public_key;
  preshared_key = preshared_key;
  ipv4 = ipv4;
}

abbrev pub used_addresses : Db → List String
used_addresses db =
    map (λ c. c.amnezia_ipv4) (select (λ c. truthy c.amnezia_ipv4) db.clients)
    ++ map (λ p. p.ipv4) (select (λ p. truthy p.ipv4) db.peers)

module _ (platform : Platform) where
  open platform use {isoformat, hosts, default_setting}

  -- `_mark_vpn_config_updated`, on the database.
  unfoldable pub raise_revision : ℕ → Db → Db
  raise_revision now db = record db {
    settings = insert_setting "vpn.config_updated_at" (isoformat (iso now)) db.settings;
    vpn_state = record (db.vpn_state) {
      desired_revision = db.vpn_state.desired_revision + 1;
      desired_updated_at = some (iso now);
    };
  }

  unfoldable pub mark_vpn_config_updated : ℕ → Action Db ℕ
  unfolding raise_revision
  mark_vpn_config_updated now = do
    modify (raise_revision now)
    gets (λ db. db.vpn_state.desired_revision)

  -- `_amnezia_network`, as the usable addresses of the network.
  unfoldable pub amnezia_hosts : Db → Result (List String)
  amnezia_hosts db =
      let configured = or_default (lookup_setting "config.amnezia_network_prefix" db.settings) "" in
      let prefix =
        if truthy configured then configured else default_setting "amnezia_network_prefix" in
      elim (hosts prefix) [
        | none ↦ err (value_error "Invalid AmneziaWG /24 network prefix")
        | some addresses ↦ ok addresses
      ]

  unfoldable pub allocate_amnezia_address : Action Db String
  unfolding amnezia_hosts
  allocate_amnezia_address db = elim (amnezia_hosts db) [
    | err e ↦ (err e, db)
    | ok addresses ↦ elim (find (λ a. not (contains a (used_addresses db))) (tail addresses)) [
      | none ↦ (err (runtime_error "AmneziaWG address pool is exhausted"), db)
      | some a ↦ (ok a, db)
    ]
  ]

  -- `_create_router_amnezia_peer`, with the keys that it would generate.
  unfoldable pub create_router_amnezia_peer :
      String → String → String → String → Action Db (RouterPeer × Bool)
  unfolding allocate_amnezia_address
  create_router_amnezia_peer router_id private_key public_key preshared_key = do
    existing ← gets (λ db. find (λ p. str_eq p.router_id router_id) db.peers)
    case_option existing
        (do
          router ← gets (λ db. find (λ r. str_eq r.router_id router_id) db.routers)
          or_raise router (lookup_error "Router does not exist")
          ipv4 ← allocate_amnezia_address
          modify (λ db. record db {
            peers = new_peer router_id private_key public_key preshared_key ipv4 ∷ db.peers;
          })
          pure (new_peer router_id private_key public_key preshared_key ipv4, true))
        λ peer. pure (peer, false)

  unfoldable pub ensure_router_amnezia_peer :
      ℕ → String → String → String → String → Action Db RouterPeer
  unfolding create_router_amnezia_peer mark_vpn_config_updated
  ensure_router_amnezia_peer now router_id private_key public_key preshared_key = do
    (peer, created) ← create_router_amnezia_peer router_id private_key public_key preshared_key
    when created (mark_vpn_config_updated now >> pure tt)
    pure peer

  abbrev pub new_client : ℕ → Drawn → String → Db → Client
  new_client now drawn ipv4 db = record {
    id = db.next_client;
    name = drawn.name;
    token = drawn.token;
    enabled = true;
    vless_uuid = drawn.vless_uuid;
    hysteria_password = drawn.hysteria_password;
    amnezia_private_key = drawn.amnezia_private_key;
    amnezia_public_key = drawn.amnezia_public_key;
    amnezia_preshared_key = drawn.amnezia_preshared_key;
    amnezia_ipv4 = ipv4;
    created_at = iso now;
    deleted_at = none;
    deleted_revision = none;
  }

  unfoldable pub create_client : ℕ → Drawn → Action Db Client
  unfolding allocate_amnezia_address mark_vpn_config_updated
  create_client now drawn = get_db do
    ipv4 ← allocate_amnezia_address
    client ← gets (new_client now drawn ipv4)
    modify (λ db. record db { clients = client ∷ db.clients; next_client = db.next_client + 1 })
    mark_vpn_config_updated now
    pure client

  unfoldable pub set_client_enabled : ℕ → ℕ → Bool → Action Db (Unit {0})
  unfolding mark_vpn_config_updated
  set_client_enabled now i enabled = get_db do
    client ← gets (get_client_by_id i)
    elim client [
      | none ↦ pure tt
      | some c ↦ when (not (bool_eq c.enabled enabled)) do
        modify (λ db. record db {
          clients =
              update_where (λ r. r.id == i && is_live r) (λ r. record r { enabled = enabled })
                db.clients;
        })
        mark_vpn_config_updated now
        pure tt
    ]

  unfoldable pub update_client_name : ℕ → ℕ → String → Action Db (Unit {0})
  unfolding mark_vpn_config_updated
  update_client_name now i name = get_db do
    client ← gets (get_client_by_id i)
    elim client [
      | none ↦ pure tt
      | some c ↦ when (not (str_eq c.name name)) do
        modify (λ db. record db {
          clients =
              update_where (λ r. r.id == i && is_live r) (λ r. record r { name = name }) db.clients;
        })
        mark_vpn_config_updated now
        pure tt
    ]

  -- A client is marked with the revision from which it is gone.
  unfoldable pub delete_client : ℕ → ℕ → Action Db (Unit {0})
  unfolding mark_vpn_config_updated
  delete_client now i = get_db do
    client ← gets (get_client_by_id i)
    when (is_some client) do
      revision ← mark_vpn_config_updated now
      modify (λ db. record db {
        clients =
            update_where (λ r. r.id == i && is_live r)
              (λ r. record r { deleted_at = some (iso now); deleted_revision = some revision })
              db.clients;
      })

  unfoldable pub set_setting : ℕ → String → String → Action Db (Unit {0})
  unfolding mark_vpn_config_updated is_vpn_setting
  set_setting now key value = get_db do
    previous ← gets (λ db. or_default (lookup_setting key db.settings) "")
    modify (λ db. record db { settings = insert_setting key value db.settings })
    when (is_vpn_setting key && not (str_eq previous value))
        (mark_vpn_config_updated now >> pure tt)

-- `deleted_revision IS NOT NULL AND deleted_revision <= ?`.
abbrev pub is_purged : ℕ → Client → Bool
is_purged applied c = elim c.deleted_revision [ none ↦ false | some n ↦ leb n applied ]

-- The rows that refer to a client go with it.
unfoldable pub purge_applied_deleted_clients : Db → Db
unfolding delete_clients
purge_applied_deleted_clients db = elim db.vpn_state.applied_revision [
  | none ↦ db
  | some applied ↦ delete_clients (is_purged applied) db
]
