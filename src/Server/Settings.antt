-- ===== src/Server/Settings.antt =====
-- app/runtime_config.py and app/vps_provider.py: a setting of the database, or the default of the
-- environment.
use Prim.Native.String.{◌++◌ as concat}
use auto_vpn.Base.{
  String, Bool, true, false, [], ◌∷◌, Option, none, some, if◌then◌else◌, truthy, or_default, str_eq,
  strip,
}
use auto_vpn.Db.{Db, lookup_setting}
use auto_vpn.Config.{Platform}
use auto_vpn.Server.Texts.{lower_in}

-- `get_setting(f"config.{key}", None)`.
abbrev pub configured : String → Db → Option String
configured key db = lookup_setting (concat "config." key) db.settings

unfoldable pub is_on : String → Bool
unfolding lower_in strip
is_on value = lower_in (strip value) ("1" ∷ "true" ∷ "yes" ∷ "on" ∷ [])

unfoldable pub config_bool : String → Bool → Db → Bool
unfolding is_on
config_bool key default db = elim (configured key db) [ none ↦ default | some value ↦ is_on value ]

-- An empty port once meant that a protocol was off.
unfoldable pub protocol_enabled : String → Bool → Db → Bool
unfolding is_on
protocol_enabled key default db = elim (configured (concat key "_enabled") db) [
  | some value ↦ is_on value
  | none ↦ elim (configured (concat key "_port") db) [
    | some port ↦ if truthy port then default else false
    | none ↦ default
  ]
]

abbrev pub vless_enabled : Db → Bool
vless_enabled = protocol_enabled "vless" true

abbrev pub hysteria_enabled : Db → Bool
hysteria_enabled = protocol_enabled "hysteria" true

abbrev pub amnezia_enabled : Db → Bool
amnezia_enabled = protocol_enabled "amnezia" true

module _ (platform : Platform) where
  unfoldable pub config_value : String → Db → String
  config_value key db =
      let value = or_default (configured key db) "" in
      if truthy value then value else platform.default_setting key

  unfoldable pub is_sprintbox : Db → Bool
  unfolding config_value
  is_sprintbox db = str_eq (config_value "vps_provider" db) "sprintbox"

  -- A box name that was cleared stays empty, whatever the environment says.
  unfoldable pub sprintbox_box_name : Db → String
  unfolding config_value
  sprintbox_box_name db =
      or_default (configured "sprintbox_box_name" db) (config_value "sprintbox_box_name" db)

  unfoldable pub provider_service_id : Db → String
  unfolding is_sprintbox sprintbox_box_name config_value
  provider_service_id db =
      if is_sprintbox db then sprintbox_box_name db else config_value "aeza_service_id" db

  unfoldable pub provider_label : Db → String
  unfolding is_sprintbox
  provider_label db = if is_sprintbox db then "SprintBOX" else "Aeza"

  unfoldable pub eu_ssh_host : Db → String
  unfolding config_value
  eu_ssh_host db = or_default (configured "eu_ssh_host" db) (config_value "eu_ssh_host" db)

  abbrev pub current_ip : Db → String
  current_ip db = or_default (lookup_setting "current_ip" db.settings) ""

  unfoldable pub resolve_eu_host : Db → String
  unfolding eu_ssh_host
  resolve_eu_host db = let host = eu_ssh_host db in if truthy host then host else current_ip db
