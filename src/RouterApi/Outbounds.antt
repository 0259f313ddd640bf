-- ===== src/RouterApi/Outbounds.antt =====
-- The JSON of the three protocols that the router API tells a router (app/router_api.py,
-- app/hysteria_auth.py).
use Prim.Native.String.{◌++◌ as concat}
use auto_vpn.Base.{
  String, Bool, true, false, List, [], ◌∷◌, Option, none, some, if◌then◌else◌, truthy, str_eq,
  strip, split_on, select, map,
}
use auto_vpn.Db.{Result, ok, err, value_error}
use auto_vpn.Config.{CapturedVpnConfig, VpnClient}
use auto_vpn.ApplyResults.{
  Json, Items, Fields, null, bool, int, text, array, object, nil, cons, end, field,
}
use auto_vpn.Server.Texts.{decimal}

abbrev pub to_fields : List (String × Json) → Fields
to_fields [] = end
to_fields ((k, v) ∷ rest) = field k v (to_fields rest)

abbrev pub obj : List (String × Json) → Json
obj fields = object (to_fields fields)

abbrev pub to_items : List String → Items
to_items [] = nil
to_items (s ∷ rest) = cons (text s) (to_items rest)

abbrev pub texts : List String → Json
texts ss = array (to_items ss)

abbrev pub text_or_null : Option String → Json
text_or_null none = null
text_or_null (some s) = text s

-- `value if enabled else None`.
abbrev pub when_enabled : Bool → Json → Json
when_enabled enabled v = if enabled then v else null

-- app/hysteria_auth.py.
unfoldable pub hysteria_auth : VpnClient → CapturedVpnConfig → Result String
unfolding decimal
hysteria_auth client config =
    if str_eq config.hysteria.auth_type "password"
    then ok config.hysteria.password
    else (if str_eq config.hysteria.auth_type "userpass"
        then ok
            (concat "client-" (concat (decimal client.id) (concat ":" client.hysteria_password)))
        else err (value_error "Unsupported Hysteria authentication mode"))

unfoldable pub vless_outbound : CapturedVpnConfig → VpnClient → Json
vless_outbound config client = obj (
    ("type", text "vless")
    ∷ ("tag", text "vless-reality")
    ∷ ("server", text config.current_ip)
    ∷ ("server_port", int config.vless.protocol.port)
    ∷ ("uuid", text client.vless_uuid)
    ∷ ("flow", text "xtls-rprx-vision")
    ∷ (
      "tls",
      obj (
          ("enabled", bool true)
          ∷ ("server_name", text config.vless.server_name)
          ∷ (
            "utls",
            obj (("enabled", bool true) ∷ ("fingerprint", text config.vless.fingerprint) ∷ []),
          )
          ∷ (
            "reality",
            obj (
                ("enabled", bool true)
                ∷ ("public_key", text config.vless.public_key)
                ∷ ("short_id", text config.vless.short_id)
                ∷ []),
          )
          ∷ []),
    )
    ∷ [])

-- The outbound for the password of the client.
unfoldable pub hysteria_outbound : CapturedVpnConfig → String → Json
hysteria_outbound config password = obj (
    ("type", text "hysteria2")
    ∷ ("tag", text "hysteria2")
    ∷ ("server", text config.current_ip)
    ∷ ("server_port", int config.hysteria.protocol.port)
    ∷ ("password", text password)
    ∷ (
      "tls",
      obj (
          ("enabled", bool true)
          ∷ ("server_name", text config.vless.server_name)
          ∷ ("insecure", bool true)
          ∷ []),
    )
    ∷ (if truthy config.hysteria.obfs_password
        then (
          "obfs",
          obj (("type", text "salamander") ∷ ("password", text config.hysteria.obfs_password) ∷ []),
        )
          ∷ []
        else []))

abbrev pub obfuscation_fields : List String
obfuscation_fields = "Jc" ∷ "Jmin" ∷ "Jmax" ∷ "S1" ∷ "S2" ∷ "H1" ∷ "H2" ∷ "H3" ∷ "H4" ∷ []

-- `[item.strip() for item in text.split(",") if item.strip()]`.
unfoldable pub split_commas : String → List String
unfolding split_on strip
split_commas s =
    let (first, rest) = split_on 44 s in select (λ item. truthy item) (map strip (first ∷ rest))

-- The profile without its import key.
unfoldable pub amnezia_fields : CapturedVpnConfig → VpnClient → List (String × Json)
unfolding split_commas
amnezia_fields config client =
    let o = config.amnezia.obfuscation in
    ("protocol_version", int 1)
    ∷ (
      "capabilities",
      obj (
          ("awg_obfuscation_v1", bool true)
          ∷ ("awg2_i_fields", bool false)
          ∷ ("obfuscation_fields", texts obfuscation_fields)
          ∷ []),
    )
    ∷ (
      "interface",
      obj (
          ("private_key", text client.amnezia_private_key)
          ∷ ("address", text (concat client.amnezia_ipv4 "/32"))
          ∷ ("dns_servers", texts (split_commas config.amnezia.dns))
          ∷ []),
    )
    ∷ (
      "peer",
      obj (
          ("public_key", text config.amnezia.server_public_key)
          ∷ ("preshared_key", text client.amnezia_preshared_key)
          ∷ (
            "endpoint",
            obj (
                ("host", text config.current_ip) ∷ ("port", int config.amnezia.protocol.port) ∷ []),
          )
          ∷ ("persistent_keepalive", int 25)
          ∷ []),
    )
    ∷ (
      "obfuscation",
      obj (
          ("Jc", int o.jc)
          ∷ ("Jmin", int o.jmin)
          ∷ ("Jmax", int o.jmax)
          ∷ ("S1", int o.s1)
          ∷ ("S2", int o.s2)
          ∷ ("H1", int o.h1)
          ∷ ("H2", int o.h2)
          ∷ ("H3", int o.h3)
          ∷ ("H4", int o.h4)
          ∷ []),
    )
    ∷ ("route_allowed_ips", texts ("0.0.0.0/0" ∷ "::/0" ∷ []))
    ∷ ("install_routes", bool false)
    ∷ []
