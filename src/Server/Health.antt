-- ===== src/Server/Health.antt =====
-- What app/server_operations.py makes of the answers of the provider and of the VPN server.
use Prim.Native.String.{◌++◌ as concat}
use auto_vpn.Base.{
  ℕ, String, Bool, true, false, not, List, [], ◌∷◌, ◌++◌, Option, none, some, map, ◌==◌,
  if◌then◌else◌, select, str_eq, strip, contains,
}
use auto_vpn.Db.{Db, Action, pure, lookup_setting, insert_setting, ◌>>=◌, ◌>>◌}
use auto_vpn.Server.{ServerField}
use auto_vpn.Server.Texts.{lower_in, splitlines, partition, join}
use auto_vpn.Server.Settings.{vless_enabled, hysteria_enabled, amnezia_enabled}
use auto_vpn.Server.World.{
  ServerEnv, ServerEvent, ServerWorld, ServiceState, ask, reads, update_row,
}

-- `none` where the status is neither a state that is up nor one that is down.
unfoldable pub provider_is_up : String → Option Bool
unfolding strip lower_in
provider_is_up status =
    if lower_in (strip status) ("running" ∷ "active" ∷ "online" ∷ "started" ∷ [])
    then some true
    else (if lower_in (strip status)
          ("stopped" ∷ "inactive" ∷ "offline" ∷ "down" ∷ "rebooting" ∷ "restarting" ∷ [])
        then some false
        else none)

-- `provider_up is False` and its opposite.
abbrev pub is_down : Option Bool → Bool
is_down (some false) = true
is_down _ = false

abbrev pub known_services : List String
known_services = "xray" ∷ "hysteria-server" ∷ "awg-quick@awg0" ∷ []

-- One line `name=state`, noted in the dictionary of the lines before it.
unfoldable pub note_service : String → List (String × String) → List (String × String)
unfolding partition strip
note_service line noted =
    let (name, state) = partition 61 line in
    elim state [
      | none ↦ noted
      | some text ↦
          if contains name known_services
          then insert_setting name (if str_eq (strip text) "active" then "active" else "inactive")
              noted
          else noted
    ]

unfoldable pub note_services : List String → List (String × String) → List (String × String)
unfolding note_service
note_services [] noted = noted
note_services (line ∷ lines) noted = note_services lines (note_service line noted)

unfoldable pub parse_services : String → List (String × String)
unfolding splitlines note_services
parse_services output = note_services (splitlines output) []

unfoldable pub enabled_services : Db → List String
enabled_services db =
    (if vless_enabled db then "xray" ∷ [] else [])
    ++ ((if hysteria_enabled db then "hysteria-server" ∷ [] else [])
        ++ (if amnezia_enabled db then "awg-quick@awg0" ∷ [] else []))

abbrev pub is_active_service : List (String × String) → String → Bool
is_active_service services service = elim (lookup_setting service services) [
  | none ↦ false
  | some state ↦ str_eq state "active"
]

unfoldable pub unhealthy : List (String × String) → Db → List String
unfolding enabled_services
unhealthy services db = select (λ s. not (is_active_service services s)) (enabled_services db)

unfoldable pub failed_keys : List (String × String) → List String
failed_keys summary = map (λ (p : String × String). p.0) (select (λ p. str_eq p.1 "FAILED") summary)

abbrev pub listed : String → List String → List String
listed label [] = []
listed label (x ∷ xs) = concat label (join ", " (x ∷ xs)) ∷ []

unfoldable pub problems : List String → List String → String
problems services protocols =
    join "; " (listed "inactive services: " services ++ listed "failed protocols: " protocols)

module _ (env : ServerEnv) where
  -- `_provider_status`, with the cleaning that follows it everywhere.
  unfoldable pub provider_status : Action ServerWorld ServiceState
  provider_status = ask env ServerEvent.asked_status env.get_service

  unfoldable pub service_and_protocol_health : ℕ → String → Action ServerWorld String
  unfolding parse_services unhealthy failed_keys problems
  service_and_protocol_health i host = do
    update_row env i (ServerField.current_step "service_health" ∷ [])
    (exit_code, output) ← ask env (ServerEvent.asked_services host) env.run_remote_command
    let services = if exit_code == 0 then parse_services output else []
    update_row env i (ServerField.services_json (env.services_json services) ∷ [])
    inactive ← reads (unhealthy services)
    update_row env i (ServerField.current_step "protocol_health" ∷ [])
    summary ← ask env (ServerEvent.asked_protocols host) env.refresh_protocol_statuses
    update_row env i (ServerField.protocol_health_json (env.summary_json summary) ∷ [])
    pure (problems inactive (failed_keys summary))
