-- ===== src/Rotation/Steps.antt =====
-- The steps of an IP change (app/ip_change.py): progress and checks in the database, the waits, the
-- transactional apply, the health check and the rollback.
use Prim.Native.String.{◌++◌ as concat}
use auto_vpn.Base.{
  ℕ, zero, suc, String, Bool, true, false, not, ◌&&◌, List, [], ◌∷◌, ◌++◌, Option, none, some, map,
  ◌==◌, ltb, if◌then◌else◌, select, any, truthy, str_eq,
}
use auto_vpn.Db.{
  Status, Phase, ActionState, Result, ok, ip_change_error, Action, pure, raise, gets, raise_if,
  when, catch, case_option, ◌>>=◌, ◌>>◌,
}
use auto_vpn.Config.{CapturedVpnConfig}
use auto_vpn.Lease.{iso}
use auto_vpn.Operations.{IpField, update_operation}
use auto_vpn.Rotation.World.{Env, World, Event, Ipv4, IpRotationTiming, attempts, call, with_db}
use auto_vpn.Rotation.Find.{Known, find_new_ip}

-- The label of a protocol that must work at the new address and does not.
abbrev pub is_verified : String → List (String × Bool) → Bool
is_verified key [] = false
is_verified key ((k, verified) ∷ rest) = if str_eq k key then verified else is_verified key rest

abbrev pub required : CapturedVpnConfig → List String
required config =
    (if config.vless.protocol.enabled then "vless" ∷ [] else [])
    ++ (if config.hysteria.protocol.enabled then "hysteria_salamander" ∷ [] else [])

unfoldable pub failed_protocols : CapturedVpnConfig → List (String × Bool) → List String
failed_protocols config results = select (λ key. not (is_verified key results)) (required config)

-- `_protocol_health_payload`, before it is written as JSON.
unfoldable pub protocol_health_payload : List (String × Bool) → Bool → List (String × String)
protocol_health_payload results amnezia_enabled =
    map (λ (r : String × Bool). (r.0, if r.1 then "VERIFIED" else "FAILED"))
      (select (λ r. not (str_eq r.0 "amnezia")) results)
    ++ (if amnezia_enabled then ("amnezia", "NEW_ENDPOINT_NOT_VERIFIED") ∷ [] else [])

abbrev pub is_empty {ℓ} : {A : Type ℓ} → List A → Bool
is_empty [] = true
is_empty (x ∷ xs) = false

module _ (env : Env) where
  abbrev pub update : ℕ → List IpField → Action World (Unit {0})
  update i fields = with_db env (λ now. update_operation now i fields)

  -- The answer of a call that has none.
  abbrev pub no_answer : List Event → Result (Unit {0})
  no_answer log = ok tt

  abbrev pub step : ℕ → String → List IpField → Action World (Unit {0})
  step i name fields = do
    update i (IpField.status Status.running ∷ IpField.current_step name ∷ fields)
    call env Event.yielded no_answer

  abbrev pub sleep : Action World (Unit {0})
  sleep = call env Event.slept no_answer

  unfoldable pub ensure_bound_revision_current : ℕ → Action World (Unit {0})
  ensure_bound_revision_current revision = do
    desired ← gets (λ w. w.db.vpn_state.desired_revision)
    raise_if (not (desired == revision))
        (ip_change_error "VPN configuration changed during IP rotation")

  -- `if new_ip and new_ip.get("id") and new_ip.get("ip")`.
  abbrev pub usable : Option Ipv4 → Option Ipv4
  usable none = none
  usable (some item) = if truthy item.id && truthy item.ip then some item else none

  -- The loops count the attempts that are left.
  unfoldable pub wait_new_ip : ℕ → Known → Action World Ipv4
  wait_new_ip zero k = raise (ip_change_error "New IPv4 did not appear in Aeza list before timeout")
  wait_new_ip (suc n) k = do
    ipv4_list ← call env Event.listed env.get_ipv4_list
    case_option (usable (find_new_ip ipv4_list k)) (do when (ltb 0 n) sleep; wait_new_ip n k) pure

  abbrev pub is_confirmed_main : String → String → Ipv4 → Bool
  is_confirmed_main expected_ip_id expected_ip item =
      item.is_main && (str_eq item.id expected_ip_id && str_eq item.ip expected_ip)

  unfoldable pub wait_main_ip : ℕ → String → String → Action World (Unit {0})
  wait_main_ip zero expected_ip_id expected_ip =
      raise (ip_change_error "Aeza did not confirm the new IPv4 as main before timeout")
  wait_main_ip (suc n) expected_ip_id expected_ip = do
    ipv4_list ← call env Event.listed env.get_ipv4_list
    if any (is_confirmed_main expected_ip_id expected_ip) ipv4_list
        then pure tt
        else do when (ltb 0 n) sleep; wait_main_ip n expected_ip_id expected_ip

  unfoldable pub wait_ssh : ℕ → String → Action World (Unit {0})
  wait_ssh zero host =
      raise (ip_change_error "SSH did not become reachable on the new IPv4 before timeout")
  wait_ssh (suc n) host = do
    up ← call env (Event.probed host) (λ log. ok (env.tcp_check log))
    if up then pure tt else do when (ltb 0 n) sleep; wait_ssh n host

  unfoldable pub wait_for_new_ip : IpRotationTiming → Known → Action World Ipv4
  unfolding wait_new_ip
  wait_for_new_ip timing = wait_new_ip (attempts timing.ip_appear_timeout timing.ip_appear_interval)

  unfoldable pub wait_for_main_ip : IpRotationTiming → String → String → Action World (Unit {0})
  unfolding wait_main_ip
  wait_for_main_ip timing =
      wait_main_ip (attempts timing.ip_appear_timeout timing.ip_appear_interval)

  unfoldable pub wait_for_ssh : IpRotationTiming → String → Action World (Unit {0})
  unfolding wait_ssh
  wait_for_ssh timing = wait_ssh (attempts timing.ssh_timeout timing.ssh_interval)

  unfoldable pub verify_protocol_health : String → CapturedVpnConfig → Action World String
  unfolding failed_protocols protocol_health_payload
  verify_protocol_health host config = do
    results ← call env (Event.checked host) env.run_deep_protocol_checks
    raise_if (not (is_empty (failed_protocols config results)))
        (ip_change_error "New-endpoint protocol verification failed")
    pure (env.health_json (protocol_health_payload results config.amnezia.protocol.enabled))

  unfoldable pub apply_bound_snapshot : ℕ → String → Action World (Unit {0})
  apply_bound_snapshot i host = do
    step i "sync_vpn_after_ip_change"
        (IpField.action_state ActionState.applying ∷ IpField.apply_state Phase.running ∷ [])
    exit_code ← catch (call env (Event.deployed host) env.run_remote_command) λ e. do
      update i
          (IpField.action_state ActionState.ambiguous ∷ IpField.apply_state Phase.ambiguous ∷ [])
      raise e
    if not (exit_code == 0)
        then (do
          update i (
              IpField.action_state ActionState.apply_failed ∷ IpField.apply_state Phase.failed ∷ [])
          raise (ip_change_error "Transactional VPN apply failed"))
        else do
          at ← gets (λ w. iso (env.now w.log))
          update i (
              IpField.action_state ActionState.applied
              ∷ IpField.apply_state Phase.applied
              ∷ IpField.apply_completed_at at
              ∷ [])

  unfoldable pub rollback_old_main : ℕ → String → Action World String
  rollback_old_main i old_ip_id = do
    update i
        (IpField.action_state ActionState.rolling_back ∷ IpField.rollback_outcome "SENDING" ∷ [])
    outcome ← catch (call env (Event.made_main old_ip_id) env.make_main_ipv4 >> pure none) λ e. do
      let outcome = concat "AMBIGUOUS: " (env.safe_error e)
      update i (IpField.action_state ActionState.ambiguous ∷ IpField.rollback_outcome outcome ∷ [])
      pure (some outcome)
    case_option outcome
        (do
          update i (
              IpField.action_state ActionState.rolled_back
              ∷ IpField.rollback_outcome "RESTORED_OLD_MAIN"
              ∷ [])
          pure "RESTORED_OLD_MAIN")
        pure
