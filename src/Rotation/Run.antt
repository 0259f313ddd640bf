-- ===== src/Rotation/Run.antt =====
-- `run_ip_change` of app/ip_change.py, cut at its external actions: find the old address, buy,
-- identify the purchase, make it the main address, deploy and verify, publish, clean up; and the
-- handler of a failure.
use Prim.Native.String.{◌++◌ as concat}
use text.Mathlib.Text.{starts_with}
use auto_vpn.Base.{
  ℕ, String, Bool, true, false, not, ◌&&◌, ◌||◌, [], ◌∷◌, none, some, map, if◌then◌else◌, truthy,
}
use auto_vpn.Db.{
  Status, is_terminal, Phase, ActionState, is_ambiguous_action, get_operation, Error,
  ip_change_error, Action, pure, raise, gets, modify, raise_if, catch, of_result, ◌>>=◌, ◌>>◌,
}
use auto_vpn.Config.{CapturedVpnConfig}
use auto_vpn.Clients.{set_setting}
use auto_vpn.Lease.{iso, external_action_started}
use auto_vpn.Operations.{IpField}
use auto_vpn.Snapshots.{load_ip_change_snapshot}
use auto_vpn.Publication.{publish_ip_change}
use auto_vpn.Rotation.World.{Env, World, Event, Ipv4, IpRotationTiming, call, with_db}
use auto_vpn.Rotation.Find.{Known, find_main_ip}
use auto_vpn.Rotation.Steps.{
  update, step, sleep, ensure_bound_revision_current, wait_for_new_ip, wait_for_main_ip,
  wait_for_ssh, verify_protocol_health, apply_bound_snapshot, rollback_old_main,
}

module _ (env : Env) where
  abbrev pub now_iso : Action World ℕ
  now_iso = gets (λ w. iso (env.now w.log))

  -- Up to the purchase: what is known of the old address.
  unfoldable pub find_old : ℕ → CapturedVpnConfig → Action World Known
  find_old i config = do
    raise_if (not (truthy env.service_id)) (ip_change_error "AEZA_SERVICE_ID is not configured")
    ensure_bound_revision_current env config.revision
    step env i "get_ipv4_list" []
    ipv4_list ← call env Event.listed env.get_ipv4_list
    step env i "find_current_main_ip" []
    main_ip ← of_result (find_main_ip ipv4_list config.current_ip)
    modify (λ w. record w { old_ip_id = main_ip.id })
    update env i (IpField.old_ip main_ip.ip ∷ IpField.old_ip_id main_ip.id ∷ [])
    ensure_bound_revision_current env config.revision
    step env i "create_new_ipv4" (
        IpField.action_state ActionState.purchase_sending
        ∷ IpField.purchase_state Phase.sending
        ∷ [])
    pure (record {
      old_ip_id = main_ip.id;
      old_ip = main_ip.ip;
      created_ip_id = "";
      created_ip_address = "";
      known_ids = map (λ item. item.id) ipv4_list;
      known_addresses = map (λ item. item.ip) ipv4_list;
    })

  -- The purchase.
  unfoldable pub buy : ℕ → Action World Ipv4
  buy i = catch (call env Event.added env.add_ipv4) λ e. do
    update env i
        (IpField.action_state ActionState.ambiguous ∷ IpField.purchase_state Phase.ambiguous ∷ [])
    raise e

  -- From the purchase to the moment before the address is moved.
  unfoldable pub identify :
      ℕ → CapturedVpnConfig → IpRotationTiming → Known → Ipv4 → Action World Ipv4
  identify i config timing known created = do
    update env i
        (IpField.action_state ActionState.purchase_sent ∷ IpField.purchase_state Phase.sent ∷ [])
    step env i "wait_after_ipv4_purchase" []
    sleep env
    step env i "wait_new_ipv4" []
    new_ip ←
        wait_for_new_ip env timing
          (record known { created_ip_id = created.id; created_ip_address = created.ip })
    at ← now_iso
    update env i (
        IpField.new_ip new_ip.ip
        ∷ IpField.new_ip_id new_ip.id
        ∷ IpField.action_state ActionState.purchase_confirmed
        ∷ IpField.purchase_state Phase.confirmed
        ∷ IpField.new_ip_created_at at
        ∷ [])
    ensure_bound_revision_current env config.revision
    modify (λ w. record w { make_main_started = true })
    step env i "make_new_ipv4_main" (
        IpField.action_state ActionState.make_main_sending
        ∷ IpField.make_main_state Phase.sending
        ∷ [])
    pure new_ip

  unfoldable pub move_main : ℕ → String → Action World (Unit {0})
  move_main i new_ip_id = catch (call env (Event.made_main new_ip_id) env.make_main_ipv4) λ e. do
    update env i
        (IpField.action_state ActionState.ambiguous ∷ IpField.make_main_state Phase.ambiguous ∷ [])
    raise e

  -- From the move to the health check's report.
  unfoldable pub deploy : ℕ → CapturedVpnConfig → IpRotationTiming → Ipv4 → Action World String
  deploy i config timing new_ip = do
    at ← now_iso
    update env i (
        IpField.action_state ActionState.main_changed
        ∷ IpField.make_main_state Phase.sent
        ∷ IpField.new_main_at at
        ∷ [])
    step env i "confirm_new_ipv4_main" []
    wait_for_main_ip env timing new_ip.id new_ip.ip
    update env i (
        IpField.action_state ActionState.main_confirmed
        ∷ IpField.make_main_state Phase.confirmed
        ∷ [])
    step env i "wait_ssh" []
    wait_for_ssh env timing new_ip.ip
    reached ← now_iso
    update env i (IpField.server_reachable_at reached ∷ [])
    ensure_bound_revision_current env config.revision
    apply_bound_snapshot env i new_ip.ip
    ensure_bound_revision_current env config.revision
    step env i "protocol_health" []
    healthcheck_result ← verify_protocol_health env new_ip.ip config
    ensure_bound_revision_current env config.revision
    step env i "update_current_ip" []
    pure healthcheck_result

  -- The commit of the publication is noted in the log.
  unfoldable pub publish : ℕ → String → String → Action World ℕ
  publish i new_ip healthcheck_result = do
    revision ←
        with_db env λ now. publish_ip_change env.platform now i new_ip healthcheck_result none
    modify (λ w. record w { log = Event.published revision ∷ w.log })
    pure revision

  -- The deletion of the old address, which may fail without harm. The result is whether its
  -- outcome is in doubt, with the warning.
  unfoldable pub delete_old : ℕ → String → Action World (Bool × String)
  delete_old i old_ip_id =
      catch
        (do
          step env i "delete_old_ipv4" (IpField.action_state ActionState.cleanup_sending ∷ [])
          call env (Event.deleted old_ip_id) env.delete_ipv4
          update env i (IpField.action_state ActionState.cleanup_confirmed ∷ [])
          pure (false, ""))
        λ e. do
          update env i (IpField.action_state ActionState.cleanup_ambiguous ∷ [])
          pure (
            true,
            concat
                "New IPv4 was safely published, but the Aeza old-IPv4 DELETE outcome is ambiguous; check Aeza before any further cleanup ("
                (concat old_ip_id (concat "): " (env.safe_error e))),
          )

  abbrev pub set_health : String → Action World (Unit {0})
  set_health value = with_db env λ now. set_setting env.platform now "last_healthcheck_status" value

  unfoldable pub finish : ℕ → CapturedVpnConfig → String → ℕ → Action World (Unit {0})
  unfolding delete_old
  finish i config old_ip_id published_revision =
      if config.amnezia.protocol.enabled
      then (do
        set_health "WARNING"
        update env i (
            IpField.status Status.done
            ∷ IpField.current_step "manual_verification_required"
            ∷ IpField.action_state ActionState.published_awaiting_awg_check
            ∷ IpField.published_revision published_revision
            ∷ IpField.cleanup_warning
                "Old Aeza IPv4 was preserved because AutoVPN has no real AmneziaWG probe through the new public endpoint; verify a client handshake manually before cleanup"
            ∷ IpField.error_message ""
            ∷ []))
      else do
        (ambiguous, warning) ← delete_old i old_ip_id
        update env i (
            IpField.status Status.done
            ∷ IpField.current_step "done"
            ∷ IpField.action_state
                (if ambiguous then ActionState.cleanup_ambiguous else ActionState.done)
            ∷ IpField.published_revision published_revision
            ∷ IpField.cleanup_warning warning
            ∷ IpField.error_message ""
            ∷ [])

  -- The body of the `try`.
  unfoldable pub rotate : ℕ → CapturedVpnConfig → IpRotationTiming → Action World (Unit {0})
  rotate i config timing = do
    known ← find_old i config
    created ← buy i
    new_ip ← identify i config timing known created
    move_main i new_ip.id
    healthcheck_result ← deploy i config timing new_ip
    revision ← publish i new_ip.ip healthcheck_result
    finish i config known.old_ip_id revision

  -- Is the outcome in doubt, by the row and by how the rollback ended?
  abbrev pub in_doubt : ℕ → String → World → Bool
  in_doubt i rollback_outcome w = elim (get_operation i w.db) [
    | none ↦ false
    | some r ↦ is_ambiguous_action r.action_state || starts_with rollback_outcome "AMBIGUOUS"
  ]

  -- The handler: roll back if the address may have been moved, and close the operation.
  unfoldable pub abort : ℕ → Error → Action World (Unit {0})
  abort i e = do
    started ← gets (λ w. w.make_main_started && truthy w.old_ip_id)
    old ← gets (λ w. w.old_ip_id)
    rollback_outcome ← if started then rollback_old_main env i old else pure ""
    ambiguous ← gets (in_doubt i rollback_outcome)
    update env i (
        IpField.status (if ambiguous then Status.ambiguous else Status.failed)
        ∷ IpField.current_step (if ambiguous then "manual_verification_required" else "failed")
        ∷ IpField.action_state (if ambiguous then ActionState.ambiguous else ActionState.failed)
        ∷ IpField.error_message (env.safe_error e)
        ∷ [])
    set_health "FAILED"
    raise e

  abbrev pub start : World → World
  start w = record w { old_ip_id = ""; make_main_started = false }

  -- The run of an operation that is bound to Aeza.
  unfoldable pub run_aeza : ℕ → IpRotationTiming → Action World (Unit {0})
  run_aeza i timing = do
    (operation, config) ← with_db env (λ now. load_ip_change_snapshot env.platform i)
    if is_terminal operation.status
        then pure tt
        else if external_action_started operation
        then update env i (
            IpField.status Status.ambiguous
            ∷ IpField.current_step "manual_verification_required"
            ∷ IpField.action_state ActionState.ambiguous
            ∷ IpField.error_message
                "Interrupted IP rotation may already have changed Aeza or the VPS; automatic external actions were not resent"
            ∷ [])
        else do modify start; catch (rotate i config timing) (abort i)
