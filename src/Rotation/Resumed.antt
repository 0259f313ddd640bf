-- ===== src/Rotation/Resumed.antt =====
-- What a second run of an operation does, and what a publication rests on (app/ip_change.py).
use auto_vpn.Base.{
  ℕ, ◌≡◌, String, Bool, true, ◌||◌, not, List, ◌∷◌, some, inl, inr, Bool-cases, Option-cases, arith,
}
use auto_vpn.Db.{IpChangeOperation, is_terminal, get_operation, ok, Result-cases, ◌>>=◌}
use auto_vpn.Config.{CapturedVpnConfig}
use auto_vpn.Lease.{external_action_started}
use auto_vpn.Snapshots.{load_ip_change_snapshot, bound_snapshot}
use auto_vpn.Rotation.World.{Env, World, Event, IpRotationTiming, call, with_db}
use auto_vpn.Rotation.Steps.{verify_protocol_health, failed_protocols, is_verified}
use auto_vpn.Rotation.Run.{run_aeza}

-- A run of an operation that has ended, or that has begun to buy, move or deploy, calls nothing:
-- neither the provider nor the server.
pub run_aeza_resumed :
    (env : Env) (i : ℕ) (timing : IpRotationTiming) (w : World) (r : IpChangeOperation)
    → get_operation i w.db ≡ some r
    → (is_terminal r.status || external_action_started r) ≡ true
    → (run_aeza env i timing w).1.log ≡ w.log
unfolding run_aeza load_ip_change_snapshot with_db ◌>>=◌
run_aeza_resumed env i timing w r found over =
    elim (Option-cases (bound_snapshot r.revision w.db)) [
      | inl missing ↦ ground arith
      | inr (s, e) ↦
          elim (Result-cases (env.platform.captured_vpn_config_from_json s.payload_json)) [
            | inr (x, f) ↦ ground arith
            | inl (config, f) ↦ elim (Bool-cases (is_terminal r.status)) [
              | inl ended ↦ ground arith
              | inr going ↦ ground arith
            ]
          ]
    ]

-- A health check that passes has verified each enabled protocol that it can check: VLESS and
-- Hysteria.
pub verify_protocol_health_ok :
    (env : Env) (host : String) (config : CapturedVpnConfig) (w : World) (report : String)
    → (verify_protocol_health env host config w).0 ≡ ok report
    → ((results : List (String × Bool)) × (env.run_deep_protocol_checks (Event.checked host ∷ w.log)
          ≡ ok results)
        × ((not config.vless.protocol.enabled || is_verified "vless" results) ≡ true)
        × ((not config.hysteria.protocol.enabled || is_verified "hysteria_salamander" results)
            ≡ true))
unfolding verify_protocol_health failed_protocols ◌>>=◌ call
verify_protocol_health_ok env host config w report passed =
    elim (Result-cases (env.run_deep_protocol_checks (Event.checked host ∷ w.log))) [
      | inr (e, f) ↦ absurd (ground arith)
      | inl (results, f) ↦ (results, f, ground arith, ground arith)
    ]
