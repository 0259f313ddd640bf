-- ===== src/Rotation/Effects.antt =====
-- The order of the effects of an IP change, whatever the provider, the server and other users of
-- the database do.
use auto_vpn.Base.{
  ℕ, ◌≡◌, refl, String, Bool, true, false, List, ◌∷◌, ◌&&◌, if◌then◌else◌, truthy, select, arith,
}
use auto_vpn.Db.{Error, pure, is_terminal}
use auto_vpn.Config.{CapturedVpnConfig}
use auto_vpn.Lease.{external_action_started}
use auto_vpn.Rotation.World.{Env, World, Event, is_loud, IpRotationTiming}
use auto_vpn.Rotation.Steps.{rollback_old_main}
use auto_vpn.Rotation.Outcomes.{Stop, Completed, Aborted}
use auto_vpn.Rotation.Knowing.{Runs-given}
use auto_vpn.Rotation.Run.{rotate, abort, run_aeza}
use auto_vpn.Rotation.Quiet.{Trace, trace, quiet_rules, Quiet-with_db}
use auto_vpn.Rotation.Triples.{
  Runs, Ends, Runs-quiet, Runs-weaken, Runs-catch, Runs-pure, Runs-raise, Runs-if, Runs-modify,
  Runs-gets, Runs-case_option, Runs-bind, Runs-call, Runs-update, Runs-set_health,
}
use auto_vpn.Rotation.Stages.{
  At, find_old-Runs, buy-Runs, identify-Runs, purchased, move_main-Runs, deploy-Runs, publish-Runs,
  finish-Runs,
}

module _ (env : Env) (i : ℕ) (config : CapturedVpnConfig) (timing : IpRotationTiming)
    (before : List Event) where
  rotate-Runs :
      Runs
        (At before "" false)
        (rotate env i config timing)
        (λ _. Completed env before)
        (Stop env before)
  unfolding rotate
  rotate-Runs = Runs-bind (find_old-Runs env i config timing before) λ known. Runs-given λ knows.
      Runs-bind (buy-Runs env i config timing before known.old_ip_id) λ created. Runs-given λ sold.
        Runs-bind (identify-Runs env i config timing before known created known.old_ip_id) λ new_ip.
          Runs-given λ found.
            let b = purchased env i config timing before known created new_ip knows sold found in
            Runs-bind (move_main-Runs env i config timing before new_ip.id known.old_ip_id b) λ _.
              Runs-bind (deploy-Runs env i config timing before new_ip known.old_ip_id b) λ health.
                Runs-bind (publish-Runs env i config timing before new_ip health known.old_ip_id b)
                  λ revision.
                    finish-Runs env i config timing before new_ip.id known.old_ip_id revision b

  rollback_old_main-Runs :
      {P Q : Trace → Type 0} {E : Trace → Type 0} (old : String)
      → ((t : Trace) → P t → Q (record t { effects = Event.made_main old ∷ t.effects }))
      → Runs P (rollback_old_main env i old) (λ _. Q) E
  unfolding rollback_old_main
  rollback_old_main-Runs {P} {Q} {E} old add = Runs-bind (Runs-update env i _) λ _.
      Runs-bind
        (Runs-catch
          (Runs-bind (Runs-call env {Q = Q} (Event.made_main old) _ refl add (λ t q. q))
            λ _. Runs-pure _ (λ t q. q))
          λ e. Runs-bind (Runs-update env i _) λ _. Runs-pure _ (λ t q. q))
        λ outcome.
          Runs-case_option outcome (Runs-bind (Runs-update env i _) λ _. Runs-pure _ (λ t q. q))
            (λ text. Runs-pure _ (λ t q. q))

  -- The state of the handler once it has decided whether to roll back.
  abbrev Decided : Bool → String → Trace → Type 0
  Decided started old t =
      (Stop env before t)
      × (started ≡ (t.make_main_started && truthy t.old_ip_id))
      × (old ≡ t.old_ip_id)

  roll_back_aborts :
      (old : String) (t : Trace)
      → Decided true old t
      → Aborted env before (record t { effects = Event.made_main old ∷ t.effects })
  roll_back_aborts old t (Stop.untouched e f, s, o) = absurd (ground arith)
  roll_back_aborts old t (Stop.bought e f, s, o) = absurd (ground arith)
  roll_back_aborts old t (Stop.moved new b e f, s, o) = Aborted.rolled_back new b (rw (o, e))

  no_roll_back_aborts : (old : String) (t : Trace) → Decided false old t → Aborted env before t
  no_roll_back_aborts old t (Stop.untouched e f, s, o) = Aborted.untouched e
  no_roll_back_aborts old t (Stop.bought e f, s, o) = Aborted.bought e
  no_roll_back_aborts old t (Stop.moved new b e f, s, o) = Aborted.stranded new b e (ground arith)

  abort-Runs :
      (e : Error) {Q : Unit {0} → Trace → Type 0}
      → Runs (Stop env before) (abort env i e) Q (Aborted env before)
  unfolding abort
  abort-Runs e = Runs-bind (Runs-gets (λ t. t.make_main_started && truthy t.old_ip_id)) λ started.
      Runs-bind (Runs-gets (λ t. t.old_ip_id)) λ old. Runs-bind (undo started old) λ outcome.
        Runs-bind (Runs-quiet (search quiet_rules) (λ t a. a)) λ ambiguous.
          Runs-bind (Runs-update env i _)
            λ _. Runs-bind (Runs-set_health env _) λ _. Runs-raise e (λ t a. a)
    where
      undo :
          (started : Bool) (old : String)
          → Runs
              (λ t.
                ((Stop env before t) × (started ≡ (t.make_main_started && truthy t.old_ip_id)))
                × (old ≡ t.old_ip_id))
              (if started then rollback_old_main env i old else pure "")
              (λ _. Aborted env before)
              (Aborted env before)
      undo true old = rollback_old_main-Runs old (λ t d. roll_back_aborts old t (d.0.0, d.0.1, d.1))
      undo false old = Runs-pure _ (λ t d. no_roll_back_aborts old t (d.0.0, d.0.1, d.1))

-- The run, from whatever the handler's variables were.
module _ (env : Env) (i : ℕ) (timing : IpRotationTiming) (before : List Event) where
  abbrev From : Trace → Type 0
  From t = t.effects ≡ before

  run_aeza-Runs : Runs From (run_aeza env i timing) (λ _. Completed env before) (Aborted env before)
  unfolding run_aeza
  run_aeza-Runs =
      Runs-bind (Runs-quiet (Quiet-with_db env _) (λ t p. Aborted.untouched p)) λ loaded.
        Runs-if (is_terminal loaded.0.status) (Runs-pure _ (λ t p. Completed.idle p)) (
          Runs-if (external_action_started loaded.0)
            (Runs-weaken (Runs-update env i _) (λ _ t p. Completed.idle p) (λ t a. a))
            (Runs-bind (Runs-modify _ {Q = At before "" false} (λ w p. (p, refl, refl))) λ _.
              Runs-catch (rotate-Runs env i loaded.1 timing before)
                (λ e. abort-Runs env i loaded.1 timing before e)))

-- The effects of one run on an operation bound to Aeza, newest first, whatever the provider
-- answers, when it raises, and what other transactions do at each await. A run that returns has
-- done nothing; or bought one address, made a new address the main one and published; or has besides
-- tried once to delete the old address. A run that raises has done nothing; or bought; or bought, moved,
-- and moved back to the old address, unless it had no identifier for that. The old address is the one
-- that the provider's list before the purchase shows as the main one, or is in that list and the list
-- shows none. The new address is in a list that the provider gave after the purchase, has an identifier,
-- and is what was bought: it has the identifier that the answer to the purchase has; or, where that has
-- none, its address, and no address of the list before; or neither an identifier nor an address of that
-- list.
pub run_aeza_effects :
    (env : Env) (i : ℕ) (timing : IpRotationTiming) (w : World)
    → Ends
        (λ _. Completed env (select is_loud w.log))
        (Aborted env (select is_loud w.log))
        (run_aeza env i timing w).0
        (trace (run_aeza env i timing w).1)
run_aeza_effects env i timing w = (run_aeza-Runs env i timing (select is_loud w.log)).at w refl
