-- ===== src/Rotation/Stages.antt =====
-- The stages of an IP change, each with the effects before and after it (app/ip_change.py).
use auto_vpn.Base.{ℕ, ◌≡◌, refl, String, Bool, true, false, List, ◌∷◌, arith}
use auto_vpn.Db.{ok, of_result_ok}
use auto_vpn.Config.{CapturedVpnConfig}
use auto_vpn.Rotation.World.{Env, World, Event, Ipv4, IpRotationTiming, call}
use auto_vpn.Rotation.Find.{Known}
use auto_vpn.Rotation.Steps.{wait_for_new_ip}
use auto_vpn.Rotation.Waits.{wait_for_new_ip_offers}
use auto_vpn.Rotation.Outcomes.{Stop, Completed}
use auto_vpn.Rotation.Purchased.{
  Purchased, Answered, WasMain, Knows, Found, find_main_ip-WasMain, offered-Found,
}
use auto_vpn.Rotation.Knowing.{Runs-knows, Runs-given, Runs-call_answer, call_answer}
use auto_vpn.Rotation.Run.{find_old, buy, identify, move_main, deploy, publish, delete_old, finish}
use auto_vpn.Rotation.Quiet.{
  Trace, trace, quiet_rules, ensure_bound_revision_current-Quiet, wait_for_new_ip-Quiet,
  wait_for_main_ip-Quiet, wait_for_ssh-Quiet, verify_protocol_health-Quiet,
  apply_bound_snapshot-Quiet, Quiet-of_result, Quiet-with_db,
}
use auto_vpn.Rotation.Triples.{
  Runs, Runs-quiet, Runs-weaken, Runs-catch, Runs-pure, Runs-raise, Runs-if, Runs-modify, Runs-bind,
  Runs-call, Runs-update, Runs-step, Runs-set_health,
}

-- The trace between the effects: what has been done, for which old address, and how far.
abbrev pub At : List Event → String → Bool → Trace → Type 0
At effects old started t =
    (t.effects ≡ effects) × (t.old_ip_id ≡ old) × (t.make_main_started ≡ started)

module _ (env : Env) (i : ℕ) (config : CapturedVpnConfig) (timing : IpRotationTiming)
    (before : List Event) where
  pub find_old-Runs :
      Runs
        (At before "" false)
        (find_old env i config)
        (λ known t. At before known.old_ip_id false t × Knows env before known)
        (Stop env before)
  unfolding find_old
  find_old-Runs = Runs-bind (Runs-quiet (search quiet_rules) stop) λ _.
      Runs-bind (Runs-quiet (ensure_bound_revision_current-Quiet env _) stop) λ _.
        Runs-bind (Runs-step env i _ _) λ _.
          Runs-bind
            (Runs-knows (Answered env.get_ipv4_list before) (search quiet_rules) stop (λ w l p e. (
              (call env Event.listed env.get_ipv4_list w).1.log,
              p.0,
              call_answer env Event.listed env.get_ipv4_list w l e,
            )))
            λ ipv4_list. Runs-given λ shown. Runs-bind (Runs-step env i _ _) λ _.
              Runs-bind
                (Runs-knows (λ item. WasMain item.id ipv4_list) (Quiet-of_result _) stop
                  (λ w item p e.
                    find_main_ip-WasMain ipv4_list config.current_ip item
                      (of_result_ok _ w item e)))
                λ main_ip. Runs-given λ main.
                  Runs-bind
                    (Runs-modify _ {Q = At before main_ip.id false} (λ w p. (p.0, refl, p.2)))
                    λ _. Runs-bind (Runs-update env i _) λ _.
                      Runs-bind (Runs-quiet (ensure_bound_revision_current-Quiet env _) stop) λ _.
                        Runs-bind (Runs-step env i _ _)
                          λ _. Runs-pure _ (λ t p. (p, (ipv4_list, shown, main, refl, refl)))
    where
      stop : {old : String} (t : Trace) → At before old false t → Stop env before t
      stop t p = Stop.untouched p.0 p.2

  pub buy-Runs :
      (old : String)
      → Runs
          (At before old false)
          (buy env i)
          (λ created t.
            At (Event.added ∷ before) old false t
            × Answered env.add_ipv4 (Event.added ∷ before) created)
          (Stop env before)
  unfolding buy
  buy-Runs old =
      Runs-catch
        (Runs-call_answer env {Q = At (Event.added ∷ before) old false} Event.added _
          (Event.added ∷ before) refl (λ t p. ground arith) (λ t p. p) (λ t p. p.0))
        λ e. Runs-bind (Runs-update env i _) λ _. Runs-raise e (λ t p. Stop.bought p.0 p.2)

  -- What the run knows when it has bought.
  abbrev with_created : Known → Ipv4 → Known
  with_created known created = record known {
    created_ip_id = created.id;
    created_ip_address = created.ip;
  }

  offers :
      (known : Known) (created : Ipv4) (old : String) (w : World) (item : Ipv4)
      → At
          (Event.added ∷ before)
          old
          false
          (trace (wait_for_new_ip env timing (with_created known created) w).1)
      → (wait_for_new_ip env timing (with_created known created) w).0 ≡ ok item
      → Found env (Event.added ∷ before) known created item
  offers known created old w item p done =
      offered-Found env (Event.added ∷ before)
        (wait_for_new_ip env timing (with_created known created) w).1.log
        (with_created known created) created item _ refl refl (p.0) refl
        (wait_for_new_ip_offers env timing (with_created known created) item w done)

  pub purchased :
      (known : Known) (created new_ip : Ipv4)
      → Knows env before known
      → Answered env.add_ipv4 (Event.added ∷ before) created
      → Found env (Event.added ∷ before) known created new_ip
      → Purchased env before known.old_ip_id new_ip.id
  purchased known created new_ip (items, shown, main, ids, addresses) sold
        (listed, offered, among, given, bought) =
      record {
        known = items;
        created = created;
        listed = listed;
        item = new_ip;
        known_answer = shown;
        created_answer = sold;
        listed_answer = offered;
        old_main = main;
        among = among;
        named = refl;
        given = given;
        bought = rw (← ids, ← addresses) bought;
      }

  pub identify-Runs :
      (known : Known) (created : Ipv4) (old : String)
      → Runs
          (At (Event.added ∷ before) old false)
          (identify env i config timing known created)
          (λ new_ip t.
            At (Event.added ∷ before) old true t
            × Found env (Event.added ∷ before) known created new_ip)
          (Stop env before)
  unfolding identify
  identify-Runs known created old = Runs-bind (Runs-update env i _) λ _.
      Runs-bind (Runs-step env i _ _) λ _. Runs-bind (Runs-quiet (search quiet_rules) stop) λ _.
        Runs-bind (Runs-step env i _ _) λ _.
          Runs-bind
            (Runs-knows (Found env (Event.added ∷ before) known created)
              (wait_for_new_ip-Quiet env timing _) stop (offers known created old))
            λ new_ip. Runs-given λ found. Runs-bind (Runs-quiet (search quiet_rules) stop) λ at.
              Runs-bind (Runs-update env i _) λ _.
                Runs-bind (Runs-quiet (ensure_bound_revision_current-Quiet env _) stop) λ _.
                  Runs-bind
                    (Runs-modify _ {Q = At (Event.added ∷ before) old true}
                      (λ w p. (p.0, p.1, refl)))
                    λ _. Runs-bind (Runs-step env i _ _) λ _. Runs-pure _ (λ t p. (p, found))
    where
      stop : (t : Trace) → At (Event.added ∷ before) old false t → Stop env before t
      stop t p = Stop.bought p.0 p.2

  abbrev moved_log : String → List Event
  moved_log new = Event.made_main new ∷ Event.added ∷ before

  Stop-moved :
      (new old : String)
      → Purchased env before old new
      → (t : Trace) → At (moved_log new) old true t
      → Stop env before t
  Stop-moved new old b t p = Stop.moved new (rw (p.1) b) p.0 p.2

  pub move_main-Runs :
      (new old : String)
      → Purchased env before old new
      → Runs
          (At (Event.added ∷ before) old true)
          (move_main env i new)
          (λ _. At (moved_log new) old true)
          (Stop env before)
  unfolding move_main
  move_main-Runs new old b =
      Runs-catch
        (Runs-call env {Q = At (moved_log new) old true} (Event.made_main new) _ refl
          (λ t p. ground arith) (λ t p. p))
        λ e. Runs-bind (Runs-update env i _) λ _. Runs-raise e (Stop-moved new old b)

  pub deploy-Runs :
      (new_ip : Ipv4) (old : String)
      → Purchased env before old new_ip.id
      → Runs
          (At (moved_log new_ip.id) old true)
          (deploy env i config timing new_ip)
          (λ _. At (moved_log new_ip.id) old true)
          (Stop env before)
  unfolding deploy
  deploy-Runs new_ip old b = Runs-bind (Runs-quiet (search quiet_rules) stop) λ at.
      Runs-bind (Runs-update env i _) λ _. Runs-bind (Runs-step env i _ _) λ _.
        Runs-bind (Runs-quiet (wait_for_main_ip-Quiet env timing _ _) stop) λ _.
          Runs-bind (Runs-update env i _) λ _. Runs-bind (Runs-step env i _ _) λ _.
            Runs-bind (Runs-quiet (wait_for_ssh-Quiet env timing _) stop) λ _.
              Runs-bind (Runs-quiet (search quiet_rules) stop) λ reached.
                Runs-bind (Runs-update env i _) λ _.
                  Runs-bind (Runs-quiet (ensure_bound_revision_current-Quiet env _) stop) λ _.
                    Runs-bind (Runs-quiet (apply_bound_snapshot-Quiet env i _) stop) λ _.
                      Runs-bind (Runs-quiet (ensure_bound_revision_current-Quiet env _) stop) λ _.
                        Runs-bind (Runs-step env i _ _) λ _.
                          Runs-bind (Runs-quiet (verify_protocol_health-Quiet env _ config) stop)
                            λ health.
                              Runs-bind
                                (Runs-quiet (ensure_bound_revision_current-Quiet env _) stop)
                                λ _. Runs-bind (Runs-step env i _ _) λ _. Runs-pure _ (λ t p. p)
    where
      stop : (t : Trace) → At (moved_log new_ip.id) old true t → Stop env before t
      stop = Stop-moved new_ip.id old b

  pub publish-Runs :
      (new_ip : Ipv4) (health old : String)
      → Purchased env before old new_ip.id
      → Runs
          (At (moved_log new_ip.id) old true)
          (publish env i new_ip.ip health)
          (λ revision. At (Event.published revision ∷ moved_log new_ip.id) old true)
          (Stop env before)
  unfolding publish
  publish-Runs new_ip health old b =
      Runs-bind (Runs-quiet (Quiet-with_db env _) (Stop-moved new_ip.id old b)) λ revision.
        Runs-bind
          (Runs-modify _ {Q = At (Event.published revision ∷ moved_log new_ip.id) old true}
            (λ w p. ground arith))
          λ _. Runs-pure _ (λ t p. p)

  abbrev published_log : ℕ → String → List Event
  published_log revision new = Event.published revision ∷ moved_log new

  -- After a publication nothing fails.
  delete_old-Runs :
      (new old : String) (revision : ℕ)
      → Runs
          (At (published_log revision new) old true)
          (delete_old env i old)
          (λ _. At (Event.deleted old ∷ published_log revision new) old true)
          (Stop env before)
  unfolding delete_old
  delete_old-Runs new old revision =
      Runs-catch
        (Runs-bind (Runs-step env i _ _) λ _.
          Runs-bind
            (Runs-call env {Q = At (Event.deleted old ∷ published_log revision new) old true}
              (Event.deleted old) _ refl (λ t p. ground arith) (λ t p. p))
            λ _. Runs-bind (Runs-update env i _) λ _. Runs-pure _ (λ t p. p))
        λ e. Runs-bind (Runs-update env i _) λ _. Runs-pure _ (λ t p. p)

  pub finish-Runs :
      (new old : String) (revision : ℕ)
      → Purchased env before old new
      → Runs
          (At (published_log revision new) old true)
          (finish env i config old revision)
          (λ _. Completed env before)
          (Stop env before)
  unfolding finish
  finish-Runs new old revision b =
      Runs-if config.amnezia.protocol.enabled
        (Runs-bind (Runs-set_health env _) λ _.
          Runs-weaken (Runs-update env i _)
            (λ _ t p. Completed.kept_old new revision (rw (p.1) b) p.0) (λ t s. s))
        (Runs-bind (delete_old-Runs new old revision) λ outcome.
          Runs-weaken (Runs-update env i _)
            (λ _ t p. Completed.deleted_old new revision (rw (p.1) b) (rw (p.1) (p.0))) (λ t s. s))
