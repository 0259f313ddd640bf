-- ===== src/Server/Sending.antt =====
-- What each step of a reboot (app/server_operations.py, `run_server_reboot`) does to the number of
-- reboots that have been asked of the provider.
use auto_vpn.Base.{
  ℕ, zero, suc, ◌+◌, ◌≤◌, ◌≡◌, refl, String, Bool, true, false, not, List, ◌∷◌, ◌⊎◌, inl, inr, ◌==◌,
  count_where, arith, Bool-cases,
}
use auto_vpn.Db.{
  Db, get_server_operation, Result, ok, Error, Action, raise_if, continue_with, ◌>>=◌, ◌>>◌,
}
use auto_vpn.Clients.{set_setting}
use auto_vpn.Lease.{heartbeat_vps_lease, iso}
use auto_vpn.Server.{
  Cleaning, ServerField, assign_all_server, update_server_operation, is_unsent, mark_sending,
  mark_reboot_sending,
}
use auto_vpn.Server.Reboot.{servers-mark}
use auto_vpn.Server.World.{
  ServerEnv, ServerEvent, ServerWorld, ServerTiming, ask, in_db, update_row,
}
use auto_vpn.Server.Health.{provider_status, service_and_protocol_health}
use auto_vpn.Server.Restart.{
  Verification, verify_recovery, give_up, TaskOutcome, judge_task, task_is_over, ask_provider,
  pause, verify_round, verify_reboot, send_reboot, prepare_reboot, reboot, row_may_have_sent,
  close_reboot, close_resumed, run_server_reboot,
}
use auto_vpn.Server.Leads.{Leads, Leads-bind, leads_rules}
use auto_vpn.Server.Sent.{
  is_sent, keeps_sent, any-mark, absent_lem, absent-update, servers-update, update-sent,
  servers-set_setting, IsKey, id-assign, count-update_id, marked_sent,
}

abbrev pub is_reboot_event : ServerEvent → Bool
is_reboot_event ServerEvent.rebooted = true
is_reboot_event _ = false

abbrev pub reboots : List ServerEvent → ℕ
reboots log = count_where is_reboot_event log

-- At most `n` reboots have been sent, and one fewer unless the rows say so.
abbrev pub IsBounded : ℕ → ℕ → ServerWorld → Type 0
IsBounded n i w =
    IsKey i w.db × ((reboots w.log + 1 ≤ n) ⊎ ((reboots w.log ≤ n) × (is_sent i w.db ≡ true)))

-- A reboot is about to be sent.
abbrev pub IsReady : ℕ → ℕ → ServerWorld → Type 0
IsReady n i w = IsKey i w.db × (reboots w.log + 1 ≤ n) × (is_sent i w.db ≡ true)

-- What the run relies on of the transactions of others: the rows of the operation stay one, and do
-- not forget that its reboot may have been sent.
pub record Others (env : ServerEnv) (i : ℕ) : Type 0 where
  pub key : (log : List ServerEvent) (db : Db) → IsKey i db → IsKey i (env.others log db)
  pub sent :
      (log : List ServerEvent) (db : Db)
      → is_sent i db ≡ true
      → is_sent i (env.others log db) ≡ true

IsKey-update :
    (c : Cleaning) (now i : ℕ) (f : ServerField) (fs : List ServerField) (db : Db)
    → IsKey i db
    → IsKey i (update_server_operation c now i (f ∷ fs) db).1
IsKey-update c now i f fs db key =
    let same =
      count-update_id i (λ r. r.id == i)
        (λ r. record (assign_all_server c (f ∷ fs) r) { updated_at = iso now })
        (λ r. id-assign c (f ∷ fs) r) db.servers in
    rw (servers-update c now i f fs db, same) key

module _ (env : ServerEnv) (i n : ℕ) (others : Others env i) where
  ask-Leads :
      {A : Type 0} (e : ServerEvent) (answer : List ServerEvent → Result A)
      → is_reboot_event e ≡ false
      → Leads (IsBounded n i) (ask env e answer) (IsBounded n i)
  unfolding ask
  ask-Leads e answer calm = record {
    at = λ w h. (
      others.key (e ∷ w.log) w.db h.0,
      elim h.1 [
        | inl few ↦ inl (ground (arith, calm))
        | inr (few, sent) ↦ inr (ground (arith, calm), others.sent (e ∷ w.log) w.db sent)
      ],
    );
  }

  send-Leads :
      {A : Type 0} (answer : List ServerEvent → Result A)
      → Leads (IsReady n i) (ask env ServerEvent.rebooted answer) (IsBounded n i)
  unfolding ask
  send-Leads answer = record {
    at = λ w h. (
      others.key (ServerEvent.rebooted ∷ w.log) w.db h.0,
      inr (omega (arith, h.1), others.sent (ServerEvent.rebooted ∷ w.log) w.db h.2),
    );
  }

  update-Leads :
      (f : ServerField) (fs : List ServerField)
      → keeps_sent (f ∷ fs) ≡ true
      → Leads (IsBounded n i) (update_row env i (f ∷ fs)) (IsBounded n i)
  unfolding in_db
  update-Leads f fs keeps = record {
    at = λ w h. (
      IsKey-update env.cleaning (env.now w.log) i f fs w.db h.0,
      elim h.1 [
        | inl few ↦ inl few
        | inr (few, sent) ↦
            inr (few, update-sent env.cleaning (env.now w.log) i f fs w.db keeps sent)
      ],
    );
  }

  set_setting-Leads :
      (key value : String)
      → Leads
          (IsBounded n i)
          (in_db env (λ now. set_setting env.platform now key value))
          (IsBounded n i)
  unfolding in_db
  set_setting-Leads key value = record {
    at = λ w h. rw (servers-set_setting env.platform (env.now w.log) key value w.db) h;
  }

  health-Leads :
      (host : String)
      → Leads (IsBounded n i) (service_and_protocol_health env i host) (IsBounded n i)
  unfolding service_and_protocol_health
  health-Leads host = search (leads_rules, ask-Leads, update-Leads) depth 20

  verify_recovery-Leads :
      (v : Verification) → Leads (IsBounded n i) (verify_recovery env i v) (IsBounded n i)
  unfolding verify_recovery
  verify_recovery-Leads v = search (leads_rules, update-Leads, health-Leads) depth 20

  give_up-Leads : (v : Verification) → Leads (IsBounded n i) (give_up env i v) (IsBounded n i)
  unfolding give_up
  give_up-Leads v = search (leads_rules, update-Leads) depth 20

  judge_task-Leads : (o : TaskOutcome) → Leads (IsBounded n i) (judge_task o) (IsBounded n i)
  unfolding judge_task
  judge_task-Leads TaskOutcome.failed = search leads_rules
  judge_task-Leads TaskOutcome.finished = search leads_rules
  judge_task-Leads TaskOutcome.waiting = search leads_rules

  task_is_over-Leads :
      (v : Verification) → Leads (IsBounded n i) (task_is_over env v) (IsBounded n i)
  unfolding task_is_over
  task_is_over-Leads v = search (leads_rules, ask-Leads, judge_task-Leads) depth 20

  ask_provider-Leads : Leads (IsBounded n i) (ask_provider env i) (IsBounded n i)
  unfolding ask_provider provider_status
  ask_provider-Leads = search (leads_rules, ask-Leads, update-Leads) depth 20

  pause-Leads : (k : ℕ) → Leads (IsBounded n i) (pause env k) (IsBounded n i)
  unfolding pause
  pause-Leads k = search (leads_rules, ask-Leads) depth 20

  verify_round-Leads :
      (k : ℕ) (again : Verification → Action ServerWorld (Unit {0})) (v : Verification)
      → ((v : Verification) → Leads (IsBounded n i) (again v) (IsBounded n i))
      → Leads (IsBounded n i) (verify_round env k i again v) (IsBounded n i)
  unfolding verify_round
  verify_round-Leads k again v rest =
      search
        (
          leads_rules, rest, ask-Leads, update-Leads, pause-Leads, task_is_over-Leads,
          ask_provider-Leads, verify_recovery-Leads,
        )
        depth 20

  verify_reboot-Leads :
      (k : ℕ) (v : Verification) → Leads (IsBounded n i) (verify_reboot env k i v) (IsBounded n i)
  unfolding verify_reboot
  verify_reboot-Leads zero v = give_up-Leads v
  verify_reboot-Leads (suc k) v =
      verify_round-Leads k (verify_reboot env k i) v (verify_reboot-Leads k)

  prepare_reboot-Leads : Leads (IsBounded n i) (prepare_reboot env i) (IsBounded n i)
  unfolding prepare_reboot provider_status
  prepare_reboot-Leads = search (leads_rules, ask-Leads, update-Leads) depth 20

  close_resumed-Leads : Leads (IsBounded n i) (close_resumed env i) (IsBounded n i)
  unfolding close_resumed
  close_resumed-Leads = search (leads_rules, update-Leads) depth 20

  send_reboot-Leads : Leads (IsReady n i) (send_reboot env i) (IsBounded n i)
  unfolding send_reboot
  send_reboot-Leads = search (leads_rules, send-Leads, update-Leads, set_setting-Leads) depth 20

  mark_returns :
      (now : ℕ) (db : Db)
      → (mark_reboot_sending now i db).0 ≡ ok (count_where (is_unsent i) db.servers == 1)
  unfolding mark_reboot_sending heartbeat_vps_lease ◌>>=◌
  mark_returns now db = elim (Bool-cases (count_where (is_unsent i) db.servers == 1)) [
    | inl one ↦ ground arith
    | inr other ↦ ground arith
  ]

  IsKey-mark : (now : ℕ) (db : Db) → IsKey i db → IsKey i (mark_reboot_sending now i db).1
  IsKey-mark now db key =
      rw
        (
          servers-mark now i db,
          count-update_id i (is_unsent i) (mark_sending (iso now)) (λ r. refl) db.servers,
        )
        key

  -- Whether the marking is granted or refused.
  marked-Ready :
      (now : ℕ) (db : Db) (log : List ServerEvent)
      → IsBounded n i (record { db = db; log = log })
      → count_where (is_unsent i) db.servers ≡ 1
      → IsReady n i (record { db = (mark_reboot_sending now i db).1; log = log })
  marked-Ready now db log h one =
      let (before, after) = marked_sent i (iso now) db.servers h.0 one in
      (
        IsKey-mark now db h.0,
        elim h.1 [ inl few ↦ few | inr (few, sent) ↦ absurd (ground (arith, before)) ],
        rw (servers-mark now i db, after) refl,
      )

  marked-Bounded :
      (now : ℕ) (db : Db) (log : List ServerEvent)
      → IsBounded n i (record { db = db; log = log })
      → IsBounded n i (record { db = (mark_reboot_sending now i db).1; log = log })
  marked-Bounded now db log h = (
    IsKey-mark now db h.0,
    elim h.1 [
      | inl few ↦ inl few
      | inr (few, sent) ↦
          inr (few, rw (servers-mark now i db, any-mark i (iso now) db.servers (ground arith)) refl)
    ],
  )

  -- What follows the marking is run only where it is granted.
  marked-Leads :
      (e : Error) (m : Action ServerWorld (Unit {0}))
      → Leads (IsReady n i) m (IsBounded n i)
      → Leads
          (IsBounded n i)
          (in_db env (λ now. mark_reboot_sending now i) >>= λ marked. raise_if (not marked) e >> m)
          (IsBounded n i)
  unfolding in_db ◌>>=◌
  marked-Leads e m run = record { at = λ w h. marked (env.now w.log) w h }
    where
      after : ℕ → ServerWorld → ServerWorld
      after now w = record w { db = (mark_reboot_sending now i w.db).1 }

      marked :
          (now : ℕ) (w : ServerWorld)
          → IsBounded n i w
          → IsBounded n i
              (continue_with
                (λ marked. raise_if (not marked) e >> m)
                ((mark_reboot_sending now i w.db).0, after now w)).1
      marked now w h = elim (Bool-cases (count_where (is_unsent i) w.db.servers == 1)) [
        | inl one ↦
            rw (mark_returns now w.db, one)
              (run.at (after now w) (marked-Ready now w.db w.log h (ground arith)))
        | inr other ↦ rw (mark_returns now w.db, other) (marked-Bounded now w.db w.log h)
      ]

  reboot-Leads :
      (timing : ServerTiming) → Leads (IsBounded n i) (reboot env timing i) (IsBounded n i)
  unfolding reboot
  reboot-Leads timing =
      Leads-bind _ _ prepare_reboot-Leads
        λ host. marked-Leads _ _ (Leads-bind _ _ send_reboot-Leads λ r. verify_reboot-Leads _ _)

  -- The handler may write that nothing was sent where the rows do not say otherwise.
  unsent-Bounded :
      (now : ℕ) (f : ServerField) (fs : List ServerField) (w : ServerWorld)
      → IsBounded n i w
      → row_may_have_sent (get_server_operation i w.db) ≡ false
      → IsBounded n i
          (record w { db = (update_server_operation env.cleaning now i (f ∷ fs) w.db).1 })
  unsent-Bounded now f fs w h unsent = (
    IsKey-update env.cleaning now i f fs w.db h.0,
    elim h.1 [
      | inl few ↦ inl few
      | inr (few, sent) ↦
          let absent = absent_lem i w.db.servers (ground arith) unsent in
          inr (
            few,
            rw
                (
                  servers-update env.cleaning now i f fs w.db,
                  absent-update i
                      (λ r. record (assign_all_server env.cleaning (f ∷ fs) r) {
                        updated_at = iso now;
                      })
                      w.db.servers absent,
                )
                refl,
          )
    ],
  )

  close_reboot-Leads : (e : Error) → Leads (IsBounded n i) (close_reboot env i e) (IsBounded n i)
  unfolding close_reboot in_db ◌>>=◌
  close_reboot-Leads e = record {
    at = λ w h. elim (Bool-cases (row_may_have_sent (get_server_operation i w.db))) [
      | inl sent ↦ rw sent ((update-Leads _ _ refl).at w h)
      | inr unsent ↦ rw unsent (unsent-Bounded (env.now w.log) _ _ w h unsent)
    ];
  }

  pub run-Leads :
      (timing : ServerTiming)
      → Leads (IsBounded n i) (run_server_reboot env timing i) (IsBounded n i)
  unfolding run_server_reboot
  run-Leads timing =
      search (leads_rules, reboot-Leads, close_reboot-Leads, close_resumed-Leads) depth 20
