-- ===== src/Server/Closing.antt =====
-- Every run of a server operation ends (app/server_operations.py): it returns, and leaves its
-- operation closed and the lease to others.
use auto_vpn.Base.{
  ℕ, zero, suc, ◌≡◌, refl, ap, ◌∙◌, String, Bool, true, false, not, ◌&&◌, ◌||◌, List, [], ◌∷◌,
  Option, none, some, ◌⊎◌, inl, inr, ◌==◌, if◌then◌else◌, any, update_where, str_eq, arith,
  Bool-cases, Option-cases,
}
use auto_vpn.Db.{
  Db, ServerOperation, Status, is_active, is_terminal, is_not_started, is_held_by, same_owner,
  get_server_operation, Error, Action, Result, ok, ◌>>=◌,
}
use auto_vpn.Lease.{release_vps_lease, iso}
use auto_vpn.Server.{
  Cleaning, ServerField, server_owner, server_status_field, assign_all_server,
  update_server_operation,
}
use auto_vpn.Server.World.{ServerEnv, ServerEvent, ServerWorld, ServerTiming, in_db, update_row}
use auto_vpn.Server.Runs.{
  close_failed, check_status, run_server_status, refresh_protocols, run_protocol_refresh,
}
use auto_vpn.Server.Restart.{
  Verification, verified_status, verify_recovery, give_up, verify_round, verify_reboot, reboot,
  close_reboot, close_resumed, run_server_reboot,
}
use auto_vpn.Server.Surely.{Surely, Surely-catch, Reaches, closing_rules}

-- No row of the operation is pending or running, and it does not hold the lease.
abbrev pub IsClosed : ℕ → ServerWorld → Type 0
IsClosed i w =
    (any (λ r. r.id == i && is_active r.status) w.db.servers ≡ false)
    × (is_held_by (server_owner i) w.db.lease ≡ false)

status-assign :
    (c : Cleaning) (fs : List ServerField) (r : ServerOperation)
    → server_status_field fs ≡ none
    → (assign_all_server c fs r).status ≡ r.status
status-assign c [] r h = refl
status-assign c (ServerField.status s ∷ fs) r h = absurd (ground arith)
status-assign c (ServerField.action_state v ∷ fs) r h = status-assign c fs _ h
status-assign c (ServerField.started_at v ∷ fs) r h = status-assign c fs _ h
status-assign c (ServerField.completed_at v ∷ fs) r h = status-assign c fs _ h
status-assign c (ServerField.current_step v ∷ fs) r h = status-assign c fs _ h
status-assign c (ServerField.provider_status v ∷ fs) r h = status-assign c fs _ h
status-assign c (ServerField.provider_ip v ∷ fs) r h = status-assign c fs _ h
status-assign c (ServerField.ssh_status v ∷ fs) r h = status-assign c fs _ h
status-assign c (ServerField.services_json v ∷ fs) r h = status-assign c fs _ h
status-assign c (ServerField.protocol_health_json v ∷ fs) r h = status-assign c fs _ h
status-assign c (ServerField.result_message v ∷ fs) r h = status-assign c fs _ h
status-assign c (ServerField.warning_message v ∷ fs) r h = status-assign c fs _ h
status-assign c (ServerField.error_message v ∷ fs) r h = status-assign c fs _ h

none_active :
    (i : ℕ) (f : ServerOperation → ServerOperation)
    → ((r : ServerOperation) → is_active (f r).status ≡ false)
    → (rows : List ServerOperation)
    → any (λ r. r.id == i && is_active r.status) (update_where (λ r. r.id == i) f rows) ≡ false
none_active i f closes [] = refl
none_active i f closes (r ∷ rows) = ground (arith, closes r, none_active i f closes rows)

terminal_inactive : (s : Status) → is_terminal s ≡ true → is_active s ≡ false
terminal_inactive Status.pending h = absurd (ground arith)
terminal_inactive Status.running h = absurd (ground arith)
terminal_inactive s h = ground arith

release_lem :
    (i : ℕ) (db : Db)
    → (b : Bool) × ((release_vps_lease (server_owner i) db).0 ≡ ok b)
      × ((release_vps_lease (server_owner i) db).1.servers ≡ db.servers)
      × (is_held_by (server_owner i) (release_vps_lease (server_owner i) db).1.lease ≡ false)
unfolding release_vps_lease
release_lem i db = elim (Option-cases db.lease) [
  | inl e ↦ (false, ground arith, ground arith, ground arith)
  | inr (l, e) ↦ elim (Bool-cases (same_owner l.owner (server_owner i))) [
    | inl f ↦ (true, ground arith, ground arith, ground arith)
    | inr f ↦ (false, ground arith, ground arith, ground arith)
  ]
]

module _ (env : ServerEnv) where
  -- An update whose only status is a terminal one.
  pub update-closes :
      (i : ℕ) (s : Status) (fs : List ServerField)
      → is_terminal s ≡ true
      → server_status_field fs ≡ none
      → Surely (update_row env i (ServerField.status s ∷ fs)) (IsClosed i)
  unfolding in_db update_server_operation ◌>>=◌
  update-closes i s fs terminal alone = record { at = λ w. closed (env.now w.log) w.db w.log }
    where
      written : ℕ → ServerOperation → ServerOperation
      written now r = record (assign_all_server env.cleaning (ServerField.status s ∷ fs) r) {
        updated_at = iso now;
      }

      closes : (now : ℕ) (r : ServerOperation) → is_active (written now r).status ≡ false
      closes now r =
          ap is_active (status-assign env.cleaning fs (record r { status = s }) alone)
          ∙ terminal_inactive s terminal

      closed :
          (now : ℕ) (db : Db) (log : List ServerEvent)
          → ((in_db env
                (λ now. update_server_operation env.cleaning now i (ServerField.status s ∷ fs))
                (record { db = db; log = log })).0
              ≡ ok tt)
            × IsClosed i
                (in_db env
                  (λ now. update_server_operation env.cleaning now i (ServerField.status s ∷ fs))
                  (record { db = db; log = log })).1
      closed now db log =
          let after = record db {
            servers = update_where (λ r. r.id == i) (written (env.now log)) db.servers;
          } in
          let (b, e, same, gone) = release_lem i after in
          let none_left = none_active i (written (env.now log)) (closes (env.now log)) db.servers in
          (
            ground (arith, alone, terminal, e),
            (
              ground (arith, alone, terminal, e, same, none_left),
              ground (arith, alone, terminal, e, gone),
            ),
          )

  -- The statuses in which a run ends.
  verified_terminal :
      (ambiguous : Bool) (error : String) → is_terminal (verified_status ambiguous error) ≡ true
  verified_terminal ambiguous error = ground arith

  chosen_terminal :
      (b : Bool) (s t : Status)
      → is_terminal s ≡ true
      → is_terminal t ≡ true
      → is_terminal (if b then s else t) ≡ true
  chosen_terminal true s t hs ht = hs
  chosen_terminal false s t hs ht = ht

  close_failed-closes :
      (i : ℕ) (text : Db → String) (e : Error) → Surely (close_failed env i text e) (IsClosed i)
  unfolding close_failed
  close_failed-closes i text e = search (closing_rules, update-closes)

  check_status-closes : (i : ℕ) → Reaches (check_status env i) (IsClosed i)
  unfolding check_status
  check_status-closes i = search (closing_rules, update-closes) depth 20

  refresh_protocols-closes : (i : ℕ) → Reaches (refresh_protocols env i) (IsClosed i)
  unfolding refresh_protocols
  refresh_protocols-closes i = search (closing_rules, update-closes) depth 20

  verify_recovery-closes :
      (i : ℕ) (v : Verification) → Reaches (verify_recovery env i v) (IsClosed i)
  unfolding verify_recovery
  verify_recovery-closes i v = search (closing_rules, update-closes, verified_terminal) depth 20

  give_up-closes : (i : ℕ) (v : Verification) → Reaches (give_up env i v) (IsClosed i)
  unfolding give_up
  give_up-closes i v = search (closing_rules, update-closes, chosen_terminal) depth 20

  verify_round-closes :
      (n i : ℕ) (again : Verification → Action ServerWorld (Unit {0})) (v : Verification)
      → ((v : Verification) → Reaches (again v) (IsClosed i))
      → Reaches (verify_round env n i again v) (IsClosed i)
  unfolding verify_round
  verify_round-closes n i again v rest =
      search (closing_rules, rest, verify_recovery-closes) depth 20

  verify_reboot-closes :
      (n i : ℕ) (v : Verification) → Reaches (verify_reboot env n i v) (IsClosed i)
  unfolding verify_reboot
  verify_reboot-closes zero i v = give_up-closes i v
  verify_reboot-closes (suc n) i v =
      verify_round-closes n i (verify_reboot env n i) v (verify_reboot-closes n i)

  reboot-closes : (timing : ServerTiming) (i : ℕ) → Reaches (reboot env timing i) (IsClosed i)
  unfolding reboot
  reboot-closes timing i = search (closing_rules, verify_reboot-closes) depth 20

  close_reboot-closes : (i : ℕ) (e : Error) → Surely (close_reboot env i e) (IsClosed i)
  unfolding close_reboot
  close_reboot-closes i e = search (closing_rules, update-closes, chosen_terminal) depth 20

  close_resumed-closes : (i : ℕ) → Surely (close_resumed env i) (IsClosed i)
  unfolding close_resumed
  close_resumed-closes i = search (closing_rules, update-closes) depth 20

abbrev pub is_queued_refresh : Option ServerOperation → Bool
is_queued_refresh none = false
is_queued_refresh (some r) = str_eq r.current_step "queued_protocol_refresh"

-- Is there something to do for a reboot: a row that has not begun, or that is open?
abbrev pub is_open_reboot : Option ServerOperation → Bool
is_open_reboot none = false
is_open_reboot (some r) = is_not_started r.action_state || not (is_terminal r.status)

-- A run that may find nothing to do: then it changes nothing.
abbrev pub Closes :
    ℕ → Bool → (ServerWorld → Result (Unit {0}) × ServerWorld) → ServerWorld → Type 0
Closes i due run w =
    ((run w).0 ≡ ok tt)
    × (((due ≡ true) × IsClosed i (run w).1) ⊎ ((due ≡ false) × ((run w).1 ≡ w)))

module _ (env : ServerEnv) where
  status_closes :
      (i : ℕ) (w : ServerWorld)
      → ((run_server_status env i w).0 ≡ ok tt) × IsClosed i (run_server_status env i w).1
  unfolding run_server_status
  status_closes i w =
      (Surely-catch _ _ (check_status-closes env i) (close_failed-closes env i _)).at w

  refresh-Closes :
      (i : ℕ) (w : ServerWorld)
      → Closes i (is_queued_refresh (get_server_operation i w.db)) (run_protocol_refresh env i) w
  unfolding run_protocol_refresh ◌>>=◌
  refresh-Closes i w = elim (Option-cases (get_server_operation i w.db)) [
    | inl e ↦ ground arith
    | inr (r, e) ↦ elim (Bool-cases (str_eq r.current_step "queued_protocol_refresh")) [
      | inl due ↦
          let (o, c) =
            (Surely-catch _ _ (refresh_protocols-closes env i)
                (close_failed-closes env i (λ db. "VPN protocol status refresh timed out"))).at
              w in
          rw (e, due) (o, inl (refl, c))
      | inr other ↦ rw (e, other) (refl, inr (refl, refl))
    ]
  ]

  reboot-Closes :
      (timing : ServerTiming) (i : ℕ) (w : ServerWorld)
      → Closes i (is_open_reboot (get_server_operation i w.db)) (run_server_reboot env timing i) w
  unfolding run_server_reboot ◌>>=◌
  reboot-Closes timing i w = elim (Option-cases (get_server_operation i w.db)) [
    | inl e ↦ rw e (refl, inr (refl, refl))
    | inr (r, e) ↦ elim (Bool-cases (is_not_started r.action_state)) [
      | inl unsent ↦
          let (o, c) =
            (Surely-catch _ _ (reboot-closes env timing i) (close_reboot-closes env i)).at w in
          rw (e, unsent) (o, inl (refl, c))
      | inr begun ↦ elim (Bool-cases (is_terminal r.status)) [
        | inl over ↦ rw (e, begun, over) (refl, inr (refl, refl))
        | inr running ↦
            let (o, c) = (close_resumed-closes env i).at w in
            rw (e, begun, running) (o, inl (refl, c))
      ]
    ]
  ]

-- Every run of a server operation returns, whatever the provider, the server and other transactions
-- do, and in the end no row of its operation is pending or running and the operation does not hold
-- the lease. A protocol refresh does so where its row waits for one, and a reboot where its row has
-- not begun or is not closed; otherwise they change nothing.
pub runs_close :
    (env : ServerEnv) (timing : ServerTiming) (i : ℕ) (w : ServerWorld)
    → (((run_server_status env i w).0 ≡ ok tt) × IsClosed i (run_server_status env i w).1)
      × (Closes i (is_queued_refresh (get_server_operation i w.db)) (run_protocol_refresh env i) w
          × Closes i
              (is_open_reboot (get_server_operation i w.db))
              (run_server_reboot env timing i)
              w)
runs_close env timing i w =
    (status_closes env i w, (refresh-Closes env i w, reboot-Closes env timing i w))
