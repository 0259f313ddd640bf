-- ===== src/Stats/Kept.antt =====
-- What a refresh of the counters leaves as it was (app/stats.py, refresh_client_stats).
use auto_vpn.Base.{
  ℕ, ◌≡◌, refl, sym, subst, ◌⊎◌, inl, inr, String, Bool, true, false, not, List, [], ◌∷◌, Option,
  none, some, ◌==◌, select, is_some, Option-cases, Bool-cases, truthy, if◌then◌else◌, arith,
}
use auto_vpn.Db.{Db, Client, Result, ok, err, case_option, ◌>>=◌}
use auto_vpn.Server.Settings.{resolve_eu_host}
use auto_vpn.Server.Leads.{Leads, Leads-bind, Leads-raise_if, Leads-modify, Leads-pure}
use auto_vpn.Lease.{iso}
use auto_vpn.Stats.Refresh.{
  ClientStats, StatsWorld, StatsEnv, Collected, previous_xray, previous_amnezia, get_client_stats,
  upsert_client_stats, router_keys, refreshed, refresh_each, collected, refresh_client_stats,
  write_stats, after_commands, command_output,
}

abbrev pub last_seen : Option ClientStats → Option ℕ
last_seen previous = case_option previous none λ r. r.last_seen_at

-- A client's row against what it was before the refresh at a time.
pub record IsKept (c : Collected) (now : ℕ) (before after : Option ClientStats) : Type 0 where
  pub xray : (is_some c.xray ≡ true) ⊎ (previous_xray after ≡ previous_xray before)
  pub amnezia : (is_some c.amnezia ≡ true) ⊎ (previous_amnezia after ≡ previous_amnezia before)
  pub seen : (last_seen after ≡ some now) ⊎ (last_seen after ≡ last_seen before)

-- The command ended with exit code 0.
abbrev pub WasRead : Result (Bool × String) → Type 0
WasRead answer = (output : String) × (answer ≡ ok (true, output))

output_read :
    (answer : Result (Bool × String)) → is_some (command_output answer) ≡ true → WasRead answer
output_read (ok (true, output)) h = (output, refl)
output_read (ok (false, output)) h = absurd (cc)
output_read (err e) h = absurd (cc)

get-upsert :
    (row : ClientStats) (i : ℕ) (rows : List ClientStats)
    → get_client_stats i (upsert_client_stats row rows)
      ≡ (if row.client_id == i then some row else get_client_stats i rows)
unfolding upsert_client_stats
get-upsert row i [] = refl
get-upsert row i (r ∷ rows) = ground (arith, get-upsert row i rows)

refl-IsKept : (c : Collected) (now : ℕ) (o : Option ClientStats) → IsKept c now o o
refl-IsKept c now o = record { xray = inr refl; amnezia = inr refl; seen = inr refl }

chosen :
    (b : Bool) (now : ℕ) (x y : Option ℕ)
    → ((x ≡ some now) ⊎ (x ≡ y))
    → (((if b then some now else x) ≡ some now) ⊎ ((if b then some now else x) ≡ y))
chosen true now x y h = inl refl
chosen false now x y h = h

-- One client's new row.
refreshed-IsKept :
    (c : Collected) (now : ℕ) (client : Client) (keys : List String)
    (before previous : Option ClientStats)
    → IsKept c now before previous
    → IsKept c now before (some (refreshed c now client keys previous))
unfolding refreshed
refreshed-IsKept c now client keys before previous h = record {
  xray = elim (Option-cases c.xray) [
    | inl failed ↦ elim h.xray [ inl given ↦ inl given | inr same ↦ inr (rw failed same) ]
    | inr (parsed, given) ↦ inl (rw given refl)
  ];
  amnezia = elim (Option-cases c.amnezia) [
    | inl failed ↦ elim h.amnezia [ inl given ↦ inl given | inr same ↦ inr (rw failed same) ]
    | inr (parsed, given) ↦ inl (rw given refl)
  ];
  seen = chosen _ now (last_seen previous) (last_seen before) h.seen;
}

upserted-IsKept :
    (c : Collected) (now i : ℕ) (client : Client) (keys : List String) (before : Option ClientStats)
    (rows : List ClientStats)
    → IsKept c now before (get_client_stats i rows)
    → IsKept c now before (
        get_client_stats i (
          upsert_client_stats (refreshed c now client keys (get_client_stats client.id rows)) rows))
unfolding refreshed
upserted-IsKept c now i client keys before rows h =
    subst (IsKept c now before)
      (sym (get-upsert (refreshed c now client keys (get_client_stats client.id rows)) i rows))
      (place (client.id == i) refl)
  where
    row : ClientStats
    row = refreshed c now client keys (get_client_stats client.id rows)

    place :
        (b : Bool)
        → (client.id == i) ≡ b
        → IsKept c now before (if b then some row else get_client_stats i rows)
    place true e =
        refreshed-IsKept c now client keys before (get_client_stats client.id rows)
          (subst (λ k. IsKept c now before (get_client_stats k rows)) (sym (ground (arith, e))) h)
    place false e = h

each-IsKept :
    (c : Collected) (now i : ℕ) (db : Db) (clients : List Client) (before : Option ClientStats)
    (rows : List ClientStats)
    → IsKept c now before (get_client_stats i rows)
    → IsKept c now before (get_client_stats i (refresh_each c now db clients rows))
unfolding refresh_each
each-IsKept c now i db [] before rows h = h
each-IsKept c now i db (client ∷ clients) before rows h =
    each-IsKept c now i db clients before _
      (upserted-IsKept c now i client (router_keys client db) before rows h)

save-Leads :
    {Q : StatsWorld → Type 0} (m : Db → Result (Unit {0}) × Db)
    → ((w : StatsWorld) (db : Db) → Q w → Q (record w { db = db }))
    → Leads Q (λ w. let (r, db) = m w.db in (r, record w { db = db })) Q
save-Leads m keeps = record { at = λ w p. keeps w (m w.db).1 p }

-- A client's row against what it was when the commands had ended, by what the commands answered.
pub record IsKeptBy (env : StatsEnv) (before after : Option ClientStats) : Type 0 where
  pub xray : WasRead env.run_xray ⊎ (previous_xray after ≡ previous_xray before)
  pub amnezia : WasRead env.run_amnezia ⊎ (previous_amnezia after ≡ previous_amnezia before)
  pub seen : (last_seen after ≡ some (iso env.clock)) ⊎ (last_seen after ≡ last_seen before)

module _ (env : StatsEnv) where
  xray-WasRead : is_some (collected env).xray ≡ true → WasRead env.run_xray
  unfolding collected
  xray-WasRead h = output_read env.run_xray (ground (arith, h))

  amnezia-WasRead : is_some (collected env).amnezia ≡ true → WasRead env.run_amnezia
  unfolding collected
  amnezia-WasRead h = output_read env.run_amnezia (ground (arith, h))

  IsKept-IsKeptBy :
      (before after : Option ClientStats)
      → IsKept (collected env) (iso env.clock) before after
      → IsKeptBy env before after
  IsKept-IsKeptBy before after h = record {
    xray = elim h.xray [ inl r ↦ inl (xray-WasRead r) | inr same ↦ inr same ];
    amnezia = elim h.amnezia [ inl r ↦ inl (amnezia-WasRead r) | inr same ↦ inr same ];
    seen = h.seen;
  }

  write_stats-IsKept :
      (i : ℕ) (w : StatsWorld)
      → IsKept
          (collected env)
          (iso env.clock)
          (get_client_stats i w.client_stats)
          (get_client_stats i (write_stats env w).1.client_stats)
  unfolding write_stats
  write_stats-IsKept i w = kept.at w (refl-IsKept (collected env) (iso env.clock) before)
    where
      before : Option ClientStats
      before = get_client_stats i w.client_stats

      Kept : StatsWorld → Type 0
      Kept v = IsKept (collected env) (iso env.clock) before (get_client_stats i v.client_stats)

      kept : Leads Kept (write_stats env) Kept
      kept = Leads-bind _ _ (Leads-raise_if _ _) λ _.
          Leads-bind _ _
            (Leads-modify _ (λ v p.
              each-IsKept (collected env) (iso env.clock) i v.db
                (select (λ c. not (is_some c.deleted_at)) v.db.clients) before v.client_stats p))
            λ _.
              Leads-bind _ _ (save-Leads _ (λ v db p. p))
                λ _. Leads-bind _ _ (save-Leads _ (λ v db p. p)) λ _. Leads-pure _

  without_host :
      (w : StatsWorld)
      → truthy (resolve_eu_host env.platform w.db) ≡ false
      → (refresh_client_stats env w).1 ≡ w
  unfolding refresh_client_stats ◌>>=◌
  without_host w h = ground arith

  with_host :
      (w : StatsWorld)
      → truthy (resolve_eu_host env.platform w.db) ≡ true
      → (refresh_client_stats env w).1 ≡ (write_stats env (after_commands env w)).1
  unfolding refresh_client_stats ◌>>=◌
  with_host w h = rw h refl

-- However a refresh of the counters ends, each client's row is kept where nothing was learned. Without
-- a host nothing changes. Otherwise, against the row that there was when the two commands had ended,
-- whatever others did to the rows meanwhile: its Xray counters are the same unless the Xray command
-- ended with exit code 0, its AmneziaWG counters are the same unless the AmneziaWG command did, and it
-- was last seen either as before or at the time of the refresh.
pub refresh-IsKept :
    (env : StatsEnv) (i : ℕ) (w : StatsWorld)
    → ((truthy (resolve_eu_host env.platform w.db) ≡ false) × ((refresh_client_stats env w).1 ≡ w))
      ⊎ IsKeptBy env
          (get_client_stats i (after_commands env w).client_stats)
          (get_client_stats i (refresh_client_stats env w).1.client_stats)
refresh-IsKept env i w = elim (Bool-cases (truthy (resolve_eu_host env.platform w.db))) [
  | inr missing ↦ inl (missing, without_host env w missing)
  | inl host ↦ inr (
      rw (with_host env w host)
        (IsKept-IsKeptBy env _ _ (write_stats-IsKept env i (after_commands env w))))
]
