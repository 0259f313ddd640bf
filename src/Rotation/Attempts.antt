-- ===== src/Rotation/Attempts.antt =====
-- How often the waits of a rotation ask, and when they pause (app/ip_change.py).
use auto_vpn.Base.{ℕ, zero, suc, ◌≤◌, ◌≡◌, List, ◌∷◌}
use auto_vpn.Rotation.World.{Env, World, Event}

-- The log after one attempt and some more, with a pause between each and the next, and none at the
-- end.
abbrev pub attempted : Event → ℕ → List Event → List Event
attempted e zero log = e ∷ log
attempted e (suc more) log = attempted e more (Event.slept ∷ e ∷ log)

-- The log grew by at least one attempt and at most n, with a pause between each two.
abbrev pub Alternates : Event → ℕ → List Event → List Event → Type 0
Alternates e n before after = (more : ℕ) × (suc more ≤ n) × (after ≡ attempted e more before)

module _ (env : Env) where
  abbrev paused : Event → World → World
  paused e w = record w {
    log = Event.slept ∷ e ∷ w.log;
    db = env.others (Event.slept ∷ e ∷ w.log) (env.others (e ∷ w.log) w.db);
  }
