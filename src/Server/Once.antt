-- ===== src/Server/Once.antt =====
-- A reboot is sent at most once (app/server_operations.py, `run_server_reboot`), over any number of
-- runs of one operation.
use auto_vpn.Base.{ℕ, ◌+◌, ◌≤◌, List, [], ◌∷◌, inl, inr, if◌then◌else◌, arith, Bool-cases}
use auto_vpn.Server.World.{ServerEnv, ServerWorld, ServerTiming}
use auto_vpn.Server.Restart.{run_server_reboot}
use auto_vpn.Server.Sent.{is_sent, IsKey}
use auto_vpn.Server.Sending.{reboots, IsBounded, Others, run-Leads}

-- Runs of one operation, one after the other.
unfoldable pub run_each : ServerEnv → ℕ → List ServerTiming → ServerWorld → ServerWorld
run_each env i [] w = w
run_each env i (timing ∷ timings) w = run_each env i timings (run_server_reboot env timing i w).1

runs-bounded :
    (env : ServerEnv) (i n : ℕ) (others : Others env i) (timings : List ServerTiming)
    (w : ServerWorld)
    → IsBounded n i w
    → reboots (run_each env i timings w).log ≤ n
unfolding run_each
runs-bounded env i n others [] w h = elim h.1 [
  | inl few ↦ omega (arith, few)
  | inr (few, sent) ↦ few
]
runs-bounded env i n others (timing ∷ timings) w h =
    runs-bounded env i n others timings (run_server_reboot env timing i w).1
      ((run-Leads env i n others timing).at w h)

-- Over any number of runs of one operation, whatever the provider and the server answer, at most one
-- reboot is asked of the provider, and none where the rows of the operation already say that one may
-- have been sent. The transactions of others are relied upon to keep the key of the operation and
-- not to forget that a reboot may have been sent.
pub reboot_at_most_once :
    (env : ServerEnv) (i : ℕ) (timings : List ServerTiming) (w : ServerWorld)
    → Others env i
    → IsKey i w.db
    → reboots (run_each env i timings w).log ≤ reboots w.log + (if is_sent i w.db then 0 else 1)
reboot_at_most_once env i timings w others key = elim (Bool-cases (is_sent i w.db)) [
  | inl sent ↦ rw sent (
      omega
        (arith, runs-bounded env i (reboots w.log) others timings w (key, inr (omega arith, sent))))
  | inr unsent ↦
      rw unsent (runs-bounded env i (reboots w.log + 1) others timings w (key, inl (omega arith)))
]
