-- ===== src/Server/World.antt =====
-- The world of the runs of app/server_operations.py: the database, the provider and the VPN server.
-- The world outside answers each call as it likes, as a function of all that was asked before, and
-- other transactions may change the database at every await.
use auto_vpn.Base.{ℕ, ◌+◌, ◌-◌, ◌/◌, String, Bool, true, false, List, ◌∷◌, leb, if◌then◌else◌}
use auto_vpn.Db.{Db, Result, Error, Action, raise, gets}
use auto_vpn.Config.{Platform}
use auto_vpn.Server.{Cleaning, ServerField, update_server_operation}

-- What a run asks of the outside, newest first in a log. `asked_protocols` is
-- `refresh_protocol_statuses`, whose own settings are among the changes of others.
pub data ServerEvent : Type 0 where
  asked_status rebooted waited : ServerEvent
  asked_task probed asked_services asked_protocols : String → ServerEvent

-- Milliseconds.
pub record ServerTiming : Type 0 where
  pub request_timeout : ℕ
  pub reboot_timeout : ℕ
  pub poll_interval : ℕ
  pub ssh_probe_timeout : ℕ
  pub command_timeout : ℕ

abbrev pub at_least_ten : ℕ → ℕ
at_least_ten n = if leb 10 n then n else 10

-- `max(1, math.ceil(reboot_timeout / max(0.01, poll_interval)))`.
abbrev pub reboot_attempts : ServerTiming → ℕ
reboot_attempts timing =
    let n =
      (timing.reboot_timeout + at_least_ten timing.poll_interval - 1)
      / at_least_ten timing.poll_interval in
    if leb 1 n then n else 1

-- The parts of `get_service` that are read.
pub record ServiceState : Type 0 where
  pub provider_status : String
  pub ip : String

-- A call that takes longer than its timeout answers `timeout`.
pub record ServerEnv : Type 0 where
  pub platform : Platform
  pub cleaning : Cleaning
  pub now : List ServerEvent → ℕ
  pub others : List ServerEvent → Db → Db
  pub get_service : List ServerEvent → Result ServiceState
  pub reboot_service : List ServerEvent → Result String
  pub task_status : List ServerEvent → Result String
  pub tcp_check : List ServerEvent → Bool
  pub run_remote_command : List ServerEvent → Result (ℕ × String)
  pub refresh_protocol_statuses : List ServerEvent → Result (List (String × String))
  pub str_error : Error → String
  pub services_json : List (String × String) → String
  pub summary_json : List (String × String) → String

pub record ServerWorld : Type 0 where
  pub db : Db
  pub log : List ServerEvent

abbrev pub is_timeout : Error → Bool
is_timeout Error.timeout = true
is_timeout _ = false

module _ (env : ServerEnv) {A : Type 0} where
  -- An await on the outside: the event is noted, and others may use the database meanwhile.
  unfoldable pub ask : ServerEvent → (List ServerEvent → Result A) → Action ServerWorld A
  ask e answer w =
      (answer (e ∷ w.log), record { log = e ∷ w.log; db = env.others (e ∷ w.log) w.db })

  -- A transaction of the run itself.
  unfoldable pub in_db : (ℕ → Action Db A) → Action ServerWorld A
  in_db m w = let (r, db) = m (env.now w.log) w.db in (r, record w { db = db })

module _ {A : Type 0} where
  -- A reading transaction.
  abbrev pub reads : (Db → A) → Action ServerWorld A
  reads f = gets (λ w. f w.db)

  -- `except TimeoutError`.
  abbrev pub on_timeout : Action ServerWorld A → Error → Action ServerWorld A
  on_timeout h e = if is_timeout e then h else raise e

module _ (env : ServerEnv) where
  abbrev pub update_row : ℕ → List ServerField → Action ServerWorld (Unit {0})
  update_row i fields = in_db env (λ now. update_server_operation env.cleaning now i fields)

  abbrev pub error_text : Error → String
  error_text e = env.cleaning.safe_error (env.str_error e)

  abbrev pub read_clock : Action ServerWorld ℕ
  read_clock = gets (λ w. env.now w.log)
