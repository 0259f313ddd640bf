-- ===== src/Rotation/World.antt =====
-- The world of app/ip_change.py: the database, the provider and the VPN server. The world outside
-- answers each call as it likes, as a function of all that was asked of it before, and other
-- transactions may change the database at every await.
use auto_vpn.Base.{ℕ, ◌+◌, ◌/◌, String, Bool, true, false, List, ◌∷◌, leb, if◌then◌else◌}
use auto_vpn.Db.{Db, Result, Error, Action}
use auto_vpn.Config.{Platform}

-- An address of the provider's list (app/aeza.py, normalize_ipv4).
pub record Ipv4 : Type 0 where
  pub id : String
  pub ip : String
  pub is_main : Bool

-- What a run does outside its database, with the commit of a publication, newest first in a log.
-- `yielded` is `asyncio.sleep(0)`.
pub data Event : Type 0 where
  yielded slept listed added : Event
  made_main deleted probed deployed checked : String → Event
  published : ℕ → Event

-- The events by which a run spends money, moves the address, or changes what clients get.
abbrev pub is_loud : Event → Bool
is_loud Event.added = true
is_loud (Event.made_main i) = true
is_loud (Event.deleted i) = true
is_loud (Event.published n) = true
is_loud _ = false

-- Milliseconds.
pub record IpRotationTiming : Type 0 where
  pub ip_appear_timeout : ℕ
  pub ip_appear_interval : ℕ
  pub ssh_timeout : ℕ
  pub ssh_interval : ℕ

-- `max(1, int(timeout / max(0.01, interval)) + 1)`.
abbrev pub attempts : ℕ → ℕ → ℕ
attempts timeout interval = timeout / (if leb 10 interval then interval else 10) + 1

-- What a call finds out there. Each answer may depend on the whole log, its own event included.
pub record Env : Type 0 where
  pub platform : Platform
  pub now : List Event → ℕ
  pub others : List Event → Db → Db
  pub service_id : String
  pub get_ipv4_list : List Event → Result (List Ipv4)
  pub add_ipv4 : List Event → Result Ipv4
  pub make_main_ipv4 : List Event → Result (Unit {0})
  pub delete_ipv4 : List Event → Result (Unit {0})
  pub tcp_check : List Event → Bool
  pub run_remote_command : List Event → Result ℕ
  pub run_deep_protocol_checks : List Event → Result (List (String × Bool))
  pub safe_error : Error → String
  pub health_json : List (String × String) → String

-- The database and the log, with the two local variables of `run_ip_change` that its handler reads.
pub record World : Type 0 where
  pub db : Db
  pub log : List Event
  pub old_ip_id : String
  pub make_main_started : Bool

module _ (env : Env) {A : Type 0} where
  -- An await on the outside: the event is noted, and others may use the database meanwhile.
  unfoldable pub call : Event → (List Event → Result A) → Action World A
  call e answer w =
      (answer (e ∷ w.log), record w { log = e ∷ w.log; db = env.others (e ∷ w.log) w.db })

  -- A transaction of the run itself, at the time that the clock shows.
  unfoldable pub with_db : (ℕ → Action Db A) → Action World A
  with_db m w = let (r, db) = m (env.now w.log) w.db in (r, record w { db = db })
