-- ===== src/Rotation/Quiet.antt =====
-- Most steps of an IP change are quiet: they neither buy, move, publish nor delete, and leave the
-- variables that the handler reads.
use auto_vpn.Base.{
  ℕ, zero, suc, ◌≡◌, refl, ◌∙◌, String, Bool, true, false, not, List, [], ◌∷◌, Option, none, some,
  ltb, select, if◌then◌else◌, arith,
}
use auto_vpn.Db.{
  Db, Result, ok, err, Error, Action, pure, raise, gets, raise_if, when, of_result, catch,
  case_option, continue_with, handle, ◌>>=◌,
}
use auto_vpn.Config.{CapturedVpnConfig}
use auto_vpn.Rotation.World.{Env, World, Event, is_loud, IpRotationTiming, call, with_db}
use auto_vpn.Rotation.Find.{Known}
use auto_vpn.Rotation.Steps.{
  ensure_bound_revision_current, wait_new_ip, wait_main_ip, wait_ssh, wait_for_new_ip,
  wait_for_main_ip, wait_for_ssh, verify_protocol_health, apply_bound_snapshot,
}

-- What a run has done, newest first, and what its handler would read.
pub record Trace : Type 0 where
  pub effects : List Event
  pub old_ip_id : String
  pub make_main_started : Bool

abbrev pub trace : World → Trace
trace w = record {
  effects = select is_loud w.log;
  old_ip_id = w.old_ip_id;
  make_main_started = w.make_main_started;
}

pub record Quiet {A : Type 0} (m : Action World A) : Type 0 where
  pub at : (w : World) → trace (m w).1 ≡ trace w

module _ {A : Type 0} where
  pub Quiet-pure : (a : A) → Quiet (pure {S = World} a)
  unfolding ◌>>=◌
  Quiet-pure a = record { at = λ w. refl }

  pub Quiet-raise : (e : Error) → Quiet (raise {S = World} {A = A} e)
  unfolding ◌>>=◌
  Quiet-raise e = record { at = λ w. refl }

  pub Quiet-gets : (f : World → A) → Quiet (gets f)
  unfolding ◌>>=◌
  Quiet-gets f = record { at = λ w. refl }

  pub Quiet-of_result : (r : Result A) → Quiet (of_result {S = World} r)
  unfolding ◌>>=◌
  Quiet-of_result r = record { at = λ w. refl }

  pub Quiet-if : (b : Bool) (m n : Action World A) → Quiet m → Quiet n → Quiet (if b then m else n)
  Quiet-if true m n qm qn = qm
  Quiet-if false m n qm qn = qn

  pub Quiet-call :
      (env : Env) (e : Event) (answer : List Event → Result A)
      → is_loud e ≡ false
      → Quiet (call env e answer)
  unfolding call
  Quiet-call env e answer calm = record { at = λ w. ground arith }

  pub Quiet-with_db : (env : Env) (m : ℕ → Action Db A) → Quiet (with_db env m)
  unfolding with_db
  Quiet-with_db env m = record { at = λ w. refl }

  handled :
      (h : Error → Action World A) (r : Result A) (s : World)
      → ((e : Error) → Quiet (h e))
      → trace (handle h (r, s)).1 ≡ trace s
  handled h (ok a) s qh = refl
  handled h (err e) s qh = (qh e).at s

  pub Quiet-catch :
      (m : Action World A) (h : Error → Action World A)
      → Quiet m
      → ((e : Error) → Quiet (h e))
      → Quiet (catch m h)
  unfolding ◌>>=◌
  Quiet-catch m h qm qh = record { at = λ w. handled h (m w).0 (m w).1 qh ∙ qm.at w }

pub Quiet-raise_if : (b : Bool) (e : Error) → Quiet (raise_if {S = World} b e)
unfolding ◌>>=◌
Quiet-raise_if true e = record { at = λ w. refl }
Quiet-raise_if false e = record { at = λ w. refl }

pub Quiet-when : (b : Bool) (m : Action World (Unit {0})) → Quiet m → Quiet (when b m)
unfolding ◌>>=◌
Quiet-when true m q = record { at = λ w. q.at w }
Quiet-when false m q = record { at = λ w. refl }

module _ {A B : Type 0} where
  pub Quiet-case_option :
      (o : Option A) (m : Action World B) (f : A → Action World B)
      → Quiet m
      → ((a : A) → Quiet (f a))
      → Quiet (case_option o m f)
  Quiet-case_option none m f qm qf = qm
  Quiet-case_option (some a) m f qm qf = qf a

  continued :
      (f : A → Action World B) (r : Result A) (s : World)
      → ((a : A) → Quiet (f a))
      → trace (continue_with f (r, s)).1 ≡ trace s
  continued f (ok a) s qf = (qf a).at s
  continued f (err e) s qf = refl

  pub Quiet-bind :
      (m : Action World A) (f : A → Action World B)
      → Quiet m
      → ((a : A) → Quiet (f a))
      → Quiet (m >>= f)
  unfolding ◌>>=◌
  Quiet-bind m f qm qf = record { at = λ w. continued f (m w).0 (m w).1 qf ∙ qm.at w }

pub ruleset quiet_rules = (
  Quiet-pure, Quiet-raise, Quiet-gets, Quiet-of_result, Quiet-if, Quiet-call, Quiet-with_db,
  Quiet-catch, Quiet-raise_if, Quiet-when, Quiet-case_option, Quiet-bind, refl,
)

module _ (env : Env) where
  pub ensure_bound_revision_current-Quiet :
      (revision : ℕ) → Quiet (ensure_bound_revision_current env revision)
  unfolding ensure_bound_revision_current
  ensure_bound_revision_current-Quiet revision = search quiet_rules

  wait_new_ip-Quiet : (n : ℕ) (k : Known) → Quiet (wait_new_ip env n k)
  unfolding wait_new_ip
  wait_new_ip-Quiet zero k = search quiet_rules
  wait_new_ip-Quiet (suc n) k = let rest = wait_new_ip-Quiet n k in search quiet_rules depth 8

  wait_main_ip-Quiet : (n : ℕ) (i a : String) → Quiet (wait_main_ip env n i a)
  unfolding wait_main_ip
  wait_main_ip-Quiet zero i a = search quiet_rules
  wait_main_ip-Quiet (suc n) i a = let rest = wait_main_ip-Quiet n i a in search quiet_rules depth 8

  wait_ssh-Quiet : (n : ℕ) (host : String) → Quiet (wait_ssh env n host)
  unfolding wait_ssh
  wait_ssh-Quiet zero host = search quiet_rules
  wait_ssh-Quiet (suc n) host = let rest = wait_ssh-Quiet n host in search quiet_rules depth 8

  pub wait_for_new_ip-Quiet :
      (timing : IpRotationTiming) (k : Known) → Quiet (wait_for_new_ip env timing k)
  unfolding wait_for_new_ip
  wait_for_new_ip-Quiet timing k = wait_new_ip-Quiet _ k

  pub wait_for_main_ip-Quiet :
      (timing : IpRotationTiming) (i a : String) → Quiet (wait_for_main_ip env timing i a)
  unfolding wait_for_main_ip
  wait_for_main_ip-Quiet timing i a = wait_main_ip-Quiet _ i a

  pub wait_for_ssh-Quiet :
      (timing : IpRotationTiming) (host : String) → Quiet (wait_for_ssh env timing host)
  unfolding wait_for_ssh
  wait_for_ssh-Quiet timing host = wait_ssh-Quiet _ host

  pub verify_protocol_health-Quiet :
      (host : String) (config : CapturedVpnConfig) → Quiet (verify_protocol_health env host config)
  unfolding verify_protocol_health
  verify_protocol_health-Quiet host config = search quiet_rules depth 8

  pub apply_bound_snapshot-Quiet : (i : ℕ) (host : String) → Quiet (apply_bound_snapshot env i host)
  unfolding apply_bound_snapshot
  apply_bound_snapshot-Quiet i host = search quiet_rules depth 12
