-- ===== src/Rotation/Triples.antt =====
-- Triples over the trace of a run: from `P`, an action ends in `Q` if it returns and in `E` if it
-- raises.
use auto_vpn.Base.{
  ℕ, ◌≡◌, refl, sym, subst, String, Bool, true, false, List, ◌∷◌, Option, none, some, if◌then◌else◌,
  arith,
}
use auto_vpn.Db.{
  Status, Result, ok, err, Error, Action, pure, raise, gets, modify, catch, case_option,
  continue_with, handle, ◌>>=◌,
}
use auto_vpn.Clients.{set_setting}
use auto_vpn.Operations.{IpField}
use auto_vpn.Operations.Exclusive.{update_operation_ok}
use auto_vpn.Rotation.World.{Env, World, Event, is_loud, call, with_db}
use auto_vpn.Rotation.Steps.{update, step}
use auto_vpn.Rotation.Run.{set_health}
use auto_vpn.Rotation.Quiet.{Trace, trace, Quiet, quiet_rules}

abbrev pub Ends : {A : Type 0} → (A → Trace → Type 0) → (Trace → Type 0) → Result A → Trace → Type 0
Ends Q E (ok a) t = Q a t
Ends Q E (err e) t = E t

pub record Runs {A : Type 0} (P : Trace → Type 0) (m : Action World A) (Q : A → Trace → Type 0)
    (E : Trace → Type 0) : Type 0 where
  pub at : (w : World) → P (trace w) → Ends Q E (m w).0 (trace (m w).1)

module _ {A : Type 0} {P : Trace → Type 0} {E : Trace → Type 0} where
  -- A quiet action may raise.
  pub Runs-quiet :
      {m : Action World A} → Quiet m → ((t : Trace) → P t → E t) → Runs P m (λ _ t. P t) E
  Runs-quiet {m} q weaken = record { at = λ w p. ends (m w).0 (m w).1 (subst P (sym (q.at w)) p) }
    where
      ends : (r : Result A) (w : World) → P (trace w) → Ends (λ _ t. P t) E r (trace w)
      ends (ok a) w p = p
      ends (err e) w p = weaken (trace w) p

  -- A quiet action that never raises.
  pub Runs-sure :
      {m : Action World A}
      → Quiet m
      → ((w : World) → (a : A) × ((m w).0 ≡ ok a))
      → Runs P m (λ _ t. P t) E
  Runs-sure {m} q sure = record {
    at = λ w p. ends (m w).0 (m w).1 (sure w) (subst P (sym (q.at w)) p);
  }
    where
      ends :
          (r : Result A) (w : World)
          → ((a : A) × (r ≡ ok a))
          → P (trace w)
          → Ends (λ _ t. P t) E r (trace w)
      ends (ok a) w s p = p
      ends (err e) w s p = absurd (ground arith)

  pub Runs-weaken :
      {m : Action World A} {Q R : A → Trace → Type 0} {F : Trace → Type 0}
      → Runs P m Q F
      → ((a : A) (t : Trace) → Q a t → R a t)
      → ((t : Trace) → F t → E t)
      → Runs P m R E
  Runs-weaken {m} {Q} {R} {F} run wq we = record { at = λ w p. ends (m w).0 (m w).1 (run.at w p) }
    where
      ends : (r : Result A) (w : World) → Ends Q F r (trace w) → Ends R E r (trace w)
      ends (ok a) w q = wq a (trace w) q
      ends (err e) w f = we (trace w) f

  -- A handler starts from what the body's failure left.
  pub Runs-catch :
      {m : Action World A} {h : Error → Action World A} {Q : A → Trace → Type 0}
      {F : Trace → Type 0}
      → Runs P m Q F
      → ((e : Error) → Runs F (h e) Q E)
      → Runs P (catch m h) Q E
  unfolding ◌>>=◌
  Runs-catch {m} {h} {Q} {F} run rescue = record { at = λ w p. ends (m w).0 (m w).1 (run.at w p) }
    where
      ends :
          (r : Result A) (w : World)
          → Ends Q F r (trace w)
          → Ends Q E (handle h (r, w)).0 (trace (handle h (r, w)).1)
      ends (ok a) w q = q
      ends (err e) w f = (rescue e).at w f

  pub Runs-pure :
      (a : A) {Q : A → Trace → Type 0} → ((t : Trace) → P t → Q a t) → Runs P (pure a) Q E
  unfolding ◌>>=◌
  Runs-pure a give = record { at = λ w p. give (trace w) p }

  pub Runs-raise :
      (e : Error) {Q : A → Trace → Type 0} → ((t : Trace) → P t → E t) → Runs P (raise e) Q E
  unfolding ◌>>=◌
  Runs-raise e give = record { at = λ w p. give (trace w) p }

  pub Runs-if :
      (b : Bool) {m n : Action World A} {Q : A → Trace → Type 0}
      → Runs P m Q E
      → Runs P n Q E
      → Runs P (if b then m else n) Q E
  Runs-if true yes_run no_run = yes_run
  Runs-if false yes_run no_run = no_run

module _ {P : Trace → Type 0} {E : Trace → Type 0} where
  pub Runs-modify :
      (f : World → World) {Q : Trace → Type 0}
      → ((w : World) → P (trace w) → Q (trace (f w)))
      → Runs P (modify f) (λ _ t. Q t) E
  unfolding ◌>>=◌
  Runs-modify f give = record { at = give }

module _ {A : Type 0} {P : Trace → Type 0} {E : Trace → Type 0} where
  -- What is read from the trace is known afterwards.
  pub Runs-gets : (g : Trace → A) → Runs P (gets (λ w. g (trace w))) (λ a t. P t × (a ≡ g t)) E
  unfolding ◌>>=◌
  Runs-gets g = record { at = λ w p. (p, refl) }

module _ {A B : Type 0} {P : Trace → Type 0} {E : Trace → Type 0} where
  pub Runs-case_option :
      (o : Option A) {m : Action World B} {f : A → Action World B} {Q : B → Trace → Type 0}
      → Runs P m Q E
      → ((a : A) → Runs P (f a) Q E)
      → Runs P (case_option o m f) Q E
  Runs-case_option none empty_run run = empty_run
  Runs-case_option (some a) empty_run run = run a

  pub Runs-bind :
      {m : Action World A} {f : A → Action World B} {R : A → Trace → Type 0}
      {Q : B → Trace → Type 0}
      → Runs P m R E
      → ((a : A) → Runs (R a) (f a) Q E)
      → Runs P (m >>= f) Q E
  unfolding ◌>>=◌
  Runs-bind {m} {f} {R} {Q} first rest = record { at = λ w p. ends (m w).0 (m w).1 (first.at w p) }
    where
      ends :
          (r : Result A) (w : World)
          → Ends R E r (trace w)
          → Ends Q E (continue_with f (r, w)).0 (trace (continue_with f (r, w)).1)
      ends (ok a) w q = (rest a).at w q
      ends (err e) w x = x

module _ (env : Env) {E : Trace → Type 0} where
  -- A call that counts adds its event, whatever the answer.
  pub Runs-call :
      {A : Type 0} {P Q : Trace → Type 0} (e : Event) (answer : List Event → Result A)
      → is_loud e ≡ true
      → ((t : Trace) → P t → Q (record t { effects = e ∷ t.effects }))
      → ((t : Trace) → Q t → E t)
      → Runs P (call env e answer) (λ _ t. Q t) E
  unfolding call
  Runs-call {A} {P} {Q} e answer loud add weaken = record {
    at = λ w p. ends (answer (e ∷ w.log)) (call env e answer w).1 (rw loud (add (trace w) p));
  }
    where
      ends : (r : Result A) (w : World) → Q (trace w) → Ends (λ _ t. Q t) E r (trace w)
      ends (ok a) w q = q
      ends (err x) w q = weaken (trace w) q

module _ (env : Env) where
  update_sure : (i : ℕ) (fields : List IpField) (w : World) → (update env i fields w).0 ≡ ok tt
  unfolding with_db
  update_sure i fields w = update_operation_ok (env.now w.log) i fields w.db

  step_sure :
      (i : ℕ) (name : String) (fields : List IpField) (w : World)
      → (step env i name fields w).0 ≡ ok tt
  unfolding ◌>>=◌ call
  step_sure i name fields w = rw (
    update_sure i (IpField.status Status.running ∷ IpField.current_step name ∷ fields) w,
    continue_with,
  )

  set_health_sure : (value : String) (w : World) → (set_health env value w).0 ≡ ok tt
  unfolding with_db set_setting ◌>>=◌
  set_health_sure value w = ground arith

  module _ {P : Trace → Type 0} {E : Trace → Type 0} where
    pub Runs-update : (i : ℕ) (fields : List IpField) → Runs P (update env i fields) (λ _ t. P t) E
    Runs-update i fields = Runs-sure (search quiet_rules) (λ w. (tt, update_sure i fields w))

    pub Runs-step :
        (i : ℕ) (name : String) (fields : List IpField)
        → Runs P (step env i name fields) (λ _ t. P t) E
    Runs-step i name fields = Runs-sure (search quiet_rules) (λ w. (tt, step_sure i name fields w))

    pub Runs-set_health : (value : String) → Runs P (set_health env value) (λ _ t. P t) E
    Runs-set_health value = Runs-sure (search quiet_rules) (λ w. (tt, set_health_sure value w))
