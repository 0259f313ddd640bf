-- ===== src/Rotation/Knowing.antt =====
-- Triples that keep what the provider answered.
use auto_vpn.Base.{◌≡◌, refl, sym, subst, true, List, ◌∷◌}
use auto_vpn.Db.{Result, ok, err, Action}
use auto_vpn.Rotation.World.{Env, World, Event, is_loud, call}
use auto_vpn.Rotation.Quiet.{Trace, trace, Quiet}
use auto_vpn.Rotation.Triples.{Ends, Runs}
use auto_vpn.Rotation.Purchased.{Answered}

module _ {A : Type 0} {P : Trace → Type 0} {E : Trace → Type 0} where
  -- What is known of the value that a quiet action returns.
  pub Runs-knows :
      {m : Action World A} (F : A → Type 0)
      → Quiet m
      → ((t : Trace) → P t → E t)
      → ((w : World) (a : A) → P (trace (m w).1) → (m w).0 ≡ ok a → F a)
      → Runs P m (λ a t. P t × F a) E
  Runs-knows {m} F q weaken know = record {
    at = λ w p. ends (m w).0 (m w).1 (know w) (subst P (sym (q.at w)) p);
  }
    where
      ends :
          (r : Result A) (w : World)
          → ((a : A) → P (trace w) → r ≡ ok a → F a)
          → P (trace w)
          → Ends (λ a t. P t × F a) E r (trace w)
      ends (ok a) w know p = (p, know a p refl)
      ends (err e) w know p = weaken (trace w) p

  -- What is known of a value may be used in what follows.
  pub Runs-given :
      {F : Type 0} {m : Action World A} {Q : A → Trace → Type 0}
      → (F → Runs P m Q E)
      → Runs (λ t. P t × F) m Q E
  Runs-given rest = record { at = λ w (p, f). (rest f).at w p }

-- The answer of a call, at the log that it leaves.
pub call_answer :
    (env : Env) {A : Type 0} (e : Event) (answer : List Event → Result A) (w : World) (a : A)
    → (call env e answer w).0 ≡ ok a
    → answer (call env e answer w).1.log ≡ ok a
unfolding call
call_answer env e answer w a h = h

module _ (env : Env) {A : Type 0} {P Q E : Trace → Type 0} where
  -- A call that counts adds its event, and its answer is that at the log which then is.
  pub Runs-call_answer :
      (e : Event) (answer : List Event → Result A) (effects : List Event)
      → is_loud e ≡ true
      → ((t : Trace) → P t → Q (record t { effects = e ∷ t.effects }))
      → ((t : Trace) → Q t → E t)
      → ((t : Trace) → Q t → t.effects ≡ effects)
      → Runs P (call env e answer) (λ a t. Q t × Answered answer effects a) E
  unfolding call
  Runs-call_answer e answer effects loud add weaken at = record {
    at = λ w p. ends (answer (e ∷ w.log)) (call env e answer w).1 refl (rw loud (add (trace w) p));
  }
    where
      ends :
          (r : Result A) (w : World)
          → answer w.log ≡ r
          → Q (trace w)
          → Ends (λ a t. Q t × Answered answer effects a) E r (trace w)
      ends (ok a) w h q = (q, (w.log, at (trace w) q, h))
      ends (err x) w h q = weaken (trace w) q
