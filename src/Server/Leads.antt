-- ===== src/Server/Leads.antt =====
-- Where an action leads, whether it returns or raises.
use auto_vpn.Base.{◌≡◌, refl, Bool, true, false, Option, none, some, if◌then◌else◌}
use auto_vpn.Db.{
  Result, ok, err, Error, Action, pure, raise, gets, modify, raise_if, when, catch, case_option,
  continue_with, handle, ◌>>=◌,
}

-- From `P`, the action leaves `Q`, however it ends.
pub record Leads {S A : Type 0} (P : S → Type 0) (m : Action S A) (Q : S → Type 0) : Type 0 where
  pub at : (s : S) → P s → Q (m s).1

module _ {S A : Type 0} {Q : S → Type 0} where
  pub Leads-pure : (a : A) → Leads Q (pure a) Q
  unfolding ◌>>=◌
  Leads-pure a = record { at = λ s p. p }

  pub Leads-raise : (e : Error) → Leads Q (raise {S = S} {A = A} e) Q
  unfolding ◌>>=◌
  Leads-raise e = record { at = λ s p. p }

  pub Leads-gets : (f : S → A) → Leads Q (gets f) Q
  unfolding ◌>>=◌
  Leads-gets f = record { at = λ s p. p }

  pub Leads-if :
      (b : Bool) (m n : Action S A) → Leads Q m Q → Leads Q n Q → Leads Q (if b then m else n) Q
  Leads-if true m n qm qn = qm
  Leads-if false m n qm qn = qn

module _ {S : Type 0} {Q : S → Type 0} where
  pub Leads-raise_if : (b : Bool) (e : Error) → Leads Q (raise_if {S = S} b e) Q
  unfolding ◌>>=◌
  Leads-raise_if true e = record { at = λ s p. p }
  Leads-raise_if false e = record { at = λ s p. p }

  pub Leads-modify : (f : S → S) → ((s : S) → Q s → Q (f s)) → Leads Q (modify f) Q
  unfolding ◌>>=◌
  Leads-modify f give = record { at = give }

  pub Leads-when : (b : Bool) (m : Action S (Unit {0})) → Leads Q m Q → Leads Q (when b m) Q
  unfolding ◌>>=◌
  Leads-when true m q = record { at = λ s p. q.at s p }
  Leads-when false m q = record { at = λ s p. p }

module _ {S A B : Type 0} {P Q : S → Type 0} where
  pub Leads-bind :
      (m : Action S A) (f : A → Action S B)
      → Leads P m Q
      → ((a : A) → Leads Q (f a) Q)
      → Leads P (m >>= f) Q
  unfolding ◌>>=◌
  Leads-bind m f first rest = record { at = λ s p. ends (m s).0 (m s).1 (first.at s p) }
    where
      ends : (r : Result A) (s : S) → Q s → Q (continue_with f (r, s)).1
      ends (ok a) s q = (rest a).at s q
      ends (err e) s q = q

module _ {S A : Type 0} {P Q : S → Type 0} where
  pub Leads-catch :
      (m : Action S A) (h : Error → Action S A)
      → Leads P m Q
      → ((e : Error) → Leads Q (h e) Q)
      → Leads P (catch m h) Q
  unfolding ◌>>=◌
  Leads-catch m h run rescue = record { at = λ s p. ends (m s).0 (m s).1 (run.at s p) }
    where
      ends : (r : Result A) (s : S) → Q s → Q (handle h (r, s)).1
      ends (ok a) s q = q
      ends (err e) s q = (rescue e).at s q

module _ {S A B : Type 0} {Q : S → Type 0} where
  pub Leads-case_option :
      (o : Option A) (m : Action S B) (f : A → Action S B)
      → Leads Q m Q
      → ((a : A) → Leads Q (f a) Q)
      → Leads Q (case_option o m f) Q
  Leads-case_option none m f qm qf = qm
  Leads-case_option (some a) m f qm qf = qf a

pub ruleset leads_rules = (
  Leads-pure, Leads-raise, Leads-gets, Leads-if, Leads-raise_if, Leads-when, Leads-bind,
  Leads-catch, Leads-case_option, refl,
)
