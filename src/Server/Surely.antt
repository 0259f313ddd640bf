-- ===== src/Server/Surely.antt =====
-- Actions that are sure to return, and what every return reaches.
use auto_vpn.Base.{◌≡◌, refl, sym, subst, Bool, true, false, Option, none, some, if◌then◌else◌}
use auto_vpn.Db.{
  Result, ok, err, Error, Action, raise, gets, catch, continue_with, handle, Gives, After, ◌>>=◌,
}

-- The action returns, and leaves `Q`.
pub record Surely {S : Type 0} (m : Action S (Unit {0})) (Q : S → Type 0) : Type 0 where
  pub at : (s : S) → ((m s).0 ≡ ok tt) × Q (m s).1

-- Whenever the action returns, it leaves `Q`.
abbrev pub Reaches : {S A : Type 0} → Action S A → (S → Type 0) → Type 0
Reaches m Q = Gives (λ _. Unit) m (λ _. Q)

module _ {S A B : Type 0} {Q : S → Type 0} where
  -- What comes first does not matter.
  pub Reaches-bind :
      (m : Action S A) (f : A → Action S B) → ((a : A) → Reaches (f a) Q) → Reaches (m >>= f) Q
  unfolding ◌>>=◌
  Reaches-bind m f rest = record { at = λ s p. ends (m s).0 (m s).1 }
    where
      ends :
          (r : Result A) (s : S)
          → After (λ _. Q) (continue_with f (r, s)).0 (continue_with f (r, s)).1
      ends (ok a) s = (rest a).at s tt
      ends (err e) s = tt

module _ {S A : Type 0} {Q : S → Type 0} where
  pub Reaches-raise : (e : Error) → Reaches (raise {S = S} {A = A} e) Q
  unfolding ◌>>=◌
  Reaches-raise e = record { at = λ s p. tt }

  pub Reaches-if :
      (b : Bool) (m n : Action S A) → Reaches m Q → Reaches n Q → Reaches (if b then m else n) Q
  Reaches-if true m n qm qn = qm
  Reaches-if false m n qm qn = qn

module _ {S : Type 0} {Q : S → Type 0} where
  pub Surely-Reaches : (m : Action S (Unit {0})) → Surely m Q → Reaches m Q
  Surely-Reaches m sure = record {
    at = λ s p. subst (λ r. After (λ _. Q) r (m s).1) (sym (sure.at s).0) (sure.at s).1;
  }

  -- A handler that is sure to reach `Q` makes the whole sure of it.
  pub Surely-catch :
      (m : Action S (Unit {0})) (h : Error → Action S (Unit {0}))
      → Reaches m Q
      → ((e : Error) → Surely (h e) Q)
      → Surely (catch m h) Q
  unfolding ◌>>=◌
  Surely-catch m h run rescue = record { at = λ s. ends (m s).0 (m s).1 (run.at s tt) }
    where
      ends :
          (r : Result (Unit {0})) (s : S)
          → After (λ _. Q) r s
          → ((handle h (r, s)).0 ≡ ok tt) × Q (handle h (r, s)).1
      ends (ok a) s q = (refl, q)
      ends (err e) s q = (rescue e).at s

  pub Surely-gets :
      {A : Type 0} (g : S → A) (f : A → Action S (Unit {0}))
      → ((a : A) → Surely (f a) Q)
      → Surely (gets g >>= f) Q
  unfolding ◌>>=◌
  Surely-gets g f rest = record { at = λ s. (rest (g s)).at s }

  pub Surely-if :
      (b : Bool) (m n : Action S (Unit {0}))
      → Surely m Q
      → Surely n Q
      → Surely (if b then m else n) Q
  Surely-if true m n qm qn = qm
  Surely-if false m n qm qn = qn

pub ruleset closing_rules = (
  Reaches-bind, Reaches-raise, Reaches-if, Surely-Reaches, Surely-catch, Surely-gets, Surely-if,
  refl,
)
