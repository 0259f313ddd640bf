-- ===== src/Db/Rules.antt =====
-- Partial correctness of actions: from `P`, an action that returns leaves `Q`. A transaction that
-- raises leaves the state as it was.
use auto_vpn.Base.{
  ◌≡◌, ◌≢◌, refl, sym, subst, ap, Bool, true, false, Option, none, some, if◌then◌else◌,
}
use auto_vpn.Db.Monad.{
  Result, ok, err, Error, Action, pure, raise, gets, or_raise, of_result, modify, raise_if, when,
  get_db, settle, case_option, catch, handle, continue_with, ◌>>=◌,
}

abbrev pub After : {S A : Type 0} → (A → S → Type 0) → Result A → S → Type 0
After Q (ok a) s = Q a s
After Q (err e) s = Unit

pub record Gives {S A : Type 0} (P : S → Type 0) (m : Action S A) (Q : A → S → Type 0)
    : Type 0 where
  pub at : (s : S) → P s → After Q (m s).0 (m s).1

module _ {S A : Type 0} {P : S → Type 0} where
  pub Gives-pure : (a : A) {Q : A → S → Type 0} → ((s : S) → P s → Q a s) → Gives P (pure a) Q
  unfolding ◌>>=◌
  Gives-pure a give = record { at = give }

  pub Gives-raise : (e : Error) {Q : A → S → Type 0} → Gives P (raise e) Q
  unfolding ◌>>=◌
  Gives-raise e = record { at = λ s p. tt }

  pub Gives-gets : (f : S → A) → Gives P (gets f) (λ a s. P s × (a ≡ f s))
  unfolding ◌>>=◌
  Gives-gets f = record { at = λ s p. (p, refl) }

  -- Where the value that is read does not matter.
  pub Gives-read : (f : S → A) → Gives P (gets f) (λ _. P)
  unfolding ◌>>=◌
  Gives-read f = record { at = λ s p. p }

  pub Gives-or_raise :
      (o : Option A) (e : Error) → Gives P (or_raise o e) (λ a s. P s × (o ≡ some a))
  unfolding ◌>>=◌
  Gives-or_raise none e = record { at = λ s p. tt }
  Gives-or_raise (some a) e = record { at = λ s p. (p, refl) }

  pub Gives-of_result : (r : Result A) → Gives P (of_result r) (λ a s. P s × (r ≡ ok a))
  unfolding ◌>>=◌
  Gives-of_result (ok a) = record { at = λ s p. (p, refl) }
  Gives-of_result (err e) = record { at = λ s p. tt }

  pub Gives-weaken :
      {m : Action S A} {Q R : A → S → Type 0}
      → Gives P m Q
      → ((a : A) (s : S) → Q a s → R a s)
      → Gives P m R
  Gives-weaken {m} {Q} {R} run give = record { at = λ s p. ends (m s).0 (m s).1 (run.at s p) }
    where
      ends : (r : Result A) (s : S) → After Q r s → After R r s
      ends (ok a) s q = give a s q
      ends (err e) s q = tt

  pub Gives-if :
      (b : Bool) {m n : Action S A} {Q : A → S → Type 0}
      → Gives P m Q
      → Gives P n Q
      → Gives P (if b then m else n) Q
  Gives-if true m n = m
  Gives-if false m n = n

module _ {S : Type 0} {P : S → Type 0} where
  pub Gives-modify :
      (f : S → S) {Q : S → Type 0} → ((s : S) → P s → Q (f s)) → Gives P (modify f) (λ _. Q)
  unfolding ◌>>=◌
  Gives-modify f give = record { at = give }

  pub Gives-raise_if : (b : Bool) (e : Error) → Gives P (raise_if b e) (λ _ s. P s × (b ≡ false))
  unfolding ◌>>=◌
  Gives-raise_if true e = record { at = λ s p. tt }
  Gives-raise_if false e = record { at = λ s p. (p, refl) }

  pub Gives-when :
      (b : Bool) {m : Action S (Unit {0})} → Gives P m (λ _. P) → Gives P (when b m) (λ _. P)
  unfolding ◌>>=◌
  Gives-when true run = record { at = λ s p. run.at s p }
  Gives-when false run = record { at = λ s p. p }

module _ {S A B : Type 0} {P : S → Type 0} where
  pub Gives-bind :
      {m : Action S A} {f : A → Action S B} {R : A → S → Type 0} {Q : B → S → Type 0}
      → Gives P m R
      → ((a : A) → Gives (R a) (f a) Q)
      → Gives P (m >>= f) Q
  unfolding ◌>>=◌
  Gives-bind {m} {f} {R} {Q} first rest = record { at = λ s p. ends (m s).0 (m s).1 (first.at s p) }
    where
      ends :
          (r : Result A) (s : S)
          → After R r s
          → After Q (continue_with f (r, s)).0 (continue_with f (r, s)).1
      ends (ok a) s q = (rest a).at s q
      ends (err e) s q = tt

  pub Gives-case_option :
      (o : Option A) {m : Action S B} {f : A → Action S B} {Q : B → S → Type 0}
      → Gives P m Q
      → ((a : A) → Gives P (f a) Q)
      → Gives P (case_option o m f) Q
  Gives-case_option none m f = m
  Gives-case_option (some a) m f = f a

  -- The same, with what the branch tells.
  pub Gives-case_known :
      (o : Option A) {m : Action S B} {f : A → Action S B} {Q : B → S → Type 0}
      → (o ≡ none → Gives P m Q)
      → ((a : A) → Gives P (f a) Q)
      → Gives P (case_option o m f) Q
  Gives-case_known none m f = m refl
  Gives-case_known (some a) m f = f a

-- `P` holds after the action, whether it returns or raises.
pub record Keeps {S A : Type 0} (P : S → Type 0) (m : Action S A) : Type 0 where
  pub at : (s : S) → P s → P (m s).1

-- An invariant that every returning body restores is kept by the transaction.
pub get_db-Keeps :
    {S A : Type 0} {P : S → Type 0} {m : Action S A} → Gives P m (λ _. P) → Keeps P (get_db m)
unfolding ◌>>=◌
get_db-Keeps {S = S} {A = A} {P = P} {m = m} run = record {
  at = λ s p. ends s (m s).0 (m s).1 p (run.at s p);
}
  where
    ends : (s : S) (r : Result A) (t : S) → P s → After (λ _. P) r t → P (settle s (r, t)).1
    ends s (ok a) t p q = q
    ends s (err e) t p q = p

-- An action that only reads.
pub Gives-still :
    {S A : Type 0} {P : S → Type 0} {m : Action S A} → ((s : S) → (m s).1 ≡ s) → Gives P m (λ _. P)
Gives-still {S = S} {A = A} {P = P} {m = m} still = record {
  at = λ s p. ends (m s).0 (m s).1 (subst P (sym (still s)) p);
}
  where
    ends : (r : Result A) (t : S) → P t → After (λ _. P) r t
    ends (ok a) t p = p
    ends (err e) t p = tt

-- An action that keeps `P`, however it ends.
pub Gives-kept :
    {S A : Type 0} {P : S → Type 0} {m : Action S A}
    → ((s : S) → P s → P (m s).1)
    → Gives P m (λ _. P)
Gives-kept {S = S} {A = A} {P = P} {m = m} keep = record {
  at = λ s p. ends (m s).0 (m s).1 (keep s p);
}
  where
    ends : (r : Result A) (t : S) → P t → After (λ _. P) r t
    ends (ok a) t p = p
    ends (err e) t p = tt

-- A check before a transaction leaves the state alone.
pub Keeps-of_result : {S A : Type 0} {P : S → Type 0} (r : Result A) → Keeps P (of_result r)
unfolding ◌>>=◌
Keeps-of_result r = record { at = λ s p. p }

pub Keeps-raise_if : {S : Type 0} {P : S → Type 0} (b : Bool) (e : Error) → Keeps P (raise_if b e)
unfolding ◌>>=◌
Keeps-raise_if true e = record { at = λ s p. p }
Keeps-raise_if false e = record { at = λ s p. p }

pub Keeps-bind :
    {S A B : Type 0} {P : S → Type 0} {m : Action S A} {f : A → Action S B}
    → Keeps P m
    → ((a : A) → Keeps P (f a))
    → Keeps P (m >>= f)
unfolding ◌>>=◌
Keeps-bind {S = S} {A = A} {P = P} {m = m} {f = f} first rest = record {
  at = λ s p. ends (m s).0 (m s).1 (first.at s p);
}
  where
    ends : (r : Result A) (t : S) → P t → P (continue_with f (r, t)).1
    ends (ok a) t p = (rest a).at t p
    ends (err e) t p = p

-- What a transaction gives when it returns.
pub Gives-get_db :
    {S A : Type 0} {P : S → Type 0} {m : Action S A} {Q : A → S → Type 0}
    → Gives P m Q
    → Gives P (get_db m) Q
unfolding ◌>>=◌
Gives-get_db {S = S} {A = A} {P = P} {m = m} {Q = Q} run = record {
  at = λ s p. ends s (m s).0 (m s).1 (run.at s p);
}
  where
    ends :
        (s : S) (r : Result A) (t : S)
        → After Q r t
        → After Q (settle s (r, t)).0 (settle s (r, t)).1
    ends s (ok a) t q = q
    ends s (err e) t q = tt

pub Gives-from :
    {S A : Type 0} {P R : S → Type 0} {m : Action S A} {Q : A → S → Type 0}
    → ((s : S) → P s → R s)
    → Gives R m Q
    → Gives P m Q
Gives-from have run = record { at = λ s p. run.at s (have s p) }

-- What a sequence of two actions that returns has done.
pub bind_ok :
    {S A B : Type 0} (m : Action S A) (f : A → Action S B) (s : S) (b : B)
    → ((m >>= f) s).0 ≡ ok b
    → (a : A) × ((m s).0 ≡ ok a) × ((f a (m s).1).0 ≡ ok b)
unfolding ◌>>=◌
bind_ok {S = S} {A = A} {B = B} m f s b e = ends (m s).0 (m s).1 e
  where
    ends :
        (r : Result A) (t : S)
        → (continue_with f (r, t)).0 ≡ ok b
        → (a : A) × (r ≡ ok a) × ((f a t).0 ≡ ok b)
    ends (ok a) t e = (a, refl, e)
    ends (err x) t e = absurd (cc)

-- An action whose first part returns goes on from there.
pub bind_from :
    {S A B : Type 0} (m : Action S A) (f : A → Action S B) (s : S) (a : A)
    → (m s).0 ≡ ok a
    → (m >>= f) s ≡ f a (m s).1
unfolding ◌>>=◌
bind_from {S = S} {A = A} {B = B} m f s a e = ends (m s).0 (m s).1 e
  where
    ends : (r : Result A) (t : S) → r ≡ ok a → continue_with f (r, t) ≡ f a t
    ends r t e = ap (λ r. continue_with f (r, t)) e

-- The same, with where it leads.
pub bind_ran :
    {S A B : Type 0} (m : Action S A) (f : A → Action S B) (s : S) (b : B)
    → ((m >>= f) s).0 ≡ ok b
    → (a : A) × ((m s).0 ≡ ok a) × ((m >>= f) s ≡ f a (m s).1) × ((f a (m s).1).0 ≡ ok b)
unfolding ◌>>=◌
bind_ran {S = S} {A = A} {B = B} m f s b e = ends (m s).0 (m s).1 e
  where
    ends :
        (r : Result A) (t : S)
        → (continue_with f (r, t)).0 ≡ ok b
        → (a : A) × (r ≡ ok a) × (continue_with f (r, t) ≡ f a t) × ((f a t).0 ≡ ok b)
    ends (ok a) t e = (a, refl, refl, e)
    ends (err x) t e = absurd (cc)

pub pure_ran :
    {S A : Type 0} (a : A) (s : S) (b : A) → (pure a s).0 ≡ ok b → (b ≡ a) × ((pure a s).1 ≡ s)
unfolding ◌>>=◌
pure_ran a s b e = (cc, refl)

pub raise_if_ok :
    {S : Type 0} (b : Bool) (e : Error) (s : S) (u : Unit {0})
    → (raise_if b e s).0 ≡ ok u
    → b ≡ false
unfolding ◌>>=◌
raise_if_ok true e s u h = absurd (cc)
raise_if_ok false e s u h = refl

-- A handler that never returns has not run where there is a value.
pub catch_ok :
    {S A : Type 0} (m : Action S A) (h : Error → Action S A) (s : S) (a : A)
    → ((e : Error) (t : S) (b : A) → (h e t).0 ≢ ok b)
    → (catch m h s).0 ≡ ok a
    → ((m s).0 ≡ ok a) × (catch m h s ≡ m s)
unfolding ◌>>=◌
catch_ok {S = S} {A = A} m h s a never e = ends (m s).0 (m s).1 e
  where
    ends :
        (r : Result A) (t : S)
        → (handle h (r, t)).0 ≡ ok a
        → (r ≡ ok a) × (handle h (r, t) ≡ (r, t))
    ends (ok b) t e = (e, refl)
    ends (err x) t e = absurd (never x t a e)

pub of_result_ok :
    {S A : Type 0} (r : Result A) (s : S) (a : A) → (of_result r s).0 ≡ ok a → r ≡ ok a
unfolding ◌>>=◌
of_result_ok r s a e = e

pub modify_after : {S : Type 0} (f : S → S) (s : S) → (modify f s).1 ≡ f s
unfolding ◌>>=◌
modify_after f s = refl

pub of_result_after : {S A : Type 0} (r : Result A) (s : S) → (of_result r s).1 ≡ s
unfolding ◌>>=◌
of_result_after r s = refl

pub raise_if_after : {S : Type 0} (b : Bool) (e : Error) (s : S) → (raise_if b e s).1 ≡ s
unfolding ◌>>=◌
raise_if_after true e s = refl
raise_if_after false e s = refl

pub bind_err :
    {S A B : Type 0} (m : Action S A) (f : A → Action S B) (s t : S) (e : Error)
    → m s ≡ (err e, t)
    → (m >>= f) s ≡ (err e, t)
unfolding ◌>>=◌
bind_err m f s t e h = ap (continue_with f) h
