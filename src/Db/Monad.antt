-- ===== src/Db/Monad.antt =====
-- State with exceptions. What was written before a raise stays written, but for a transaction,
-- which rolls back (app/db.py, get_db).
use auto_vpn.Base.{Bool, true, false, List, Option, none, some, String, ℕ, ◌≡◌, refl, ◌⊎◌, inl, inr}
use auto_vpn.Db.Vocabulary.{LeaseOwner}

-- The code of a RouterApplyConflictError.
pub data ConflictCode : Type 0 where
  snapshot_not_ready snapshot_conflict idempotency_conflict etag_mismatch : ConflictCode

-- RouterApiError (app/router_api.py): an HTTP answer. `extra` is the applied revision that some of
-- them tell, which may be unknown.
pub record RouterApiError : Type 0 where
  pub status_code : ℕ
  pub code : String
  pub message : String
  pub headers : List (String × String)
  pub extra : Option (Option ℕ)

-- The exceptions that the modelled code raises or receives, by what its handlers tell apart.
-- `decision_pending` and `safety_hold` are IpChangeSafetyHoldError, the latter with the operation
-- that it names; `integrity` is sqlite3.IntegrityError; `external` is whatever a library raises.
pub data Error : Type 0 where
  busy : LeaseOwner → Error
  decision_pending : Error
  safety_hold : ℕ → Error
  ip_change_error runtime_error value_error lookup_error external router_error validation_error :
      String → Error
  apply_conflict : ConflictCode → Option ℕ → Error
  router_api : RouterApiError → Error
  integrity timeout : Error

pub data Result {ℓ} (A : Type ℓ) : Type ℓ where
  ok : A → Result A
  err : Error → Result A

pub Result-cases :
    {A : Type 0} (r : Result A) → ((a : A) × (r ≡ ok a)) ⊎ ((e : Error) × (r ≡ err e))
Result-cases (ok a) = inl (a, refl)
Result-cases (err e) = inr (e, refl)

abbrev pub Action : Type 0 → Type 0 → Type 0
Action S A = S → Result A × S

module _ {S A : Type 0} where
  pub pure : A → Action S A
  pure a s = (ok a, s)

  pub raise : Error → Action S A
  raise e s = (err e, s)

  pub gets : (S → A) → Action S A
  gets f s = (ok (f s), s)

  pub or_raise : Option A → Error → Action S A
  or_raise none e s = (err e, s)
  or_raise (some a) e s = (ok a, s)

  pub of_result : Result A → Action S A
  of_result r s = (r, s)

  -- `with get_db() as db:` commits at the end and rolls back on an exception.
  abbrev pub settle : S → Result A × S → Result A × S
  settle before (ok a, after) = (ok a, after)
  settle before (err e, after) = (err e, before)

  pub get_db : Action S A → Action S A
  get_db m s = settle s (m s)

  -- `try: ... except Exception as exc: ...`, with the state as the exception left it.
  abbrev pub handle : (Error → Action S A) → Result A × S → Result A × S
  handle h (ok a, s) = (ok a, s)
  handle h (err e, s) = h e s

  pub catch : Action S A → (Error → Action S A) → Action S A
  catch m h s = handle h (m s)

module _ {S : Type 0} where
  pub modify : (S → S) → Action S (Unit {0})
  modify f s = (ok tt, f s)

  pub raise_if : Bool → Error → Action S (Unit {0})
  raise_if true e s = (err e, s)
  raise_if false e s = (ok tt, s)

  pub when : Bool → Action S (Unit {0}) → Action S (Unit {0})
  when true m s = m s
  when false m s = (ok tt, s)

-- A branch on whether there is a value.
abbrev pub case_option {ℓ κ} : {A : Type ℓ} {B : Type κ} → Option A → B → (A → B) → B
case_option none b f = b
case_option (some a) b f = f a

module _ {S A B : Type 0} where
  -- What follows an outcome.
  abbrev pub continue_with : (A → Action S B) → Result A × S → Result B × S
  continue_with f (ok a, s) = f a s
  continue_with f (err e, s) = (err e, s)

  infixl 5 ◌>>=◌ ◌>>◌
  -- Opening this opens the actions above too.
  unfoldable pub ◌>>=◌ : Action S A → (A → Action S B) → Action S B
  unfolding pure raise gets or_raise of_result get_db catch modify raise_if when
  ◌>>=◌ m f s = continue_with f (m s)

  abbrev pub ◌>>◌ : Action S A → Action S B → Action S B
  m >> k = m >>= λ _. k
