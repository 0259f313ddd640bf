-- ===== src/Snapshots/Hold.antt =====
-- The hold: while an IP change waits for a manual check, no other one is prepared.
use auto_vpn.Base.{
  ℕ, ◌≡◌, ◌≢◌, refl, sym, Bool, true, false, String, List, [], ◌∷◌, Option, none, some, ◌==◌, ◌&&◌,
  find, any, update_where, arith,
}
use auto_vpn.Db.{
  Db, safety_hold, IpChangeOperation, is_active, get_operation, Action, Error, Result, ok, err,
  pure, raise, get_db, settle, case_option, ◌>>=◌, Gives, After, Gives-bind, Gives-read,
  Gives-raise_if, Gives-gets, Gives-raise, Gives-case_option, Gives-pure, Gives-weaken,
}
use auto_vpn.Config.{Platform}
use auto_vpn.Lease.{
  fail_owner, fail_ip_change, interrupt_ip_change, external_action_started, awaits_ssh,
}
use auto_vpn.Operations.{ip_owner}
use auto_vpn.Review.Reads.{validate_ssh_decision-Gives, validate_review-Gives}
use auto_vpn.Snapshots.{is_unresolved, check_ip_change, prepare_ip_change_operation}

find-any :
    {A : Type 0} (p q : A → Bool) (xs : List A) (x : A)
    → find q xs ≡ some x
    → p x ≡ true
    → any p xs ≡ true
find-any p q [] x e h = absurd (ground arith)
find-any p q (y ∷ ys) x e h = ground (arith, find-any p q ys x)

any-find : {A : Type 0} (p : A → Bool) (xs : List A) → any p xs ≡ true → find p xs ≢ none
any-find p [] h = ground arith
any-find p (x ∷ xs) h = ground (arith, any-find p xs)

-- An operation that has to be checked is among the rows.
abbrev IsHeld : Db → Type 0
IsHeld db = any is_unresolved db.ip_changes ≡ true

-- Nothing leaves the refusals while an operation is held.
check_ip_change-IsHeld :
    (platform : Platform) (review decision : Option ℕ)
    → Gives IsHeld (check_ip_change platform review decision) (λ _ _. ⊥)
unfolding check_ip_change
check_ip_change-IsHeld platform review decision =
    Gives-bind (Gives-weaken (Gives-raise_if _ _) (λ a db h. h.0)) λ _.
      Gives-bind
        (Gives-case_option decision (Gives-pure tt (λ s h. h)) λ i.
          Gives-bind (validate_ssh_decision-Gives platform false i) λ _. Gives-pure tt (λ s h. h))
        λ _. Gives-bind (Gives-read _) λ waiting.
          Gives-bind (Gives-weaken (Gives-raise_if _ _) (λ a db h. h.0)) λ _.
            Gives-bind
              (Gives-case_option review (Gives-pure tt (λ s h. h))
                λ i. Gives-bind (validate_review-Gives platform i) λ _. Gives-pure tt (λ s h. h))
              λ _. Gives-bind (Gives-gets _) λ unresolved. ends unresolved
  where
    ends :
        (unresolved : Option IpChangeOperation)
        → Gives
            (λ db. IsHeld db × (unresolved ≡ find is_unresolved db.ip_changes))
            (case_option unresolved (pure tt) (λ r. raise (safety_hold r.id)))
            (λ _ _. ⊥)
    ends none = Gives-pure tt (λ db h. any-find is_unresolved db.ip_changes h.0 (sym h.1))
    ends (some r) = Gives-raise _

refused :
    {S A : Type 0} {P : S → Type 0} (m : Action S A)
    → Gives P m (λ _ _. ⊥)
    → (s : S) → P s
    → (e : Error) × (get_db m s ≡ (err e, s))
unfolding ◌>>=◌
refused {S} {A} {P} m never s p = ends (m s).0 (m s).1 (never.at s p)
  where
    ends :
        (r : Result A) (t : S) → After (λ _ _. ⊥) r t → (e : Error) × (settle s (r, t) ≡ (err e, s))
    ends (ok a) t never_returns = absurd never_returns
    ends (err e) t done = (e, refl)

prepare_refused :
    (platform : Platform) (now : ℕ) (review decision : Option ℕ) (db : Db)
    → IsHeld db
    → (e : Error) × (prepare_ip_change_operation platform now review decision db ≡ (err e, db))
unfolding prepare_ip_change_operation
prepare_refused platform now review decision db held =
    refused _
      (Gives-bind (check_ip_change-IsHeld platform review decision)
        λ _. record { at = λ s never. absurd never })
      db held

interrupted_IsHeld :
    (reason : String) (at i : ℕ) (rows : List IpChangeOperation) (r : IpChangeOperation)
    → find (λ q. q.id == i) rows ≡ some r
    → is_active r.status ≡ true
    → external_action_started r ≡ true
    → awaits_ssh r ≡ false
    → any is_unresolved
        (update_where (λ q. q.id == i && is_active q.status) (interrupt_ip_change reason at) rows)
      ≡ true
unfolding interrupt_ip_change
interrupted_IsHeld reason at i [] r found active started silent = absurd (ground arith)
interrupted_IsHeld reason at i (q ∷ rows) r found active started silent =
    ground (arith, interrupted_IsHeld reason at i rows r)

-- An IP change that loses its lease after a purchase, a move or a deployment has begun, and does not
-- merely wait for SSH, holds back every later IP change: none is prepared, with whatever decision,
-- and the attempt changes nothing.
pub interrupted_holds :
    (platform : Platform) (now i at : ℕ) (reason : String) (review decision : Option ℕ) (db : Db)
    (r : IpChangeOperation)
    → get_operation i db ≡ some r
    → is_active r.status ≡ true
    → external_action_started r ≡ true
    → awaits_ssh r ≡ false
    → (e : Error) × (prepare_ip_change_operation platform now review decision
          (fail_owner (ip_owner i) reason at db)
        ≡ (err e, fail_owner (ip_owner i) reason at db))
unfolding fail_owner fail_ip_change
interrupted_holds platform now i at reason review decision db r found active started silent =
    prepare_refused platform now review decision (fail_owner (ip_owner i) reason at db) held
  where
    held : IsHeld (fail_owner (ip_owner i) reason at db)
    held = interrupted_IsHeld reason at i db.ip_changes r found active started silent
