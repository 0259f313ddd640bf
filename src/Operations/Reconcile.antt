-- ===== src/Operations/Reconcile.antt =====
-- Reconciliation of an IP change that is held for a manual check (app/db.py).
use auto_vpn.Base.{
  ℕ, ◌≡◌, refl, ◌∙◌, ◌≢◌, Bool, true, false, not, ◌&&◌, String, none, some, inl, inr, ◌⊎◌,
  Bool-cases, Option-cases, find-update, arith, strip, truncate,
}
use auto_vpn.Db.{Db, is_terminal, ActionState, is_reconciled, IpChangeOperation, get_operation, ok}
use auto_vpn.Lease.{iso}
use auto_vpn.Operations.{reconcile_ip_operation, is_hold, write_reconciled}

-- An operation that waits for a person: it has ended, in doubt, and is not reconciled.
abbrev pub needs_reconciliation : IpChangeOperation → Bool
needs_reconciliation r = is_terminal r.status && (is_hold r && not (is_reconciled r.action_state))

-- Reconciliation is accepted exactly for an operation that needs it, changes its row alone, and is
-- accepted once; a refusal changes nothing.
pub reconcile_outcome :
    (now i : ℕ) (note : String) (db : Db) (r : IpChangeOperation)
    → get_operation i db ≡ some r
    → (((needs_reconciliation r ≡ true)
          × (reconcile_ip_operation now i note db ≡ (ok tt, write_reconciled now i note db)))
        ⊎ ((needs_reconciliation r ≡ false)
            × ((reconcile_ip_operation now i note db).0 ≢ ok tt)
            × ((reconcile_ip_operation now i note db).1 ≡ db)))
unfolding reconcile_ip_operation
reconcile_outcome now i note db r e = elim (Bool-cases (needs_reconciliation r)) [
  | inl needed ↦ inl (needed, ground arith)
  | inr refused ↦ inr (refused, ground arith, ground arith)
]

reconcile_missing :
    (now i : ℕ) (note : String) (db : Db)
    → get_operation i db ≡ none
    → (reconcile_ip_operation now i note db).0 ≢ ok tt
unfolding reconcile_ip_operation
reconcile_missing now i note db e = ground arith

abbrev reconciled_row : ℕ → String → IpChangeOperation → IpChangeOperation
reconciled_row now note r = record r {
  action_state = ActionState.reconciled;
  reconciled_at = some (iso now);
  reconciliation_note = some (truncate 500 (strip note));
  updated_at = iso now;
}

get_operation-write_reconciled :
    (now i : ℕ) (note : String) (db : Db) (r : IpChangeOperation)
    → get_operation i db ≡ some r
    → get_operation i (write_reconciled now i note db) ≡ some (reconciled_row now note r)
get_operation-write_reconciled now i note db r e =
    find-update (λ q. q.id) needs_reconciliation (reconciled_row now note) (λ q. refl) i
      db.ip_changes
    ∙ rw e

refused_later :
    (later i : ℕ) (other : String) (db : Db) (r : IpChangeOperation)
    → get_operation i db ≡ some r
    → needs_reconciliation r ≡ false
    → (reconcile_ip_operation later i other db).0 ≢ ok tt
refused_later later i other db r e settled = elim (reconcile_outcome later i other db r e) [
  | inl (needed, _) ↦ absurd (ground arith)
  | inr (_, refused, _) ↦ refused
]

-- An IP change is reconciled once: a second attempt, at any time and with any note, is refused.
pub reconcile_once :
    (now later i : ℕ) (note other : String) (db : Db)
    → (reconcile_ip_operation now i note db).0 ≡ ok tt
    → (reconcile_ip_operation later i other (reconcile_ip_operation now i note db).1).0 ≢ ok tt
reconcile_once now later i note other db accepted = elim (Option-cases (get_operation i db)) [
  | inl missing ↦ absurd (reconcile_missing now i note db missing accepted)
  | inr (r, e) ↦ elim (reconcile_outcome now i note db r e) [
    | inr (_, refused, _) ↦ absurd (refused accepted)
    | inl (_, done) ↦ rw done (
        refused_later later i other (write_reconciled now i note db) (reconciled_row now note r)
          (get_operation-write_reconciled now i note db r e) (ground arith))
  ]
]
