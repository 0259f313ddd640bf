-- ===== src/ApplyResults/Single.antt =====
-- One result to each key of a credential (app/router_apply_results.py).
use auto_vpn.Base.{
  ℕ, ◌≡◌, refl, sym, ap, ◌∙◌, String, Bool, true, false, not, ◌&&◌, List, [], ◌∷◌, Option, none,
  some, inl, inr, str_eq, find, any, arith,
}
use auto_vpn.Db.{Db, Snapshot, RouterApplyResult, ok}
use auto_vpn.ApplyResults.{Json}
use auto_vpn.ApplyResults.Record.{
  ValidatedRouterApplyResult, StoredRouterApplyResult, is_about, record_router_apply_result,
}
use auto_vpn.ApplyResults.Replay.{recorded}

-- No credential has two results under one key.
abbrev pub is_single : List RouterApplyResult → Bool
is_single [] = true
is_single (r ∷ rs) =
    not (
      any
        (λ s. str_eq s.credential_id r.credential_id && str_eq s.idempotency_key r.idempotency_key)
        rs)
    && is_single rs

none_like :
    (i key : String) (rows : List RouterApplyResult)
    → find (λ r. str_eq r.credential_id i && str_eq r.idempotency_key key) rows ≡ none
    → any (λ r. str_eq r.credential_id i && str_eq r.idempotency_key key) rows ≡ false
none_like i key [] e = refl
none_like i key (r ∷ rows) e = ground (arith, none_like i key rows)

about_revision :
    (result : ValidatedRouterApplyResult) (current : ℕ) (snapshot : Option Snapshot)
    → is_about result current snapshot ≡ true
    → result.revision ≡ current
about_revision result current none e = absurd (ground arith)
about_revision result current (some s) e = ground arith

-- A report that is taken, now or again, is about the applied revision, and leaves
-- at most one result to each key of a credential if there was at most one before.
pub record_is_single :
    (json_text : Json → String) (now : ℕ) (i key : String) (result : ValidatedRouterApplyResult)
    (etag : String) (db : Db) (stored : StoredRouterApplyResult)
    → (record_router_apply_result json_text now i key result etag db).0 ≡ ok stored
    → is_single db.apply_results ≡ true
    → (db.vpn_state.applied_revision ≡ some result.revision)
      × (is_single (record_router_apply_result json_text now i key result etag db).1.apply_results
          ≡ true)
record_is_single json_text now i key result etag db stored e h =
    let (current, (a, k, s, way)) = recorded json_text now i key result etag db stored e in
    (
      a ∙ ap some (sym (about_revision result current _ s)),
      elim way [
        | inl (g, f, after) ↦ rw (after) (ground (arith, none_like i key db.apply_results g))
        | inr (row, g, b, t, f, after) ↦ rw (after) h
      ],
    )
