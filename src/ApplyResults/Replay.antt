-- ===== src/ApplyResults/Replay.antt =====
-- A report is kept once (app/router_apply_results.py, record_router_apply_result).
use text.Mathlib.TextPositions.{eq_refl}
use auto_vpn.Base.{
  ℕ, ◌≡◌, ◌⊎◌, ◌+◌, refl, sym, ap, ◌∙◌, String, true, false, ◌&&◌, List, ◌∷◌, Option, none, some,
  inl, inr, Bool-cases, Option-cases, str_eq, eq_iff, find, arith,
}
use auto_vpn.Db.{
  Db, RouterApplyResult, Result, ok, err, apply_conflict, ConflictCode, case_option, settle, ◌>>=◌,
}
use auto_vpn.ApplyResults.{Json}
use auto_vpn.ApplyResults.Record.{
  ValidatedRouterApplyResult, StoredRouterApplyResult, stored_result, get_apply_result,
  get_applied_snapshot, is_about, is_idempotency_key, is_insertable, new_apply_result,
  insert_apply_result, replay, record_router_apply_result,
}

module _ (json_text : Json → String) (now : ℕ) (i key : String)
    (result : ValidatedRouterApplyResult) (etag : String) where
  -- The two ways in which a report is taken.
  abbrev pub inserted : Db → Db
  inserted db = record db {
    apply_results = new_apply_result json_text now i key result etag db ∷ db.apply_results;
    next_apply_result = db.next_apply_result + 1;
  }

  abbrev pub Way : Db → StoredRouterApplyResult → Db → Type 0
  Way db stored after =
      ((get_apply_result i key db ≡ none)
        × (stored ≡ stored_result false (new_apply_result json_text now i key result etag db))
        × (after ≡ inserted db))
      ⊎ ((row : RouterApplyResult) × (get_apply_result i key db ≡ some row)
          × (str_eq row.body_sha256 result.body_sha256 ≡ true)
          × (str_eq row.snapshot_etag etag ≡ true)
          × (stored ≡ stored_result true row)
          × (after ≡ db))

  abbrev pub Taken : Db → StoredRouterApplyResult → Db → ℕ → Type 0
  Taken db stored after current =
      (db.vpn_state.applied_revision ≡ some current)
      × (is_idempotency_key key ≡ true)
      × (is_about result current (get_applied_snapshot current db) ≡ true)
      × Way db stored after

  replay-ok :
      (current : Option ℕ) (row : RouterApplyResult) (db : Db) (stored : StoredRouterApplyResult)
      → (replay current result etag row db).0 ≡ ok stored
      → (str_eq row.body_sha256 result.body_sha256 ≡ true)
        × (str_eq row.snapshot_etag etag ≡ true)
        × (stored ≡ stored_result true row)
        × ((replay current result etag row db).1 ≡ db)
  unfolding replay ◌>>=◌
  replay-ok current row db stored e =
      elim (Bool-cases (str_eq row.body_sha256 result.body_sha256)) [
        | inr b ↦ absurd (ground arith)
        | inl b ↦ elim (Bool-cases (str_eq row.snapshot_etag etag)) [
          | inr t ↦ absurd (ground arith)
          | inl t ↦ (b, t, ground arith, ground arith)
        ]
      ]

  insert-ok :
      (current : ℕ) (db : Db) (stored : StoredRouterApplyResult)
      → (insert_apply_result json_text now i key result etag current db).0 ≡ ok stored
      → (stored ≡ stored_result false (new_apply_result json_text now i key result etag db))
        × ((insert_apply_result json_text now i key result etag current db).1 ≡ inserted db)
  unfolding insert_apply_result ◌>>=◌
  insert-ok current db stored e =
      elim (Bool-cases (is_insertable (new_apply_result json_text now i key result etag db) db)) [
        | inr b ↦ absurd (ground arith)
        | inl b ↦ (ground arith, ground arith)
      ]

  -- What is done with a report once the checks before it have passed.
  abbrev reported : Option RouterApplyResult → ℕ → Db → Result StoredRouterApplyResult × Db
  reported existing current db = settle db (
      case_option existing (insert_apply_result json_text now i key result etag current)
        (replay (some current) result etag) db)

  record_lem :
      (db : Db) (current : ℕ)
      → db.vpn_state.applied_revision ≡ some current
      → is_idempotency_key key ≡ true
      → is_about result current (get_applied_snapshot current db) ≡ true
      → record_router_apply_result json_text now i key result etag db
        ≡ reported (get_apply_result i key db) current db
  unfolding record_router_apply_result ◌>>=◌
  record_lem db current a k s = elim (Option-cases (get_apply_result i key db)) [
    | inl g ↦ ground arith
    | inr (row, g) ↦ ground arith
  ]

  checked :
      (db : Db) (stored : StoredRouterApplyResult)
      → (record_router_apply_result json_text now i key result etag db).0 ≡ ok stored
      → (current : ℕ) × (db.vpn_state.applied_revision ≡ some current)
        × (is_idempotency_key key ≡ true)
        × (is_about result current (get_applied_snapshot current db) ≡ true)
  unfolding record_router_apply_result ◌>>=◌
  checked db stored e = elim (Bool-cases (is_idempotency_key key)) [
    | inr k ↦ absurd (ground arith)
    | inl k ↦ elim (Option-cases db.vpn_state.applied_revision) [
      | inl a ↦ absurd (ground arith)
      | inr (current, a) ↦
          elim (Bool-cases (is_about result current (get_applied_snapshot current db))) [
            | inr s ↦ absurd (ground arith)
            | inl s ↦ (current, a, k, s)
          ]
    ]
  ]

  settle-ok :
      (db : Db) (r : Result StoredRouterApplyResult × Db) {stored : StoredRouterApplyResult}
      → (settle db r).0 ≡ ok stored
      → (r.0 ≡ ok stored) × ((settle db r).1 ≡ r.1)
  settle-ok db (ok x, after) e = (e, refl)
  settle-ok db (err x, after) e = absurd (ground arith)

  pub recorded :
      (db : Db) (stored : StoredRouterApplyResult)
      → (record_router_apply_result json_text now i key result etag db).0 ≡ ok stored
      → (current : ℕ) × Taken db stored
          (record_router_apply_result json_text now i key result etag db).1
          current
  recorded db stored e =
      let (current, a, k, s) = checked db stored e in
      let same = record_lem db current a k s in
      (
        current,
        (
          a,
          k,
          s,
          way db stored current (get_apply_result i key db) refl _ same
              (sym (ap (λ r. r.0) same) ∙ e),
        ),
      )
    where
      way :
          (db : Db) (stored : StoredRouterApplyResult) (current : ℕ)
          (existing : Option RouterApplyResult)
          → get_apply_result i key db ≡ existing
          → (r : Result StoredRouterApplyResult × Db) → r ≡ reported existing current db
          → (reported existing current db).0 ≡ ok stored
          → Way db stored r.1
      way db stored current none g r same e =
          let (x, y) =
            settle-ok db (insert_apply_result json_text now i key result etag current db) e in
          let (f, after) = insert-ok current db stored x in
          inl (g, f, ap (λ r. r.1) same ∙ y ∙ after)
      way db stored current (some row) g r same e =
          let (x, y) = settle-ok db (replay (some current) result etag row db) e in
          let (b, t, f, after) = replay-ok (some current) row db stored x in
          inr (row, g, b, t, f, ap (λ r. r.1) same ∙ y ∙ after)

  replayed :
      (db : Db) (current : ℕ) (row : RouterApplyResult)
      → db.vpn_state.applied_revision ≡ some current
      → is_idempotency_key key ≡ true
      → is_about result current (get_applied_snapshot current db) ≡ true
      → get_apply_result i key db ≡ some row
      → str_eq row.body_sha256 result.body_sha256 ≡ true
      → str_eq row.snapshot_etag etag ≡ true
      → (later : ℕ)
      → record_router_apply_result json_text later i key result etag db
        ≡ (ok (stored_result true row), db)
  unfolding record_router_apply_result replay ◌>>=◌
  replayed db current row a k s g b t later = ground arith

  pub found_new :
      (row : RouterApplyResult) (rows : List RouterApplyResult)
      → row.credential_id ≡ i
      → row.idempotency_key ≡ key
      → find (λ r. str_eq r.credential_id i && str_eq r.idempotency_key key) (row ∷ rows) ≡ some row
  found_new row rows p q =
      ground (arith, eq_iff row.credential_id i, eq_iff row.idempotency_key key)

-- A key that is in use for something else.
module _ (json_text : Json → String) (now : ℕ) (i key : String)
    (result : ValidatedRouterApplyResult) (etag : String) where
  refused :
      (db : Db) (current : ℕ) (row : RouterApplyResult)
      → db.vpn_state.applied_revision ≡ some current
      → is_idempotency_key key ≡ true
      → get_apply_result i key db ≡ some row
      → (str_eq row.body_sha256 result.body_sha256 && str_eq row.snapshot_etag etag) ≡ false
      → (code : ConflictCode) × (current : ℕ) × (record_router_apply_result json_text now i key
            result etag db
          ≡ (err (apply_conflict code (some current)), db))
  unfolding record_router_apply_result replay ◌>>=◌
  refused db current row a k g other =
      elim (Bool-cases (is_about result current (get_applied_snapshot current db))) [
        | inr s ↦ (ConflictCode.snapshot_conflict, current, ground arith)
        | inl s ↦ elim (Bool-cases (str_eq row.body_sha256 result.body_sha256)) [
          | inr b ↦ (ConflictCode.idempotency_conflict, current, ground arith)
          | inl b ↦ (ConflictCode.etag_mismatch, current, ground arith)
        ]
      ]

-- Reporting is idempotent: where a report was taken, the same report under the same key and ETag at
-- any later time returns the same stored result, marked as replayed, and changes nothing.
pub record_is_idempotent :
    (json_text : Json → String) (now later : ℕ) (i key : String)
    (result : ValidatedRouterApplyResult) (etag : String) (db : Db)
    (stored : StoredRouterApplyResult)
    → (record_router_apply_result json_text now i key result etag db).0 ≡ ok stored
    → record_router_apply_result json_text later i key result etag
        (record_router_apply_result json_text now i key result etag db).1
      ≡ (
        ok (record stored { replayed = true }),
        (record_router_apply_result json_text now i key result etag db).1,
      )
record_is_idempotent json_text now later i key result etag db stored e =
    let (current, (a, k, s, way)) = recorded json_text now i key result etag db stored e in
    elim way [
      | inl (g, f, after) ↦
          let row = new_apply_result json_text now i key result etag db in
          rw (after, f)
            (replayed json_text now i key result etag _ current row a k s
              (found_new json_text now i key result etag row db.apply_results refl refl)
              (eq_refl result.body_sha256) (eq_refl etag) later)
      | inr (row, g, b, t, f, after) ↦
          rw (after, f) (replayed json_text now i key result etag db current row a k s g b t later)
    ]

-- A key is used for one report: where a report was taken, another body or another ETag under the same
-- key is refused at any later time as a conflict, whatever it reports, and nothing changes.
pub used_key_conflicts :
    (json_text : Json → String) (now later : ℕ) (i key : String)
    (result : ValidatedRouterApplyResult) (etag : String) (db : Db)
    (stored : StoredRouterApplyResult) (other : ValidatedRouterApplyResult) (tag : String)
    → (record_router_apply_result json_text now i key result etag db).0 ≡ ok stored
    → (str_eq result.body_sha256 other.body_sha256 && str_eq etag tag) ≡ false
    → (code : ConflictCode) × (current : ℕ) × (record_router_apply_result json_text later i key
          other tag
          (record_router_apply_result json_text now i key result etag db).1
        ≡ (
          err (apply_conflict code (some current)),
          (record_router_apply_result json_text now i key result etag db).1,
        ))
used_key_conflicts json_text now later i key result etag db stored other tag e differs =
    let (current, (a, k, s, way)) = recorded json_text now i key result etag db stored e in
    elim way [
      | inl (g, f, after) ↦
          let row = new_apply_result json_text now i key result etag db in
          rw after (
            refused json_text later i key other tag _ current row a k
              (found_new json_text now i key result etag row db.apply_results refl refl) differs)
      | inr (row, g, b, t, f, after) ↦ rw after (
          refused json_text later i key other tag db current row a k g (other_than row b t differs))
    ]
  where
    other_than :
        (row : RouterApplyResult)
        → str_eq row.body_sha256 result.body_sha256 ≡ true
        → str_eq row.snapshot_etag etag ≡ true
        → (str_eq result.body_sha256 other.body_sha256 && str_eq etag tag) ≡ false
        → (str_eq row.body_sha256 other.body_sha256 && str_eq row.snapshot_etag tag) ≡ false
    other_than row b t d = rw ((eq_iff _ _).0 b, (eq_iff _ _).0 t) d
