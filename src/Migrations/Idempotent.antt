-- ===== src/Migrations/Idempotent.antt =====
-- Migrating twice is migrating once (app/migrations.py).
use text.Mathlib.TextPositions.{eq_refl}
use auto_vpn.Base.{
  ℕ, ◌≡◌, refl, subst, String, Bool, true, false, not, ◌&&◌, List, [], ◌∷◌, Option, none, some, inl,
  inr, ==_refl, Option-cases, find, select, if◌then◌else◌, arith,
}
use auto_vpn.Db.{
  Error, Result, ok, err, Result-cases, settle, pure, ◌>>=◌, After, Gives, Gives-bind, Gives-pure,
  Gives-read, Gives-gets, Gives-of_result, Gives-raise_if, Gives-modify, Gives-weaken,
  Gives-case_known, Gives-kept, Gives-get_db, Gives-from,
}
use auto_vpn.Migrations.{
  AppliedRow, Migration, Store, row_of, is_applied_version, apply_one, apply_each, known,
  validate_row, validate_applied, pending, apply_migrations, migrate_database,
}

module _ {S : Type 0} where
  -- No two migrations have one version.
  abbrev pub HaveOwnVersions : List (Migration S) → List (Migration S) → Type 0
  HaveOwnVersions all [] = Unit
  HaveOwnVersions all (m ∷ ms) = (known all m.version ≡ some m) × HaveOwnVersions all ms

  abbrev are_recorded : List (Migration S) → List AppliedRow → Bool
  are_recorded [] rows = true
  are_recorded (m ∷ ms) rows = is_applied_version m.version rows && are_recorded ms rows

  module _ (all : List (Migration S)) where
    -- Every row matches the migration of its version, and holds the versions of `base`.
    abbrev IsHealthy : List AppliedRow → Type 0
    IsHealthy rows = validate_applied all rows ≡ ok tt

    row-valid :
        (now : ℕ) (m : Migration S)
        → known all m.version ≡ some m
        → validate_row all (row_of now m) ≡ ok tt
    unfolding validate_row
    row-valid now m e = ground (arith, eq_refl m.name, eq_refl m.checksum)

    row-IsHealthy :
        (now : ℕ) (m : Migration S) (rows : List AppliedRow)
        → known all m.version ≡ some m
        → IsHealthy rows
        → IsHealthy (row_of now m ∷ rows)
    unfolding validate_applied
    row-IsHealthy now m rows e h = ground (arith, row-valid now m e)

    -- The versions of these rows and of these migrations are recorded.
    abbrev Holds : List AppliedRow → List (Migration S) → Store S → Type 0
    Holds base done s =
        IsHealthy s.applied
        × ((v : ℕ) → is_applied_version v base ≡ true → is_applied_version v s.applied ≡ true)
        × (are_recorded done s.applied ≡ true)

    recorded-grow :
        (done : List (Migration S)) (r : AppliedRow) (rows : List AppliedRow)
        → are_recorded done rows ≡ true
        → are_recorded done (r ∷ rows) ≡ true
    recorded-grow [] r rows h = refl
    recorded-grow (m ∷ ms) r rows h = ground (arith, recorded-grow ms r rows)

    apply_one-Gives :
        (now : ℕ) (base : List AppliedRow) (done : List (Migration S)) (m : Migration S)
        → known all m.version ≡ some m
        → Gives (Holds base done) (apply_one now m) (λ _. Holds base (m ∷ done))
    unfolding apply_one
    apply_one-Gives now base done m e = Gives-bind (Gives-read _) λ schema.
        Gives-bind (Gives-weaken (Gives-of_result _) (λ a s h. h.0)) λ schema'.
          Gives-bind (Gives-read _) λ taken.
            Gives-bind (Gives-weaken (Gives-raise_if taken _) (λ a s h. h.0)) λ _.
              Gives-modify _ {Q = Holds base (m ∷ done)} (λ s h. (
                row-IsHealthy now m s.applied e h.0,
                λ v b. ground (arith, h.1 v b),
                ground (arith, recorded-grow done (row_of now m) s.applied h.2, ==_refl m.version),
              ))

    apply_each-Gives :
        (now : ℕ) (base : List AppliedRow) (done ms : List (Migration S))
        → HaveOwnVersions all ms
        → Gives
            (Holds base done)
            (apply_each now base ms)
            (λ _ s. Holds base done s × (are_recorded ms s.applied ≡ true))
    unfolding apply_each
    apply_each-Gives now base done [] own = Gives-pure _ (λ s h. (h, refl))
    apply_each-Gives now base done (m ∷ ms) own =
        Gives-bind (step (is_applied_version m.version base) refl) λ _.
          Gives-weaken (apply_each-Gives now base (m ∷ done) ms own.1)
            (λ a s h. ((h.0.0, h.0.1, ground (arith, h.0.2)), ground (arith, h.0.2, h.1)))
      where
        step :
            (b : Bool)
            → is_applied_version m.version base ≡ b
            → Gives
                (Holds base done)
                (if b then pure tt else apply_one now m)
                (λ _. Holds base (m ∷ done))
        step true e = Gives-pure _ (λ s h. (h.0, h.1, ground (arith, h.1 m.version e)))
        step false e = apply_one-Gives now base done m own.0

    -- Nothing is left to do, and nothing is wrong.
    abbrev IsCurrent : Store S → Type 0
    IsCurrent s = IsHealthy s.applied × (find (λ m. true) (pending all s.applied) ≡ none)

    recorded-none :
        (ms : List (Migration S)) (rows : List AppliedRow)
        → are_recorded ms rows ≡ true
        → find (λ m. true) (select (λ m. not (is_applied_version m.version rows)) ms) ≡ none
    recorded-none [] rows h = refl
    recorded-none (m ∷ ms) rows h = ground (arith, recorded-none ms rows)

    apply_migrations-Gives :
        (now : ℕ) {P : Store S → Type 0}
        → HaveOwnVersions all all
        → Gives P (apply_migrations all now) (λ _. IsCurrent)
    unfolding apply_migrations
    apply_migrations-Gives now own = Gives-get_db (
        Gives-bind (Gives-gets _) λ applied. Gives-bind (Gives-of_result _) λ _.
          Gives-weaken
            (Gives-from
              (λ s h. (
                subst IsHealthy h.0.1 h.1,
                λ v b. subst (λ rows. is_applied_version v rows ≡ true) h.0.1 b,
                refl,
              ))
              (apply_each-Gives now applied [] all own))
            (λ a s h. (h.0.0, recorded-none all s.applied h.1)))

    migrate-Gives :
        (now : ℕ) (needs_backup : Store S → Bool) (backup : Store S → Result String)
        → HaveOwnVersions all all
        → Gives (λ _. Unit {0}) (migrate_database all now needs_backup backup) (λ _. IsCurrent)
    unfolding migrate_database
    migrate-Gives now needs_backup backup own = Gives-bind (Gives-gets _) λ applied.
        Gives-bind (Gives-of_result _) λ _.
          Gives-case_known (find (λ m. true) (pending all applied))
            (λ e. Gives-pure _ (λ s h. (
              subst IsHealthy h.0.1 h.1,
              subst (λ rows. find (λ m. true) (pending all rows) ≡ none) h.0.1 e,
            )))
            λ first. Gives-bind (Gives-read _) λ wanted. Gives-bind (Gives-read _) λ copy.
              Gives-bind (Gives-from {R = λ _. Unit {0}} (λ s p. tt) (Gives-kept (λ s p. tt)))
                λ made. Gives-bind (apply_migrations-Gives now own) λ _. Gives-pure _ (λ s h. h)

    current-still :
        (later : ℕ) (needs_backup : Store S → Bool) (backup : Store S → Result String) (s : Store S)
        → IsCurrent s
        → migrate_database all later needs_backup backup s ≡ (ok none, s)
    unfolding migrate_database ◌>>=◌
    current-still later needs_backup backup s h = ground (arith, h.0, h.1)

-- Migrating is idempotent: after `migrate_database` has returned, a second run at any time makes no
-- copy, returns none and changes nothing, whatever its backup would do, provided that no two
-- migrations have one version.
pub migrate_is_idempotent :
    {S : Type 0} (all : List (Migration S)) (now later : ℕ) (needs_backup : Store S → Bool)
    (backup backup' : Store S → Result String) (s : Store S) (made : Option String)
    → HaveOwnVersions all all
    → (migrate_database all now needs_backup backup s).0 ≡ ok made
    → migrate_database all later needs_backup backup'
        (migrate_database all now needs_backup backup s).1
      ≡ (ok none, (migrate_database all now needs_backup backup s).1)
migrate_is_idempotent all now later needs_backup backup backup' s made own e =
    current-still all later needs_backup backup' _ (
      subst (λ r. After (λ _. IsCurrent all) r (migrate_database all now needs_backup backup s).1) e
        ((migrate-Gives all now needs_backup backup own).at s tt))

rolled_back :
    {S : Type 0} (all : List (Migration S)) (now : ℕ) (s : Store S) (e : Error)
    → (apply_migrations all now s).0 ≡ err e
    → (apply_migrations all now s).1 ≡ s
unfolding apply_migrations ◌>>=◌
rolled_back {S} all now s e h = settled s _ h
  where
    settled :
        (before : Store S) (r : Result (Unit {0}) × Store S)
        → (settle before r).0 ≡ err e
        → (settle before r).1 ≡ before
    settled before (ok a, after) h = absurd (ground arith)
    settled before (err x, after) h = refl

-- Migrating is all or nothing: where `migrate_database` raises, because a recorded migration is
-- unknown or has another checksum, the backup fails, or any of the pending migrations fails, the
-- database is as it was.
pub migrate_all_or_nothing :
    {S : Type 0} (all : List (Migration S)) (now : ℕ) (needs_backup : Store S → Bool)
    (backup : Store S → Result String) (s : Store S) (e : Error)
    → (migrate_database all now needs_backup backup s).0 ≡ err e
    → (migrate_database all now needs_backup backup s).1 ≡ s
unfolding migrate_database ◌>>=◌
migrate_all_or_nothing all now needs_backup backup s e h =
    elim (Result-cases (validate_applied all s.applied)) [
      | inr (x, v) ↦ ground arith
      | inl (u, v) ↦ elim (Option-cases (find (λ m. true) (pending all s.applied))) [
        | inl n ↦ ground arith
        | inr (first, n) ↦ elim (Result-cases (apply_migrations all now s).0) [
          | inl (u', a) ↦ ground arith
          | inr (x, a) ↦ ground (arith, rolled_back all now s x a)
        ]
      ]
    ]
