-- ===== src/Migrations.antt =====
-- app/migrations.py: bringing a database up to the schema of this version, once for each migration.
pub mod Idempotent
use auto_vpn.Base.{
  ℕ, String, Bool, true, false, not, ◌&&◌, ◌||◌, List, [], ◌∷◌, Option, none, some, ◌==◌,
  if◌then◌else◌, find, any, select, str_eq,
}
use auto_vpn.Db.{
  Action, Result, Error, pure, gets, modify, raise_if, of_result, case_option, get_db, ◌>>=◌, ◌>>◌,
  ok, err, runtime_error, integrity,
}

-- A row of `schema_migrations`. A database without that table is one without rows.
pub record AppliedRow : Type 0 where
  pub version : ℕ
  pub name : String
  pub checksum : String
  pub applied_at : ℕ

-- A migration: what it does to the schema `S`, its SQL, is not modelled.
pub record Migration (S : Type 0) : Type 0 where
  pub version : ℕ
  pub name : String
  pub checksum : String
  pub apply : S → Result S

pub record Store (S : Type 0) : Type 0 where
  pub schema : S
  pub applied : List AppliedRow

abbrev pub is_applied_version : ℕ → List AppliedRow → Bool
is_applied_version v = any λ r. r.version == v

module _ {S : Type 0} where
  abbrev pub row_of : ℕ → Migration S → AppliedRow
  row_of now m = record {
    version = m.version;
    name = m.name;
    checksum = m.checksum;
    applied_at = now;
  }

  -- One step of the loop of `apply_migrations`; `version` is the primary key.
  unfoldable pub apply_one : ℕ → Migration S → Action (Store S) (Unit {0})
  apply_one now m = do
    schema ← gets (λ s. s.schema)
    schema' ← of_result (m.apply schema)
    taken ← gets (λ s. is_applied_version m.version s.applied)
    raise_if taken integrity
    modify (λ s. record s { schema = schema'; applied = row_of now m ∷ s.applied })

  -- The loop, with the versions that were applied when it began.
  unfoldable pub apply_each : ℕ → List AppliedRow → List (Migration S) → Action (Store S) (Unit {0})
  apply_each now applied [] = pure tt
  apply_each now applied (m ∷ ms) = do
    if is_applied_version m.version applied then pure tt else apply_one now m
    apply_each now applied ms

  module _ (migrations : List (Migration S)) where
    abbrev pub known : ℕ → Option (Migration S)
    known v = find (λ m. m.version == v) migrations

    -- `_validate_applied`, row by row.
    unfoldable pub validate_row : AppliedRow → Result (Unit {0})
    validate_row r =
        case_option (known r.version)
          (err (runtime_error "Database migration is newer than this application"))
          λ m.
            if str_eq r.name m.name && str_eq r.checksum m.checksum
            then ok tt
            else err (runtime_error "Database migration checksum mismatch")

    unfoldable pub validate_applied : List AppliedRow → Result (Unit {0})
    validate_applied [] = ok tt
    validate_applied (r ∷ rs) = elim (validate_row r) [ ok u ↦ validate_applied rs | err e ↦ err e ]

    abbrev pub pending : List AppliedRow → List (Migration S)
    pending applied = select (λ m. not (is_applied_version m.version applied)) migrations

    unfoldable pub apply_migrations : ℕ → Action (Store S) (Unit {0})
    apply_migrations now = get_db do
      applied ← gets (λ s. s.applied)
      of_result (validate_applied applied)
      apply_each now applied migrations

    -- `migrate_database`; `needs_backup` says that the database is a file with tables, and `backup`
    -- makes and verifies its copy.
    unfoldable pub migrate_database :
        ℕ → (Store S → Bool) → (Store S → Result String) → Action (Store S) (Option String)
    migrate_database now needs_backup backup = do
      applied ← gets (λ s. s.applied)
      of_result (validate_applied applied)
      case_option (find (λ m. true) (pending applied)) (pure none) λ first. do
        wanted ← gets needs_backup
        copy ← gets backup
        made ← if wanted then (of_result copy >>= λ path. pure (some path)) else pure none
        apply_migrations now
        pure made
