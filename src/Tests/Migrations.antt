-- ===== src/Tests/Migrations.antt =====
-- The theorems on migrations at a database of version 1, with a schema that counts its changes.
use auto_vpn.Base.{ℕ, ◌≡◌, ◌+◌, refl, true, List, [], ◌∷◌, none, some}
use auto_vpn.Db.{ok, err, external, ◌>>=◌}
use auto_vpn.Migrations.{
  Migration, Store, row_of, migrate_database, apply_migrations, apply_each, apply_one,
  validate_applied, validate_row,
}
use auto_vpn.Migrations.Idempotent.{migrate_is_idempotent, migrate_all_or_nothing}

abbrev legacy_schema : Migration ℕ
legacy_schema = record {
  version = 1;
  name = "legacy_schema";
  checksum = "a";
  apply = λ s. ok (s + 1);
}

abbrev snapshots : Migration ℕ
snapshots = record {
  version = 2;
  name = "desired_applied_snapshots";
  checksum = "b";
  apply = λ s. ok (s + 1);
}

abbrev coordinator : Migration ℕ
coordinator = record {
  version = 3;
  name = "shared_vps_operation_coordinator";
  checksum = "c";
  apply = λ s. ok (s + 1);
}

abbrev failing : Migration ℕ
failing = record coordinator { apply = λ s. err (external "disk is full") }

abbrev old_store : Store ℕ
old_store = record { schema = 1; applied = row_of 0 legacy_schema ∷ [] }

abbrev all : List (Migration ℕ)
all = legacy_schema ∷ snapshots ∷ coordinator ∷ []

migrated : (migrate_database all 9 (λ s. true) (λ s. ok "copy") old_store).0 ≡ ok (some "copy")
unfolding migrate_database apply_migrations apply_each apply_one validate_applied validate_row ◌>>=◌
migrated = refl

migrate_is_idempotent_example :
    migrate_database all 12
      (λ s. true)
      (λ s. err (external "no space"))
      (migrate_database all 9 (λ s. true) (λ s. ok "copy") old_store).1
    ≡ (ok none, (migrate_database all 9 (λ s. true) (λ s. ok "copy") old_store).1)
migrate_is_idempotent_example =
    migrate_is_idempotent all 9 12 (λ s. true) (λ s. ok "copy") (λ s. err (external "no space"))
      old_store (some "copy") (refl, (refl, (refl, tt))) migrated

abbrev with_failure : List (Migration ℕ)
with_failure = legacy_schema ∷ snapshots ∷ failing ∷ []

fails :
    (migrate_database with_failure 9 (λ s. true) (λ s. ok "copy") old_store).0
    ≡ err (external "disk is full")
unfolding migrate_database apply_migrations apply_each apply_one validate_applied validate_row ◌>>=◌
fails = refl

migrate_all_or_nothing_example :
    (migrate_database with_failure 9 (λ s. true) (λ s. ok "copy") old_store).1 ≡ old_store
migrate_all_or_nothing_example =
    migrate_all_or_nothing with_failure 9 (λ s. true) (λ s. ok "copy") old_store
      (external "disk is full") fails
