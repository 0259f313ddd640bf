-- ===== src/Base/Tables.antt =====
-- Tables of rows with a numeric key and a Boolean mark, and the update that clears the mark of the
-- row with one key.
use Prim.Native.Nat.{ℕ}
use mathlib.Core.Path.{◌≡◌, refl}
use mathlib.Core.Bool.{Bool, true, false, ◌&&◌}
use mathlib.Core.List.{List, [], ◌∷◌}
use mathlib.Core.Option.{none, some}
use native.Mathlib.Omega.{arith}
use auto_vpn.Base.Tests.{◌==◌, if◌then◌else◌}
use auto_vpn.Base.Lists.{find, select, any, update_where}

-- Is there a row with this key, and is the first such row marked?
abbrev pub marked_at {ℓ} : {A : Type ℓ} → (A → ℕ) → (A → Bool) → ℕ → List A → Bool
marked_at key mark k rows = elim (find (λ r. key r == k) rows) [ none ↦ false | some r ↦ mark r ]

module _ {ℓ} {A : Type ℓ} (key : A → ℕ) (mark : A → Bool) (f : A → A)
    (key-f : (a : A) → key (f a) ≡ key a) (mark-f : (a : A) → mark (f a) ≡ false) where
  abbrev pub clear : ℕ → List A → List A
  clear i = update_where (λ r. key r == i && mark r) f

  pub marked_at-clear :
      (i k : ℕ) (rows : List A)
      → marked_at key mark k (clear i rows) ≡ (if k == i then false else marked_at key mark k rows)
  marked_at-clear i k [] = ground arith
  marked_at-clear i k (r ∷ rows) = ground (arith, key-f r, mark-f r, marked_at-clear i k rows)

module _ {ℓ} {A : Type ℓ} (key : A → ℕ) (mark : A → Bool) where
  pub any-select_marked :
      (k : ℕ) (rows : List A)
      → marked_at key mark k rows ≡ true
      → any (λ r. key r == k) (select mark rows) ≡ true
  any-select_marked k [] h = ground arith
  any-select_marked k (r ∷ rows) h = ground (arith, any-select_marked k rows)

module _ {ℓ} {A : Type ℓ} (key : A → ℕ) (mark : A → Bool) (g : A → A)
    (key-g : (a : A) → key (g a) ≡ key a) where
  -- An update of the row with one key changes what that key finds and nothing else.
  pub marked_at-update :
      (i k : ℕ) (rows : List A)
      → marked_at key mark k (update_where (λ r. key r == i) g rows)
        ≡ (if k == i then marked_at key (λ r. mark (g r)) k rows else marked_at key mark k rows)
  marked_at-update i k [] = ground arith
  marked_at-update i k (r ∷ rows) = ground (arith, key-g r, marked_at-update i k rows)

  pub find-update :
      (i : ℕ) (rows : List A)
      → find (λ r. key r == i) (update_where (λ r. key r == i) g rows)
        ≡ elim (find (λ r. key r == i) rows) [ none ↦ none | some r ↦ some (g r) ]
  find-update i [] = refl
  find-update i (r ∷ rows) = ground (arith, key-g r, find-update i rows)

  pub find-update_ne :
      (i k : ℕ) (rows : List A)
      → (k == i) ≡ false
      → find (λ r. key r == k) (update_where (λ r. key r == i) g rows) ≡ find (λ r. key r == k) rows
  find-update_ne i k [] ne = refl
  find-update_ne i k (r ∷ rows) ne = ground (arith, key-g r, find-update_ne i k rows ne)
