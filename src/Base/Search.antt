-- ===== src/Base/Search.antt =====
-- What it means that an item stands in a list, and that what is found stands there.
use mathlib.Core.Path.{◌≡◌, refl}
use mathlib.Core.Logic.{◌⊎◌, inl, inr}
use mathlib.Core.Bool.{Bool, true, false}
use mathlib.Core.Option.{none, some}
use mathlib.Core.List.{List, [], ◌∷◌}
use native.Mathlib.Omega.{arith}
use auto_vpn.Base.Tests.{Bool-cases}
use auto_vpn.Base.Lists.{find, select, any}

module _ {A : Type 0} where
  abbrev pub Among : A → List A → Type 0
  Among a [] = ⊥
  Among a (x ∷ xs) = (a ≡ x) ⊎ Among a xs

  pub find-Among :
      (p : A → Bool) (xs : List A) (x : A) → find p xs ≡ some x → Among x xs × (p x ≡ true)
  find-Among p [] x h = absurd (cc)
  find-Among p (y ∷ xs) x h = elim (Bool-cases (p y)) [
    | inl here ↦ (inl (ground (arith, here)), ground (arith, here))
    | inr there ↦
        let (among, passes) = find-Among p xs x (ground (arith, there)) in (inr among, passes)
  ]

  kept_one :
      (p : A → Bool) (ys xs : List A) (x y : A)
      → (Among x ys → Among x xs × (p x ≡ true))
      → p y ≡ true
      → Among x (y ∷ ys)
      → Among x (y ∷ xs) × (p x ≡ true)
  kept_one p ys xs x y rest kept (inl e) = (inl e, rw e kept)
  kept_one p ys xs x y rest kept (inr later) =
      let (among, passes) = rest later in (inr among, passes)

  pub select-Among :
      (p : A → Bool) (xs : List A) (x : A) → Among x (select p xs) → Among x xs × (p x ≡ true)
  select-Among p [] x h = elim h [ ]
  select-Among p (y ∷ xs) x h = elim (Bool-cases (p y)) [
    | inl kept ↦ kept_one p (select p xs) xs x y (λ m. select-Among p xs x m) kept (rw kept at h)
    | inr dropped ↦
        let (among, passes) = select-Among p xs x (rw dropped at h) in (inr among, passes)
  ]

  pub none_found : (p : A → Bool) (xs : List A) → find p xs ≡ none → any p xs ≡ false
  none_found p [] h = refl
  none_found p (y ∷ xs) h = elim (Bool-cases (p y)) [
    | inl here ↦ absurd (ground (arith, here))
    | inr there ↦ ground (arith, there, none_found p xs)
  ]
