-- ===== src/ApplyResults/Bounds.antt =====
-- The size of accepted diagnostics (app/router_apply_results.py, _validate_diagnostic_value).
use auto_vpn.Base.{
  ℕ, ◌+◌, ◌*◌, ◌≤◌, ◌≡◌, refl, ◌∙◌, suc, String, Bool, true, false, ◌⊎◌, inl, inr, ltb, leb,
  if◌then◌else◌, arith,
}
use auto_vpn.Db.{Result, Error, ok, err}
use auto_vpn.ApplyResults.{
  Json, Items, Fields, null, bool, int, negative_int, float, text, array, object, nil, cons, end,
  field, item_count, field_count, Unicode, counted, validate_text, validate_key, is_exempt,
  validate_value, validate_items, validate_fields, after_check,
}

abbrev pub max : ℕ → ℕ → ℕ
max a b = if leb a b then b else a

-- The number of values in a value, itself included, and how deep lists and objects are nested.
unfoldable mutual
  pub size : Json → ℕ
  size (array vs) = suc (size_items vs)
  size (object fs) = suc (size_fields fs)
  size _ = 1

  pub size_items : Items → ℕ
  size_items nil = 0
  size_items (cons v vs) = size v + size_items vs

  pub size_fields : Fields → ℕ
  size_fields end = 0
  size_fields (field k v fs) = size v + size_fields fs

unfoldable mutual
  pub nesting : Json → ℕ
  nesting (array vs) = suc (nesting_items vs)
  nesting (object fs) = suc (nesting_fields fs)
  nesting _ = 0

  pub nesting_items : Items → ℕ
  nesting_items nil = 0
  nesting_items (cons v vs) = max (nesting v) (nesting_items vs)

  pub nesting_fields : Fields → ℕ
  nesting_fields end = 0
  nesting_fields (field k v fs) = max (nesting v) (nesting_fields fs)

pub after_check-ok :
    {A B : Type 0} (r : Result A) (f : A → Result B) {b : B}
    → after_check r f ≡ ok b
    → (a : A) × (r ≡ ok a) × (f a ≡ ok b)
after_check-ok (ok a) f e = (a, refl, e)
after_check-ok (err x) f e = absurd (ground arith)

counted-ok : (d b n : ℕ) → counted d b ≡ ok n → (d ≤ 5) × (n ≡ b + 1) × (n ≤ 128)
unfolding counted
counted-ok d b n e = ground arith

exempt-small :
    (unicode : Unicode) (k : String) (v : Json)
    → is_exempt unicode k v ≡ true
    → (size v ≡ 1) × (nesting v ≡ 0)
unfolding is_exempt size nesting
exempt-small unicode k null e = absurd (ground arith)
exempt-small unicode k (bool b) e = absurd (ground arith)
exempt-small unicode k (int n) e = absurd (ground arith)
exempt-small unicode k (negative_int n) e = absurd (ground arith)
exempt-small unicode k (float f w l) e = absurd (ground arith)
exempt-small unicode k (text s) e = (refl, refl)
exempt-small unicode k (array vs) e = absurd (ground arith)
exempt-small unicode k (object fs) e = absurd (ground arith)

abbrev Bounded : ℕ → ℕ → ℕ → ℕ → ℕ → Type 0
Bounded size' nesting' d b n = (nesting' + d ≤ 6) × (size' + 33 * b ≤ 33 * n) × (n ≤ 128)

max-le : (a b d c : ℕ) → a + d ≤ c → b + d ≤ c → max a b + d ≤ c
max-le a b d c p q = ground arith

pub limited :
    {A : Type 0} (b : Bool) (x : Error) (r : Result A) {a : A}
    → (if b then err x else r) ≡ ok a
    → (b ≡ false) × (r ≡ ok a)
limited true x r e = absurd (ground arith)
limited false x r e = (refl, e)

passed :
    {A : Type 0} (b : Bool) (x : Error) (r : Result A) {a : A}
    → (if b then r else err x) ≡ ok a
    → r ≡ ok a
passed true x r e = e
passed false x r e = absurd (ground arith)

pub ok_eq : {A : Type 0} {a b : A} → ok a ≡ ok b → a ≡ b
ok_eq e = ground arith

-- What an accepted field went through.
pub field_cases :
    (unicode : Unicode) (k : String) (v : Json) (fs : Fields) (d b n : ℕ)
    → validate_fields unicode (field k v fs) d b ≡ ok n
    → (validate_key unicode k ≡ ok tt)
      × (((is_exempt unicode k v ≡ true) × (validate_fields unicode fs d b ≡ ok n))
          ⊎ ((m : ℕ) × (validate_value unicode v d b ≡ ok m)
              × (validate_fields unicode fs d m ≡ ok n)))
unfolding validate_fields
field_cases unicode k v fs d b n e =
    let (u, c, rest) = after_check-ok (validate_key unicode k) _ e in
    (c, split (is_exempt unicode k v) rest)
  where
    split :
        (x : Bool)
        → after_check
            (if x then ok b else validate_value unicode v d b)
            (λ m. validate_fields unicode fs d m)
          ≡ ok n
        → ((x ≡ true) × (validate_fields unicode fs d b ≡ ok n))
          ⊎ ((m : ℕ) × (validate_value unicode v d b ≡ ok m)
              × (validate_fields unicode fs d m ≡ ok n))
    split true rest = inl (refl, rest)
    split false rest = inr (after_check-ok (validate_value unicode v d b) _ rest)

module _ (unicode : Unicode) where
  scalar-Bounded : (d b n : ℕ) → counted d b ≡ ok n → Bounded 1 0 d b n
  scalar-Bounded d b n e =
      let (deep, next, few) = counted-ok d b n e in (omega arith, omega arith, few)

  mutual
    unfolding size nesting validate_value

    value-Bounded :
        (v : Json) (d b n : ℕ)
        → validate_value unicode v d b ≡ ok n
        → Bounded (size v) (nesting v) d b n
    value-Bounded null d b n e = scalar-Bounded d b n e
    value-Bounded (bool x) d b n e = scalar-Bounded d b n e
    value-Bounded (int x) d b n e = scalar-Bounded d b n e
    value-Bounded (negative_int x) d b n e = scalar-Bounded d b n e
    value-Bounded (float finite whole literal) d b n e =
        let (m, c, rest) = after_check-ok _ _ e in
        scalar-Bounded d b n (c ∙ passed finite _ (ok m) rest)
    value-Bounded (text s) d b n e =
        let (m, c, rest) = after_check-ok _ _ e in
        let (u, checked_text, same) =
          after_check-ok (validate_text unicode s) (λ (u : Unit {0}). ok m) rest in
        scalar-Bounded d b n (c ∙ same)
    value-Bounded (array vs) d b n e =
        let (m, c, rest) = after_check-ok _ _ e in
        let (deep, next, few) = counted-ok d b m c in
        let (short, inner) =
          limited (ltb 32 (item_count vs)) _ (validate_items unicode vs (d + 1) m) rest in
        let (low, sized, all) = items-Bounded vs (d + 1) m n (omega arith) few inner in
        (omega arith, omega arith, all)
    value-Bounded (object fs) d b n e =
        let (m, c, rest) = after_check-ok _ _ e in
        let (deep, next, few) = counted-ok d b m c in
        let (short, inner) =
          limited (ltb 32 (field_count fs)) _ (validate_fields unicode fs (d + 1) m) rest in
        let (low, sized, all) = fields-Bounded fs (d + 1) m n (omega arith) few inner in
        let narrow : field_count fs ≤ 32 = ground arith in (omega arith, omega arith, all)

    items-Bounded :
        (vs : Items) (d b n : ℕ)
        → d ≤ 6
        → b ≤ 128
        → validate_items unicode vs d b ≡ ok n
        → Bounded (size_items vs) (nesting_items vs) d b n
    items-Bounded nil d b n hd hb e =
        let same : b ≡ n = ok_eq e in (omega arith, omega arith, omega arith)
    items-Bounded (cons v vs) d b n hd hb e =
        let (m, c, rest) = after_check-ok _ _ e in
        let first = value-Bounded v d b m c in
        let others = items-Bounded vs d m n hd (first.2) rest in
        (max-le (nesting v) (nesting_items vs) d 6 first.0 others.0, omega arith, others.2)

    fields-Bounded :
        (fs : Fields) (d b n : ℕ)
        → d ≤ 6
        → b ≤ 128
        → validate_fields unicode fs d b ≡ ok n
        → (nesting_fields fs + d ≤ 6)
          × (size_fields fs + 33 * b ≤ 33 * n + field_count fs)
          × (n ≤ 128)
    fields-Bounded end d b n hd hb e =
        let same : b ≡ n = ok_eq e in (omega arith, omega arith, omega arith)
    fields-Bounded (field k v fs) d b n hd hb e = elim ((field_cases unicode k v fs d b n e).1) [
      | inl (x, others) ↦
          let (one, flat) = exempt-small unicode k v x in
          let (low, sized, all) = fields-Bounded fs d b n hd hb others in
          (max-le (nesting v) (nesting_fields fs) d 6 (omega arith) low, omega arith, all)
      | inr (m, checked_value, others) ↦
          let first = value-Bounded v d b m checked_value in
          let (low, sized, all) = fields-Bounded fs d m n hd (first.2) others in
          (max-le (nesting v) (nesting_fields fs) d 6 first.0 low, omega arith, all)
    ]

-- Diagnostics that are accepted, from the depth and the budget that the check starts with, hold at
-- most 128 counted values, at most 33 values to each counted one (an object's short codes are not
-- counted), and lists and objects nested at most six deep.
pub validated_bounds :
    (unicode : Unicode) (v : Json) (n : ℕ)
    → validate_value unicode v 0 0 ≡ ok n
    → (n ≤ 128) × (size v ≤ 33 * n) × (nesting v ≤ 6)
validated_bounds unicode v n e =
    let (low, sized, few) = value-Bounded unicode v 0 0 n e in (few, omega arith, omega arith)
