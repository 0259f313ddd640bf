-- ===== src/ApplyResults/Clean.antt =====
-- What accepted diagnostics cannot hold (app/router_apply_results.py, _validate_diagnostic_value).
use auto_vpn.Base.{
  ℕ, ◌+◌, ◌≡◌, refl, String, Bool, true, not, ◌&&◌, ◌||◌, inl, inr, ltb, leb, truthy, char_count,
  arith,
}
use auto_vpn.Db.{ok}
use auto_vpn.ApplyResults.{
  Json, Items, Fields, null, bool, int, negative_int, float, text, array, object, nil, cons, end,
  field, item_count, field_count, Unicode, counted, validate_text, validate_key, is_exempt, is_code,
  is_forbidden_key, looks_sensitive, has_markup, validate_value, validate_items, validate_fields,
}
use auto_vpn.ApplyResults.Bounds.{after_check-ok, limited, field_cases}

both : {x y : Bool} → x ≡ true → y ≡ true → (x && y) ≡ true
both p q = ground arith

module _ (unicode : Unicode) where
  -- A text that shows nothing secret, no markup and no control character.
  abbrev pub is_harmless : String → Bool
  is_harmless s =
      not (unicode.has_control_character s)
      && (not (has_markup s) && not (looks_sensitive unicode s))

  -- A key that names nothing secret.
  abbrev pub is_harmless_key : String → Bool
  is_harmless_key k = truthy k && (leb (char_count k) 64 && not (is_forbidden_key unicode k))

  -- Every key is harmless, and every text is harmless and of at most 500 characters, or a short code.
  unfoldable mutual
    pub is_clean : Json → Bool
    is_clean (text s) = is_code s || (is_harmless s && leb (char_count s) 500)
    is_clean (array vs) = is_clean_items vs
    is_clean (object fs) = is_clean_fields fs
    is_clean _ = true

    pub is_clean_items : Items → Bool
    is_clean_items nil = true
    is_clean_items (cons v vs) = is_clean v && is_clean_items vs

    pub is_clean_fields : Fields → Bool
    is_clean_fields end = true
    is_clean_fields (field k v fs) = is_harmless_key k && (is_clean v && is_clean_fields fs)

  text-clean :
      (s : String) {u : Unit {0}} → validate_text unicode s ≡ ok u → is_clean (text s) ≡ true
  unfolding is_clean validate_text
  text-clean s e = ground arith

  key-clean : (k : String) {u : Unit {0}} → validate_key unicode k ≡ ok u → is_harmless_key k ≡ true
  unfolding validate_key
  key-clean k e = ground arith

  exempt-clean : (k : String) (v : Json) → is_exempt unicode k v ≡ true → is_clean v ≡ true
  unfolding is_clean is_exempt
  exempt-clean k null e = refl
  exempt-clean k (bool b) e = refl
  exempt-clean k (int n) e = refl
  exempt-clean k (negative_int n) e = refl
  exempt-clean k (float f w l) e = refl
  exempt-clean k (text s) e = ground arith
  exempt-clean k (array vs) e = absurd (ground arith)
  exempt-clean k (object fs) e = absurd (ground arith)

  mutual
    unfolding is_clean validate_value

    value-clean : (v : Json) (d b n : ℕ) → validate_value unicode v d b ≡ ok n → is_clean v ≡ true
    value-clean null d b n e = refl
    value-clean (bool x) d b n e = refl
    value-clean (int x) d b n e = refl
    value-clean (negative_int x) d b n e = refl
    value-clean (float finite whole literal) d b n e = refl
    value-clean (text s) d b n e =
        let (m, c, rest) = after_check-ok (counted d b) _ e in
        let (u, checked_text, same) =
          after_check-ok (validate_text unicode s) (λ (u : Unit {0}). ok m) rest in
        text-clean s checked_text
    value-clean (array vs) d b n e =
        let (m, c, rest) = after_check-ok (counted d b) _ e in
        items-clean vs (d + 1) m n
          (limited (ltb 32 (item_count vs)) _ (validate_items unicode vs (d + 1) m) rest).1
    value-clean (object fs) d b n e =
        let (m, c, rest) = after_check-ok (counted d b) _ e in
        fields-clean fs (d + 1) m n
          (limited (ltb 32 (field_count fs)) _ (validate_fields unicode fs (d + 1) m) rest).1

    items-clean :
        (vs : Items) (d b n : ℕ) → validate_items unicode vs d b ≡ ok n → is_clean_items vs ≡ true
    items-clean nil d b n e = refl
    items-clean (cons v vs) d b n e =
        let (m, c, rest) = after_check-ok (validate_value unicode v d b) _ e in
        both (value-clean v d b m c) (items-clean vs d m n rest)

    fields-clean :
        (fs : Fields) (d b n : ℕ)
        → validate_fields unicode fs d b ≡ ok n
        → is_clean_fields fs ≡ true
    fields-clean end d b n e = refl
    fields-clean (field k v fs) d b n e =
        let (c, cases) = field_cases unicode k v fs d b n e in
        elim cases [
          | inl (x, others) ↦
              both (key-clean k c) (both (exempt-clean k v x) (fields-clean fs d b n others))
          | inr (m, checked_value, others) ↦
              both (key-clean k c)
                (both (value-clean v d b m checked_value) (fields-clean fs d m n others))
        ]

-- Diagnostics that are accepted hold no text with a control character, markup or what looks like
-- a secret, but for short codes; their texts have at most 500 characters; and no key is empty, has
-- more than 64 characters or names a secret.
pub validated_clean :
    (unicode : Unicode) (v : Json) (n : ℕ)
    → validate_value unicode v 0 0 ≡ ok n
    → is_clean unicode v ≡ true
validated_clean unicode v n e = value-clean unicode v 0 0 n e
