-- ===== src/ApplyResults/Diagnostics.antt =====
-- app/router_apply_results.py: the check of the diagnostics that a router sends.
use Prim.Native.Char.{code}
use auto_vpn.Base.{
  ℕ, ◌+◌, String, Bool, false, not, ◌&&◌, ◌||◌, List, [], ◌∷◌, ◌==◌, ltb, leb, if◌then◌else◌, any,
  contains, truthy, char_count, all_chars, replace_char, split_on, is_within,
}
use auto_vpn.Db.{Result, ok, err, validation_error}
use auto_vpn.ApplyResults.Values.{
  Json, Items, Fields, null, bool, int, negative_int, float, text, array, object, nil, cons, end,
  field, item_count, field_count,
}

-- What the code takes from Python's texts: whether a character is of a Unicode category "C", and
-- `str.lower`.
pub record Unicode : Type 0 where
  pub has_control_character : String → Bool
  pub lower : String → String

abbrev pub is_lower : ℕ → Bool
is_lower c = leb b'a' c && leb c b'z'

abbrev pub is_digit : ℕ → Bool
is_digit c = leb b'0' c && leb c b'9'

abbrev pub is_upper : ℕ → Bool
is_upper c = leb b'A' c && leb c b'Z'

abbrev is_hex : ℕ → Bool
is_hex c = is_digit c || ((leb b'a' c && leb c b'f') || (leb b'A' c && leb c b'F'))

hex_groups : List ℕ → String × List String → Bool
hex_groups [] groups = false
hex_groups (n ∷ []) (g, []) = char_count g == n && all_chars is_hex g
hex_groups (n ∷ []) (g, h ∷ rest) = false
hex_groups (n ∷ m ∷ ns) (g, []) = false
hex_groups (n ∷ m ∷ ns) (g, h ∷ rest) =
    (char_count g == n && all_chars is_hex g) && hex_groups (m ∷ ns) (h, rest)

-- `_UUID_PATTERN`.
unfoldable pub is_uuid : String → Bool
unfolding hex_groups split_on
is_uuid value = hex_groups (8 ∷ 4 ∷ 4 ∷ 4 ∷ 12 ∷ []) (split_on b'-' value)

-- `_SECRET_VALUE_PATTERN`.
unfoldable pub is_secret_value : String → Bool
is_secret_value value =
    (leb 32 (char_count value) && leb (char_count value) 256)
    && all_chars
        (λ c.
          is_upper c
          || (is_lower c
              || (is_digit c
                  || (c == b'_' || (c == b'+' || (c == b'/' || (c == b'=' || c == b'-')))))))
        value

abbrev sensitive_markers : List String
sensitive_markers =
    "-----begin " ∷ "authorization:" ∷ "bearer " ∷ "password=" ∷ "private key" ∷ "presharedkey"
    ∷ "avrt_" ∷ "vless://" ∷ "hy2://" ∷ "vpn://" ∷ []

abbrev forbidden_key_parts : List String
forbidden_key_parts =
    "authorization" ∷ "cookie" ∷ "password" ∷ "privatekey" ∷ "private_key" ∷ "preshared" ∷ "secret"
    ∷ "token" ∷ []

-- `re.fullmatch(r"[a-z][a-z0-9_]{0,63}", child)`.
unfoldable pub is_code : String → Bool
is_code String.[] = false
is_code (String.◌∷◌ c s) =
    is_lower (code c)
    && (leb (char_count s) 63 && all_chars (λ d. is_lower d || (is_digit d || d == b'_')) s)

abbrev pub is_code_text : Json → Bool
is_code_text (text s) = is_code s
is_code_text _ = false

abbrev pub has_markup : String → Bool
has_markup value = is_within "<" value || is_within ">" value

-- The count of the values met so far, at a depth that is not too great.
unfoldable pub counted : ℕ → ℕ → Result ℕ
counted depth budget =
    if ltb 5 depth
    then err (validation_error "Diagnostics nesting is too deep")
    else (if ltb 128 (budget + 1)
        then err (validation_error "Diagnostics contain too many values")
        else ok (budget + 1))

abbrev pub after_check {ℓ κ} : {A : Type ℓ} {B : Type κ} → Result A → (A → Result B) → Result B
after_check (ok a) f = f a
after_check (err e) f = err e

module _ (unicode : Unicode) where
  open unicode use {has_control_character, lower}

  unfoldable pub looks_sensitive : String → Bool
  unfolding is_uuid is_secret_value is_within
  looks_sensitive value =
      any (λ marker. is_within marker (lower value)) sensitive_markers
      || (is_uuid value || is_secret_value value)

  unfoldable pub validate_text : String → Result (Unit {0})
  unfolding looks_sensitive
  validate_text value =
      if ltb 500 (char_count value)
      then err (validation_error "Diagnostic string is too long")
      else (if has_control_character value
          then err (validation_error "Diagnostics contain control characters")
          else (if has_markup value
              then err (validation_error "Diagnostics cannot contain HTML markup")
              else (if looks_sensitive value
                  then err (validation_error "Diagnostics may contain secret material")
                  else ok tt)))

  unfoldable pub normalized_key : String → String
  unfolding replace_char
  normalized_key key = replace_char b'-' "_" (lower key)

  unfoldable pub is_forbidden_key : String → Bool
  unfolding normalized_key replace_char is_within
  is_forbidden_key key =
      let compact = replace_char b'_' "" (normalized_key key) in
      any
        (λ part.
          is_within part (normalized_key key) || is_within (replace_char b'_' "" part) compact)
        forbidden_key_parts

  unfoldable pub validate_key : String → Result (Unit {0})
  unfolding is_forbidden_key
  validate_key key =
      if not (truthy key) || ltb 64 (char_count key)
      then err (validation_error "Diagnostic key is invalid")
      else (if has_control_character key || has_markup key
          then err (validation_error "Diagnostic key is invalid")
          else (if is_forbidden_key key
              then err (validation_error "Diagnostic key may contain secret material")
              else ok tt))

  -- A short code word under a key such as "code" is taken as it is.
  unfoldable pub is_exempt : String → Json → Bool
  unfolding normalized_key is_code
  is_exempt key child = contains (normalized_key key) ("code" ∷ "stage" ∷ []) && is_code_text child

  -- `_validate_diagnostic_value`: the value is returned as it is, and the budget as it has grown.
  unfoldable mutual
    pub validate_value : Json → ℕ → ℕ → Result ℕ
    validate_value null depth budget = counted depth budget
    validate_value (bool b) depth budget = counted depth budget
    validate_value (int n) depth budget = counted depth budget
    validate_value (negative_int n) depth budget = counted depth budget
    validate_value (float finite whole literal) depth budget =
        after_check (counted depth budget) λ n.
          if finite then ok n else err (validation_error "Diagnostics contain a non-finite number")
    validate_value (text s) depth budget =
        after_check (counted depth budget) λ n. after_check (validate_text s) λ _. ok n
    validate_value (array vs) depth budget = after_check (counted depth budget) λ n.
        if ltb 32 (item_count vs)
        then err (validation_error "Diagnostic list is too long")
        else validate_items vs (depth + 1) n
    validate_value (object fs) depth budget = after_check (counted depth budget) λ n.
        if ltb 32 (field_count fs)
        then err (validation_error "Diagnostic object has too many keys")
        else validate_fields fs (depth + 1) n

    pub validate_items : Items → ℕ → ℕ → Result ℕ
    validate_items nil depth budget = ok budget
    validate_items (cons v vs) depth budget =
        after_check (validate_value v depth budget) λ n. validate_items vs depth n

    pub validate_fields : Fields → ℕ → ℕ → Result ℕ
    validate_fields end depth budget = ok budget
    validate_fields (field k v fs) depth budget = after_check (validate_key k) λ _.
        after_check (if is_exempt k v then ok budget else validate_value v depth budget)
          λ n. validate_fields fs depth n
