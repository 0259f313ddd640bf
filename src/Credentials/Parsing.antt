-- ===== src/Credentials/Parsing.antt =====
-- The text of a router token and its pattern (app/router_credentials.py, `_TOKEN_PATTERN`).
use Prim.Native.Char.{Char, code}
use Prim.Native.String.{◌++◌}
use text.Mathlib.TextEquality.{Char-path}
use text.Mathlib.TextLemmas.{nil-append, cons-append}
use auto_vpn.Base.{
  char_count-append, ℕ, ◌+◌, ◌≡◌, refl, ap, ◌∙◌, ◌↔◌, ◌≤◌, String, true, some, inl, inr, ◌==◌,
  Bool-cases, Option-cases, char_count, all_chars, drop_prefix, arith,
}
use auto_vpn.Credentials.{is_token_char, matches, split_dot, checked, token_of, parse_token}

drop_prefix-append : (p s : String) → drop_prefix p (p ++ s) ≡ some s
unfolding drop_prefix
drop_prefix-append String.[] s = ap some (nil-append s)
drop_prefix-append (String.◌∷◌ c p) s =
    rw (cons-append c p s) (ground (arith, drop_prefix-append p s))

cons_eq : (c d : Char) (s t : String) → code c ≡ code d → s ≡ t → String.◌∷◌ c s ≡ String.◌∷◌ d t
cons_eq c d s t e f = λ i. String.◌∷◌ (Char-path c d e i) (f i)

drop_prefix-eq : (p s rest : String) → drop_prefix p s ≡ some rest → s ≡ p ++ rest
unfolding drop_prefix
drop_prefix-eq String.[] s rest e = rw (nil-append rest) (ground arith)
drop_prefix-eq (String.◌∷◌ c p) String.[] rest e = absurd (ground arith)
drop_prefix-eq (String.◌∷◌ c p) (String.◌∷◌ d s) rest e =
    rw (cons-append c p rest) (elim (Bool-cases (code c == code d)) [
      | inl t ↦ cons_eq d c s (p ++ rest) (ground arith) (drop_prefix-eq p s rest (ground arith))
      | inr f ↦ absurd (ground arith)
    ])

-- The identifier of a credential has no dot.
split_dot-append :
    (s t : String) → all_chars is_token_char s ≡ true → split_dot (s ++ ("." ++ t)) ≡ some (s, t)
unfolding split_dot is_token_char all_chars
split_dot-append String.[] t h =
    rw (nil-append ("." ++ t), cons-append "." "" t, nil-append t) (ground arith)
split_dot-append (String.◌∷◌ c s) t h =
    rw (cons-append c s ("." ++ t)) (ground (arith, split_dot-append s t))

split_dot-eq : (s a b : String) → split_dot s ≡ some (a, b) → s ≡ a ++ ("." ++ b)
unfolding split_dot
split_dot-eq String.[] a b e = absurd (ground arith)
split_dot-eq (String.◌∷◌ c s) a b e = elim (Bool-cases (code c == b'.')) [
  | inl t ↦
      let (ea, eb) : (String.[] ≡ a) × (s ≡ b) = (ground arith, ground arith) in
      rw (← ea, ← eb, nil-append ("." ++ s), cons-append "." "" s, nil-append s)
        (cons_eq c "." s s (ground arith) refl)
  | inr f ↦ elim (Option-cases (split_dot s)) [
    | inl g ↦ absurd (ground arith)
    | inr ((a', b'), g) ↦
        let ea : String.◌∷◌ c a' ≡ a = ground arith in
        let eb : b' ≡ b = ground arith in
        rw (← ea, ← eb, cons-append c a' ("." ++ b'))
          (cons_eq c c s (a' ++ ("." ++ b')) refl (split_dot-eq s a' b' g))
  ]
]

matches-count :
    (lo hi : ℕ) (s : String)
    → matches lo hi s ≡ true
    → (all_chars is_token_char s ≡ true) × (char_count s ≤ hi)
unfolding matches
matches-count lo hi s h = ground arith

char_count-token : (i s : String) → char_count (token_of i s) ≡ 6 + char_count i + char_count s
unfolding token_of char_count
char_count-token i s =
    rw
      (
        char_count-append "avrt_" (i ++ ("." ++ s)),
        char_count-append i ("." ++ s),
        char_count-append "." s,
      )
      (omega arith)

print-parse :
    (i s : String)
    → matches 8 64 i ≡ true
    → matches 43 128 s ≡ true
    → parse_token (token_of i s) ≡ some (i, s)
unfolding parse_token checked token_of
print-parse i s hi hs =
    let (word, short) = matches-count 8 64 i hi in
    let long : char_count (token_of i s) ≤ 256 =
      omega (arith, char_count-token i s, (matches-count 43 128 s hs).1) in
    ground
      (arith, drop_prefix-append "avrt_" (i ++ ("." ++ s)), split_dot-append i s word, long, hi, hs)

parse-print :
    (token i s : String)
    → parse_token token ≡ some (i, s)
    → (token ≡ token_of i s) × (matches 8 64 i ≡ true) × (matches 43 128 s ≡ true)
unfolding parse_token checked token_of
parse-print token i s e = elim (Option-cases (drop_prefix "avrt_" token)) [
  | inl g ↦ absurd (ground arith)
  | inr (body, g) ↦ elim (Option-cases (split_dot body)) [
    | inl f ↦ absurd (ground arith)
    | inr ((a, b), f) ↦
        let both : (a ≡ i) × (b ≡ s) × (matches 8 64 a ≡ true) × (matches 43 128 b ≡ true) =
          (ground arith, ground arith, ground arith, ground arith) in
        (
          drop_prefix-eq "avrt_" token body g
              ∙ ap (λ t. "avrt_" ++ t)
                  (split_dot-eq body a b f ∙ (λ j. both.0 j ++ ("." ++ both.1 j))),
          rw (← both.0) (both.2),
          rw (← both.1) (both.3),
        )
  ]
]

-- Reading a router token is the inverse of writing one: a text is read as an identifier and a secret
-- exactly when it is the token written for them and they have the characters and the lengths that
-- the pattern asks for, 8 to 64 and 43 to 128.
pub parse_token_iff :
    (token i s : String)
    → (parse_token token ≡ some (i, s))
      ↔ ((token ≡ token_of i s) × (matches 8 64 i ≡ true) × (matches 43 128 s ≡ true))
parse_token_iff token i s =
    (parse-print token i s, λ h. ap parse_token (h.0) ∙ print-parse i s h.1 h.2)
