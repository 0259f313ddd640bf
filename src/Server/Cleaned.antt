-- ===== src/Server/Cleaned.antt =====
-- What `_clean` of app/server_operations.py leaves of a text.
use Prim.Native.Char.{code}
use Prim.Native.String.{◌++◌ as concat}
use text.Mathlib.TextLemmas.{nil-append, cons-append}
use auto_vpn.Base.{
  ℕ, zero, suc, ◌≤◌, ◌≡◌, refl, String, Bool, true, not, ◌||◌, List, [], ◌∷◌, inl, inr, Bool-cases,
  truncate, char_count, all_chars, is_space, arith,
}
use auto_vpn.Server.Texts.{
  is_control, is_blank, push_word, split_words, words, join_after, join, clean,
}

abbrev is_plain : String → Bool
is_plain = all_chars (λ n. not (is_control n))

abbrev AllPlain : List String → Type 0
AllPlain [] = Unit
AllPlain (w ∷ ws) = (is_plain w ≡ true) × AllPlain ws

push_word-AllPlain :
    (w : String) (ws : List String) → is_plain w ≡ true → AllPlain ws → AllPlain (push_word w ws)
push_word-AllPlain String.[] ws p ps = ps
push_word-AllPlain (String.◌∷◌ c w) ws p ps = (p, ps)

split_words-AllPlain :
    (s : String)
    → (is_plain (split_words is_blank s).0 ≡ true) × AllPlain (split_words is_blank s).1
unfolding split_words all_chars
split_words-AllPlain String.[] = (refl, tt)
split_words-AllPlain (String.◌∷◌ c s) =
    let (p, ps) = split_words-AllPlain s in
    elim (Bool-cases (is_control (code c) || is_space c)) [
      | inl gap ↦
          rw gap
            (refl, push_word-AllPlain (split_words is_blank s).0 (split_words is_blank s).1 p ps)
      | inr inside ↦ rw inside (ground (arith, p, inside), ps)
    ]

append-plain : (s t : String) → is_plain s ≡ true → is_plain t ≡ true → is_plain (concat s t) ≡ true
unfolding all_chars
append-plain String.[] t p q = rw (nil-append t) q
append-plain (String.◌∷◌ c s) t p q =
    rw (cons-append c s t) (ground (arith, append-plain s t (ground arith) q))

join_after-plain : (ws : List String) → AllPlain ws → is_plain (join_after " " ws) ≡ true
unfolding all_chars is_control
join_after-plain [] p = refl
join_after-plain (w ∷ ws) p =
    append-plain " " (concat w (join_after " " ws)) refl
      (append-plain w (join_after " " ws) p.0 (join_after-plain ws p.1))

join-plain : (ws : List String) → AllPlain ws → is_plain (join " " ws) ≡ true
unfolding all_chars
join-plain [] p = refl
join-plain (w ∷ ws) p = append-plain w (join_after " " ws) p.0 (join_after-plain ws p.1)

truncate-plain : (n : ℕ) (s : String) → is_plain s ≡ true → is_plain (truncate n s) ≡ true
unfolding all_chars truncate
truncate-plain zero s p = refl
truncate-plain (suc n) String.[] p = refl
truncate-plain (suc n) (String.◌∷◌ c s) p = ground (arith, truncate-plain n s (ground arith))

char_count-truncate : (n : ℕ) (s : String) → char_count (truncate n s) ≤ n
unfolding truncate char_count
char_count-truncate zero s = omega arith
char_count-truncate (suc n) String.[] = omega arith
char_count-truncate (suc n) (String.◌∷◌ c s) = omega (arith, char_count-truncate n s)

-- A cleaned text has at most as many characters as its limit, and no control character.
pub clean_is_bounded :
    (limit : ℕ) (value : String)
    → (char_count (clean limit value) ≤ limit)
      × (all_chars (λ n. not (is_control n)) (clean limit value) ≡ true)
unfolding clean words
clean_is_bounded limit value =
    let (p, ps) = split_words-AllPlain value in
    (
      char_count-truncate limit (join " " (words value)),
      truncate-plain limit (join " " (words value)) (
          join-plain (words value) (
            push_word-AllPlain (split_words is_blank value).0 (split_words is_blank value).1 p ps)),
    )
