-- ===== src/Base/Text.antt =====
-- Python's `str.strip()` and `text[:n]` on the characters of a text.
use Prim.Native.Nat.{ℕ, zero, suc, ◌+◌}
use Prim.Native.Char.{Char, code}
use Prim.Native.String.{String, ◌++◌}
use text.Mathlib.TextLemmas.{nil-append, cons-append}
use native.Mathlib.Omega.{arith}
use mathlib.Core.Path.{◌≡◌}
use mathlib.Core.Bool.{Bool, true, false, ◌&&◌, ◌||◌, not}
use mathlib.Core.Option.{Option, none, some}
use mathlib.Core.List.{List, [], ◌∷◌}
use auto_vpn.Base.Tests.{leb, ◌==◌, if◌then◌else◌, truthy}

-- The characters for which `str.isspace` holds.
unfoldable pub is_space : Char → Bool
is_space c =
    let n = code c in
    (leb 9 n && leb n 13)
    || ((leb 28 n && leb n 32)
        || (n == 133
            || (n == 160
                || (n == 0x1680
                    || ((leb 0x2000 n && leb n 0x200a)
                        || (n == 0x2028
                            || (n == 0x2029 || (n == 0x202f || (n == 0x205f || n == 0x3000)))))))))

unfoldable pub strip_left : String → String
unfolding is_space
strip_left String.[] = String.[]
strip_left (String.◌∷◌ c s) = let rest = strip_left s in if is_space c then rest else String.◌∷◌ c s

unfoldable pub strip_right : String → String
unfolding is_space
strip_right String.[] = String.[]
strip_right (String.◌∷◌ c s) =
    let rest = strip_right s in
    if is_space c && not (truthy rest) then String.[] else String.◌∷◌ c rest

unfoldable pub strip : String → String
unfolding strip_left strip_right
strip s = strip_right (strip_left s)

unfoldable pub truncate : ℕ → String → String
truncate zero s = String.[]
truncate (suc n) String.[] = String.[]
truncate (suc n) (String.◌∷◌ c s) = String.◌∷◌ c (truncate n s)

-- `len(text)`.
unfoldable pub char_count : String → ℕ
char_count String.[] = 0
char_count (String.◌∷◌ c s) = suc (char_count s)

unfoldable pub all_chars : (ℕ → Bool) → String → Bool
all_chars p String.[] = true
all_chars p (String.◌∷◌ c s) = p (code c) && all_chars p s

-- The text after a prefix.
unfoldable pub drop_prefix : String → String → Option String
drop_prefix String.[] s = some s
drop_prefix (String.◌∷◌ p ps) String.[] = none
drop_prefix (String.◌∷◌ p ps) (String.◌∷◌ c s) =
    let rest = drop_prefix ps s in if code p == code c then rest else none

unfoldable pub begins : String → String → Bool
begins String.[] s = true
begins (String.◌∷◌ p ps) String.[] = false
begins (String.◌∷◌ p ps) (String.◌∷◌ c s) = code p == code c && begins ps s

-- `text.split(sep)` with one character; never empty.
unfoldable pub split_on : ℕ → String → String × List String
split_on sep String.[] = (String.[], [])
split_on sep (String.◌∷◌ c s) =
    let (first, rest) = split_on sep s in
    if code c == sep then (String.[], first ∷ rest) else (String.◌∷◌ c first, rest)

-- `text.replace(c, other)` with one character.
unfoldable pub replace_char : ℕ → String → String → String
replace_char c other String.[] = String.[]
replace_char c other (String.◌∷◌ d s) =
    let rest = replace_char c other s in if code d == c then other ++ rest else String.◌∷◌ d rest

-- `part in text`.
unfoldable pub is_within : String → String → Bool
unfolding begins
is_within part String.[] = not (truthy part)
is_within part (String.◌∷◌ c s) = begins part (String.◌∷◌ c s) || is_within part s

pub char_count-append : (s t : String) → char_count (s ++ t) ≡ char_count s + char_count t
unfolding char_count
char_count-append String.[] t = rw (nil-append t) (omega arith)
char_count-append (String.◌∷◌ c s) t = rw (cons-append c s t) (omega (arith, char_count-append s t))
