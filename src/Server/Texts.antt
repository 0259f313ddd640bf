-- ===== src/Server/Texts.antt =====
-- The texts of app/server_operations.py: `_clean`, and the methods of Python's `str` that its other
-- functions use.
use Prim.Native.Char.{Char, code}
use Prim.Native.String.{◌++◌ as concat}
use auto_vpn.Base.{
  ℕ, zero, suc, ◌/◌, ◌%◌, ◌+◌, String, Bool, true, false, ◌&&◌, ◌||◌, List, [], ◌∷◌, Option, none,
  some, ◌==◌, ltb, leb, if◌then◌else◌, truthy, is_space, truncate, begins,
}

-- `[\x00-\x1f\x7f]`.
unfoldable pub is_control : ℕ → Bool
is_control n = ltb n 32 || n == 127

abbrev pub push_word : String → List String → List String
push_word w rest = if truthy w then w ∷ rest else rest

-- The text at its gaps: the word that stands first, which may be empty, and the words after it.
unfoldable pub split_words : (Char → Bool) → String → String × List String
split_words is_gap String.[] = (String.[], [])
split_words is_gap (String.◌∷◌ c s) =
    let (w, rest) = split_words is_gap s in
    if is_gap c then (String.[], push_word w rest) else (String.◌∷◌ c w, rest)

abbrev pub all_words : String × List String → List String
all_words (w, rest) = push_word w rest

-- `text.split()`.
unfoldable pub split_spaces : String → List String
unfolding split_words is_space
split_spaces s = all_words (split_words is_space s)

abbrev pub is_blank : Char → Bool
is_blank c = is_control (code c) || is_space c

-- `text.split()` once the control characters are spaces.
unfoldable pub words : String → List String
unfolding split_words is_control is_space
words s = all_words (split_words is_blank s)

abbrev pub join_after : String → List String → String
join_after sep [] = String.[]
join_after sep (w ∷ ws) = concat sep (concat w (join_after sep ws))

-- `sep.join(words)`.
abbrev pub join : String → List String → String
join sep [] = String.[]
join sep (w ∷ ws) = concat w (join_after sep ws)

-- `_clean`.
unfoldable pub clean : ℕ → String → String
unfolding words truncate
clean limit value = truncate limit (join " " (words value))

-- The code of the lower case of an ASCII letter. No other letter has a lower case that the words
-- below could match.
abbrev pub lower_code : ℕ → ℕ
lower_code n = if leb 65 n && leb n 90 then n + 32 else n

-- `text.lower() == word`, for a word in lower case.
unfoldable pub lower_eq : String → String → Bool
lower_eq String.[] String.[] = true
lower_eq String.[] (String.◌∷◌ d w) = false
lower_eq (String.◌∷◌ c s) String.[] = false
lower_eq (String.◌∷◌ c s) (String.◌∷◌ d w) = lower_code (code c) == code d && lower_eq s w

unfoldable pub lower_in : String → List String → Bool
unfolding lower_eq
lower_in s [] = false
lower_in s (w ∷ ws) = lower_eq s w || lower_in s ws

-- The characters at which `str.splitlines` ends a line.
unfoldable pub is_line_break : ℕ → Bool
is_line_break n =
    (leb 10 n && leb n 13) || ((leb 28 n && leb n 30) || (n == 133 || (n == 0x2028 || n == 0x2029)))

-- The first line, and the lines after it, the last of which may be empty. The two characters CR LF
-- are one line break.
unfoldable pub split_lines : String → String × List String
unfolding is_line_break begins
split_lines String.[] = (String.[], [])
split_lines (String.◌∷◌ c s) =
    let (line, rest) = split_lines s in
    if code c == 13 && begins "\n" s
    then (line, rest)
    else (if is_line_break (code c) then (String.[], line ∷ rest) else (String.◌∷◌ c line, rest))

abbrev pub drop_empty_last : List String → List String
drop_empty_last [] = []
drop_empty_last (line ∷ []) = if truthy line then line ∷ [] else []
drop_empty_last (line ∷ next ∷ rest) = line ∷ drop_empty_last (next ∷ rest)

-- `text.splitlines()`.
unfoldable pub splitlines : String → List String
unfolding split_lines
splitlines s = let (line, rest) = split_lines s in drop_empty_last (line ∷ rest)

-- `text.partition(c)` for one character: what stands before it, and what stands after it if the text
-- has it.
unfoldable pub partition : ℕ → String → String × Option String
partition c String.[] = (String.[], none)
partition c (String.◌∷◌ d s) =
    let (before, after) = partition c s in
    if code d == c then (String.[], some s) else (String.◌∷◌ d before, after)

abbrev pub digit : ℕ → String
digit n =
    if n == 0
    then "0"
    else (if n == 1
        then "1"
        else (if n == 2
            then "2"
            else (if n == 3
                then "3"
                else (if n == 4
                    then "4"
                    else (if n == 5
                        then "5"
                        else (if n == 6
                            then "6"
                            else (if n == 7 then "7" else (if n == 8 then "8" else "9"))))))))

-- The digits of a number; as many rounds as the number says are enough.
unfoldable pub digits : ℕ → ℕ → String
digits zero n = digit (n % 10)
digits (suc rounds) n =
    let rest = digits rounds (n / 10) in if ltb n 10 then digit n else concat rest (digit (n % 10))

-- `str(n)`.
unfoldable pub decimal : ℕ → String
unfolding digits
decimal n = digits n n
