-- ===== src/Credentials/Tokens.antt =====
-- app/router_credentials.py: the text of a router token, "avrt_", the identifier of the credential,
-- a dot and the secret, which `_TOKEN_PATTERN` reads back.
use Prim.Native.Char.{code}
use Prim.Native.String.{◌++◌}
use auto_vpn.Base.{
  ℕ, String, Bool, ◌&&◌, ◌||◌, Option, none, some, ◌==◌, leb, if◌then◌else◌, char_count, all_chars,
  drop_prefix,
}
use auto_vpn.Db.{case_option}

-- `[A-Za-z0-9_-]`.
unfoldable pub is_token_char : ℕ → Bool
is_token_char c =
    (leb b'A' c && leb c b'Z')
    || ((leb b'a' c && leb c b'z') || ((leb b'0' c && leb c b'9') || (c == b'_' || c == b'-')))

-- `[A-Za-z0-9_-]{lo,hi}`.
unfoldable pub matches : ℕ → ℕ → String → Bool
unfolding is_token_char
matches lo hi s = all_chars is_token_char s && (leb lo (char_count s) && leb (char_count s) hi)

-- What stands before the first dot, and after it.
unfoldable pub split_dot : String → Option (String × String)
split_dot String.[] = none
split_dot (String.◌∷◌ c s) =
    let rest = split_dot s in
    if code c == b'.'
    then some (String.[], s)
    else case_option rest none (λ (a, b). some (String.◌∷◌ c a, b))

unfoldable pub token_of : String → String → String
token_of credential_id secret = "avrt_" ++ (credential_id ++ ("." ++ secret))

unfoldable pub checked : String → String → Option (String × String)
unfolding matches
checked credential_id secret =
    if matches 8 64 credential_id && matches 43 128 secret
    then some (credential_id, secret)
    else none

-- The match of `_TOKEN_PATTERN` in a token of at most `ROUTER_TOKEN_MAX_LENGTH` characters.
unfoldable pub parse_token : String → Option (String × String)
unfolding split_dot checked
parse_token token =
    if leb (char_count token) 256
    then case_option (drop_prefix "avrt_" token) none
        (λ body. case_option (split_dot body) none λ (a, b). checked a b)
    else none
