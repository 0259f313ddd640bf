-- ===== src/Limiter/Specification.antt =====
-- What the login limiter promises (app/security.py, LoginRateLimiter): it remembers every wrong attempt
-- of a key since the last right one or the last block, and blocks the key when enough of them lie
-- within the window.
use auto_vpn.Base.{
  ℕ, ◌+◌, ◌-◌, ◌/◌, String, Bool, true, false, List, [], ◌∷◌, ◌++◌, Option, none, some, ltb, leb,
  if◌then◌else◌, count_where,
}
use auto_vpn.Limiter.{
  LoginRateLimiter, Verdict, too_many_requests, checked, seconds, update, verify_admin_credentials,
}

pub record Ledger : Type 0 where
  pub max_failures : ℕ
  pub window : ℕ
  pub block : ℕ
  pub history : String → List ℕ
  pub blocked_until : String → Option ℕ

abbrev pub is_recent : ℕ → ℕ → ℕ → Bool
is_recent window now t = ltb now (t + window)

-- A block that is over is forgotten.
abbrev pub open_key : String → Ledger → Ledger
open_key key a = record a { blocked_until = update key none a.blocked_until }

abbrev pub note_failure : String → ℕ → Ledger → Ledger
note_failure key now a =
    if leb a.max_failures (count_where (is_recent a.window now) (a.history key) + 1)
    then record a {
      blocked_until = update key (some (now + a.block)) a.blocked_until;
      history = update key [] a.history;
    }
    else record a { history = update key (a.history key ++ (now ∷ [])) a.history }

abbrev pub note_success : String → Ledger → Ledger
note_success key a = record a {
  history = update key [] a.history;
  blocked_until = update key none a.blocked_until;
}

abbrev pub judge : String → ℕ → Bool → Ledger → Verdict × Ledger
judge key now right a =
    if right then (checked true, note_success key a) else (checked false, note_failure key now a)

unfoldable pub promised : String → ℕ → Bool → Ledger → Verdict × Ledger
promised key now right a = elim (a.blocked_until key) [
  | none ↦ judge key now right a
  | some until ↦
      if ltb now until
      then (too_many_requests ((until - now) / 1000000 + 1), a)
      else judge key now right (open_key key a)
]

-- An attempt: its key, its time, and whether name and password are right.
pub record Attempt : Type 0 where
  pub key : String
  pub now : ℕ
  pub right : Bool

unfoldable pub promised_verdicts : List Attempt → Ledger → List Verdict
unfolding promised
promised_verdicts [] a = []
promised_verdicts (t ∷ ts) a =
    let (verdict, next) = promised t.key t.now t.right a in verdict ∷ promised_verdicts ts next

unfoldable pub verdicts : List Attempt → LoginRateLimiter → List Verdict
unfolding verify_admin_credentials
verdicts [] l = []
verdicts (t ∷ ts) l =
    let (verdict, next) = verify_admin_credentials t.key t.now t.right l in
    verdict ∷ verdicts ts next

-- The ledger that begins where a limiter stands.
abbrev pub ledger_of : LoginRateLimiter → Ledger
ledger_of l = record {
  max_failures = l.max_failures;
  window = seconds l.window_seconds;
  block = seconds l.block_seconds;
  history = l.failures;
  blocked_until = l.blocked_until;
}
