-- ===== src/Limiter.antt =====
-- app/security.py: LoginRateLimiter. Time is a number of microseconds that does not fall, and a
-- dictionary is a function from its keys.
pub mod Blocks
pub mod Specification
pub mod Refinement
use auto_vpn.Base.{
  ℕ, ◌+◌, ◌-◌, ◌*◌, ◌/◌, String, Bool, true, false, List, [], ◌∷◌, ◌++◌, Option, none, some, ltb,
  leb, if◌then◌else◌, length, select, str_eq, or_default,
}

pub record LoginRateLimiter : Type 0 where
  pub max_failures : ℕ
  pub window_seconds : ℕ
  pub block_seconds : ℕ
  pub failures : String → List ℕ
  pub blocked_until : String → Option ℕ

abbrev pub seconds : ℕ → ℕ
seconds n = n * 1000000

abbrev pub update {ℓ} : {A : Type ℓ} → String → A → (String → A) → String → A
update k v f j = if str_eq k j then v else f j

unfoldable pub retry_after : String → ℕ → LoginRateLimiter → ℕ × LoginRateLimiter
retry_after key now l = elim (l.blocked_until key) [
  | none ↦ (0, l)
  | some until ↦
      if ltb now until
      then ((until - now) / 1000000 + 1, l)
      else (0, record l { blocked_until = update key none l.blocked_until })
]

-- The failures in the window, and the new one.
abbrev pub bucket : String → ℕ → LoginRateLimiter → List ℕ
bucket key now l =
    select (λ t. ltb now (t + seconds l.window_seconds)) (l.failures key) ++ (now ∷ [])

unfoldable pub register_failure : String → ℕ → LoginRateLimiter → LoginRateLimiter
register_failure key now l =
    if leb l.max_failures (length (bucket key now l))
    then record l {
      blocked_until = update key (some (now + seconds l.block_seconds)) l.blocked_until;
      failures = update key [] l.failures;
    }
    else record l { failures = update key (bucket key now l) l.failures }

unfoldable pub register_success : String → LoginRateLimiter → LoginRateLimiter
register_success key l = record l {
  failures = update key [] l.failures;
  blocked_until = update key none l.blocked_until;
}

-- What `_verify_admin_credentials` (app/main.py) answers: HTTP 429 with the seconds to wait, or
-- whether the name and the password are right.
pub data Verdict : Type 0 where
  too_many_requests : ℕ → Verdict
  checked : Bool → Verdict

unfoldable pub verify_admin_credentials :
    String → ℕ → Bool → LoginRateLimiter → Verdict × LoginRateLimiter
unfolding retry_after register_success register_failure
verify_admin_credentials key now right l =
    let (wait, l') = retry_after key now l in
    if ltb 0 wait
    then (too_many_requests wait, l')
    else (if right
        then (checked true, register_success key l')
        else (checked false, register_failure key now l'))

-- Wrong attempts of one key at these times, one after the other.
unfoldable pub guess_wrong : String → List ℕ → LoginRateLimiter → LoginRateLimiter
unfolding verify_admin_credentials
guess_wrong key [] l = l
guess_wrong key (t ∷ ts) l = guess_wrong key ts (verify_admin_credentials key t false l).1
