-- ===== src/Tests/Limiter.antt =====
-- The theorems on the login limiter at a limit of three attempts.
use auto_vpn.Base.{◌≡◌, refl, true, false, List, [], ◌∷◌, none, arith}
use auto_vpn.Limiter.{
  LoginRateLimiter, verify_admin_credentials, guess_wrong, too_many_requests, checked,
}
use auto_vpn.Limiter.Specification.{Attempt, verdicts, promised_verdicts, ledger_of}
use auto_vpn.Limiter.Refinement.{limiter_refines_ledger}
use auto_vpn.Limiter.Blocks.{guessing_is_limited}

abbrev limiter : LoginRateLimiter
limiter = record {
  max_failures = 3;
  window_seconds = 300;
  block_seconds = 300;
  failures = λ key. [];
  blocked_until = λ key. none;
}

guessing_is_limited_example :
    verify_admin_credentials "10.0.0.9" 100000000 true
      (guess_wrong "10.0.0.9" (1000000 ∷ 2000000 ∷ 3000000 ∷ []) limiter)
    ≡ (too_many_requests 204, guess_wrong "10.0.0.9" (1000000 ∷ 2000000 ∷ 3000000 ∷ []) limiter)
guessing_is_limited_example =
    guessing_is_limited "10.0.0.9" 0 1000000 (2000000 ∷ 3000000 ∷ []) limiter 100000000 true refl
      refl (omega arith) refl (omega arith)

-- Two wrong attempts of one key, one of another, the third wrong one, and a right one that comes too
-- soon.
abbrev attempts : List Attempt
attempts =
    record { key = "10.0.0.9"; now = 1000000; right = false }
    ∷ record { key = "10.0.0.9"; now = 2000000; right = false }
    ∷ record { key = "10.0.0.8"; now = 2000000; right = true }
    ∷ record { key = "10.0.0.9"; now = 3000000; right = false }
    ∷ record { key = "10.0.0.9"; now = 4000000; right = true }
    ∷ []

limiter_refines_ledger_example :
    verdicts attempts limiter ≡ promised_verdicts attempts (ledger_of limiter)
limiter_refines_ledger_example = limiter_refines_ledger 0 attempts limiter (omega arith)

verdicts_are :
    verdicts attempts limiter
    ≡ checked false ∷ checked false ∷ checked true ∷ checked false ∷ too_many_requests 300 ∷ []
unfolding verdicts
verdicts_are = refl
