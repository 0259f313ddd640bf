-- ===== src/Limiter/Refinement.antt =====
-- The limiter, which forgets the failures that have left the window, answers as the ledger that
-- remembers them all (app/security.py, LoginRateLimiter).
use auto_vpn.Base.{
  ℕ, ◌+◌, ◌-◌, ◌/◌, ◌≤◌, ◌≡◌, refl, sym, subst, ap, ◌∙◌, String, Bool, true, false, List, [], ◌∷◌,
  ◌++◌, none, some, inl, inr, ltb, leb, if◌then◌else◌, length, select, count_where, str_eq,
  Bool-cases, Option-cases, arith,
}
use auto_vpn.Limiter.{
  LoginRateLimiter, Verdict, seconds, update, bucket, retry_after, register_failure,
  register_success, verify_admin_credentials,
}
use auto_vpn.Limiter.Specification.{
  Ledger, is_recent, open_key, note_failure, note_success, judge, promised, Attempt,
  promised_verdicts, verdicts, ledger_of,
}

length-select : (p : ℕ → Bool) (ts : List ℕ) → length (select p ts) ≡ count_where p ts
length-select p [] = refl
length-select p (t ∷ ts) = ground (arith, length-select p ts)

length-append : (xs ys : List ℕ) → length (xs ++ ys) ≡ length xs + length ys
length-append [] ys = omega arith
length-append (x ∷ xs) ys = omega (arith, length-append xs ys)

select-append : (p : ℕ → Bool) (xs ys : List ℕ) → select p (xs ++ ys) ≡ select p xs ++ select p ys
select-append p [] ys = refl
select-append p (x ∷ xs) ys = ground (arith, select-append p xs ys)

-- What has left the window stays out of it.
select_later :
    (window now later : ℕ) (ts : List ℕ)
    → now ≤ later
    → select (is_recent window later) (select (is_recent window now) ts)
      ≡ select (is_recent window later) ts
select_later window now later [] h = refl
select_later window now later (t ∷ ts) h = elim (Bool-cases (is_recent window now t)) [
  | inl recent ↦ ground (arith, select_later window now later ts h)
  | inr old ↦ ground (arith, select_later window now later ts h)
]

-- A limiter and a ledger that no attempt from `clock` on tells apart.
record Alike (clock : ℕ) (l : LoginRateLimiter) (a : Ledger) : Type 0 where
  limit : l.max_failures ≡ a.max_failures
  window : seconds l.window_seconds ≡ a.window
  block : seconds l.block_seconds ≡ a.block
  blocked : (key : String) → l.blocked_until key ≡ a.blocked_until key
  recent :
      (key : String) (now : ℕ)
      → clock ≤ now
      → select (is_recent a.window now) (l.failures key)
        ≡ select (is_recent a.window now) (a.history key)

success-Alike :
    (key : String) (clock now : ℕ) (l : LoginRateLimiter) (a : Ledger)
    → clock ≤ now
    → Alike clock l a
    → Alike now (register_success key l) (note_success key a)
unfolding register_success
success-Alike key clock now l a later h = record {
  limit = h.limit;
  window = h.window;
  block = h.block;
  blocked = λ j. elim (Bool-cases (str_eq key j)) [
    | inl e ↦ ground (arith, e)
    | inr e ↦ ground (arith, e, h.blocked j)
  ];
  recent = λ j n after. elim (Bool-cases (str_eq key j)) [
    | inl e ↦ ground (arith, e)
    | inr e ↦ ground (arith, e, h.recent j n (omega (arith, later, after)))
  ];
}

open-Alike :
    (key : String) (clock now : ℕ) (l : LoginRateLimiter) (a : Ledger)
    → clock ≤ now
    → Alike clock l a
    → Alike now (record l { blocked_until = update key none l.blocked_until }) (open_key key a)
open-Alike key clock now l a later h = record {
  limit = h.limit;
  window = h.window;
  block = h.block;
  blocked = λ j. elim (Bool-cases (str_eq key j)) [
    | inl e ↦ ground (arith, e)
    | inr e ↦ ground (arith, e, h.blocked j)
  ];
  recent = λ j n after. h.recent j n (omega (arith, later, after));
}

still-Alike :
    (clock now : ℕ) (l : LoginRateLimiter) (a : Ledger)
    → clock ≤ now
    → Alike clock l a
    → Alike now l a
still-Alike clock now l a later h = record {
  limit = h.limit;
  window = h.window;
  block = h.block;
  blocked = h.blocked;
  recent = λ j n after. h.recent j n (omega (arith, later, after));
}

module _ (key : String) (now : ℕ) (l : LoginRateLimiter) (a : Ledger) (h : Alike now l a) where
  kept :
      select (λ t. ltb now (t + seconds l.window_seconds)) (l.failures key)
      ≡ select (is_recent a.window now) (a.history key)
  kept =
      ap (λ w. select (is_recent w now) (l.failures key)) h.window ∙ h.recent key now (omega arith)

  same_count : length (bucket key now l) ≡ count_where (is_recent a.window now) (a.history key) + 1
  same_count =
      ap (λ b. length (b ++ (now ∷ []))) kept
      ∙ length-append (select (is_recent a.window now) (a.history key)) (now ∷ [])
      ∙ ap (λ n. n + 1) (length-select (is_recent a.window now) (a.history key))

  -- The new list of failures against the whole history.
  recent-bucket :
      (later : ℕ)
      → now ≤ later
      → select (is_recent a.window later) (bucket key now l)
        ≡ select (is_recent a.window later) (a.history key ++ (now ∷ []))
  recent-bucket later after =
      ap (λ b. select (is_recent a.window later) (b ++ (now ∷ []))) kept
      ∙ select-append (is_recent a.window later) (select (is_recent a.window now) (a.history key))
          (now ∷ [])
      ∙ ap (λ b. b ++ select (is_recent a.window later) (now ∷ []))
          (select_later a.window now later (a.history key) after)
      ∙ sym (select-append (is_recent a.window later) (a.history key) (now ∷ []))

  same_test :
      leb l.max_failures (length (bucket key now l))
      ≡ leb a.max_failures (count_where (is_recent a.window now) (a.history key) + 1)
  same_test = λ i. leb (h.limit i) (same_count i)

  blocking-Alike :
      Alike now
        (record l {
          blocked_until = update key (some (now + seconds l.block_seconds)) l.blocked_until;
          failures = update key [] l.failures;
        })
        (record a {
          blocked_until = update key (some (now + a.block)) a.blocked_until;
          history = update key [] a.history;
        })
  blocking-Alike = record {
    limit = h.limit;
    window = h.window;
    block = h.block;
    blocked = λ j. elim (Bool-cases (str_eq key j)) [
      | inl e ↦ rw e (ap (λ n. some (now + n)) h.block)
      | inr e ↦ rw e (h.blocked j)
    ];
    recent = λ j n after. elim (Bool-cases (str_eq key j)) [
      | inl e ↦ rw e refl
      | inr e ↦ rw e (h.recent j n after)
    ];
  }

  noting-Alike :
      Alike now
        (record l { failures = update key (bucket key now l) l.failures })
        (record a { history = update key (a.history key ++ (now ∷ [])) a.history })
  noting-Alike = record {
    limit = h.limit;
    window = h.window;
    block = h.block;
    blocked = h.blocked;
    recent = λ j n after. elim (Bool-cases (str_eq key j)) [
      | inl e ↦ rw e (recent-bucket n after)
      | inr e ↦ rw e (h.recent j n after)
    ];
  }

  failure-Alike : Alike now (register_failure key now l) (note_failure key now a)
  unfolding register_failure
  failure-Alike =
      elim (Bool-cases
        (leb a.max_failures (count_where (is_recent a.window now) (a.history key) + 1))) [
          | inl met ↦ rw (same_test ∙ met, met) blocking-Alike
          | inr below ↦ rw (same_test ∙ below, below) noting-Alike
        ]

-- What an attempt is answered, and what it leaves.
abbrev Agrees : ℕ → Verdict × LoginRateLimiter → Verdict × Ledger → Type 0
Agrees now left right = (left.0 ≡ right.0) × Alike now left.1 right.1

abbrev judge_limiter : String → ℕ → Bool → LoginRateLimiter → Verdict × LoginRateLimiter
judge_limiter key now right l =
    if right
    then (Verdict.checked true, register_success key l)
    else (Verdict.checked false, register_failure key now l)

judge-Agrees :
    (key : String) (now : ℕ) (right : Bool) (l : LoginRateLimiter) (a : Ledger)
    → Alike now l a
    → Agrees now (judge_limiter key now right l) (judge key now right a)
judge-Agrees key now true l a h = (refl, success-Alike key now now l a (omega arith) h)
judge-Agrees key now false l a h = (refl, failure-Alike key now l a h)

abbrev reopened : String → LoginRateLimiter → LoginRateLimiter
reopened key l = record l { blocked_until = update key none l.blocked_until }

module _ (key : String) (now : ℕ) (right : Bool) (l : LoginRateLimiter) where
  verify_free :
      l.blocked_until key ≡ none
      → verify_admin_credentials key now right l ≡ judge_limiter key now right l
  unfolding verify_admin_credentials retry_after
  verify_free free = ground (arith, free)

  verify_early :
      (until : ℕ)
      → l.blocked_until key ≡ some until
      → ltb now until ≡ true
      → verify_admin_credentials key now right l
        ≡ (Verdict.too_many_requests ((until - now) / 1000000 + 1), l)
  unfolding verify_admin_credentials retry_after
  verify_early until held early = ground (arith, held, early)

  verify_over :
      (until : ℕ)
      → l.blocked_until key ≡ some until
      → ltb now until ≡ false
      → verify_admin_credentials key now right l ≡ judge_limiter key now right (reopened key l)
  unfolding verify_admin_credentials retry_after
  verify_over until held over = ground (arith, held, over)

module _ (key : String) (now : ℕ) (right : Bool) (a : Ledger) where
  promised_free : a.blocked_until key ≡ none → promised key now right a ≡ judge key now right a
  unfolding promised
  promised_free free = ground (arith, free)

  promised_early :
      (until : ℕ)
      → a.blocked_until key ≡ some until
      → ltb now until ≡ true
      → promised key now right a ≡ (Verdict.too_many_requests ((until - now) / 1000000 + 1), a)
  unfolding promised
  promised_early until held early = ground (arith, held, early)

  promised_over :
      (until : ℕ)
      → a.blocked_until key ≡ some until
      → ltb now until ≡ false
      → promised key now right a ≡ judge key now right (open_key key a)
  unfolding promised
  promised_over until held over = ground (arith, held, over)

attempt-Agrees :
    (key : String) (clock now : ℕ) (right : Bool) (l : LoginRateLimiter) (a : Ledger)
    → clock ≤ now
    → Alike clock l a
    → Agrees now (verify_admin_credentials key now right l) (promised key now right a)
attempt-Agrees key clock now right l a later h =
    let here = still-Alike clock now l a later h in
    elim (Option-cases (a.blocked_until key)) [
      | inl free ↦
          transfer (verify_free key now right l (h.blocked key ∙ free))
            (promised_free key now right a free) (judge-Agrees key now right l a here)
      | inr (until, held) ↦ elim (Bool-cases (ltb now until)) [
        | inl early ↦
            transfer (verify_early key now right l until (h.blocked key ∙ held) early)
              (promised_early key now right a until held early) (refl, here)
        | inr over ↦
            transfer (verify_over key now right l until (h.blocked key ∙ held) over)
              (promised_over key now right a until held over)
              (judge-Agrees key now right (reopened key l) (open_key key a)
                (open-Alike key clock now l a later h))
      ]
    ]
  where
    transfer :
        {left left' : Verdict × LoginRateLimiter} {other other' : Verdict × Ledger}
        → left ≡ left'
        → other ≡ other'
        → Agrees now left' other'
        → Agrees now left other
    transfer {left} {left'} {other} {other'} p q agrees =
        subst (λ v. Agrees now v other) (sym p) (subst (λ v. Agrees now left' v) (sym q) agrees)

-- Times do not fall.
abbrev pub InOrder : ℕ → List Attempt → Type 0
InOrder clock [] = Unit
InOrder clock (t ∷ ts) = (clock ≤ t.now) × InOrder t.now ts

same_verdicts :
    (clock : ℕ) (attempts : List Attempt) (l : LoginRateLimiter) (a : Ledger)
    → InOrder clock attempts
    → Alike clock l a
    → verdicts attempts l ≡ promised_verdicts attempts a
unfolding verdicts promised_verdicts
same_verdicts clock [] l a order h = refl
same_verdicts clock (t ∷ ts) l a order h =
    let (same, next) = attempt-Agrees t.key clock t.now t.right l a order.0 h in
    let rest = same_verdicts t.now ts _ _ order.1 next in λ i. same i ∷ rest i

-- The limiter keeps its promise: over any attempts of any keys, at times that do not fall, the answers
-- (HTTP 429 with the seconds to wait, or whether name and password are right) are those of the ledger
-- that begins where the limiter stands, remembers every wrong attempt of a key since its last right one
-- or its last block, and counts those within the window.
pub limiter_refines_ledger :
    (clock : ℕ) (attempts : List Attempt) (l : LoginRateLimiter)
    → InOrder clock attempts
    → verdicts attempts l ≡ promised_verdicts attempts (ledger_of l)
limiter_refines_ledger clock attempts l order =
    same_verdicts clock attempts l (ledger_of l) order (record {
      limit = refl;
      window = refl;
      block = refl;
      blocked = λ key. refl;
      recent = λ key now after. refl;
    })
