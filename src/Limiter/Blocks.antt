-- ===== src/Limiter/Blocks.antt =====
-- When a key is blocked (app/security.py, LoginRateLimiter).
use text.Mathlib.TextPositions.{eq_refl}
use auto_vpn.Base.{
  ℕ, ◌+◌, ◌-◌, ◌/◌, ◌≤◌, ◌<◌, ◌≡◌, refl, ap, ◌∙◌, String, Bool, true, false, List, [], ◌∷◌, ◌++◌,
  none, some, ltb, leb, length, select, arith,
}
use auto_vpn.Limiter.{
  LoginRateLimiter, seconds, bucket, retry_after, register_failure, verify_admin_credentials,
  guess_wrong, too_many_requests,
}

-- Every time lies between the first and the end of the window that begins there, in order.
abbrev pub Within : ℕ → ℕ → List ℕ → Type 0
Within first end [] = Unit
Within first end (t ∷ ts) = (first ≤ t) × (t < end) × Within first end ts

length-append : (xs ys : List ℕ) → length (xs ++ ys) ≡ length xs + length ys
length-append [] ys = omega arith
length-append (x ∷ xs) ys = omega (arith, length-append xs ys)

Within-append :
    (first end : ℕ) (xs ys : List ℕ)
    → Within first end xs
    → Within first end ys
    → Within first end (xs ++ ys)
Within-append first end [] ys h k = k
Within-append first end (x ∷ xs) ys h k = (h.0, h.1, Within-append first end xs ys h.2 k)

-- Nothing of one window is forgotten within it.
select-all :
    (first window now : ℕ) (ts : List ℕ)
    → Within first (first + window) ts
    → now < first + window
    → select (λ t. ltb now (t + window)) ts ≡ ts
select-all first window now [] h w = refl
select-all first window now (t ∷ ts) h w = ground (arith, select-all first window now ts h.2 w, h.0)

-- The time of the last attempt.
abbrev pub last : ℕ → List ℕ → ℕ
last t [] = t
last t (u ∷ ts) = last u ts

module _ (key : String) (first limit window block : ℕ) where
  -- The failures so far, all in one window, and no block.
  record Collects (ts : List ℕ) (l : LoginRateLimiter) : Type 0 where
    limits : (l.max_failures ≡ limit) × (l.window_seconds ≡ window) × (l.block_seconds ≡ block)
    failed : l.failures key ≡ ts
    open_key : l.blocked_until key ≡ none

  abbrev InWindow : List ℕ → Type 0
  InWindow = Within first (first + seconds window)

  bucket_lem :
      (l : LoginRateLimiter) (ts : List ℕ) (t : ℕ)
      → Collects ts l
      → InWindow ts
      → t < first + seconds window
      → bucket key t l ≡ ts ++ (t ∷ [])
  bucket_lem l ts t c h w =
      ap (λ b. b ++ (t ∷ []))
        ((λ i. select (λ u. ltb t (u + seconds (c.limits.1 i))) (c.failed i))
          ∙ select-all first (seconds window) t ts h w)

  -- A wrong attempt is checked, and counted while the limit is not met.
  counts :
      (l : LoginRateLimiter) (ts : List ℕ) (t : ℕ)
      → Collects ts l
      → InWindow ts
      → t < first + seconds window
      → length ts + 1 < limit
      → Collects (ts ++ (t ∷ [])) (verify_admin_credentials key t false l).1
  unfolding verify_admin_credentials register_failure retry_after
  counts l ts t c h w few =
      let held = bucket_lem l ts t c h w in
      let longer = length-append ts (t ∷ []) in
      let below : leb l.max_failures (length (bucket key t l)) ≡ false =
        rw (held, c.limits.0, longer) (ground arith) in
      record {
        limits = (
          ground (arith, below, c.limits.0, c.open_key),
          ground (arith, below, c.limits.1, c.open_key),
          ground (arith, below, c.limits.2, c.open_key),
        );
        failed = ground (arith, below, held, c.open_key, eq_refl key);
        open_key = ground (arith, below, c.open_key);
      }

  blocks :
      (l : LoginRateLimiter) (ts : List ℕ) (t : ℕ)
      → Collects ts l
      → InWindow ts
      → t < first + seconds window
      → length ts + 1 ≡ limit
      → (verify_admin_credentials key t false l).1.blocked_until key ≡ some (t + seconds block)
  unfolding verify_admin_credentials register_failure retry_after
  blocks l ts t c h w full =
      let held = bucket_lem l ts t c h w in
      let longer = length-append ts (t ∷ []) in
      let met : leb l.max_failures (length (bucket key t l)) ≡ true =
        rw (held, c.limits.0, longer) (ground arith) in
      ground (arith, met, c.open_key, c.limits.2, eq_refl key)

  blocked_after :
      (l : LoginRateLimiter) (ts : List ℕ) (t : ℕ) (rest : List ℕ)
      → Collects ts l
      → InWindow ts
      → InWindow (t ∷ rest)
      → length ts + length (t ∷ rest) ≡ limit
      → (guess_wrong key (t ∷ rest) l).blocked_until key ≡ some (last t rest + seconds block)
  unfolding guess_wrong
  blocked_after l ts t [] c h w full = blocks l ts t c h w.1 (omega arith)
  blocked_after l ts t (u ∷ rest) c h w full =
      blocked_after (verify_admin_credentials key t false l).1 (ts ++ (t ∷ [])) u rest
        (counts l ts t c h w.1 (omega arith))
        (Within-append first (first + seconds window) ts (t ∷ []) h (w.0, w.1, tt)) (w.2)
        (omega (arith, length-append ts (t ∷ [])))

-- Guessing is limited: when a key without failures or a block has made as many wrong attempts as the
-- limit allows, all within one window, then until the block that begins with the last of them is
-- over, an attempt is answered with HTTP 429 and the whole seconds left plus one, whether or not its
-- password is right, and changes nothing.
pub guessing_is_limited :
    (key : String) (first t : ℕ) (rest : List ℕ) (l : LoginRateLimiter) (now : ℕ) (right : Bool)
    → l.failures key ≡ []
    → l.blocked_until key ≡ none
    → Within first (first + seconds l.window_seconds) (t ∷ rest)
    → length (t ∷ rest) ≡ l.max_failures
    → now < last t rest + seconds l.block_seconds
    → verify_admin_credentials key now right (guess_wrong key (t ∷ rest) l) ≡ (
      too_many_requests ((last t rest + seconds l.block_seconds - now) / 1000000 + 1),
      guess_wrong key (t ∷ rest) l,
    )
unfolding verify_admin_credentials retry_after
guessing_is_limited key first t rest l now right clean free within full early =
    let blocked =
      blocked_after key first l.max_failures l.window_seconds l.block_seconds l [] t rest
        (record { limits = (refl, refl, refl); failed = clean; open_key = free }) tt within
        (omega arith) in
    ground (arith, blocked)
