-- ===== src/RateLimit/Bucket.antt =====
-- internal/ratelimit/bucket.go. The code's floats are fixed-point numbers here: rates and the
-- throttle factor count units of 10^-9, their product units of 10^-18 tokens a second, times
-- nanoseconds, and so tokens units of 10^-27. The rounding of the floats is not modelled, nor is the
-- conversion of a wait to a time.Duration, which can overflow where the rate is small. A negative
-- rate reads as 0, which the code treats alike. The clock does not run backwards, as Go's monotonic
-- clock does not.
use smart_proxy.Base.{
  ℕ, suc, ◌+◌, ◌-◌, ◌*◌, ◌^◌, ◌≤◌, ◌≡◌, sym, subst, inl, inr, Bool, true, false, List, [], ◌∷◌,
  arith, leb, if◌then◌else◌, nat_eq, text_eq, Bool-cases,
}
use Prim.Native.Nat.{min, max}

pub record TokenBucket : Type 0 where
  pub tokens : ℕ
  pub max_tokens : ℕ
  pub refill_rate : ℕ
  pub last_refill : ℕ
  pub throttle : ℕ

-- One token, and a rate of one token a second.
abbrev pub one_token : ℕ
one_token = 10 ^ 27

abbrev pub one_rate : ℕ
one_rate = 10 ^ 9

-- `burst` counts tokens in units of 10^-27; a rate of one token a second holds one token.
unfoldable pub new_token_bucket : ℕ → ℕ → ℕ → ℕ → TokenBucket
new_token_bucket rate burst throttle now = record {
  tokens = burst;
  max_tokens = if leb burst 0 then max (rate * 10 ^ 18) one_token else burst;
  refill_rate = rate;
  last_refill = now;
  throttle = throttle;
}

unfoldable pub effective_rate : TokenBucket → ℕ
effective_rate b = if leb (b.refill_rate * b.throttle) 0 then 10 ^ 9 else b.refill_rate * b.throttle

unfoldable pub refill : TokenBucket → ℕ → TokenBucket
refill b now = record b {
  tokens = min b.max_tokens (b.tokens + (now - b.last_refill) * effective_rate b);
  last_refill = now;
}

-- The wait that a call names: the tokens that are missing, and the rate at which they come in. The
-- quotient, in floats and then in an int64 of nanoseconds, is left to what uses the wait.
pub record Wait : Type 0 where
  pub deficit : ℕ
  pub rate : ℕ

-- the bucket after the call, whether a token was taken, and the wait
unfoldable pub take_token : TokenBucket → TokenBucket × Bool × Wait
unfolding effective_rate
take_token b =
    if leb one_token b.tokens
    then (
      record b { tokens = b.tokens - one_token },
      true,
      (record { deficit = 0; rate = effective_rate b }),
    )
    else (b, false, (record { deficit = one_token - b.tokens; rate = effective_rate b }))

unfoldable pub try_consume : TokenBucket → ℕ → TokenBucket × Bool × Wait
unfolding take_token refill
try_consume b now = take_token (refill b now)

unfoldable pub update_rate : TokenBucket → ℕ → TokenBucket
update_rate b new_rate = record b { refill_rate = new_rate }

unfoldable pub read_tokens : TokenBucket → ℕ → TokenBucket × ℕ
read_tokens b now = (refill b now, (refill b now).tokens)

-- A run of `TryConsume` at the given times: the bucket at the end, and how many calls were allowed.
unfoldable pub consume_all : TokenBucket → List ℕ → TokenBucket × ℕ
consume_all b [] = (b, 0)
consume_all b (t ∷ ts) =
    let (b', allowed, _) = try_consume b t in
    let (b'', n) = consume_all b' ts in (b'', (if allowed then suc n else n))

-- Times that do not fall, from a first one on; and where they end.
abbrev pub Rising : ℕ → List ℕ → Type 0
Rising t [] = Unit
Rising t (u ∷ us) = (t ≤ u) × Rising u us

abbrev pub last_time : ℕ → List ℕ → ℕ
last_time t [] = t
last_time t (u ∷ us) = last_time u us

-- What a call leaves alone.
try_consume_frame :
    (b : TokenBucket) (now : ℕ)
    → (effective_rate (try_consume b now).0 ≡ effective_rate b)
      × ((try_consume b now).0.last_refill ≡ now)
      × ((try_consume b now).0.max_tokens ≡ b.max_tokens)
unfolding try_consume effective_rate
try_consume_frame b now = ground arith

-- A call spends a token only if one is there: tokens and spendings never exceed what was there
-- before and what the elapsed time brought in.
try_consume_budget :
    (b : TokenBucket) (now : ℕ)
    → (if (try_consume b now).1 then one_token else 0) + (try_consume b now).0.tokens
      ≤ b.tokens + (now - b.last_refill) * effective_rate b
unfolding try_consume
try_consume_budget b now = ground arith

-- No call, whatever its result, leaves more tokens than the bucket holds.
pub try_consume-le_max :
    (b : TokenBucket) (now : ℕ)
    → ((try_consume b now).0.tokens ≤ (try_consume b now).0.max_tokens)
      × ((read_tokens b now).1 ≤ b.max_tokens)
unfolding try_consume read_tokens refill
try_consume-le_max b now = ground arith

elapsed_split : (a t u r : ℕ) → a ≤ t → t ≤ u → (t - a) * r + (u - t) * r ≡ (u - a) * r
elapsed_split a t u r h k = grind arith

Rising-last_time : (t : ℕ) (us : List ℕ) → Rising t us → t ≤ last_time t us
Rising-last_time t [] w = omega arith
Rising-last_time t (u ∷ us) (h, w) = omega (arith, Rising-last_time u us w)

consume_all_account :
    (ts : List ℕ) (b : TokenBucket)
    → Rising b.last_refill ts
    → (consume_all b ts).1 * one_token + (consume_all b ts).0.tokens
      ≤ b.tokens + (last_time b.last_refill ts - b.last_refill) * effective_rate b
unfolding consume_all
consume_all_account [] b w = omega arith
consume_all_account (t ∷ ts) b (le, w) =
    let b' = (try_consume b t).0 in
    let (rate, at, _) = try_consume_frame b t in
    let rest : (consume_all b' ts).1 * one_token + (consume_all b' ts).0.tokens
        ≤ b'.tokens + (last_time t ts - t) * effective_rate b =
      subst
        (λ r.
          (consume_all b' ts).1 * one_token + (consume_all b' ts).0.tokens
          ≤ b'.tokens + (last_time t ts - t) * r)
        rate
        (subst
          (λ s.
            (consume_all b' ts).1 * one_token + (consume_all b' ts).0.tokens
            ≤ b'.tokens + (last_time s ts - s) * effective_rate b')
          at (consume_all_account ts b' (subst (λ s. Rising s ts) (sym at) w))) in
    let later =
      elapsed_split b.last_refill t (last_time t ts) (effective_rate b) le
        (Rising-last_time t ts w) in
    let once = try_consume_budget b t in
    elim (Bool-cases (try_consume b t).1) [
      | inl taken ↦
          let spent : one_token + b'.tokens ≤ b.tokens + (t - b.last_refill) * effective_rate b =
            rw taken at once in
          rw taken (omega (arith, rest, later, spent))
      | inr denied ↦
          let spent : 0 + b'.tokens ≤ b.tokens + (t - b.last_refill) * effective_rate b =
            rw denied at once in
          rw denied (omega (arith, rest, later, spent))
    ]

-- The rate limit itself: however the calls are spread, the tokens that a run hands out are at most
-- those in the bucket at its start and those that the effective rate brings in until its last call.
pub consume_all_bound :
    (b : TokenBucket) (ts : List ℕ)
    → Rising b.last_refill ts
    → (consume_all b ts).1 * one_token
      ≤ b.tokens + (last_time b.last_refill ts - b.last_refill) * effective_rate b
consume_all_bound b ts w = omega (arith, consume_all_account ts b w)
