-- ===== src/RateLimit.antt =====
-- src/signal_hermes_router/ratelimit.py: the token bucket of inbound routed turns.
--
-- The source counts tokens in floats. Here they are counted in a unit of which a token has `one`,
-- so that a millisecond refills a whole number of units: `refill_per_ms` is
-- `one * refill_per_second / 1000`. Every rate that is a fraction is met by a choice of `one`.
-- The unit is a parameter of every operation, and rounding of floats is not modelled.
pub mod Bound
pub mod Examples
use signal_hermes_router.Prelude.{
  ℕ, ◌+◌, ◌-◌, ◌*◌, min, Bool, true, false, Option, none, some, ltb, leb, if◌then◌else◌,
}

pub record TokenBucket : Type 0 where
  pub capacity : ℕ
  pub refill_per_ms : ℕ
  pub tokens : ℕ
  pub last_refill_ms : Option ℕ

-- `TokenBucket(capacity, refill_per_second)`; `none` is the ValueError.
unfoldable pub new : ℕ → ℕ → ℕ → Option TokenBucket
new one capacity refill_per_ms =
    if ltb capacity one
    then none
    else if leb refill_per_ms 0
    then none
    else some (record {
      capacity = capacity;
      refill_per_ms = refill_per_ms;
      tokens = capacity;
      last_refill_ms = none;
    })

abbrev refill_since : Option ℕ → ℕ → TokenBucket → TokenBucket
refill_since none now_ms b = record b { last_refill_ms = some now_ms }
refill_since (some last) now_ms b = if leb now_ms last then b else record b {
  tokens = min b.capacity (b.tokens + (now_ms - last) * b.refill_per_ms);
  last_refill_ms = some now_ms;
}

-- `_refill`: a clock that stalls or steps back mints nothing.
unfoldable pub refill : ℕ → TokenBucket → TokenBucket
refill now_ms b = refill_since b.last_refill_ms now_ms b

abbrev spend : ℕ → TokenBucket → TokenBucket × Bool
spend one b = if leb one b.tokens then (record b { tokens = b.tokens - one }, true) else (b, false)

unfoldable pub try_acquire : ℕ → ℕ → TokenBucket → TokenBucket × Bool
unfolding refill
try_acquire one now_ms b = spend one (refill now_ms b)

unfoldable pub refund : ℕ → TokenBucket → TokenBucket
refund one b = record b { tokens = min b.capacity (b.tokens + one) }
