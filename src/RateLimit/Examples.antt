-- ===== src/RateLimit/Examples.antt =====
-- Runs of the token bucket: a token has 30 units, and a millisecond refills one.
use signal_hermes_router.Prelude.{◌+◌, ◌-◌, ◌*◌, ◌≤◌, ◌≡◌, refl, some, List, [], ◌∷◌, arith}
use signal_hermes_router.RateLimit.{TokenBucket, refill, try_acquire, refund}
use signal_hermes_router.RateLimit.Bound.{
  Call, acquire, give_back, start, step, run, admitted_bound, refund-try_acquire,
}

abbrev bucket : TokenBucket
bucket = record { capacity = 60; refill_per_ms = 1; tokens = 45; last_refill_ms = some 10 }

-- The clock steps back, a turn is given back, and the last call finds too little.
abbrev calls : List Call
calls = acquire 20 ∷ acquire 15 ∷ give_back ∷ acquire 40 ∷ acquire 41 ∷ []

run_test : (run 30 (start bucket) calls).admitted ≡ 3
unfolding run step
run_test = refl

admitted_bound_example :
    (run 30 (start bucket) calls).admitted * 30
    ≤ 60 + (41 - 10) * 1 + (run 30 (start bucket) calls).refunded * 30
admitted_bound_example =
    admitted_bound 30 10 41 bucket calls (omega arith) refl (omega arith)
      (omega arith, (omega arith, (tt, (omega arith, (omega arith, tt)))))

refund-try_acquire_example : refund 30 (try_acquire 30 12 bucket).0 ≡ refill 12 bucket
unfolding try_acquire
refund-try_acquire_example = refund-try_acquire 30 12 bucket (omega arith) refl
