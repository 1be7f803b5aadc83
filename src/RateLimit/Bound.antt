-- ===== src/RateLimit/Bound.antt =====
-- ratelimit.py: how many turns a bucket can admit over a history of calls.
use signal_hermes_router.Prelude.{
  ℕ, suc, ◌+◌, ◌-◌, ◌*◌, ◌≤◌, ◌<◌, ◌≡◌, refl, Bool, true, false, Option, none, some, List, [], ◌∷◌,
  ◌∙◌, All, arith, tests, leb, leb→le, Bool-cases, inl, inr,
}
use signal_hermes_router.RateLimit.{TokenBucket, new, refill, spend, try_acquire, refund}

-- The tokens never pass the capacity.
abbrev pub IsBounded : TokenBucket → Type 0
IsBounded b = b.tokens ≤ b.capacity

-- One call on the bucket by the router.
pub data Call : Type 0 where
  acquire : ℕ → Call
  give_back : Call

pub record Tally : Type 0 where
  pub bucket : TokenBucket
  pub admitted : ℕ
  pub refunded : ℕ

abbrev count_if : Bool → ℕ → ℕ
count_if true n = suc n
count_if false n = n

unfoldable pub step : ℕ → Tally → Call → Tally
unfolding try_acquire refund
step one t (acquire now_ms) =
    let (b, got) = try_acquire one now_ms t.bucket in
    record t { bucket = b; admitted = count_if got t.admitted }
step one t give_back = record t { bucket = refund one t.bucket; refunded = suc t.refunded }

-- A history of calls, in the order in which the router makes them.
unfoldable pub run : ℕ → Tally → List Call → Tally
run one t [] = t
run one t (c ∷ cs) = run one (step one t c) cs

-- A bucket that a constructor call returns is within its capacity, and has room for one token.
pub new-IsBounded :
    (one capacity refill_per_ms : ℕ) {b : TokenBucket}
    → new one capacity refill_per_ms ≡ some b
    → IsBounded b × (one ≤ b.capacity) × (0 < b.refill_per_ms)
unfolding new
new-IsBounded one capacity refill_per_ms h = ground arith

module _ (one : ℕ) (t : Tally) where
  pub step-IsBounded : (c : Call) → IsBounded t.bucket → IsBounded (step one t c).bucket
  unfolding step
  step-IsBounded (acquire now_ms) h = ground arith
  step-IsBounded give_back h = ground arith

  pub step_capacity : (c : Call) → (step one t c).bucket.capacity ≡ t.bucket.capacity
  unfolding step
  step_capacity (acquire now_ms) = ground arith
  step_capacity give_back = refl

  pub step_rate : (c : Call) → (step one t c).bucket.refill_per_ms ≡ t.bucket.refill_per_ms
  unfolding step
  step_rate (acquire now_ms) = ground arith
  step_rate give_back = refl

-- The calls of a history that acquire do so no later than `t1`.
abbrev pub NotAfter : ℕ → Call → Type 0
NotAfter t1 (acquire now_ms) = now_ms ≤ t1
NotAfter t1 give_back = Unit

-- The time of the last refill, and 0 before the first.
abbrev refill_time : Option ℕ → ℕ
refill_time none = 0
refill_time (some t) = t

-- What the bucket can still admit until `t1`, counted with what the history has admitted and given
-- back, stays within `limit`.
abbrev Budget : ℕ → ℕ → ℕ → Tally → Type 0
Budget one limit t1 t =
    (refill_time t.bucket.last_refill_ms ≤ t1)
    × (t.admitted * one
          + t.bucket.tokens
          + (t1 - refill_time t.bucket.last_refill_ms) * t.bucket.refill_per_ms
        ≤ limit + t.refunded * one)

split_elapsed :
    (t1 now last rate : ℕ)
    → last ≤ now
    → now ≤ t1
    → (t1 - last) * rate ≡ (t1 - now) * rate + (now - last) * rate
split_elapsed t1 now last rate h k = grind arith

refill-Budget :
    (one limit t1 : ℕ) (t : Tally) (now_ms : ℕ)
    → now_ms ≤ t1
    → Budget one limit t1 t
    → Budget one limit t1 (record t { bucket = refill now_ms t.bucket })
unfolding refill
refill-Budget one limit t1 t now_ms n b =
    ground
      (arith, split_elapsed t1 now_ms (refill_time t.bucket.last_refill_ms) t.bucket.refill_per_ms)

spend-Budget :
    (one limit t1 : ℕ) (t : Tally)
    → Budget one limit t1 t
    → Budget one limit t1 (record t {
      bucket = (spend one t.bucket).0;
      admitted = count_if (spend one t.bucket).1 t.admitted;
    })
spend-Budget one limit t1 t b = elim (Bool-cases (leb one t.bucket.tokens)) [
  | inl enough ↦ rw enough (b.0, omega (tests, leb→le one t.bucket.tokens enough))
  | inr short ↦ rw short b
]

step-Budget :
    (one limit t1 : ℕ) (t : Tally) (c : Call)
    → NotAfter t1 c
    → Budget one limit t1 t
    → Budget one limit t1 (step one t c)
unfolding step
step-Budget one limit t1 t (acquire now_ms) n b =
    spend-Budget one limit t1 (record t { bucket = refill now_ms t.bucket })
      (refill-Budget one limit t1 t now_ms n b)
step-Budget one limit t1 t give_back n b = ground arith

run-Budget :
    (one limit t1 : ℕ) (t : Tally) (cs : List Call)
    → All (NotAfter t1) cs
    → Budget one limit t1 t
    → Budget one limit t1 (run one t cs)
unfolding run
run-Budget one limit t1 t [] n b = b
run-Budget one limit t1 t (c ∷ cs) n b =
    run-Budget one limit t1 (step one t c) cs n.1 (step-Budget one limit t1 t c n.0 b)

abbrev pub start : TokenBucket → Tally
start b = record { bucket = b; admitted = 0; refunded = 0 }

-- Over any history of acquires and refunds in which no acquire is later than `t1`, in whatever
-- order its times come, a bucket that stands within its capacity and was last refilled at `t0`
-- admits at most its capacity, the refill of the `t1 - t0` milliseconds, and the refunds.
pub admitted_bound :
    (one t0 t1 : ℕ) (b : TokenBucket) (cs : List Call)
    → IsBounded b
    → b.last_refill_ms ≡ some t0
    → t0 ≤ t1
    → All (NotAfter t1) cs
    → (run one (start b) cs).admitted * one
      ≤ b.capacity + (t1 - t0) * b.refill_per_ms + (run one (start b) cs).refunded * one
admitted_bound one t0 t1 b cs h e le n =
    let budget =
      run-Budget one (b.capacity + (t1 - t0) * b.refill_per_ms) t1 (start b) cs n (ground arith) in
    omega arith

-- After any history from a bucket within its capacity the tokens are within the capacity, which
-- with the rate stays as it was.
run-IsBounded :
    (one : ℕ) (t : Tally) (cs : List Call)
    → IsBounded t.bucket
    → IsBounded (run one t cs).bucket
      × ((run one t cs).bucket.capacity ≡ t.bucket.capacity)
      × ((run one t cs).bucket.refill_per_ms ≡ t.bucket.refill_per_ms)
unfolding run
run-IsBounded one t [] h = (h, refl, refl)
run-IsBounded one t (c ∷ cs) h =
    let rest = run-IsBounded one (step one t c) cs (step-IsBounded one t c h) in
    (rest.0, rest.1 ∙ step_capacity one t c, rest.2 ∙ step_rate one t c)

-- A bucket with room for one token admits as soon as the time since its last refill pays for one,
-- whatever it held.
acquire_after_wait :
    (one now_ms last : ℕ) (b : TokenBucket)
    → one ≤ b.capacity
    → b.last_refill_ms ≡ some last
    → last < now_ms
    → one ≤ (now_ms - last) * b.refill_per_ms
    → (try_acquire one now_ms b).1 ≡ true
unfolding try_acquire
acquire_after_wait one now_ms last b room e lt paid = ground arith

-- A turn that is given back after it was admitted leaves a bucket that was within its capacity as
-- the refill left it.
pub refund-try_acquire :
    (one now_ms : ℕ) (b : TokenBucket)
    → IsBounded b
    → (try_acquire one now_ms b).1 ≡ true
    → refund one (try_acquire one now_ms b).0 ≡ refill now_ms b
unfolding try_acquire refund
refund-try_acquire one now_ms b h got = ground arith
