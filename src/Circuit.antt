-- ===== src/Circuit.antt =====
-- src/signal_hermes_router/circuit.py: the circuit breaker's sliding window of failures.
--
-- Times are natural numbers in one unit (the monotonic clock is a float in seconds there), and the
-- test `t < now - window` is written `t + window < now`, which is the same for all numbers.
pub mod Window
pub mod Examples
use signal_hermes_router.Prelude.{
  ℕ, ◌+◌, String, List, [], ◌∷◌, ◌++◌, Option, none, some, Dict, empty, put, remove, or_else,
  length, ltb, leb, if◌then◌else◌,
}

pub record CircuitTrip : Type 0 where
  pub route_key : String
  pub failures : ℕ
  pub window : ℕ

pub record CircuitBreaker : Type 0 where
  pub failures : ℕ
  pub window : ℕ
  pub deques : Dict (List ℕ)

abbrev pub new : ℕ → ℕ → CircuitBreaker
new failures window = record { failures = failures; window = window; deques = empty }

-- `_failures[route_key]` of the defaultdict, and the absent entry of `failure_count`, both read as
-- the empty deque.
abbrev pub deque_of : CircuitBreaker → String → List ℕ
deque_of b k = or_else (b.deques k) []

-- `while failures and failures[0] < cutoff: failures.popleft()`
unfoldable pub pop_expired : ℕ → ℕ → List ℕ → List ℕ
pop_expired window now [] = []
pop_expired window now (t ∷ ts) =
    let rest = pop_expired window now ts in if ltb (t + window) now then rest else t ∷ ts

unfoldable pub record_success : String → CircuitBreaker → CircuitBreaker
record_success k b = record b { deques = remove b.deques k }

unfoldable pub record_failure : String → ℕ → CircuitBreaker → CircuitBreaker × Option CircuitTrip
record_failure k now b =
    let kept = pop_expired b.window now (deque_of b k ++ now ∷ []) in
    (
      record b { deques = put b.deques k kept },
      if leb b.failures (length kept)
          then some (record { route_key = k; failures = length kept; window = b.window })
          else none,
    )

abbrev count_entry : Option (List ℕ) → String → ℕ → CircuitBreaker → CircuitBreaker × ℕ
count_entry none k now b = (b, 0)
count_entry (some []) k now b = (b, 0)
count_entry (some (t ∷ ts)) k now b =
    let kept = pop_expired b.window now (t ∷ ts) in
    (record b { deques = put b.deques k kept }, length kept)

unfoldable pub failure_count : String → ℕ → CircuitBreaker → CircuitBreaker × ℕ
failure_count k now b = count_entry (b.deques k) k now b
