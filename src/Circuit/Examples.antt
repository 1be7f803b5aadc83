-- ===== src/Circuit/Examples.antt =====
-- A breaker of three failures in a window of 60: two live failures, an older one and another route's.
use signal_hermes_router.Prelude.{
  ◌≡◌, refl, none, some, List, [], ◌∷◌, length, leb, arith, if◌then◌else◌,
}
use signal_hermes_router.Circuit.{pop_expired, record_failure, failure_count}
use signal_hermes_router.Circuit.Window.{
  Call, succeed, fail, count, step, after, live_failures, record_failure-trips, failure_count-live,
}

-- The latest first.
abbrev calls : List Call
calls =
    fail "a" 95
    ∷ count "a" 93
    ∷ fail "b" 92
    ∷ fail "a" 91
    ∷ fail "a" 20
    ∷ succeed "a"
    ∷ fail "a" 10
    ∷ []

trips_test :
    (record_failure "a" 100 (after 3 60 calls)).1
    ≡ some (record { route_key = "a"; failures = 3; window = 60 })
unfolding record_failure after step pop_expired
trips_test = refl

record_failure-trips_example : (record_failure "a" 100 (after 3 60 calls)).1 ≡ (
    let n = length (live_failures 60 100 "a" (fail "a" 100 ∷ calls)) in
    if leb 3 n then some (record { route_key = "a"; failures = n; window = 60 }) else none)
record_failure-trips_example = record_failure-trips 3 60 100 "a" calls (ground arith)

failure_count-live_example :
    (failure_count "a" 100 (after 3 60 calls)).1 ≡ length (live_failures 60 100 "a" calls)
failure_count-live_example = failure_count-live 3 60 100 "a" calls (ground arith)
