-- ===== src/Router/Masking.antt =====
-- router.py: the maintenance mask of the circuit breaker, from a trip to its recovery.
pub mod Recovery
use mathlib.Core.List.{Memᴰ}
use signal_hermes_router.Prelude.{
  ◌≡◌, refl, ap, inl, inr, ℕ, ◌-◌, ◌<◌, ◌≤◌, String, true, false, none, some, or_else, arith, ltb,
  lt→ltb, eq_refl, eq_iff, Option-cases, Bool-cases, List, [], ◌∷◌, Option, ◌⊎◌, str_eq,
}
use signal_hermes_router.Failures.{FailureInfo}
use signal_hermes_router.Models.{RouteState, active, maintenance}
use signal_hermes_router.Config.{Route, find, find_route_by_key}
use signal_hermes_router.Circuit.{CircuitBreaker, record_failure, record_success, failure_count}
use signal_hermes_router.Router.State.{Router, Outside, RoutedTurnInput, key_of}
use signal_hermes_router.Router.Breaker.{
  masked, newer, is_active, active_route, clear_after, maybe_clear_breaker_override,
  currently_active, effective_turn_state, count_failure, record_route_failure,
}
use signal_hermes_router.Router.Masking.Recovery.{
  HasActive, Lifted, NotSince, newer-NotSince, find-HasActive, maybe_clear-keeps,
  maybe_clear-Lifted,
}

-- The route is masked since `trip`.
pub record IsMasked (k : String) (trip : ℕ) (r : Router) : Type 0 where
  pub override : r.route_state_overrides k ≡ some maintenance
  pub since : r.trip_times k ≡ some trip

mask_stays :
    (k : String) (trip : ℕ) (r : Router)
    → IsMasked k trip r
    → r.monotonic - trip < r.recovery
    → maybe_clear_breaker_override k r ≡ r
unfolding maybe_clear_breaker_override
mask_stays k trip r m h =
    let early : ltb (r.monotonic - trip) r.recovery ≡ true =
      lt→ltb (r.monotonic - trip) r.recovery h in
    rw (m.override, m.since, early) refl

mask_goes :
    (k : String) (trip : ℕ) (r : Router)
    → IsMasked k trip r
    → r.recovery ≤ r.monotonic - trip
    → (let r' = maybe_clear_breaker_override k r in
        (r'.route_state_overrides k ≡ none) × (r'.circuit ≡ record_success k r.circuit))
unfolding maybe_clear_breaker_override
mask_goes k trip r m h =
    let late : ltb (r.monotonic - trip) r.recovery ≡ false = ground arith in
    rw (m.override, m.since, late) (ground (arith, eq_refl k), refl)

failure_count-record_success :
    (k : String) (now : ℕ) (b : CircuitBreaker) → (failure_count k now (record_success k b)).1 ≡ 0
unfolding failure_count record_success
failure_count-record_success k now b = ground (arith, eq_refl k)

module _ (o : Outside) (turn : RoutedTurnInput) (r : Router) where
  -- While the mask has not lasted the recovery time, a turn of the route is in maintenance whatever
  -- it was admitted under, and the mask stays.
  pub effective_turn_state-masked :
      (trip : ℕ)
      → IsMasked (key_of o turn.route) trip r
      → r.monotonic - trip < r.recovery
      → effective_turn_state o turn r ≡ (maintenance, r)
  unfolding effective_turn_state
  effective_turn_state-masked trip m h =
      rw (mask_stays (key_of o turn.route) trip r m h, m.override) (ground arith)

  -- Once it has lasted the recovery time, the mask is gone with the failures that the breaker had
  -- counted, and a turn that was not admitted in maintenance has its route's own state.
  pub effective_turn_state-recovers :
      (trip : ℕ)
      → IsMasked (key_of o turn.route) trip r
      → r.recovery ≤ r.monotonic - trip
      → masked turn.admitted_state ≡ false
      → ((effective_turn_state o turn r).0 ≡ turn.route.state)
        × ((effective_turn_state o turn r).1.route_state_overrides (key_of o turn.route) ≡ none)
        × ((failure_count
              (key_of o turn.route)
              r.monotonic
              (effective_turn_state o turn r).1.circuit).1
            ≡ 0)
  unfolding effective_turn_state
  effective_turn_state-recovers trip m h a =
      let k = key_of o turn.route in
      let (gone, fresh) = mask_goes k trip r m h in
      (rw (gone, a) refl, gone, rw fresh (failure_count-record_success k r.monotonic r.circuit))

  admitted-active :
      masked turn.admitted_state ≡ true
      → (effective_turn_state o turn r).0 ≡ active
      → let r' = maybe_clear_breaker_override (key_of o turn.route) r in
        (currently_active o r' turn.route ≡ true)
        × (newer (r'.reload_cleared_overrides (key_of o turn.route)) turn.admitted_config_generation
            ≡ false)
        × (masked (r'.route_state_overrides (key_of o turn.route)) ≡ false)
  unfolding effective_turn_state
  admitted-active a h =
      let r' = maybe_clear_breaker_override (key_of o turn.route) r in
      let state = or_else (r'.route_state_overrides (key_of o turn.route)) turn.route.state in
      ground arith

  -- A turn that was admitted in maintenance is active only if the current configuration has an
  -- active route with the key, no mask of the key lasts, since there is none or the recovery time
  -- has passed since its trip, and no reload is known to have cleared a mask of the key after the
  -- admission.
  pub effective_turn_state-admitted :
      masked turn.admitted_state ≡ true
      → (effective_turn_state o turn r).0 ≡ active
      → HasActive o (key_of o turn.route) r.config.routes
        × Lifted (key_of o turn.route) r
        × NotSince
            (r.reload_cleared_overrides (key_of o turn.route))
            turn.admitted_config_generation
  unfolding currently_active find_route_by_key
  effective_turn_state-admitted a h =
      let k = key_of o turn.route in
      let (here, fresh, unmasked) = admitted-active a h in
      let (same, kept) = maybe_clear-keeps k r in
      (
        find-HasActive o k r.config.routes (rw same at here),
        maybe_clear-Lifted k r unmasked,
        newer-NotSince (r.reload_cleared_overrides k) turn.admitted_config_generation
            (rw kept at fresh),
      )

count_failure-IsMasked :
    (o : Outside) (route : Route) (failure : FailureInfo) (r : Router)
    → (count_failure o route failure r).1 ≡ true
    → (count_failure o route failure r).2 ≡ true
    → IsMasked (key_of o route) r.monotonic (count_failure o route failure r).0
      × ((count_failure o route failure r).0.recovery ≡ r.recovery)
unfolding count_failure record_route_failure
count_failure-IsMasked o route failure r trip here =
    let k = key_of o route in
    let r' = record_route_failure k failure r in
    let got = Option-cases (record_failure k r.monotonic r.circuit).1 in
    elim got [
      | inl n ↦ cc (rw n at trip)
      | inr (t, e) ↦
          rw (e, here)
            (
              record { override = ground (arith, eq_refl k); since = ground (arith, eq_refl k) },
              refl,
            )
    ]

-- After a failure that trips the breaker of a route that is active in the current configuration,
-- while nothing but the clock changes the router, every turn of the route is in maintenance until
-- the recovery time has passed.
pub count_failure-masks :
    (o : Outside) (turn : RoutedTurnInput) (failure : FailureInfo) (r : Router) (now : ℕ)
    → (count_failure o turn.route failure r).1 ≡ true
    → (count_failure o turn.route failure r).2 ≡ true
    → now - r.monotonic < r.recovery
    → (effective_turn_state o turn
        (record (count_failure o turn.route failure r).0 { monotonic = now })).0
      ≡ maintenance
count_failure-masks o turn failure r now trip here h =
    let (m, same) = count_failure-IsMasked o turn.route failure r trip here in
    let later = record (count_failure o turn.route failure r).0 { monotonic = now } in
    ap (λ (p : RouteState × Router). p.0)
      (effective_turn_state-masked o turn later r.monotonic
        (record { override = m.override; since = m.since }) (omega (arith, same, h)))
