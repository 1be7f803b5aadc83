-- ===== src/Router/Breaker.antt =====
-- router.py: the effective state of a route, the breaker's maintenance mask and its recovery.
use signal_hermes_router.Prelude.{
  ℕ, ◌-◌, String, Bool, true, false, not, ◌&&◌, ◌||◌, Option, none, some, put, remove, or_else, ltb,
  if◌then◌else◌,
}
use signal_hermes_router.Failures.{FailureInfo}
use signal_hermes_router.Models.{RouteState, active, maintenance}
use signal_hermes_router.Config.{Route, find_route_by_key}
use signal_hermes_router.Circuit.{record_success, record_failure, CircuitTrip}
use signal_hermes_router.Router.State.{Router, Outside, RoutedTurnInput, key_of}

abbrev pub is_maintenance : RouteState → Bool
is_maintenance maintenance = true
is_maintenance _ = false

abbrev pub is_active : RouteState → Bool
is_active active = true
is_active _ = false

abbrev pub masked : Option RouteState → Bool
masked none = false
masked (some s) = is_maintenance s

abbrev pub clear_after : Option ℕ → String → Router → Router
clear_after none k r = r
clear_after (some trip) k r = if ltb (r.monotonic - trip) r.recovery then r else record r {
  route_state_overrides = remove r.route_state_overrides k;
  trip_times = remove r.trip_times k;
  trip_times_ms = remove r.trip_times_ms k;
  last_breaker_reset_ms = put r.last_breaker_reset_ms k r.clock_ms;
  circuit = record_success k r.circuit;
}

-- `_maybe_clear_breaker_override`
unfoldable pub maybe_clear_breaker_override : String → Router → Router
maybe_clear_breaker_override k r =
    if masked (r.route_state_overrides k) then clear_after (r.trip_times k) k r else r

abbrev pub active_route : Option Route → Bool
active_route none = false
active_route (some r) = is_active r.state

-- The route is active in the current configuration.
unfoldable pub currently_active : Outside → Router → Route → Bool
currently_active o r route = active_route (find_route_by_key (key_of o) r.config (key_of o route))

abbrev pub newer : Option ℕ → Option ℕ → Bool
newer none admitted = false
newer (some cleared) none = false
newer (some cleared) (some admitted) = ltb admitted cleared

-- `_effective_turn_state`, with the state of the router that it leaves. A missing reload record,
-- -1 in the source, is older than every admission.
unfoldable pub effective_turn_state : Outside → RoutedTurnInput → Router → RouteState × Router
unfolding maybe_clear_breaker_override currently_active
effective_turn_state o turn r =
    let k = key_of o turn.route in
    let r' = maybe_clear_breaker_override k r in
    let state = or_else (r'.route_state_overrides k) turn.route.state in
    let cleared_by_reload = newer (r'.reload_cleared_overrides k) turn.admitted_config_generation in
    (
      if masked turn.admitted_state && not (is_maintenance state)
          then (if not (currently_active o r' turn.route) || cleared_by_reload
              then maintenance
              else state)
          else state,
      r',
    )

-- `_record_route_failure` and `_record_route_success`
unfoldable pub record_route_failure : String → FailureInfo → Router → Router
record_route_failure k failure r = record r {
  last_failures = put r.last_failures k (r.clock_ms, failure);
}

unfoldable pub record_route_success : String → Router → Router
record_route_success k r = record r { last_success_ms = put r.last_success_ms k r.clock_ms }

abbrev pub mask : Option CircuitTrip → Bool → String → Router → Router
mask none is_active k r = r
mask (some trip) false k r = r
mask (some trip) true k r = record r {
  route_state_overrides = put r.route_state_overrides k maintenance;
  trip_times = put r.trip_times k r.monotonic;
  trip_times_ms = put r.trip_times_ms k r.clock_ms;
}

abbrev pub tripped : Option CircuitTrip → Bool
tripped none = false
tripped (some trip) = true

-- The breaker part of `_handle_hermes_failure`: the failure is counted, and a trip masks the route
-- if it is active in the current configuration. Also whether the breaker tripped, and whether the
-- route is active.
unfoldable pub count_failure : Outside → Route → FailureInfo → Router → Router × Bool × Bool
count_failure o route failure r =
    let k = key_of o route in
    let r' = record_route_failure k failure r in
    let (circuit', trip) = record_failure k r'.monotonic r'.circuit in
    let here = currently_active o r' route in
    (mask trip here k (record r' { circuit = circuit' }), tripped trip, here)
