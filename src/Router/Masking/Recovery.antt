-- ===== src/Router/Masking/Recovery.antt =====
-- router.py: what it takes for a route to be active after its maintenance mask.
use mathlib.Core.List.{Memᴰ}
use signal_hermes_router.Prelude.{
  ◌≡◌, refl, inl, inr, ℕ, ◌-◌, ◌≤◌, String, true, false, none, some, arith, ltb, eq_iff, Bool-cases,
  List, [], ◌∷◌, Option, ◌⊎◌, str_eq,
}
use signal_hermes_router.Models.{RouteState, active}
use signal_hermes_router.Config.{Route, find}
use signal_hermes_router.Router.State.{Router, Outside, key_of}
use signal_hermes_router.Router.Breaker.{
  masked, newer, is_active, active_route, clear_after, maybe_clear_breaker_override,
}

-- A route of the key is configured as active.
abbrev pub HasActive : Outside → String → List Route → Type 0
HasActive o k routes =
    (route : Route) × Memᴰ route routes × (key_of o route ≡ k) × (route.state ≡ active)

-- There is no mask of the key, or the recovery time has passed since its trip.
abbrev pub Lifted : String → Router → Type 0
Lifted k r =
    (masked (r.route_state_overrides k) ≡ false)
    ⊎ ((trip : ℕ) × (r.trip_times k ≡ some trip) × (r.recovery ≤ r.monotonic - trip))

-- What was noted last, if anything, is no later than the admission, where that is known.
abbrev pub NotSince : Option ℕ → Option ℕ → Type 0
NotSince none admitted = Unit
NotSince (some cleared) none = Unit
NotSince (some cleared) (some admitted) = cleared ≤ admitted

pub newer-NotSince : (c g : Option ℕ) → newer c g ≡ false → NotSince c g
newer-NotSince none g h = tt
newer-NotSince (some c) none h = tt
newer-NotSince (some c) (some g) h = ground arith

is_active-active : (s : RouteState) → is_active s ≡ true → s ≡ active
is_active-active s h = ground arith

pub find-HasActive :
    (o : Outside) (k : String) (routes : List Route)
    → active_route (find (λ r. str_eq (key_of o r) k) routes) ≡ true
    → HasActive o k routes
unfolding find
find-HasActive o k [] h = cc
find-HasActive o k (r ∷ rs) h = elim (Bool-cases (str_eq (key_of o r) k)) [
  | inl same ↦
      (r, Memᴰ.head refl, (eq_iff (key_of o r) k).0 same, is_active-active r.state (rw same at h))
  | inr other ↦ let (a, m, e, s) = find-HasActive o k rs (rw other at h) in (a, Memᴰ.tail m, e, s)
]

clear_after-keeps :
    (trip : Option ℕ) (k : String) (r : Router)
    → ((clear_after trip k r).config ≡ r.config)
      × ((clear_after trip k r).reload_cleared_overrides ≡ r.reload_cleared_overrides)
clear_after-keeps none k r = (refl, refl)
clear_after-keeps (some trip) k r = elim (Bool-cases (ltb (r.monotonic - trip) r.recovery)) [
  | inl early ↦ rw early (refl, refl)
  | inr late ↦ rw late (refl, refl)
]

pub maybe_clear-keeps :
    (k : String) (r : Router)
    → ((maybe_clear_breaker_override k r).config ≡ r.config)
      × ((maybe_clear_breaker_override k r).reload_cleared_overrides ≡ r.reload_cleared_overrides)
unfolding maybe_clear_breaker_override
maybe_clear-keeps k r = elim (Bool-cases (masked (r.route_state_overrides k))) [
  | inl m ↦ rw m (clear_after-keeps (r.trip_times k) k r)
  | inr m ↦ rw m (refl, refl)
]

cleared-Lifted :
    (trip : Option ℕ) (k : String) (r : Router)
    → r.trip_times k ≡ trip
    → masked (r.route_state_overrides k) ≡ true
    → masked ((clear_after trip k r).route_state_overrides k) ≡ false
    → Lifted k r
cleared-Lifted none k r e m h = cc (m, h)
cleared-Lifted (some trip) k r e m h = elim (Bool-cases (ltb (r.monotonic - trip) r.recovery)) [
  | inl early ↦ cc (m, rw early at h)
  | inr late ↦ inr (trip, e, ground arith)
]

pub maybe_clear-Lifted :
    (k : String) (r : Router)
    → masked ((maybe_clear_breaker_override k r).route_state_overrides k) ≡ false
    → Lifted k r
unfolding maybe_clear_breaker_override
maybe_clear-Lifted k r h = elim (Bool-cases (masked (r.route_state_overrides k))) [
  | inl m ↦ cleared-Lifted (r.trip_times k) k r refl m (rw m at h)
  | inr m ↦ inl m
]
