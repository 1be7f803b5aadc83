-- ===== src/Router/Reload/Applied.antt =====
-- router.py: the breaker's masks across `_do_reload_config`, and a turn that was admitted before.
use signal_hermes_router.Prelude.{
  ◌≡◌, refl, ap, ℕ, suc, ◌≤◌, ◌<◌, ◌⊎◌, inl, inr, String, Bool, true, false, not, ◌&&◌, ◌||◌, List,
  [], ◌∷◌, Option, none, some, is_some, or_else, arith, ltb, lt→ltb, Bool-cases, str_eq,
  if◌then◌else◌,
}
use signal_hermes_router.Models.{RouteState, maintenance}
use signal_hermes_router.Config.{Route, AppConfig}
use signal_hermes_router.Router.State.{Router, Outside, RoutedTurnInput, key_of}
use signal_hermes_router.Router.Breaker.{
  masked, is_active, maybe_clear_breaker_override, effective_turn_state, currently_active,
  is_maintenance,
}
use signal_hermes_router.Router.Reload.{
  clear_override, clear_overrides, clear_absent, prune_buckets, swap_config, reload_router,
  has_route_key, drop_override,
}

-- The key is masked, or the reload of this generation has noted that it took the mask.
record Accounts (k : String) (g : ℕ) (r : Router) : Type 0 where
  generation : r.config_generation ≡ g
  account : (masked (r.route_state_overrides k) ≡ true) ⊎ (r.reload_cleared_overrides k ≡ some g)

module _ (o : Outside) (k : String) (g : ℕ) where
  drop_override-Accounts :
      (j : String) (r : Router) → Accounts k g r → Accounts k g (drop_override o j r)
  drop_override-Accounts j r a = record {
    generation = a.generation;
    account = elim (Bool-cases (str_eq j k)) [
      | inl same ↦ inr (rw same (ap some a.generation))
      | inr other ↦ rw other a.account
    ];
  }

  clear_override-Accounts :
      (route : Route) (r : Router) → Accounts k g r → Accounts k g (clear_override o route r)
  clear_override-Accounts route r a =
      elim (Bool-cases
        (not (is_active route.state) && masked (r.route_state_overrides (key_of o route)))) [
          | inl e ↦ rw e (drop_override-Accounts (key_of o route) r a)
          | inr e ↦ rw e a
        ]

  clear_overrides-Accounts :
      (routes : List Route) (r : Router)
      → Accounts k g r
      → Accounts k g (clear_overrides o routes r)
  unfolding clear_overrides
  clear_overrides-Accounts [] r a = a
  clear_overrides-Accounts (route ∷ routes) r a =
      clear_overrides-Accounts routes (clear_override o route r) (clear_override-Accounts route r a)

  masked-is_some : (s : Option RouteState) → masked s ≡ true → is_some s ≡ true
  masked-is_some none h = cc
  masked-is_some (some s) h = refl

  still :
      (r : Router)
      → Accounts k g r
      → masked (r.route_state_overrides k) ≡ false
      → r.reload_cleared_overrides k ≡ some g
  still r a m = elim a.account [ inl m' ↦ cc (m, m') | inr c ↦ c ]

  clear_absent-Accounts :
      (routes : List Route) (r : Router) → Accounts k g r → Accounts k g (clear_absent o routes r)
  clear_absent-Accounts routes r a = record {
    generation = a.generation;
    account = elim (Bool-cases (has_route_key o routes k)) [
      | inl here ↦ rw here a.account
      | inr absent ↦ elim (Bool-cases (masked (r.route_state_overrides k))) [
        | inl m ↦ inr (rw (absent, m) (ap some a.generation))
        | inr m ↦ inr (rw (absent, m) (still r a m))
      ]
    ];
  }

module _ (o : Outside) where
  reload_router-Accounts :
      (k : String) (c : AppConfig) (r : Router)
      → masked (r.route_state_overrides k) ≡ true
      → Accounts k (suc r.config_generation) (reload_router o c r)
  unfolding reload_router
  reload_router-Accounts k c r m =
      let g = suc r.config_generation in
      let r1 = prune_buckets o c.routes (swap_config o c r) in
      let a1 : Accounts k g r1 = record { generation = refl; account = inl m } in
      clear_absent-Accounts o k g c.routes (clear_overrides o c.routes r1)
        (clear_overrides-Accounts o k g c.routes r1 a1)

  turn_state :
      (s : RouteState) (b : Bool)
      → (if true && not (is_maintenance s) then (if b || true then maintenance else s) else s)
        ≡ maintenance
  turn_state s b = ground arith

  noted-maintenance :
      (turn : RoutedTurnInput) (g h : ℕ) (r : Router)
      → masked turn.admitted_state ≡ true
      → turn.admitted_config_generation ≡ some g
      → g < h
      → r.route_state_overrides (key_of o turn.route) ≡ none
      → r.reload_cleared_overrides (key_of o turn.route) ≡ some h
      → (effective_turn_state o turn r).0 ≡ maintenance
  unfolding effective_turn_state maybe_clear_breaker_override
  noted-maintenance turn g h r admitted at lt gone noted =
      let late : ltb g h ≡ true = lt→ltb g h lt in
      rw (gone, noted, admitted, at, late)
        (turn_state (or_else (r.route_state_overrides (key_of o turn.route)) turn.route.state)
          (not (currently_active o r turn.route)))

  -- A reload that takes the breaker's mask from a route does not let through the turns that were
  -- admitted under the mask before it: such a turn is in maintenance still, whatever state the
  -- route has in the new configuration and in the turn.
  pub reload_router-masks :
      (c : AppConfig) (turn : RoutedTurnInput) (g : ℕ) (r : Router)
      → masked (r.route_state_overrides (key_of o turn.route)) ≡ true
      → masked turn.admitted_state ≡ true
      → turn.admitted_config_generation ≡ some g
      → g ≤ r.config_generation
      → (reload_router o c r).route_state_overrides (key_of o turn.route) ≡ none
      → (effective_turn_state o turn (reload_router o c r)).0 ≡ maintenance
  reload_router-masks c turn g r m admitted at before taken =
      let k = key_of o turn.route in
      let r' = reload_router o c r in
      let noted =
        still o k (suc r.config_generation) r' (reload_router-Accounts k c r m) (ap masked taken) in
      noted-maintenance turn g (suc r.config_generation) r' admitted at (omega (arith, before))
        taken noted
