-- ===== src/Router/Reload/Answered.antt =====
-- router.py: what the response to a reload request tells of the router.
use signal_hermes_router.Prelude.{
  ◌≡◌, refl, suc, List, [], ◌∷◌, length, arith, ◌⊎◌, inl, inr, ap, sym, ◌∙◌,
}
use signal_hermes_router.Config.{Route, AppConfig}
use signal_hermes_router.Router.State.{Router, Outside}
use signal_hermes_router.Router.Reload.{
  ReloadState, Reply, refused, reloaded, ReloadRequest, reload_router, reload_config,
  do_reload_config, clear_overrides, clear_override,
}
use signal_hermes_router.Router.Reload.Cases.{reload_config-cases}
use signal_hermes_router.Router.Reload.Profiles.{reload_router-config}

module _ (o : Outside) where
  -- A refusal leaves the router as it was, or as the other tasks took it while the request waited,
  -- with its tombstones, and names its generation; a reload puts one configuration in force at once
  -- and names the next generation and the number of its routes.
  abbrev pub Answered : ReloadRequest → ReloadState → Reply × ReloadState → Type 0
  Answered q s (refused e g, s') =
      ((s'.router ≡ s.router) ⊎ (s'.router ≡ q.during s.router))
      × (s'.route_profile_tombstones ≡ s.route_profile_tombstones)
      × (g ≡ s'.router.config_generation)
  Answered q s (reloaded g n, s') =
      (s'.router ≡ reload_router o s'.router.config (q.during s.router))
      × (g ≡ suc (q.during s.router).config_generation)
      × (g ≡ s'.router.config_generation)
      × (n ≡ length s'.router.config.routes)

  clear_overrides-generation :
      (routes : List Route) (r : Router)
      → (clear_overrides o routes r).config_generation ≡ r.config_generation
  unfolding clear_overrides
  clear_overrides-generation [] r = refl
  clear_overrides-generation (route ∷ routes) r =
      let same : (clear_override o route r).config_generation ≡ r.config_generation =
        ground arith in
      clear_overrides-generation routes (clear_override o route r) ∙ same

  swap-Answered :
      (c : AppConfig) (r : Router)
      → let r' = reload_router o c r in
        (r' ≡ reload_router o r'.config r)
        × (suc r.config_generation ≡ r'.config_generation)
        × (length c.routes ≡ length r'.config.routes)
  unfolding reload_router
  swap-Answered c r =
      let e = sym (reload_router-config o c r) in
      (
        ap (λ d. reload_router o d r) e,
        sym (clear_overrides-generation c.routes _),
        ap (λ (d : AppConfig). length d.routes) e,
      )

  -- A refused reload request leaves the router as it was, or as the other tasks took it while the
  -- request waited for the parse, and keeps the profiles remembered for the route keys. An accepted
  -- one does to that router what the swap to one configuration does and no more. The response has
  -- the generation that the router is left in, which an accepted one has raised by one, and the
  -- number of the routes in force.
  pub reload_config-Answered :
      (q : ReloadRequest) (s : ReloadState) → Answered q s (reload_config o q s)
  unfolding do_reload_config
  reload_config-Answered q s =
      reload_config-cases o q s (Answered q s) (λ e. (inl refl, refl, refl))
        (λ e f. (inr refl, refl, refl))
        (λ c f same.
          let (swap, next, size) = swap-Answered c (q.during s.router) in (swap, refl, next, size))
