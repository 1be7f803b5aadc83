-- ===== src/Router/Reload/Profiles.antt =====
-- router.py: the profile of a route key over any sequence of reloads.
use signal_hermes_router.Prelude.{
  ◌≡◌, refl, ◌∙◌, String, false, List, [], ◌∷◌, some, arith, All, All_of, All_zip, Apart, put_self,
  empty, Bool-cases, Dict, put, str_eq, eq_iff, inl, inr,
}
use signal_hermes_router.Config.{Route, AppConfig}
use signal_hermes_router.Router.State.{Router, Outside, key_of}
use signal_hermes_router.Router.Reload.Cases.{reload_config-cases}
use signal_hermes_router.Router.Reload.{
  ReloadState, Reply, refused, reloaded, ReloadRequest, add_tombstones, initial_tombstones,
  reload_router, do_reload_config, profile_changed, reload_config, clear_overrides, clear_override,
}

module _ (o : Outside) where
  abbrev accepted_after : Reply → ReloadState → List AppConfig → List AppConfig
  accepted_after (refused e g) s later = later
  accepted_after (reloaded g n) s later = s.router.config ∷ later

  -- The configurations that the requests put in force.
  unfoldable pub accepted : List ReloadRequest → ReloadState → List AppConfig
  accepted [] s = []
  accepted (q ∷ qs) s =
      let later = accepted qs (reload_config o q s).1 in
      accepted_after (reload_config o q s).0 (reload_config o q s).1 later

  abbrev pub HasProfile : String → String → Route → Type 0
  HasProfile k p route = key_of o route ≡ k → route.profile ≡ p

  abbrev pub Fits : String → String → AppConfig → Type 0
  Fits k p c = All (HasProfile k p) c.routes

  clear_override-config :
      (route : Route) (r : Router) → (clear_override o route r).config ≡ r.config
  clear_override-config route r = ground arith

  clear_overrides-config :
      (routes : List Route) (r : Router) → (clear_overrides o routes r).config ≡ r.config
  unfolding clear_overrides
  clear_overrides-config [] r = refl
  clear_overrides-config (route ∷ routes) r =
      clear_overrides-config routes (clear_override o route r) ∙ clear_override-config route r

  pub reload_router-config : (c : AppConfig) (r : Router) → (reload_router o c r).config ≡ c
  unfolding reload_router
  reload_router-config c r = clear_overrides-config c.routes _

  module _ (k p : String) where
    profile_changed-HasProfile :
        (d : Dict String) (routes : List Route)
        → d k ≡ some p
        → profile_changed o d routes ≡ false
        → All (HasProfile k p) routes
    unfolding profile_changed
    profile_changed-HasProfile d [] e h = tt
    profile_changed-HasProfile d (route ∷ routes) e h = (
      λ same. ground (arith, same, e, eq_iff p route.profile),
      profile_changed-HasProfile d routes e (ground arith),
    )

    add_tombstones-kept :
        (routes : List Route) (d : Dict String)
        → d k ≡ some p
        → All (HasProfile k p) routes
        → add_tombstones o routes d k ≡ some p
    unfolding add_tombstones
    add_tombstones-kept [] d e h = e
    add_tombstones-kept (route ∷ routes) d e (h, hs) =
        let step : put d (key_of o route) route.profile k ≡ some p =
          elim (Bool-cases (str_eq (key_of o route) k)) [
            | inl same ↦ rw same (rw (h ((eq_iff (key_of o route) k).0 same)) refl)
            | inr other ↦ rw other e
          ] in
        add_tombstones-kept routes (put d (key_of o route) route.profile) step hs

    abbrev FitsReply : Reply → ReloadState → Type 0
    FitsReply (refused e g) s = Unit
    FitsReply (reloaded g n) s = Fits k p s.router.config

    abbrev Keeps : Reply × ReloadState → Type 0
    Keeps (a, s) = (s.route_profile_tombstones k ≡ some p) × FitsReply a s

    reload_config-Keeps :
        (q : ReloadRequest) (s : ReloadState)
        → s.route_profile_tombstones k ≡ some p
        → Keeps (reload_config o q s)
    unfolding do_reload_config
    reload_config-Keeps q s e =
        reload_config-cases o q s Keeps (λ m. (e, tt)) (λ m f. (e, tt))
          (λ c f same.
            let fits = profile_changed-HasProfile s.route_profile_tombstones c.routes e same in
            (
              add_tombstones-kept c.routes s.route_profile_tombstones e fits,
              rw (reload_router-config c (q.during s.router)) fits,
            ))

    accepted_after-All :
        (a : Reply) (s : ReloadState) (later : List AppConfig)
        → FitsReply a s
        → All (Fits k p) later
        → All (Fits k p) (accepted_after a s later)
    accepted_after-All (refused e g) s later h hs = hs
    accepted_after-All (reloaded g n) s later h hs = (h, hs)

    run-Fits :
        (qs : List ReloadRequest) (s : ReloadState)
        → s.route_profile_tombstones k ≡ some p
        → All (Fits k p) (accepted qs s)
    unfolding accepted
    run-Fits [] s e = tt
    run-Fits (q ∷ qs) s e =
        let h = reload_config-Keeps q s e in
        let (a, s') = reload_config o q s in
        accepted_after-All a s' (accepted qs s') h.1 (run-Fits qs s' h.0)

  -- The routes of a key in the second configuration have the profile that it has in the first.
  abbrev pub SameProfiles : AppConfig → AppConfig → Type 0
  SameProfiles c d = All (λ (route : Route). Fits (key_of o route) route.profile d) c.routes

  -- The dictionary has the profile of every route.
  abbrev Remembers : Dict String → List Route → Type 0
  Remembers d routes = All (λ (route : Route). d (key_of o route) ≡ some route.profile) routes

  add_tombstones-Remembers :
      (routes : List Route) (d : Dict String)
      → Apart (λ (a b : Route). HasProfile (key_of o a) a.profile b) routes
      → Remembers (add_tombstones o routes d) routes
  unfolding add_tombstones
  add_tombstones-Remembers [] d h = tt
  add_tombstones-Remembers (route ∷ routes) d (h, hs) = (
    add_tombstones-kept (key_of o route) route.profile routes (put d (key_of o route) route.profile)
        (put_self d (key_of o route) route.profile) h,
    add_tombstones-Remembers routes (put d (key_of o route) route.profile) hs,
  )

  -- No two routes of the configuration have one key and different profiles.
  abbrev pub OneProfile : AppConfig → Type 0
  OneProfile c = Apart (λ (a b : Route). HasProfile (key_of o a) a.profile b) c.routes

  accepted-All :
      (qs : List ReloadRequest) (s : ReloadState) (routes : List Route)
      → Remembers s.route_profile_tombstones routes
      → All
          (λ d. All (λ (route : Route). Fits (key_of o route) route.profile d) routes)
          (accepted qs s)
  accepted-All qs s [] h = All_of (λ (d : AppConfig). tt) (accepted qs s)
  accepted-All qs s (route ∷ routes) (h, hs) =
      All_zip (Fits (key_of o route) route.profile) _ _ (λ d one rest. (one, rest)) (accepted qs s)
        (run-Fits (key_of o route) route.profile qs s h) (accepted-All qs s routes hs)

  RemembersReply : Reply → ReloadState → Type 0
  RemembersReply (refused e g) s = Unit
  RemembersReply (reloaded g n) s =
      OneProfile s.router.config → Remembers s.route_profile_tombstones s.router.config.routes

  reload_config-Remembers :
      (q : ReloadRequest) (s : ReloadState)
      → let (a, s') = reload_config o q s in RemembersReply a s'
  unfolding do_reload_config RemembersReply
  reload_config-Remembers q s =
      reload_config-cases o q s (λ (p : Reply × ReloadState). RemembersReply p.0 p.1) (λ e. tt)
        (λ e f. tt)
        (λ c f same.
          rw (reload_router-config c (q.during s.router))
            (λ one. add_tombstones-Remembers c.routes s.route_profile_tombstones one))

  accepted_after-Apart :
      (a : Reply) (s : ReloadState) (qs : List ReloadRequest)
      → RemembersReply a s
      → All OneProfile (accepted_after a s (accepted qs s))
      → (All OneProfile (accepted qs s) → Apart SameProfiles (accepted qs s))
      → Apart SameProfiles (accepted_after a s (accepted qs s))
  unfolding RemembersReply
  accepted_after-Apart (refused e g) s qs h one later = later one
  accepted_after-Apart (reloaded g n) s qs h (one, ones) later =
      (accepted-All qs s s.router.config.routes (h one), later ones)

  accepted-Apart :
      (qs : List ReloadRequest) (s : ReloadState)
      → All OneProfile (accepted qs s)
      → Apart SameProfiles (accepted qs s)
  unfolding accepted
  accepted-Apart [] s one = tt
  accepted-Apart (q ∷ qs) s one =
      let (a, s') = reload_config o q s in
      accepted_after-Apart a s' qs (reload_config-Remembers q s) one (accepted-Apart qs s')

  -- From the start with a configuration, over any sequence of reload requests, each refused or
  -- accepted, and whatever the other tasks do meanwhile: a route key has in each configuration that
  -- is put in force the profile that it had in any earlier one, even after configurations without
  -- the key, where no single configuration gives one key two profiles.
  pub run-SameProfiles :
      (c : AppConfig) (qs : List ReloadRequest) (s : ReloadState)
      → s.route_profile_tombstones ≡ initial_tombstones o c
      → OneProfile c
      → All OneProfile (accepted qs s)
      → Apart SameProfiles (c ∷ accepted qs s)
  unfolding initial_tombstones
  run-SameProfiles c qs s e one ones =
      let remembered = add_tombstones-Remembers c.routes empty one in
      (accepted-All qs s c.routes (rw e remembered), accepted-Apart qs s ones)
