-- ===== src/Router/Intake/Locks.antt =====
-- router.py: the locks of a job or a notification.
use signal_hermes_router.Prelude.{
  ◌≡◌, refl, ◌⊎◌, inl, inr, true, Option, none, some, or_else, Bool-cases,
}
use signal_hermes_router.Config.{Route, SyntheticRouteDefinition, find_route_by_name}
use signal_hermes_router.Router.State.{Router, Outside, RoutedTurnInput}
use signal_hermes_router.Router.Intake.{Admission}
use signal_hermes_router.Router.Intake.Fresh.{Idle}
use signal_hermes_router.Router.Intake.Synthetic.{
  Answers, Request, Prepared, answers, proceeds, fails, under_locks, prepared, prepare, for_route,
  synthetic_turn_input, handle_synthetic_definition,
}

abbrev pub HasLocks : Answers → Type 0
HasLocks w = (w.route_lock_acquired ≡ true) × (w.profile_lock_acquired ≡ true)

module _ (o : Outside) (w : Answers) (d : SyntheticRouteDefinition) where
  under_locks-HasLocks :
      (turn : RoutedTurnInput) (r : Router) → Idle (under_locks o w d turn r).1 ⊎ HasLocks w
  under_locks-HasLocks turn r = elim (Bool-cases w.route_lock_acquired) [
    | inr missed ↦ inl (rw missed (refl, refl))
    | inl got ↦ elim (Bool-cases w.profile_lock_acquired) [
      | inr missed ↦ inl (rw (got, missed) (refl, refl))
      | inl both ↦ inr (got, both)
    ]
  ]

  prepared-HasLocks : (p : Prepared × Router) → Idle (prepared o w d p).1 ⊎ HasLocks w
  prepared-HasLocks (answers out, r) = inl (refl, refl)
  prepared-HasLocks (fails e, r) = inl (refl, refl)
  prepared-HasLocks (proceeds turn, r) = under_locks-HasLocks turn r

  for_route-HasLocks :
      (a : Admission) (q : Request) (found : Option Route) (r : Router)
      → Idle (for_route o w a d q found r).1
        ⊎ (((route : Route) × (found ≡ some route)) × HasLocks w)
  for_route-HasLocks a q none r = inl (refl, refl)
  for_route-HasLocks a q (some route) r =
      elim (prepared-HasLocks (prepare o w d (synthetic_turn_input o w a d route q r) r)) [
        | inl idle ↦ inl idle
        | inr locks ↦ inr ((route, refl), locks)
      ]

  -- A scheduled job or a notification attempts neither a session nor a prompt, or its route is in the
  -- configuration that admitted it and it has taken both the route's lock and the profile's.
  pub handle_synthetic_definition-HasLocks :
      (a : Admission) (q : Request) (r : Router)
      → Idle (handle_synthetic_definition o w a d q r).1
        ⊎ (((route : Route) × (find_route_by_name (or_else a.config r.config) d.route_name
                ≡ some route))
            × HasLocks w)
  unfolding handle_synthetic_definition
  handle_synthetic_definition-HasLocks a q r =
      for_route-HasLocks a q (find_route_by_name (or_else a.config r.config) d.route_name) r
