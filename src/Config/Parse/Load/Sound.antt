-- ===== src/Config/Parse/Load/Sound.antt =====
-- config.py: what a configuration that is loaded is like.
use signal_hermes_router.Prelude.{
  ◌≡◌, ◌≢◌, true, false, String, List, Option, some, is_some, All, Apart, All_zip, str_eq, eq_refl,
  eq_iff, arith,
}
use signal_hermes_router.Values.{Value, mapping, Fields, Python, Result, ok, get, or_value}
use signal_hermes_router.Values.Holds.{Holds, ok-Holds, raises-Holds, >>=-Holds, any-Holds}
use signal_hermes_router.Models.{SyntheticTurnKind, scheduled_job, notification}
use signal_hermes_router.Secrets.{resolve_fields}
use signal_hermes_router.Config.{
  AppConfig, Route, SyntheticRouteDefinition, find_route_by_name, find_synthetic_job,
  find_notification,
}
use signal_hermes_router.Config.Lookup.{all_first}
use signal_hermes_router.Config.Parse.Route.Formed.{IsFormed}
use signal_hermes_router.Config.Parse.Routes.{parse_routes}
use signal_hermes_router.Config.Parse.Routes.Apart.{Differs, parse_routes-Apart}
use signal_hermes_router.Config.Parse.Routes.Found.{Found, parse_routes-Found}
use signal_hermes_router.Config.Parse.Definitions.{parse_scheduled_jobs, parse_notifications}
use signal_hermes_router.Config.Parse.Definitions.Known.{
  IsKnown, OtherId, parse_synthetic_definitions-IsKnown,
}
use signal_hermes_router.Config.Parse.RouterSection.{System}
use signal_hermes_router.Config.Parse.RouterSection.Sound.{IsSound, parse_router_fields-Holds}
use signal_hermes_router.Config.Parse.Load.{load_yaml, parse_router_config, load_app_config}

-- A job or notification is found by its id, and its route by its name.
abbrev pub Runs :
    AppConfig
    → (String → Option SyntheticRouteDefinition)
    → SyntheticTurnKind
    → SyntheticRouteDefinition
    → Type 0
Runs c look kind d =
    (look d.id ≡ some d) × (d.kind ≡ kind) × (is_some (find_route_by_name c d.route_name) ≡ true)

pub record IsLoaded (py : Python) (sys : System) (hash : String → String) (number : Option String)
    (c : AppConfig) : Type 0 where
  pub router : IsSound py sys c.router
  pub formed : All (IsFormed py) c.routes
  pub apart : Apart (Differs hash) c.routes
  pub found : All (Found c number) c.routes
  pub jobs : All (Runs c (find_synthetic_job c) scheduled_job) c.scheduled_jobs
  pub notes : All (Runs c (find_notification c) notification) c.notifications

other_way : (a b : String) → str_eq a b ≡ false → str_eq b a ≡ false
other_way a b h = ground (arith, eq_iff a b, eq_iff b a)

module _ (py : Python) (sys : System) (hash : String → String) where
  parse_router_config-Holds :
      (v : Value) → Holds (IsSound py sys) (parse_router_config py sys hash v)
  unfolding parse_router_config
  parse_router_config-Holds (mapping raw) = parse_router_fields-Holds py sys raw
  parse_router_config-Holds _ = raises-Holds

  jobs_parsed :
      (raw : Fields) (rs : List Route) {ds : List SyntheticRouteDefinition}
      → parse_scheduled_jobs py raw rs ≡ ok ds
      → All (IsKnown rs scheduled_job) ds × Apart OtherId ds
  unfolding parse_scheduled_jobs
  jobs_parsed raw rs e =
      parse_synthetic_definitions-IsKnown py rs scheduled_job "scheduled_jobs" raw e

  notes_parsed :
      (raw : Fields) (rs : List Route) {ds : List SyntheticRouteDefinition}
      → parse_notifications py raw rs ≡ ok ds
      → All (IsKnown rs notification) ds × Apart OtherId ds
  unfolding parse_notifications
  notes_parsed raw rs e =
      parse_synthetic_definitions-IsKnown py rs notification "notifications" raw e

  module _ (c : AppConfig) where
    jobs_run :
        All (IsKnown c.routes scheduled_job) c.scheduled_jobs × Apart OtherId c.scheduled_jobs
        → All (Runs c (find_synthetic_job c) scheduled_job) c.scheduled_jobs
    unfolding find_synthetic_job find_route_by_name
    jobs_run (known, apart) =
        All_zip (λ d. find_synthetic_job c d.id ≡ some d) (IsKnown c.routes scheduled_job) _
          (λ d found k. (found, k.kind, k.route)) c.scheduled_jobs
          (all_first OtherId (λ d x. str_eq x.id d.id) (λ d. eq_refl d.id)
            (λ x d o. other_way d.id x.id o) c.scheduled_jobs apart)
          known

    notes_run :
        All (IsKnown c.routes notification) c.notifications × Apart OtherId c.notifications
        → All (Runs c (find_notification c) notification) c.notifications
    unfolding find_notification find_route_by_name
    notes_run (known, apart) =
        All_zip (λ d. find_notification c d.id ≡ some d) (IsKnown c.routes notification) _
          (λ d found k. (found, k.kind, k.route)) c.notifications
          (all_first OtherId (λ d x. str_eq x.id d.id) (λ d. eq_refl d.id)
            (λ x d o. other_way d.id x.id o) c.notifications apart)
          known

  module _ (uri : String → Result String) (number : Option String)
      (shown : (v : Value) → py.shown v ≢ "") where
    load_app_config-Holds :
        (config routes : Value)
        → Holds (IsLoaded py sys hash number) (load_app_config py sys hash uri config routes)
    unfolding load_app_config
    load_app_config-Holds config routes = any-Holds (load_yaml config) (λ loaded _.
        any-Holds (resolve_fields uri loaded) (λ raw_config _.
          any-Holds (load_yaml routes) (λ loaded' _.
            any-Holds (resolve_fields uri loaded') (λ raw _.
              >>=-Holds _
                (parse_router_config-Holds
                  (or_value (get "router" raw_config) (mapping raw_config)))
                (λ router hr. any-Holds (parse_routes py hash raw) (λ rs er.
                  any-Holds (parse_scheduled_jobs py raw rs) (λ jobs ej.
                    any-Holds (parse_notifications py raw rs) (λ notes en.
                      let c : AppConfig = record {
                        router = router;
                        routes = rs;
                        scheduled_jobs = jobs;
                        notifications = notes;
                      } in
                      let (formed, apart) = parse_routes-Apart hash py shown raw er in
                      ok-Holds (record {
                        router = hr;
                        formed = formed;
                        apart = apart;
                        found = parse_routes-Found hash py c number shown raw er;
                        jobs = jobs_run c (jobs_parsed raw rs ej);
                        notes = notes_run c (notes_parsed raw rs en);
                      })))))))))

    -- A configuration that loads is sound. In its router section a Signal message has 16 bytes or
    -- more; the sizes of attachments, events, ACP lines, replies and payloads, the number of turns,
    -- the initialization timeout and the sweep interval are positive, and so is the size of the
    -- stored media where it is set; a retention window is a day or more; the lock timeout is not
    -- negative; the store is a file; and the Signal service is local unless a remote one is
    -- allowed. Its routes are well formed, do not clash, and
    -- are found by name, group, sender and number; and its jobs and notifications are found by
    -- their ids, and the routes they name by name.
    pub load_app_config-IsLoaded :
        (config routes : Value) {c : AppConfig}
        → load_app_config py sys hash uri config routes ≡ ok c
        → IsLoaded py sys hash number c
    load_app_config-IsLoaded config routes e = (load_app_config-Holds config routes).of_ok _ e
