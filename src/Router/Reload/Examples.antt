-- ===== src/Router/Reload/Examples.antt =====
-- Reloads: one that disables a masked route, and requests that are refused.
use signal_hermes_router.Prelude.{
  ◌≡◌, refl, false, List, [], ◌∷◌, some, All, Apart, empty, put, arith,
}
use signal_hermes_router.Values.{null, string}
use signal_hermes_router.Models.{disabled, maintenance}
use signal_hermes_router.Config.{AppConfig, route_key}
use signal_hermes_router.Config.Examples.{group_route, config}
use signal_hermes_router.Router.State.{Router, RoutedTurnInput}
use signal_hermes_router.Router.Breaker.{effective_turn_state}
use signal_hermes_router.Router.Examples.{outside, router, turn}
use signal_hermes_router.Router.Reload.{
  ReloadState, ReloadRequest, initial_tombstones, add_tombstones, refused, reloaded, candidate,
  do_reload_config, clear_overrides, reload_router, reload_config, has_route_key, profile_changed,
  accept,
}
use signal_hermes_router.Router.Reload.Applied.{reload_router-masks}
use signal_hermes_router.Router.Reload.Profiles.{
  accepted, OneProfile, SameProfiles, run-SameProfiles,
}
use signal_hermes_router.Router.Reload.Answered.{Answered, reload_config-Answered}

abbrev disabled_config : AppConfig
disabled_config = record config { routes = record group_route { state = disabled } ∷ [] }

abbrev moved_config : AppConfig
moved_config = record config { routes = record group_route { profile = "other" } ∷ [] }

abbrev masked_router : Router
masked_router = record router { route_state_overrides = put empty "signal:g" maintenance }

abbrev masked_turn : RoutedTurnInput
masked_turn = record turn { admitted_state = some maintenance }

abbrev state : ReloadState
state = record {
  router = masked_router;
  route_profile_tombstones = initial_tombstones outside config;
  config_paths = some ("config.yaml", "routes.yaml");
  config_fingerprint = some "f";
}

abbrev request : AppConfig → ReloadRequest
request c = record {
  candidate_routes = null;
  is_absolute = λ p. false;
  parse = λ p r f. candidate "f" c;
  during = λ r. r;
}

abbrev relative_request : ReloadRequest
relative_request = record (request config) { candidate_routes = string "routes.yaml" }

abbrev requests : List ReloadRequest
requests = relative_request ∷ request moved_config ∷ request disabled_config ∷ request config ∷ []

moved_refused :
    (reload_config outside (request moved_config) state).0
    ≡ refused "profile_changed_for_existing_route" 1
unfolding reload_config accept profile_changed route_key initial_tombstones add_tombstones
moved_refused = refl

disabled_reloaded : (reload_config outside (request disabled_config) state).0 ≡ reloaded 2 1
unfolding reload_config accept profile_changed route_key initial_tombstones add_tombstones
disabled_reloaded = refl

reload_router-masks_example :
    (effective_turn_state outside masked_turn
      (reload_router outside disabled_config masked_router)).0
    ≡ maintenance
unfolding route_key reload_router clear_overrides has_route_key
reload_router-masks_example =
    reload_router-masks outside disabled_config masked_turn 1 masked_router refl refl refl
      (ground arith) refl

one_each : All (OneProfile outside) (accepted outside requests state)
unfolding accepted reload_config accept profile_changed route_key initial_tombstones add_tombstones
    do_reload_config reload_router clear_overrides
one_each = ((tt, tt), (((λ e. refl, tt), (tt, tt)), tt))

run-SameProfiles_example : Apart (SameProfiles outside) (config ∷ accepted outside requests state)
run-SameProfiles_example =
    run-SameProfiles outside config requests state refl ((λ e. refl, tt), (tt, tt)) one_each

reload_config-Answered_example :
    Answered outside
      (request disabled_config)
      state
      (reload_config outside (request disabled_config) state)
reload_config-Answered_example = reload_config-Answered outside (request disabled_config) state
