-- ===== src/Sessions/Examples.antt =====
-- A registry with one session that has served its two turns, on a profile that was replaced.
use signal_hermes_router.Prelude.{
  ◌≡◌, refl, Bool, false, not, ◌&&◌, String, none, some, [], ◌∷◌, Dict, empty, put, arith,
}
use signal_hermes_router.Models.{SessionPolicy, persistent_route, persistent_sender}
use signal_hermes_router.Config.Examples.{group_route}
use signal_hermes_router.Sessions.{
  RoutedSession, SessionRegistry, Acp, resumed, created, get, replace_after_restart, in_scope,
  mismatched, drop_sessions_matching, drop_sessions_not_in, drop_sessions_with_mismatched_policy,
}
use signal_hermes_router.Sessions.Keyed.{owner, IsRegistered, registry-IsRegistered}
use signal_hermes_router.Sessions.Eviction.{survivor, evictions-survivor}

abbrev session : RoutedSession
session = record {
  profile = 1;
  session_id = "s1";
  cwd = "/w";
  is_ephemeral = false;
  policy = persistent_route;
  created_at = 10;
  turn_count = 2;
}

abbrev registry : SessionRegistry
registry = record {
  sessions = put empty "k" session;
  session_routes = ("k", "signal:g") ∷ [];
  released = [];
}

abbrev acp : Acp
acp = record {
  profile = some 2;
  resume = resumed;
  new_session = created "s2";
  answered_at = 45;
  meanwhile = λ g. g;
}

abbrev policies : Dict SessionPolicy
policies = put empty "signal:g" persistent_sender

registry-IsRegistered_here : IsRegistered registry
unfolding owner
registry-IsRegistered_here = record { distinct = (refl, tt); same_keys = λ k. ground arith }

abbrev never : String → RoutedSession → Bool
never k s = false

registry-IsRegistered_example :
    IsRegistered (get acp group_route "k" "signal:g" "/w2" 40 registry).0
    × IsRegistered (replace_after_restart acp group_route "k" "signal:g" session registry).0
    × IsRegistered (drop_sessions_matching never registry).0
registry-IsRegistered_example =
    registry-IsRegistered acp group_route "k" "signal:g" "/w2" session 40 never registry (λ g v. v)
      registry-IsRegistered_here

abbrev nothing_live : String → Bool
nothing_live k = false

evictions-survivor_example :
    ((drop_sessions_not_in nothing_live none registry).0.sessions "k"
      ≡ survivor
          (λ route_key s. not (nothing_live route_key) && in_scope none route_key)
          (owner "k" registry.session_routes)
          (registry.sessions "k"))
    × ((drop_sessions_with_mismatched_policy policies none registry).0.sessions "k"
        ≡ survivor
            (λ route_key s. mismatched policies route_key s && in_scope none route_key)
            (owner "k" registry.session_routes)
            (registry.sessions "k"))
evictions-survivor_example =
    evictions-survivor nothing_live policies none registry "k" registry-IsRegistered_here
