-- ===== src/Router/Reload.antt =====
-- router.py: the reload of the routes, `_reload_config_locked` without its executors, and
-- `_do_reload_config`. The parse of the files is a parameter with its fingerprint of config.yaml.
--
-- `_reload_lock` lets one reload run at a time; while it waits for the parse, the other tasks take
-- the router wherever `during` says. Logs, the redactor and the scheduled reaping are left out.
pub mod Cases
pub mod Applied
pub mod Answered
pub mod Profiles
pub mod Examples
use signal_hermes_router.Prelude.{
  ℕ, suc, ◌+◌, String, Bool, true, false, not, ◌&&◌, ◌||◌, List, [], ◌∷◌, length, Option, none,
  some, is_some, Dict, put, remove, empty, str_eq, if◌then◌else◌,
}
use signal_hermes_router.Values.{Value, null, string}
use signal_hermes_router.Config.{Route, InboundRateLimit, AppConfig}
use signal_hermes_router.Models.{RouteState}
use signal_hermes_router.Router.State.{Router, Outside, BucketKey, key_of}
use signal_hermes_router.Router.Breaker.{is_active, masked}
use signal_hermes_router.Router.Turn.Body.Rate.{rate_limit_bucket_key, bucket_key_eq}

-- The router with the fields that only reloads use.
pub record ReloadState : Type 0 where
  pub router : Router
  pub route_profile_tombstones : Dict String
  pub config_paths : Option (String × String)
  pub config_fingerprint : Option String

-- What `_parse_reload_candidate` ends in: its own `_RouterConfigDrifted`, the time limit of the wait,
-- another exception, or the fingerprint with the candidate.
pub data ParseResult : Type 0 where
  drifted timed_out invalid : ParseResult
  candidate : String → AppConfig → ParseResult

-- The response: an error with the generation, or the new generation and the number of routes.
pub data Reply : Type 0 where
  refused : String → ℕ → Reply
  reloaded : ℕ → ℕ → Reply

-- One request, with what the outside does to it.
pub record ReloadRequest : Type 0 where
  pub candidate_routes : Value
  pub is_absolute : String → Bool
  pub parse : String → String → Option String → ParseResult
  pub during : Router → Router

module _ (o : Outside) where
  abbrev bucket_key_of : Option InboundRateLimit → Route → BucketKey
  bucket_key_of none route = record { route_key = key_of o route; max_turns = 0; window_ms = 0 }
  bucket_key_of (some limit) route = rate_limit_bucket_key o route limit

  -- `current_bucket_keys`: of two routes with one key the later one counts.
  unfoldable pub current_bucket_keys : List Route → Dict BucketKey
  current_bucket_keys [] = empty
  current_bucket_keys (route ∷ routes) =
      let later = current_bucket_keys routes in
      let k = key_of o route in
      λ j.
        if is_some (later j)
        then later j
        else put empty k (bucket_key_of route.inbound_rate_limit route) j

  abbrev is_bucket_key : BucketKey → Option BucketKey → Bool
  is_bucket_key b none = false
  is_bucket_key b (some c) = bucket_key_eq c b

  abbrev pub prune_buckets : List Route → Router → Router
  prune_buckets routes r = record r {
    inbound_rate_buckets = λ b.
        if is_bucket_key b (current_bucket_keys routes b.route_key)
        then r.inbound_rate_buckets b
        else none;
  }

  unfoldable pub add_tombstones : List Route → Dict String → Dict String
  add_tombstones [] d = d
  add_tombstones (route ∷ routes) d = add_tombstones routes (put d (key_of o route) route.profile)

  -- `_route_profile_tombstones` for the configuration that the router starts with.
  unfoldable pub initial_tombstones : AppConfig → Dict String
  initial_tombstones c = add_tombstones c.routes empty

  abbrev pub drop_override : String → Router → Router
  drop_override k r = record r {
    route_state_overrides = remove r.route_state_overrides k;
    trip_times = remove r.trip_times k;
    trip_times_ms = remove r.trip_times_ms k;
    reload_cleared_overrides = put r.reload_cleared_overrides k r.config_generation;
  }

  abbrev pub clear_override : Route → Router → Router
  clear_override route r =
      let k = key_of o route in
      if not (is_active route.state) && masked (r.route_state_overrides k)
      then drop_override k r
      else r

  unfoldable pub clear_overrides : List Route → Router → Router
  clear_overrides [] r = r
  clear_overrides (route ∷ routes) r = clear_overrides routes (clear_override route r)

  unfoldable pub has_route_key : List Route → String → Bool
  has_route_key [] k = false
  has_route_key (route ∷ routes) k = str_eq (key_of o route) k || has_route_key routes k

  abbrev leaves : {A : Type 0} → List Route → Dict RouteState → Dict A → Dict A
  leaves routes overrides d =
      λ k. if not (has_route_key routes k) && is_some (overrides k) then none else d k

  -- The overrides of the keys that the new routes lack, each on its own.
  abbrev pub clear_absent : List Route → Router → Router
  clear_absent routes r = record r {
    route_state_overrides = leaves routes r.route_state_overrides r.route_state_overrides;
    trip_times = leaves routes r.route_state_overrides r.trip_times;
    trip_times_ms = leaves routes r.route_state_overrides r.trip_times_ms;
    reload_cleared_overrides = λ k.
        if not (has_route_key routes k) && masked (r.route_state_overrides k)
        then some r.config_generation
        else r.reload_cleared_overrides k;
  }

  abbrev pub swap_config : AppConfig → Router → Router
  swap_config c r = record r { config = c; config_generation = suc r.config_generation }

  -- The router's part of `_do_reload_config`.
  unfoldable pub reload_router : AppConfig → Router → Router
  reload_router c r =
      clear_absent c.routes (clear_overrides c.routes (prune_buckets c.routes (swap_config c r)))

  unfoldable pub do_reload_config : AppConfig → ReloadState → ReloadState
  do_reload_config c s = record s {
    router = reload_router c s.router;
    route_profile_tombstones = add_tombstones c.routes s.route_profile_tombstones;
  }

  abbrev is_other : Option String → String → Bool
  is_other none profile = false
  is_other (some p) profile = not (str_eq p profile)

  -- Some route has a key that stood for another profile.
  unfoldable pub profile_changed : Dict String → List Route → Bool
  profile_changed d [] = false
  profile_changed d (route ∷ routes) =
      is_other (d (key_of o route)) route.profile || profile_changed d routes

  abbrev pub refuse : String → ReloadState → Reply × ReloadState
  refuse error s = (refused error s.router.config_generation, s)

  unfoldable pub accept : AppConfig → ReloadState → Reply × ReloadState
  accept c s =
      if profile_changed s.route_profile_tombstones c.routes
      then refuse "profile_changed_for_existing_route" s
      else (reloaded (suc s.router.config_generation) (length c.routes), do_reload_config c s)

  abbrev pub fingerprinted : Option String → String → AppConfig → ReloadState → Reply × ReloadState
  fingerprinted none f c s = accept c (record s { config_fingerprint = some f })
  fingerprinted (some baseline) f c s =
      if str_eq f baseline then accept c s else refuse "router_config_changed" s

  abbrev pub settle_parse : ParseResult → ReloadState → Reply × ReloadState
  settle_parse drifted s = refuse "router_config_changed" s
  settle_parse timed_out s = refuse "config_parse_timeout" s
  settle_parse invalid s = refuse "config_invalid" s
  settle_parse (candidate f c) s = fingerprinted s.config_fingerprint f c s

  abbrev waited : ReloadRequest → ReloadState → ReloadState
  waited q s = record s { router = q.during s.router }

  abbrev pub parse_from : ReloadRequest → String → String → ReloadState → Reply × ReloadState
  parse_from q config_path routes_path s =
      settle_parse (q.parse config_path routes_path s.config_fingerprint) (waited q s)

  -- The routes file: the request's own, if it names one, has an absolute path.
  abbrev pub with_routes :
      ReloadRequest → String → String → Value → ReloadState → Reply × ReloadState
  with_routes q config_path default_path null s = parse_from q config_path default_path s
  with_routes q config_path default_path (string path) s =
      if str_eq path ""
      then parse_from q config_path default_path s
      else if q.is_absolute path
      then parse_from q config_path path s
      else refuse "candidate_routes_not_absolute" s
  with_routes q config_path default_path _ s = refuse "invalid_candidate_routes" s

  abbrev pub with_paths :
      ReloadRequest → Option (String × String) → ReloadState → Reply × ReloadState
  with_paths q none s = refuse "reload_paths_unknown" s
  with_paths q (some (config_path, routes_path)) s =
      with_routes q config_path routes_path q.candidate_routes s

  unfoldable pub reload_config : ReloadRequest → ReloadState → Reply × ReloadState
  reload_config q s = with_paths q s.config_paths s
