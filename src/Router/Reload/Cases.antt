-- ===== src/Router/Reload/Cases.antt =====
-- router.py: the ways in which a reload request ends, and the states that each leaves.
use signal_hermes_router.Prelude.{
  ◌≡◌, String, false, Option, none, some, Bool-cases, suc, length, inl, inr, str_eq,
}
use signal_hermes_router.Values.{Value, null, boolean, int, float, string, list, mapping, opaque}
use signal_hermes_router.Config.{AppConfig}
use signal_hermes_router.Router.State.{Outside}
use signal_hermes_router.Router.Reload.{
  ReloadState, ParseResult, drifted, timed_out, invalid, candidate, Reply, reloaded, ReloadRequest,
  refuse, profile_changed, do_reload_config, accept, fingerprinted, settle_parse, parse_from,
  with_routes, with_paths, reload_config,
}

-- The state after the wait for the parse, with a baseline fingerprint.
abbrev pub after_parse : ReloadRequest → Option String → ReloadState → ReloadState
after_parse q f s = record s { router = q.during s.router; config_fingerprint = f }

module _ (o : Outside) (q : ReloadRequest) (s : ReloadState) (P : Reply × ReloadState → Type 0)
    (at_once : (e : String) → P (refuse o e s))
    (late : (e : String) (f : Option String) → P (refuse o e (after_parse q f s)))
    (swaps : (c : AppConfig) (f : Option String)
      → profile_changed o s.route_profile_tombstones c.routes ≡ false
      → P (
        reloaded (suc (q.during s.router).config_generation) (length c.routes),
        do_reload_config o c (after_parse q f s),
      )) where
  accept-cases : (c : AppConfig) (f : Option String) → P (accept o c (after_parse q f s))
  unfolding accept
  accept-cases c f = elim (Bool-cases (profile_changed o s.route_profile_tombstones c.routes)) [
    | inl moved ↦ rw moved (late "profile_changed_for_existing_route" f)
    | inr same ↦ rw same (swaps c f same)
  ]

  fingerprinted-cases :
      (b : Option String) (f : String) (c : AppConfig)
      → P (fingerprinted o b f c (after_parse q s.config_fingerprint s))
  fingerprinted-cases none f c = accept-cases c (some f)
  fingerprinted-cases (some b) f c = elim (Bool-cases (str_eq f b)) [
    | inl same ↦ rw same (accept-cases c s.config_fingerprint)
    | inr other ↦ rw other (late "router_config_changed" s.config_fingerprint)
  ]

  settle_parse-cases :
      (x : ParseResult) → P (settle_parse o x (after_parse q s.config_fingerprint s))
  settle_parse-cases (candidate f c) = fingerprinted-cases s.config_fingerprint f c
  settle_parse-cases drifted = late "router_config_changed" s.config_fingerprint
  settle_parse-cases timed_out = late "config_parse_timeout" s.config_fingerprint
  settle_parse-cases invalid = late "config_invalid" s.config_fingerprint

  parse_from-cases : (c d : String) → P (parse_from o q c d s)
  parse_from-cases c d = settle_parse-cases (q.parse c d s.config_fingerprint)

  with_routes-cases : (c d : String) (v : Value) → P (with_routes o q c d v s)
  with_routes-cases c d null = parse_from-cases c d
  with_routes-cases c d (string path) = elim (Bool-cases (str_eq path "")) [
    | inl default ↦ rw default (parse_from-cases c d)
    | inr own ↦ elim (Bool-cases (q.is_absolute path)) [
      | inl absolute ↦ rw (own, absolute) (parse_from-cases c path)
      | inr relative ↦ rw (own, relative) (at_once "candidate_routes_not_absolute")
    ]
  ]
  with_routes-cases c d (boolean b) = at_once "invalid_candidate_routes"
  with_routes-cases c d (int i) = at_once "invalid_candidate_routes"
  with_routes-cases c d (float x) = at_once "invalid_candidate_routes"
  with_routes-cases c d (list xs) = at_once "invalid_candidate_routes"
  with_routes-cases c d (mapping fs) = at_once "invalid_candidate_routes"
  with_routes-cases c d (opaque n) = at_once "invalid_candidate_routes"

  with_paths-cases : (ps : Option (String × String)) → P (with_paths o q ps s)
  with_paths-cases none = at_once "reload_paths_unknown"
  with_paths-cases (some (c, d)) = with_routes-cases c d q.candidate_routes

  -- What holds of every refusal, before the parse and after it, and of every swap, holds of the
  -- request.
  pub reload_config-cases : P (reload_config o q s)
  unfolding reload_config
  reload_config-cases = with_paths-cases s.config_paths
