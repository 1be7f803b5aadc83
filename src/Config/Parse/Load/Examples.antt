-- ===== src/Config/Parse/Load/Examples.antt =====
-- A configuration with a group route, a direct route and a job, from its two documents.
use signal_hermes_router.Prelude.{◌≡◌, ◌≢◌, refl, inr, true, false, String, none, some}
use signal_hermes_router.Values.{
  pos, Value, int, string, list, mapping, nil, cons, Fields, end, field, Python, Exception, Result,
  ok, raises, type_error, key_error,
}
use signal_hermes_router.Config.{AppConfig}
use signal_hermes_router.Config.Examples.{config}
use signal_hermes_router.Config.Parse.Load.{load_yaml, parse_router_config}
use signal_hermes_router.Values.{
  truth, get, get_or, has_key, has_only, lookup, text_of, to_int, to_float,
}
use signal_hermes_router.Secrets.{resolve_fields, is_secret}
use signal_hermes_router.Text.{starts_with, is_space, lstrip_string, rstrip_string, strip_string}
use signal_hermes_router.Config.Parse.RouterSection.{
  parse_router_fields, validate_signal_base_url, is_loopback_host, supports_local_attachment_paths,
}
use signal_hermes_router.Config.Parse.Retention.{parse_retention_config}
use signal_hermes_router.Config.Parse.Numbers.{
  as_bool, as_positive_int, as_non_negative_finite_float, as_strict_positive_int,
  as_positive_finite_float, as_retention_window,
}
use signal_hermes_router.Config.Parse.Definitions.{
  parse_notifications, parse_scheduled_jobs, parse_synthetic_definitions,
}
use signal_hermes_router.Config.Parse.Names.{
  is_safe_token, is_wildcard, normalize_direct_identity, normalize_profile_name,
  normalize_safe_token,
}
use signal_hermes_router.Config.Parse.Route.{parse_inbound_rate_limit, parse_route}
use signal_hermes_router.Config.Parse.Routes.{admit, parse_each, parse_routes}
use signal_hermes_router.Config.{route_key}
use signal_hermes_router.Permissions.Parse.{
  policy_from_config, predicate_from_config, rule_from_config,
}
use signal_hermes_router.Config.Parse.Route.Denied.{denies, parse_route-refuses}
use signal_hermes_router.Config.Parse.RouterSection.{System}
use signal_hermes_router.Config.Parse.Load.{load_app_config}
use signal_hermes_router.Config.Parse.Load.Sound.{IsLoaded, load_app_config-IsLoaded}

abbrev pub python : Python
python = record {
  int_of = λ s. none;
  float_of = λ s. none;
  is_decimal = λ s. false;
  lower = λ s. s;
  shown = λ v. "shown";
  dict_of = λ v. raises type_error;
  dumps = λ v. ok "{}";
}

abbrev pub system : System
system = record {
  path = λ s. s;
  expanduser = λ s. s;
  urlparse = λ s. some (record { scheme = "http"; hostname = some "localhost" });
  ip_is_loopback = λ s. none;
}

abbrev pub pair : String → Value → Fields → Fields
pair k v rest = field (string k) v rest

abbrev hash : String → String
hash s = s

abbrev limits : Value
limits = mapping (pair "max_turns" (int (pos 2)) (pair "window_seconds" (int (pos 60)) end))

abbrev pub group_fields : Value
group_fields = mapping (
    pair "name" (string "home") (
      pair "platform" (string "signal") (
        pair "profile" (string "p") (
          pair "group_id" (string "g")
            (pair "session_max_turns" (int (pos 5)) (pair "inbound_rate_limit" limits end))))))

abbrev direct_fields : Value
direct_fields = mapping (
    pair "platform" (string "signal") (
      pair "profile" (string "p")
        (pair "chat_type" (string "direct") (pair "sender_id" (string "u") end))))

abbrev job_fields : Value
job_fields = mapping (
    pair "id" (string "daily") (pair "route" (string "home") (pair "prompt" (string "report") end)))

abbrev routes_document : Value
routes_document = mapping (
    pair "routes" (list (cons group_fields (cons direct_fields nil)))
      (pair "scheduled_jobs" (list (cons job_fields nil)) end))

shown_nonempty : (v : Value) → python.shown v ≢ ""
shown_nonempty v = λ e. cc e

abbrev value {ℓ} : {A : Type ℓ} → A → Result A → A
value default (ok a) = a
value default (raises e) = default

abbrev loaded : AppConfig
loaded =
    value config
      (load_app_config python system hash (λ s. raises key_error) (mapping end) routes_document)

loads :
    load_app_config python system hash (λ s. raises key_error) (mapping end) routes_document
    ≡ ok loaded
unfolding load_app_config load_yaml parse_router_config truth get get_or has_key has_only lookup
    text_of to_int to_float resolve_fields is_secret starts_with is_space lstrip_string
    rstrip_string strip_string parse_router_fields validate_signal_base_url is_loopback_host
    supports_local_attachment_paths parse_retention_config as_bool as_positive_int
    as_non_negative_finite_float as_strict_positive_int as_positive_finite_float as_retention_window
    parse_notifications parse_scheduled_jobs parse_synthetic_definitions is_safe_token is_wildcard
    normalize_direct_identity normalize_profile_name normalize_safe_token parse_inbound_rate_limit
    parse_route admit parse_each parse_routes route_key policy_from_config predicate_from_config
    rule_from_config
loads = refl

load_app_config_example : IsLoaded python system hash none loaded
load_app_config_example =
    load_app_config-IsLoaded python system hash (λ s. raises key_error) none shown_nonempty
      (mapping end) routes_document loads

abbrev denying : Fields
denying = pair "permissions" (list (cons (mapping (pair "deny" (string "shell") end)) nil)) end

denied : denies (get "permissions" denying) ≡ true
unfolding get get_or has_key
denied = refl

parse_route-refuses_example : (x : Exception) × (parse_route python (mapping denying) ≡ raises x)
parse_route-refuses_example = parse_route-refuses python denying (inr denied)
