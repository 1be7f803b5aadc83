-- ===== src/Config/Parse/Load.antt =====
-- config.py: the whole configuration, from the two documents (`load_app_config`).
--
-- Reading the files is left out: the documents are what `yaml.safe_load` gives. `uri` stands for
-- `resolve_secret_uri` of secrets.py, which runs commands and reads the environment.
pub mod Sound
pub mod Examples
use signal_hermes_router.Prelude.{String, List}
use signal_hermes_router.Values.{
  Value, mapping, Fields, end, value_error, attribute_error, Result, ok, raises, ◌>>=◌, Python, get,
  or_value,
}
use signal_hermes_router.Secrets.{resolve_fields}
use signal_hermes_router.Config.{AppConfig, RouterConfig}
use signal_hermes_router.Config.Parse.Routes.{parse_routes}
use signal_hermes_router.Config.Parse.Definitions.{parse_scheduled_jobs, parse_notifications}
use signal_hermes_router.Config.Parse.RouterSection.{System, parse_router_fields}

abbrev pub mapping_or {κ} : {A : Type κ} → Result A → (Fields → Result A) → Value → Result A
mapping_or otherwise f (mapping d) = f d
mapping_or otherwise f _ = otherwise

-- `_load_yaml`, on the document
unfoldable pub load_yaml : Value → Result Fields
load_yaml v = mapping_or (raises value_error) ok (or_value v (mapping end))

module _ (py : Python) (sys : System) (hash : String → String) where
  unfoldable pub parse_router_config : Value → Result RouterConfig
  parse_router_config v = mapping_or (raises attribute_error) (parse_router_fields py sys) v

  module _ (uri : String → Result String) where
    unfoldable pub load_routes_config : Value → RouterConfig → Result AppConfig
    load_routes_config routes_document router = do
      loaded ← load_yaml routes_document
      raw_routes ← resolve_fields uri loaded
      routes ← parse_routes py hash raw_routes
      jobs ← parse_scheduled_jobs py raw_routes routes
      notifications ← parse_notifications py raw_routes routes
      ok (record {
        router = router;
        routes = routes;
        scheduled_jobs = jobs;
        notifications = notifications;
      })

    unfoldable pub load_router_config : Value → Result RouterConfig
    load_router_config config_document = do
      loaded ← load_yaml config_document
      raw_config ← resolve_fields uri loaded
      parse_router_config (or_value (get "router" raw_config) (mapping raw_config))

    unfoldable pub load_app_config : Value → Value → Result AppConfig
    load_app_config config_document routes_document = do
      loaded ← load_yaml config_document
      raw_config ← resolve_fields uri loaded
      loaded' ← load_yaml routes_document
      raw_routes ← resolve_fields uri loaded'
      router ← parse_router_config (or_value (get "router" raw_config) (mapping raw_config))
      routes ← parse_routes py hash raw_routes
      jobs ← parse_scheduled_jobs py raw_routes routes
      notifications ← parse_notifications py raw_routes routes
      ok (record {
        router = router;
        routes = routes;
        scheduled_jobs = jobs;
        notifications = notifications;
      })
