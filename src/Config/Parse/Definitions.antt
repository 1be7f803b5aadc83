-- ===== src/Config/Parse/Definitions.antt =====
-- config.py: the jobs and notifications of routes.yaml (`_parse_synthetic_definitions`).
pub mod Known
use signal_hermes_router.Prelude.{
  String, Bool, true, false, List, [], ◌∷◌, Option, none, some, is_some, any, str_eq, if◌then◌else◌,
}
use signal_hermes_router.Text.{strip_string}
use signal_hermes_router.Values.{
  Value, null, string, list, mapping, Items, nil, cons, Fields, value_error, Result, ok, raises,
  ◌>>=◌, ◌>>◌, raise_if, or_raise, Python, get, get_or,
}
use signal_hermes_router.Models.{SyntheticTurnKind, scheduled_job, notification}
use signal_hermes_router.Permissions.Parse.{ConfiguredPolicy, policy_from_config}
use signal_hermes_router.Config.{Route, SyntheticRouteDefinition, opt_eq}
use signal_hermes_router.Config.Parse.Names.{normalize_safe_token}
use signal_hermes_router.Config.Parse.Route.{unless_null}

-- named_routes.get(name): the last route of the name
abbrev pub named : List Route → String → Option Route
named [] name = none
named (r ∷ rest) name = elim (named rest name) [
  | some later ↦ some later
  | none ↦ if opt_eq r.name name then some r else none
]

-- A prompt that is a string and not only spaces.
abbrev pub prompt_of : Value → Result String
prompt_of (string s) = raise_if (str_eq (strip_string s) "") value_error >> ok s
prompt_of _ = raises value_error

module _ (py : Python) (routes : List Route) (kind : SyntheticTurnKind) where
  abbrev pub parse_definition : Fields → List String → Result SyntheticRouteDefinition
  parse_definition raw seen = do
    id ← normalize_safe_token py (get "id" raw)
    raise_if (any (str_eq id) seen) value_error
    route_name ← normalize_safe_token py (get "route" raw)
    route ← or_raise value_error (named routes route_name)
    prompt ← prompt_of (get "prompt" raw)
    policy ← unless_null (λ v. policy_from_config py v route.mcp_only) (get "permissions" raw)
    ok (record {
      id = id;
      route_name = route_name;
      prompt = prompt;
      kind = kind;
      description = get "description" raw;
      permission_policy = policy;
    })

  abbrev definition_in : Value → List String → Result SyntheticRouteDefinition
  definition_in (mapping raw) seen = parse_definition raw seen
  definition_in _ seen = raises value_error

  abbrev pub parse_definitions : Items → List String → Result (List SyntheticRouteDefinition)
  parse_definitions nil seen = ok []
  parse_definitions (cons v vs) seen = do
    d ← definition_in v seen
    rest ← parse_definitions vs (d.id ∷ seen)
    ok (d ∷ rest)

  abbrev pub definitions_in : Value → Result (List SyntheticRouteDefinition)
  definitions_in null = ok []
  definitions_in (list values) = parse_definitions values []
  definitions_in _ = raises value_error

  unfoldable pub parse_synthetic_definitions :
      String → Fields → Result (List SyntheticRouteDefinition)
  parse_synthetic_definitions key raw = definitions_in (get_or key (list nil) raw)

unfoldable pub parse_scheduled_jobs :
    Python → Fields → List Route → Result (List SyntheticRouteDefinition)
parse_scheduled_jobs py raw routes =
    parse_synthetic_definitions py routes scheduled_job "scheduled_jobs" raw

unfoldable pub parse_notifications :
    Python → Fields → List Route → Result (List SyntheticRouteDefinition)
parse_notifications py raw routes =
    parse_synthetic_definitions py routes notification "notifications" raw
