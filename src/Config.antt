-- ===== src/Config.antt =====
-- src/signal_hermes_router/config.py: the routes of a configuration and how they are found.
--
-- `hash` stands for `hashlib.sha256(...).hexdigest()`
-- of the UTF-8 text, a parameter.
pub mod Lookup
pub mod Parse
pub mod Examples
use Prim.Native.String.{◌++◌, slice}
use signal_hermes_router.Prelude.{
  ℕ, Bool, true, false, ◌&&◌, String, List, [], ◌∷◌, Option, none, some, str_eq, if◌then◌else◌,
}
use signal_hermes_router.Text.{Text}
use signal_hermes_router.Values.{ℤ, Float, Value, Fields}
use signal_hermes_router.Permissions.Parse.{ConfiguredPolicy}
use signal_hermes_router.Models.{
  RouteState, SessionPolicy, ChatType, SyntheticTurnKind, NormalizedEvent,
}

pub record InboundRateLimit : Type 0 where
  pub max_turns : ℕ
  pub window_ms : ℕ

pub record Route : Type 0 where
  pub platform : String
  pub profile : String
  pub session_policy : SessionPolicy
  pub state : RouteState
  pub name : Option String
  pub chat_type : ChatType
  pub group_id : Option String
  pub sender_id : Option String
  pub sender_number : Option String
  pub route_context : Fields
  pub canary_reply_prefix : Option Text  -- what outbound.py reads of `route_context`
  pub permission_policy : ConfiguredPolicy
  pub friendly_name : Value
  pub maintenance_reply : Option Text
  pub failure_reply : Option Text
  pub recreate_session_on_resume_failure : Bool
  pub session_max_turns : Option ℕ
  pub session_max_age : Option ℕ
  pub max_event_age_ms : Option ℕ
  pub inbound_rate_limit : Option InboundRateLimit
  pub mcp_only : Bool

pub record CircuitBreakerConfig : Type 0 where
  pub failures : ℤ
  pub window : Float
  pub recovery : Float

pub record RouterControlConfig : Type 0 where
  pub enabled : Bool
  pub socket_path : Option String
  pub route_lock_timeout : Float
  pub max_notification_payload_bytes : ℕ

pub record RetentionConfig : Type 0 where
  pub sweep_interval : ℕ
  pub dedupe_handled : Option ℕ
  pub media_max_age : Option ℕ
  pub media_max_total_bytes : Option ℕ

-- Paths are the texts of theirs; durations are in thousandths of a second.
pub record RouterConfig : Type 0 where
  pub signal_base_url : String
  pub allow_remote_signal_base_url : Bool
  pub state_db : String
  pub media_root : String
  pub signal_attachment_root : String
  pub max_attachment_bytes : ℕ
  pub max_signal_event_bytes : ℕ
  pub max_acp_line_bytes : ℕ
  pub max_reply_chars : ℕ
  pub max_signal_message_bytes : ℕ
  pub work_root : String
  pub maintenance_reply : Text
  pub failure_reply : Text
  pub model_failure_reply : Text
  pub busy_notice_after : Float
  pub busy_notice : Text
  pub busy_notice_cooldown : ℕ
  pub acp_prompt_timeout : Float
  pub acp_initialize_timeout : ℕ
  pub max_concurrent_turns : ℕ
  pub circuit_breaker : CircuitBreakerConfig
  pub control : RouterControlConfig
  pub retention : RetentionConfig
  pub local_attachment_paths : Bool  -- what outbound_media.py reads of `signal_base_url`

pub record SyntheticRouteDefinition : Type 0 where
  pub id : String
  pub route_name : String
  pub prompt : String
  pub kind : SyntheticTurnKind
  pub description : Value
  pub permission_policy : Option ConfiguredPolicy

pub record AppConfig : Type 0 where
  pub router : RouterConfig
  pub routes : List Route
  pub scheduled_jobs : List SyntheticRouteDefinition
  pub notifications : List SyntheticRouteDefinition

abbrev pub is_group : ChatType → Bool
is_group ChatType.group = true
is_group ChatType.direct = false

abbrev pub opt_eq : Option String → String → Bool
opt_eq none s = false
opt_eq (some r) s = str_eq r s

-- Python's truth of an optional string, with the string.
abbrev pub truthy : Option String → Option String
truthy none = none
truthy (some s) = if str_eq s "" then none else some s

abbrev joined : String → Option String → Option String
joined prefix none = none
joined prefix (some s) = some (prefix ++ s)

abbrev digested : (String → String) → String → Option String → Option String
digested hash prefix none = none
digested hash prefix (some s) = some (prefix ++ slice (hash s) 0 24)

-- The property `key`; `none` is the ValueError.
unfoldable pub route_key : (String → String) → Route → Option String
route_key hash r =
    if is_group r.chat_type
    then joined (r.platform ++ ":") (truthy r.group_id)
    else digested hash (r.platform ++ ":direct:") (truthy r.sender_id)

-- `namespace` of a job and of another definition.
unfoldable pub namespace : SyntheticRouteDefinition → String
namespace d = elim d.kind [
  | SyntheticTurnKind.scheduled_job ↦ "scheduled:" ++ d.id
  | SyntheticTurnKind.notification ↦ "synthetic:notification:" ++ d.id
]

-- The first element that passes a test: each `find_...` loop.
unfoldable pub find {ℓ} : {A : Type ℓ} → (A → Bool) → List A → Option A
find p [] = none
find p (x ∷ xs) = if p x then some x else find p xs

unfoldable pub find_route_by_key : (Route → String) → AppConfig → String → Option Route
find_route_by_key key c k = find (λ r. str_eq (key r) k) c.routes

unfoldable pub find_route_by_name : AppConfig → String → Option Route
find_route_by_name c n = find (λ r. opt_eq r.name n) c.routes

unfoldable pub find_synthetic_job : AppConfig → String → Option SyntheticRouteDefinition
find_synthetic_job c id = find (λ d. str_eq d.id id) c.scheduled_jobs

unfoldable pub find_notification : AppConfig → String → Option SyntheticRouteDefinition
find_notification c id = find (λ d. str_eq d.id id) c.notifications

abbrev pub matches_group : String → String → Route → Bool
matches_group platform g r =
    str_eq r.platform platform && (is_group r.chat_type && opt_eq r.group_id g)

unfoldable pub find_group_route : AppConfig → String → String → Option Route
find_group_route c platform g = find (matches_group platform g) c.routes

abbrev pub is_direct : ChatType → Bool
is_direct ChatType.group = false
is_direct ChatType.direct = true

abbrev pub matches_sender : String → String → Route → Bool
matches_sender platform s r =
    str_eq r.platform platform && (is_direct r.chat_type && opt_eq r.sender_id s)

abbrev pub matches_number : String → String → Route → Bool
matches_number platform s r =
    str_eq r.platform platform && (is_direct r.chat_type && opt_eq r.sender_number s)

abbrev find_by_number : AppConfig → String → Option String → Option Route
find_by_number c platform none = none
find_by_number c platform (some n) = find (matches_number platform n) c.routes

abbrev find_by_source : AppConfig → String → Option String → Option String → Option Route
find_by_source c platform (some u) number = find (matches_sender platform u) c.routes
find_by_source c platform none number = find_by_number c platform number

unfoldable pub find_direct_route : AppConfig → String → Option String → Option String → Option Route
find_direct_route c platform source_uuid source_number =
    find_by_source c platform (truthy source_uuid) (truthy source_number)

abbrev group_route : AppConfig → String → Option String → Option Route
group_route c platform none = none
group_route c platform (some g) = find_group_route c platform g

abbrev route_for : AppConfig → NormalizedEvent → ChatType → Option Route
route_for c e ChatType.direct = find_direct_route c e.platform e.source_uuid e.source_number
route_for c e ChatType.group = group_route c e.platform e.group_id

unfoldable pub find_route_for_event : AppConfig → NormalizedEvent → Option Route
unfolding find_group_route find_direct_route
find_route_for_event c e = route_for c e e.chat_type
