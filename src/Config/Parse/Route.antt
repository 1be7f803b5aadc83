-- ===== src/Config/Parse/Route.antt =====
-- config.py: one route of routes.yaml (`parse_route`).
--
-- A reply that the file gives in another type than a string is outside of the model, and is refused
-- here.
pub mod Formed
pub mod Denied
use signal_hermes_router.Prelude.{
  ℕ, String, Bool, true, false, not, ◌&&◌, ◌||◌, List, [], ◌∷◌, Option, none, some, is_some, str_eq,
  if◌then◌else◌,
}
use signal_hermes_router.Text.{Text, codes}
use signal_hermes_router.Values.{
  Value, null, boolean, string, list, mapping, nil, Fields, end, field, value_error, key_error,
  unspecified, Result, ok, raises, ◌>>=◌, ◌>>◌, raise_if, or_raise, Python, get, get_or, has_key,
  has_only, lookup, or_value, is_blank, is_null, text_of,
}
use signal_hermes_router.Models.{
  RouteState, shadow, active, maintenance, disabled, SessionPolicy, persistent_route,
  persistent_sender, ephemeral, ChatType, group, direct,
}
use signal_hermes_router.Permissions.Parse.{ConfiguredPolicy, policy_from_config}
use signal_hermes_router.Config.{Route, InboundRateLimit}
use signal_hermes_router.Config.Parse.Numbers.{
  as_bool, as_strict_positive_int, as_positive_finite_float, as_value_error,
}
use signal_hermes_router.Config.Parse.Names.{
  normalize_direct_identity, normalize_profile_name, normalize_safe_token,
}

abbrev enum_member {ℓ} : {A : Type ℓ} → List (String × A) → Value → Result A
enum_member [] v = raises value_error
enum_member ((name, a) ∷ rest) (string s) =
    if str_eq s name then ok a else enum_member rest (string s)
enum_member (e ∷ rest) v = raises value_error

-- ChatType(value)
abbrev pub chat_type_of : Value → Result ChatType
chat_type_of v = enum_member (("group", group) ∷ ("direct", direct) ∷ []) v

-- SessionPolicy(value)
abbrev pub session_policy_of : Value → Result SessionPolicy
session_policy_of v =
    enum_member
      (("persistent_route", persistent_route)
        ∷ ("persistent_sender", persistent_sender)
        ∷ ("ephemeral", ephemeral)
        ∷ [])
      v

-- RouteState(value)
abbrev pub route_state_of : Value → Result RouteState
route_state_of v =
    enum_member
      (("shadow", shadow)
        ∷ ("active", active)
        ∷ ("maintenance", maintenance)
        ∷ ("disabled", disabled)
        ∷ [])
      v

-- `parse(value) if value is not None else None`
abbrev pub unless_null {ℓ} : {A : Type ℓ} → (Value → Result A) → Value → Result (Option A)
unless_null parse v = if is_null v then ok none else parse v >>= λ a. ok (some a)

abbrev pub reply : Value → Result (Option Text)
reply null = ok none
reply (string s) = ok (some (codes s))
reply _ = raises unspecified

-- What outbound.py reads of the context.
abbrev canary_prefix : Value → Option Text
canary_prefix (string s) = if str_eq s "" then none else some (codes s)
canary_prefix _ = none

-- Whom the route serves: its group, or the sender of its direct messages.
pub record Recipient : Type 0 where
  pub group_id : Option String
  pub sender_id : Option String
  pub sender_number : Option String

pub record SessionLimits : Type 0 where
  pub max_turns : Option ℕ
  pub max_age : Option ℕ

abbrev pub is_ephemeral : SessionPolicy → Bool
is_ephemeral ephemeral = true
is_ephemeral _ = false

-- `Route.__post_init__`, which refuses a policy for MCP tools only on a route that is not, and
-- otherwise gives the policy the flag of the route.
abbrev pub post_init : Route → Result Route
post_init r = do
  raise_if (r.permission_policy.mcp_only && not r.mcp_only) value_error
  ok (record r { permission_policy = record r.permission_policy { mcp_only = r.mcp_only } })

module _ (py : Python) where
  abbrev context_fields : Value → Result Fields
  context_fields (mapping d) = ok d
  context_fields v = py.dict_of v

  abbrev pub parse_context : Fields → Result Fields
  parse_context raw = do
    context ← context_fields (or_value (get "route_context" raw) (mapping end))
    _ ← as_value_error (py.dumps (mapping context))
    ok context

  abbrev pub parse_recipient : ChatType → Fields → Result Recipient
  parse_recipient group raw = do
    raise_if (is_blank (get "group_id" raw)) value_error
    ok (record {
      group_id = some (text_of py (get "group_id" raw));
      sender_id = none;
      sender_number = none;
    })
  parse_recipient direct raw = do
    raise_if (has_key "group_id" raw) value_error
    sender_id ← normalize_direct_identity py (get "sender_id" raw)
    sender_number ← unless_null (normalize_direct_identity py) (get "sender_number" raw)
    ok (record { group_id = none; sender_id = some sender_id; sender_number = sender_number })

  abbrev pub parse_limits : SessionPolicy → Fields → Result SessionLimits
  parse_limits policy raw = do
    max_turns ← unless_null (as_strict_positive_int py) (get "session_max_turns" raw)
    max_age ← unless_null (as_positive_finite_float py) (get "session_max_age_seconds" raw)
    raise_if (is_ephemeral policy && (is_some max_turns || is_some max_age)) value_error
    ok (record { max_turns = max_turns; max_age = max_age })

  -- `_parse_inbound_rate_limit`
  unfoldable pub parse_inbound_rate_limit : Value → Result (Option InboundRateLimit)
  parse_inbound_rate_limit null = ok none
  parse_inbound_rate_limit (mapping d) = do
    raise_if (not (has_only ("max_turns" ∷ "window_seconds" ∷ []) d)) value_error
    max_turns ← as_strict_positive_int py (get "max_turns" d)
    window_ms ← as_positive_finite_float py (get "window_seconds" d)
    ok (some (record { max_turns = max_turns; window_ms = window_ms }))
  parse_inbound_rate_limit _ = raises value_error

  abbrev pub parse_fields : Fields → Result Route
  parse_fields raw = do
    raise_if (has_key "denylist" raw || has_key "deny" raw) value_error
    route_context ← parse_context raw
    chat_type ← chat_type_of (get_or "chat_type" (string "group") raw)
    platform ← or_raise key_error (lookup "platform" raw)
    recipient ← parse_recipient chat_type raw
    max_event_age ← unless_null (as_positive_finite_float py) (get "max_event_age_seconds" raw)
    session_policy ← session_policy_of (get_or "session_policy" (string "persistent_route") raw)
    limits ← parse_limits session_policy raw
    let mcp_only = as_bool py (get_or "mcp_only" (boolean false) raw)
    name ← unless_null (normalize_safe_token py) (get "name" raw)
    profile ← normalize_profile_name py (get "profile" raw)
    state ← route_state_of (get_or "state" (string "shadow") raw)
    policy ← policy_from_config py (or_value (get "permissions" raw) (list nil)) false
    maintenance_reply ← reply (get "maintenance_reply" raw)
    failure_reply ← reply (get "failure_reply" raw)
    rate_limit ← parse_inbound_rate_limit (get "inbound_rate_limit" raw)
    post_init (record {
      platform = text_of py platform;
      profile = profile;
      session_policy = session_policy;
      state = state;
      name = name;
      chat_type = chat_type;
      group_id = recipient.group_id;
      sender_id = recipient.sender_id;
      sender_number = recipient.sender_number;
      route_context = route_context;
      canary_reply_prefix = canary_prefix (get "canary_reply_prefix" route_context);
      permission_policy = policy;
      friendly_name = get "friendly_name" raw;
      maintenance_reply = maintenance_reply;
      failure_reply = failure_reply;
      recreate_session_on_resume_failure =
          as_bool py (get_or "recreate_session_on_resume_failure" (boolean false) raw);
      session_max_turns = limits.max_turns;
      session_max_age = limits.max_age;
      max_event_age_ms = max_event_age;
      inbound_rate_limit = rate_limit;
      mcp_only = mcp_only;
    })

  unfoldable pub parse_route : Value → Result Route
  parse_route (mapping raw) = parse_fields raw
  parse_route _ = raises unspecified
