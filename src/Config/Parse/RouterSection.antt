-- ===== src/Config/Parse/RouterSection.antt =====
-- config.py: the section `router` of config.yaml (`parse_router_config`).
--
-- Paths, URLs and addresses are read by the functions of `System`, which are parameters. The warning
-- about long messages is left out.
pub mod Sound
use Prim.Native.String.{◌++◌}
use signal_hermes_router.Prelude.{
  ℕ, ◌*◌, Bool, true, false, not, ◌&&◌, ◌||◌, String, List, [], ◌∷◌, Option, none, some, any,
  str_eq, ltb, if◌then◌else◌, ◌==◌,
}
use signal_hermes_router.Text.{Text, codes}
use signal_hermes_router.Values.{
  ℤ, pos, negsuc, Float, finite, infinite, minus_infinite, nan, Value, null, boolean, int, float,
  string, mapping, Fields, end, value_error, type_error, attribute_error, Result, ok, raises, ◌>>=◌,
  ◌>>◌, raise_if, or_raise, Python, get, get_or, or_value, is_blank, text_of, to_float, to_int,
}
use signal_hermes_router.Config.{RouterConfig, CircuitBreakerConfig, RouterControlConfig, truthy}
use signal_hermes_router.Config.Parse.Numbers.{
  as_bool, as_positive_int, as_strict_positive_int, as_non_negative_finite_float, positive_finite,
}
use signal_hermes_router.Config.Parse.Retention.{parse_retention_config}

pub record Url : Type 0 where
  pub scheme : String
  pub hostname : Option String

pub record System : Type 0 where
  pub path : String → String  -- str(Path(text))
  pub expanduser : String → String
  pub urlparse : String → Option Url  -- `none` is a ValueError
  pub ip_is_loopback : String → Option Bool  -- ip_address(text).is_loopback, `none` a ValueError

abbrev is_true : Option Bool → Bool
is_true (some true) = true
is_true _ = false

-- 16, MIN_SIGNAL_MESSAGE_BYTES
abbrev pub min_signal_message_bytes : ℕ
min_signal_message_bytes = 16

abbrev model_failure : String
model_failure =
    "The model service is temporarily unavailable, so I could not finish that request. "
    ++ "Please try again later."

abbrev pub is_negative : Float → Bool
is_negative (finite (negsuc n)) = true
is_negative minus_infinite = true
is_negative _ = false

-- `raw.get(key) or {}`, of which keys are read.
abbrev pub section : String → Fields → Result Fields
section key raw = elim (or_value (get key raw) (mapping end)) [
  | mapping d ↦ ok d
  | _ ↦ raises attribute_error
]

abbrev pub is_http : Url → Bool
is_http url = str_eq url.scheme "http" || str_eq url.scheme "https"

abbrev pub has_host : Option String → Bool
has_host none = false
has_host (some hostname) = true

module _ (py : Python) (sys : System) where
  -- `_is_loopback_host` of private_fs.py
  unfoldable pub is_loopback_host : String → Bool
  is_loopback_host hostname =
      if str_eq (py.lower hostname) "localhost" then true else is_true (sys.ip_is_loopback hostname)

  abbrev pub loopback_url : Option String → Bool
  loopback_url none = false
  loopback_url (some hostname) = is_loopback_host hostname

  abbrev url_supports : Option Url → Bool
  url_supports none = false
  url_supports (some url) = is_http url && loopback_url (truthy url.hostname)

  -- `signal_base_url_supports_local_attachment_paths` of outbound_media.py, on a URL that
  -- `parse_router_config` has accepted.
  unfoldable pub supports_local_attachment_paths : String → Bool
  supports_local_attachment_paths base_url = url_supports (sys.urlparse base_url)

  -- `_validate_signal_base_url`
  unfoldable pub validate_signal_base_url : String → Bool → Result (Unit {0})
  validate_signal_base_url base_url allow_remote = do
    url ← or_raise value_error (sys.urlparse base_url)
    raise_if (not (is_http url && has_host (truthy url.hostname))) value_error
    raise_if (not (allow_remote || loopback_url (truthy url.hostname))) value_error

  -- Path(value)
  abbrev path_of : Value → Result String
  path_of (string s) = ok (sys.path s)
  path_of _ = raises type_error

  abbrev pub message_bytes : Value → Result ℕ
  message_bytes v = do
    n ← as_positive_int py v
    raise_if (ltb n min_signal_message_bytes) value_error
    ok n

  abbrev pub lock_timeout : Value → Result Float
  lock_timeout v = do f ← to_float py v; raise_if (is_negative f) value_error; ok f

  abbrev pub initialize_timeout : Value → Result ℕ
  initialize_timeout v = to_float py v >>= positive_finite

  abbrev pub base_url : Fields → Fields → String
  base_url signal raw =
      text_of py
        (get_or "base_url" (get_or "signal_base_url" (string "http://127.0.0.1:8080") raw) signal)

  abbrev pub remote_allowed : Fields → Fields → Bool
  remote_allowed signal raw = as_bool py (
      get_or "allow_remote_base_url" (get_or "allow_remote_signal_base_url" (boolean false) raw)
        signal)

  abbrev pub circuit_of : Fields → Result CircuitBreakerConfig
  circuit_of circuit = do
    failures ← to_int py (get_or "failures" (int (pos 3)) circuit)
    window ← to_float py (get_or "window_seconds" (float (finite (pos 300000))) circuit)
    recovery ← to_float py (get_or "recovery_seconds" (float (finite (pos 300000))) circuit)
    ok (record { failures = failures; window = window; recovery = recovery })

  abbrev pub socket_path_of : Value → Result (Option String)
  socket_path_of v = if is_blank v then ok none else path_of v >>= λ p. ok (some p)

  -- An integer setting with a default.
  abbrev pub setting : String → ℕ → Fields → Result ℕ
  setting key default raw = as_positive_int py (get_or key (int (pos default)) raw)

  abbrev pub text_setting : String → String → Fields → Text
  text_setting key default raw = codes (text_of py (get_or key (string default) raw))

  abbrev pub path_setting : String → String → Fields → Result String
  path_setting key default raw = path_of (get_or key (string default) raw)

  unfoldable pub parse_router_fields : Fields → Result RouterConfig
  parse_router_fields raw = do
    signal ← section "signal" raw
    circuit ← section "circuit_breaker" raw
    control ← section "control" raw
    retention ← parse_retention_config py (get "retention" raw)
    validate_signal_base_url (base_url signal raw) (remote_allowed signal raw)
    max_attachment_bytes ← setting "max_attachment_bytes" (25 * 1024 * 1024) raw
    message_limit ← message_bytes (get_or "max_signal_message_bytes" (int (pos 1900)) raw)
    work_root ← path_setting "work_root" "./private/work" raw
    initialize ←
        initialize_timeout
          (get_or "acp_initialize_timeout_seconds" (float (finite (pos 30000))) raw)
    lock ← lock_timeout (get_or "route_lock_timeout_seconds" (float (finite (pos 0))) control)
    cooldown ←
        as_non_negative_finite_float py
          (get_or "busy_notice_cooldown_seconds" (float (finite (pos 0))) raw)
    payload ← setting "max_notification_payload_bytes" (16 * 1024) control
    state_db ← path_setting "state_db" "./private/state/router.db" raw
    raise_if (str_eq state_db ":memory:") value_error
    media_root ← path_setting "media_root" "./private/media" raw
    attachments ← path_setting "signal_attachment_root" "~/.local/share/signal-cli/attachments" raw
    event_bytes ← setting "max_signal_event_bytes" (max_attachment_bytes * 2) raw
    acp_bytes ← setting "max_acp_line_bytes" (8 * 1024 * 1024) raw
    reply_chars ← setting "max_reply_chars" 12000 raw
    busy_after ← to_float py (get_or "busy_notice_after_seconds" (float (finite (pos 120000))) raw)
    prompt_timeout ←
        to_float py (get_or "acp_prompt_timeout_seconds" (float (finite (pos 300000))) raw)
    turns ← as_strict_positive_int py (get_or "max_concurrent_turns" (int (pos 8)) raw)
    breaker ← circuit_of circuit
    socket_path ← socket_path_of (get "socket_path" control)
    ok (record {
      signal_base_url = base_url signal raw;
      allow_remote_signal_base_url = remote_allowed signal raw;
      state_db = state_db;
      media_root = media_root;
      signal_attachment_root = sys.expanduser attachments;
      max_attachment_bytes = max_attachment_bytes;
      max_signal_event_bytes = event_bytes;
      max_acp_line_bytes = acp_bytes;
      max_reply_chars = reply_chars;
      max_signal_message_bytes = message_limit;
      work_root = work_root;
      maintenance_reply =
          text_setting "maintenance_reply" "This route is temporarily under maintenance." raw;
      failure_reply =
          text_setting "failure_reply" "I hit an internal router error handling that message." raw;
      model_failure_reply = text_setting "model_failure_reply" model_failure raw;
      busy_notice_after = busy_after;
      busy_notice = text_setting "busy_notice" "Still working on this." raw;
      busy_notice_cooldown = cooldown;
      acp_prompt_timeout = prompt_timeout;
      acp_initialize_timeout = initialize;
      max_concurrent_turns = turns;
      circuit_breaker = breaker;
      control = record {
        enabled = as_bool py (get_or "enabled" (boolean false) control);
        socket_path = socket_path;
        route_lock_timeout = lock;
        max_notification_payload_bytes = payload;
      };
      retention = retention;
      local_attachment_paths = supports_local_attachment_paths (base_url signal raw);
    })
