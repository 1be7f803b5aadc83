-- ===== src/Payloads.antt =====
-- src/signal_hermes_router/payloads.py: the canonical payload of a notification.
--
-- `json.dumps` and `hashlib.sha256` are parameters.
use signal_hermes_router.Prelude.{
  ℕ, String, Option, none, some, ltb, if◌then◌else◌, Bool, true, false,
}
use signal_hermes_router.Text.{codes, byte_len}
use signal_hermes_router.Values.{
  Value, list, mapping, value_error, type_error, Result, ok, raises, Python,
}

pub record CanonicalNotificationPayload : Type 0 where
  pub value : Value
  pub text : String
  pub byte_length : ℕ
  pub sha256 : String

-- `error_code` of a NotificationPayloadError, or an exception that is none.
pub data PayloadResult : Type 0 where
  canonical : CanonicalNotificationPayload → PayloadResult
  invalid_payload payload_too_large : PayloadResult
  other_error : PayloadResult

abbrev exceeds : ℕ → Option ℕ → Bool
exceeds n none = false
exceeds n (some max_bytes) = ltb max_bytes n

abbrev sized : (String → String) → Option ℕ → Value → Result String → PayloadResult
sized sha256 max_bytes value (raises type_error) = invalid_payload
sized sha256 max_bytes value (raises value_error) = invalid_payload
sized sha256 max_bytes value (raises e) = other_error
sized sha256 max_bytes value (ok text) =
    let size = byte_len (codes text) in
    if exceeds size max_bytes
    then payload_too_large
    else canonical (record { value = value; text = text; byte_length = size; sha256 = sha256 text })

abbrev is_container : Value → Bool
is_container (mapping d) = true
is_container (list xs) = true
is_container _ = false

unfoldable pub canonicalize_notification_payload :
    Python → (String → String) → Value → Option ℕ → PayloadResult
canonicalize_notification_payload py sha256 value max_bytes =
    if is_container value then sized sha256 max_bytes value (py.dumps value) else invalid_payload
