-- ===== src/Events/Parse.antt =====
-- events.py: the normalized event of an envelope (`parse_signal_event`).
pub mod Reads
pub mod Agrees
use signal_hermes_router.Prelude.{
  ℕ, ◌*◌, ◌/◌, String, Bool, true, false, ◌||◌, List, [], ◌∷◌, Option, none, some, str_eq, length,
  ltb, if◌then◌else◌, ◌==◌, not,
}
use signal_hermes_router.Text.{Text, codes}
use signal_hermes_router.Models.{NormalizedEvent, SignalAttachment, ChatType, group, direct}
use signal_hermes_router.Values.{
  ℤ, pos, negsuc, Value, null, int, string, list, mapping, Items, nil, cons, Fields, end,
  value_error, type_error, unspecified, Result, ok, raises, ◌>>=◌, ◌>>◌, raise_if, or_raise, Python,
  or_value, truth, text_of, to_int,
}
use signal_hermes_router.Prompt.{normalize_content_type, default_content_type}
use signal_hermes_router.Events.Fields.{
  member, item, get_attr, get_part, first_present, or_step, group_id, message_type,
  data_message_from_envelope, unwrap_signal_event, optional_str,
}

pub record Decoder : Type 0 where
  pub decoded : String → Option ℕ  -- len(base64.b64decode(text)), `none` for its ValueError
  pub lower : Text → Text

-- value.rstrip("=")
abbrev drop_padding : Bool → ℕ → Text → Text
drop_padding true c [] = []
drop_padding true c (d ∷ ds) = c ∷ d ∷ ds
drop_padding false c rest = c ∷ rest

unfoldable pub without_padding : Text → Text
without_padding [] = []
without_padding (c ∷ cs) = drop_padding (c == 61) c (without_padding cs)

-- `_estimated_base64_decoded_size`
unfoldable pub estimated_base64_decoded_size : String → ℕ
estimated_base64_decoded_size value = (length (without_padding (codes value)) * 3) / 4

abbrev pub natural : ℤ → Result ℕ
natural (pos n) = ok n
natural (negsuc n) = raises unspecified

abbrev id_of : Value → Result (Option String)
id_of null = ok none
id_of (string s) = ok (some s)
id_of _ = raises unspecified

-- normalize_content_type(value)
abbrev content_type_of : Decoder → Value → Text
content_type_of d (string s) = normalize_content_type d.lower (codes s)
content_type_of d _ = default_content_type

-- The direct sender's identity, `raw_source_uuid or source_number or ...`
abbrev pub sender_or : Option String → Result String → Result String
sender_or none rest = rest
sender_or (some s) rest = if str_eq s "" then rest else ok s

module _ (py : Python) (d : Decoder) where
  abbrev check_data : ℕ → Value → Result (Unit {0})
  check_data max_bytes (string s) = do
    raise_if (ltb max_bytes (estimated_base64_decoded_size s)) value_error
    size ← or_raise value_error (d.decoded s)
    raise_if (ltb max_bytes size) value_error
  check_data max_bytes _ = ok tt

  abbrev inline_data : ℕ → Bool → Value → Result (Unit {0})
  inline_data max_bytes false v = ok tt
  inline_data max_bytes true v = item "data" v >>= check_data max_bytes

  abbrev parse_attachment : ℕ → Value → Result SignalAttachment
  parse_attachment max_bytes v = do
    there ← member "data" v
    inline_data max_bytes there v
    content_type ← or_step (get_attr "contentType" v) (get_attr "content_type" v)
    raw_id ← get_attr "id" v
    id ← id_of raw_id
    ok (record { content_type = content_type_of d content_type; signal_id = id })

  abbrev pub attachments_of : ℕ → Items → Result (List SignalAttachment)
  attachments_of max_bytes nil = ok []
  attachments_of max_bytes (cons v vs) = do
    a ← parse_attachment max_bytes v
    rest ← attachments_of max_bytes vs
    ok (a ∷ rest)

  -- `_parse_attachments`, of `... or []`; another iterable holds no attachment.
  unfoldable pub parse_attachments : ℕ → Value → Result (List SignalAttachment)
  parse_attachments max_bytes (list xs) = attachments_of max_bytes xs
  parse_attachments max_bytes v = if truth v then raises unspecified else ok []

  -- `_sender_id_from_envelope`
  abbrev sender_id_from_envelope : Value → Value → Result String
  sender_id_from_envelope envelope params = do
    v ←
        or_step (first_present envelope ("sourceUuid" ∷ "sourceNumber" ∷ "source" ∷ []))
          (first_present params ("account" ∷ []))
    ok (text_of py (or_value v (string "unknown")))

  -- `_normalized_event`
  unfoldable pub normalized_event :
      String
      → ℕ
      → Value
      → ChatType
      → Value
      → String
      → Option String
      → Option String
      → Option String
      → Result NormalizedEvent
  normalized_event platform max_bytes envelope chat_type message sender uuid number gid = do
    sent ← first_present message ("timestamp" ∷ [])
    message_time ← to_int py (or_value sent (int (pos 0)))
    stamped ← first_present envelope ("timestamp" ∷ [])
    time ← to_int py (or_value stamped (int message_time))
    timestamp ← natural time
    body ← get_attr "message" message
    raw_attachments ← get_attr "attachments" message
    attachments ← parse_attachments max_bytes (or_value raw_attachments (list nil))
    ok (record {
      platform = platform;
      sender_id = sender;
      timestamp = timestamp;
      text = codes (text_of py (or_value body (string "")));
      source_uuid = uuid;
      chat_type = chat_type;
      group_id = gid;
      source_number = number;
      attachments = attachments;
    })

  abbrev pub some_event : Result NormalizedEvent → Result (Option NormalizedEvent)
  some_event m = m >>= λ e. ok (some e)

  abbrev pub parse_group :
      String → ℕ → Value → Value → Value → Value → Result (Option NormalizedEvent)
  parse_group platform max_bytes params envelope message g = do
    sender ← sender_id_from_envelope envelope params
    uuid ← first_present envelope ("sourceUuid" ∷ "source" ∷ [])
    number ← first_present envelope ("sourceNumber" ∷ "source" ∷ [])
    some_event (
        normalized_event platform max_bytes envelope group message sender
          (some (text_of py (or_value uuid (string sender)))) (optional_str py number)
          (some (text_of py g)))

  abbrev pub parse_ungrouped :
      String → ℕ → Value → Value → Value → Value → Result (Option NormalizedEvent)
  parse_ungrouped platform max_bytes params envelope message g = if truth g then ok none else do
    raw_uuid ← first_present envelope ("sourceUuid" ∷ [])
    raw_number ← first_present envelope ("sourceNumber" ∷ "source" ∷ [])
    account ← first_present params ("account" ∷ [])
    sender ← sender_or (optional_str py raw_uuid) (
        sender_or (optional_str py raw_number)
          (ok (text_of py (or_value account (string "unknown")))))
    some_event (
        normalized_event platform max_bytes envelope direct message sender
          (optional_str py raw_uuid) (optional_str py raw_number) none)

  abbrev pub parse_direct : String → ℕ → Value → Value → Value → Result (Option NormalizedEvent)
  parse_direct platform max_bytes params envelope (mapping message) =
      group_id (mapping message) >>= λ g.
      parse_ungrouped platform max_bytes params envelope (mapping message) g
  parse_direct platform max_bytes params envelope _ = ok none

  -- The group of the event comes first, then whether it is a data message.
  abbrev pub parse_kind :
      String
      → ℕ
      → Value
      → Value
      → Value
      → Value
      → Value
      → Bool
      → Bool
      → Result (Option NormalizedEvent)
  parse_kind platform max_bytes params envelope direct_message message g true data_message =
      parse_group platform max_bytes params envelope message g
  parse_kind platform max_bytes params envelope direct_message message g false true =
      parse_direct platform max_bytes params envelope direct_message
  parse_kind platform max_bytes params envelope direct_message message g false false = ok none

  unfoldable pub parse_signal_event : Fields → String → ℕ → Result (Option NormalizedEvent)
  parse_signal_event raw platform max_bytes = do
    params ← unwrap_signal_event raw
    envelope ← get_part "envelope" params
    kind ← message_type envelope
    message ← data_message_from_envelope envelope
    g ← group_id message
    direct_message ← get_attr "dataMessage" envelope
    parse_kind platform max_bytes params envelope direct_message message g (truth g)
        (str_eq kind "dataMessage")
