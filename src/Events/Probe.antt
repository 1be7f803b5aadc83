-- ===== src/Events/Probe.antt =====
-- events.py: the probe of an event for its route (`probe_signal_route`).
use signal_hermes_router.Prelude.{
  String, Bool, false, [], ◌∷◌, Option, none, some, str_eq, not, if◌then◌else◌,
}
use signal_hermes_router.Values.{
  Value, mapping, null, Fields, Result, ok, ◌>>=◌, Python, get, is_null, text_of,
}
use signal_hermes_router.Events.Fields.{
  unwrap_signal_event, is_direct_shape, first_present, group_id, message_type,
  data_message_from_envelope, optional_str, has_exception,
}

pub record SignalEventSummary : Type 0 where
  pub shape : String
  pub message_type : String
  pub has_group : Bool
  pub has_exception : Bool

pub record SignalRouteProbe : Type 0 where
  pub group_id : Option String
  pub source_uuid : Option String
  pub source_number : Option String
  pub is_direct_data_message : Bool
  pub summary : SignalEventSummary

abbrev pub shape_of : Fields → String
shape_of raw = if is_direct_shape raw then "direct" else "jsonrpc"

abbrev unknown : Bool → SignalRouteProbe
unknown exception = record {
  group_id = none;
  source_uuid = none;
  source_number = none;
  is_direct_data_message = false;
  summary = record {
    shape = "unknown";
    message_type = "none";
    has_group = false;
    has_exception = exception;
  };
}

-- isinstance(message, dict) and _group_id(message) is None
abbrev pub ungrouped : Value → Result Bool
ungrouped (mapping d) = group_id (mapping d) >>= λ g. ok (is_null g)
ungrouped _ = ok false

-- message_type == "dataMessage" and ...
abbrev pub is_direct_message : String → Value → Result Bool
is_direct_message kind message = if str_eq kind "dataMessage" then ungrouped message else ok false

module _ (py : Python) where
  -- str(group_id) if group_id is not None else None
  abbrev pub shown_group : Value → Option String
  shown_group v = if is_null v then none else some (text_of py v)

  abbrev pub probe_envelope : Fields → Bool → Value → Result SignalRouteProbe
  probe_envelope raw exception (mapping envelope) = do
    kind ← message_type (mapping envelope)
    message ← data_message_from_envelope (mapping envelope)
    group ← group_id message
    direct ← is_direct_message kind (get "dataMessage" envelope)
    uuid ← first_present (mapping envelope) ("sourceUuid" ∷ [])
    number ← first_present (mapping envelope) ("sourceNumber" ∷ "source" ∷ [])
    ok (record {
      group_id = shown_group group;
      source_uuid = optional_str py uuid;
      source_number = optional_str py number;
      is_direct_data_message = direct;
      summary = record {
        shape = shape_of raw;
        message_type = kind;
        has_group = not (is_null group);
        has_exception = exception;
      };
    })
  probe_envelope raw exception _ = ok (unknown exception)

  abbrev pub envelope_of : Value → Value
  envelope_of (mapping params) = get "envelope" params
  envelope_of _ = null

  unfoldable pub probe_signal_route : Fields → Result SignalRouteProbe
  probe_signal_route raw = unwrap_signal_event raw >>= λ params.
      probe_envelope raw (has_exception params) (envelope_of params)
