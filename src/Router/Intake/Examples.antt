-- ===== src/Router/Intake/Examples.antt =====
-- Runs of the intake: an event that ages in the queue, one that is skipped, and a job.
use signal_hermes_router.Prelude.{◌≡◌, refl, ◌⊎◌, true, false, [], none, some}
use signal_hermes_router.Models.{SyntheticTurnKind, NormalizedEvent}
use signal_hermes_router.Values.{
  get, truth, has_key, lookup, to_int, text_of, Value, Fields, Result, null, string, mapping, int,
  pos, end,
}
use signal_hermes_router.Config.Parse.Load.Examples.{python, pair}
use signal_hermes_router.Events.Fields.{
  unwrap_signal_event, get_attr, message_type, member, data_message_from_envelope, group_id,
  first_present, item, optional_str,
}
use signal_hermes_router.Events.Parse.{
  Decoder, parse_signal_event, normalized_event, parse_attachments,
}
use signal_hermes_router.Events.Parse.Agrees.{NamesFalseGroup}
use signal_hermes_router.Router.Intake.Raw.{pinned, handle_raw_event, handle_raw_event-handle_event}
use signal_hermes_router.Config.{
  Route, SyntheticRouteDefinition, find_route_for_event, find_route_by_name, route_key,
}
use signal_hermes_router.Config.Examples.{config, event}
use signal_hermes_router.Dedupe.Rows.{key_eq, insert_claim}
use signal_hermes_router.Router.State.{start, frozen}
use signal_hermes_router.Router.Examples.{outside, router, turn, event_key}
use signal_hermes_router.Router.Won.{listed}
use signal_hermes_router.Router.Settled.{IsSettled}
use signal_hermes_router.Router.Turn.Claims.{claim_all, claim_identity}
use signal_hermes_router.Router.Intake.{
  Admission, Waits, mark_signal_turn_skipped, handle_event, won_all,
}
use signal_hermes_router.Router.Intake.Fresh.{
  Idle, Fresh, mark_signal_turn_skipped-settles, handle_event-Fresh,
}
use signal_hermes_router.Router.Intake.Synthetic.{Answers, Request, handle_synthetic_definition}
use signal_hermes_router.Router.Intake.Locks.{HasLocks, handle_synthetic_definition-HasLocks}

skipped_listed : listed event_key (mark_signal_turn_skipped outside turn router).1.claimed ≡ true
unfolding mark_signal_turn_skipped listed claim_all claim_identity insert_claim key_eq route_key
skipped_listed = refl

mark_signal_turn_skipped_example :
    IsSettled
      (won_all (claim_all outside turn (start router)).0)
      event_key
      (mark_signal_turn_skipped outside turn router).1.router.dedupe
mark_signal_turn_skipped_example =
    mark_signal_turn_skipped-settles outside turn router event_key skipped_listed refl

-- The event ages past the limit while its turn waits for the profile.
abbrev waits : Waits
waits = record { route_lock = λ r. r; gate = λ r. record r { clock_ms = 1021 } }

abbrev admission : Admission
admission = record { config = none; overrides = none; generation = none }

handle_event-Fresh_example :
    Idle (handle_event outside waits admission event router).1
    ⊎ ((route : Route) × (find_route_for_event config event ≡ some route)
        × Fresh outside waits event route router)
handle_event-Fresh_example = handle_event-Fresh outside waits event admission router

abbrev job : SyntheticRouteDefinition
job = record {
  id = "daily";
  route_name = "home";
  prompt = "report";
  kind = SyntheticTurnKind.scheduled_job;
  description = null;
  permission_policy = none;
}

-- The profile's lock is not acquired in time.
abbrev replies : Answers
replies = record {
  nonce = "n";
  digest = λ s. s;
  refuses_to_wait = false;
  freeze_first = frozen [];
  route_lock_acquired = true;
  profile_lock_acquired = false;
  at = λ p r. r;
}

abbrev request : Request
request = record { scheduled_at = some 1000; idempotency_key = none; attachments = [] }

handle_synthetic_definition-HasLocks_example :
    Idle (handle_synthetic_definition outside replies admission job request router).1
    ⊎ (((route : Route) × (find_route_by_name config "home" ≡ some route)) × HasLocks replies)
handle_synthetic_definition-HasLocks_example =
    handle_synthetic_definition-HasLocks outside replies job admission request router

-- A group message as it comes in.
abbrev message_fields : Value
message_fields = mapping (
    pair "message" (string "hi") (pair "groupInfo" (mapping (pair "groupId" (string "g") end)) end))

abbrev raw_event : Fields
raw_event =
    pair "envelope"
      (mapping (
        pair "sourceUuid" (string "u")
          (pair "timestamp" (int (pos 970)) (pair "dataMessage" message_fields end))))
      end

abbrev decoder : Decoder
decoder = record { decoded = λ s. none; lower = λ t. t }

abbrev parsed_event : NormalizedEvent
parsed_event = record event { attachments = [] }

parses : parse_signal_event python decoder raw_event "signal" 100 ≡ Result.ok (some parsed_event)
unfolding parse_signal_event unwrap_signal_event get get_attr message_type member truth has_key
    data_message_from_envelope group_id first_present item lookup normalized_event to_int
    parse_attachments text_of optional_str
parses = refl

handle_raw_event_example :
    NamesFalseGroup raw_event
    ⊎ (handle_raw_event python decoder outside waits admission raw_event router
        ≡ handle_event outside waits (pinned admission router) parsed_event router)
handle_raw_event_example =
    handle_raw_event-handle_event python decoder outside waits admission raw_event router
      parsed_event parses
