-- ===== src/Router/Intake.antt =====
-- router.py: a Signal event from its route to its turn (`handle_event`).
--
-- The route lock, the profile lock and the execution permit are waits: `Waits` says what the other
-- tasks make of the router during each. A cancellation of a wait, which changes nothing here, is
-- left out.
pub mod Synthetic
pub mod Fresh
pub mod Locks
pub mod Raw
pub mod Examples
use signal_hermes_router.Prelude.{
  ℕ, ◌+◌, String, Bool, true, false, not, ◌&&◌, List, [], ◌∷◌, Option, none, some, Dict, or_else,
  any, ltb, if◌then◌else◌, ◌==◌,
}
use signal_hermes_router.Text.{Text, strip}
use signal_hermes_router.Failures.{other_exception}
use signal_hermes_router.Models.{
  RouteState, TurnOrigin, signal, NormalizedEvent, SignalAttachment, SessionKeyInput, TurnOutcome,
  TurnOutcomeStatus, delivered, skipped, deduped, busy, error, dedupe_sender_id,
}
use signal_hermes_router.Config.{Route, AppConfig, find_route_for_event, is_direct, truthy}
use signal_hermes_router.Router.State.{
  Router, Outside, RoutedTurnInput, Progress, Attempt, ok, raises, exception, start, key_of,
}
use signal_hermes_router.Router.Turn.{run_turn}
use signal_hermes_router.Router.Turn.Claims.{claim_all, finalize_claims, or_raised}

-- What the caller pinned when it admitted the work: the configuration, the overrides and the
-- generation; each absent one is read from the router.
pub record Admission : Type 0 where
  pub config : Option AppConfig
  pub overrides : Option (Dict RouteState)
  pub generation : Option ℕ

pub record Waits : Type 0 where
  pub route_lock : Router → Router
  pub gate : Router → Router  -- the profile lock and the permit

abbrev pub admitted : Outside → Admission → Route → Router → RouteState
admitted o a route r =
    or_else ((or_else a.overrides r.route_state_overrides) (key_of o route)) route.state

-- `_routed_sender_id` of router_helpers.py; `none` is the ValueError of a direct route without a
-- sender.
unfoldable pub routed_sender_id : Route → NormalizedEvent → Option String
routed_sender_id route event =
    if is_direct route.chat_type then truthy route.sender_id else some (dedupe_sender_id event)

-- `_session_sender_id` of router_helpers.py
unfoldable pub session_sender_id : Route → NormalizedEvent → Option String
session_sender_id route event =
    if is_direct route.chat_type then truthy route.sender_id else some event.sender_id

abbrev pub signal_turn :
    Outside
    → Admission
    → Route
    → NormalizedEvent
    → Router
    → Option String
    → Option String
    → Option RoutedTurnInput
signal_turn o a route event r none session = none
signal_turn o a route event r (some routed) none = none
signal_turn o a route event r (some routed) (some session) = some (record {
  route = route;
  origin = signal;
  dedupe_sender_id = routed;
  dedupe_timestamp = event.timestamp;
  secondary_dedupe = none;
  session = record { sender_id = session; timestamp = event.timestamp };
  signal_event = some event;
  synthetic = none;
  outbound_attachments = [];
  admitted_state = some (admitted o a route r);
  admitted_config_generation = some (or_else a.generation r.config_generation);
})

-- `_signal_turn_input`: the identity of the event is of its routed sender, the session of the other.
unfoldable pub signal_turn_input :
    Outside → Admission → Route → NormalizedEvent → Router → Option RoutedTurnInput
signal_turn_input o a route event r =
    signal_turn o a route event r (routed_sender_id route event) (session_sender_id route event)

abbrev no_text : Text → Bool
no_text [] = true
no_text (c ∷ cs) = false

abbrev no_attachments : List SignalAttachment → Bool
no_attachments [] = true
no_attachments (a ∷ rest) = false

unfoldable pub is_empty_signal_event : NormalizedEvent → Bool
is_empty_signal_event e = no_text (strip e.text) && no_attachments e.attachments

abbrev older_than : Option ℕ → ℕ → ℕ → Bool
older_than none timestamp now = false
older_than (some max_age) timestamp now = not (timestamp == 0) && ltb (max_age + timestamp) now

-- `_is_stale_signal_event`: an event without a time is never stale.
unfoldable pub is_stale_signal_event : Route → NormalizedEvent → Router → Bool
is_stale_signal_event route e r = older_than route.max_event_age_ms e.timestamp r.clock_ms

abbrev pub won_all : Attempt Bool → Bool
won_all (ok b) = b
won_all (raises r) = false

abbrev pub without_text : Attempt Bool → Attempt (Option Text)
without_text (ok b) = ok none
without_text (raises r) = raises r

abbrev pub finalized : Outside → Bool → Progress → Progress
finalized o marked t =
    let r = t.router in
    record t {
      router = record r {
        dedupe = finalize_claims o.finalize_fails marked r.clock_ms t.claimed r.dedupe;
      };
      handled = marked;
    }

-- `_mark_signal_turn_skipped`: the claims, and the `finally`. Its caller returns no result.
unfoldable pub mark_signal_turn_skipped :
    Outside → RoutedTurnInput → Router → Attempt (Option Text) × Progress
mark_signal_turn_skipped o turn r =
    let (won, t) = claim_all o turn (start r) in
    (or_raised (any o.finalize_fails t.claimed) (without_text won), finalized o (won_all won) t)

abbrev is_delivered : TurnOutcomeStatus → Bool
is_delivered delivered = true
is_delivered _ = false

abbrev pub delivered_text : Attempt TurnOutcome → Attempt (Option Text)
delivered_text (raises r) = raises r
delivered_text (ok out) = ok (if is_delivered out.status then out.result else none)

-- `_run_signal_turn_gated`, once it holds its profile's lock and a permit.
unfoldable pub run_signal_turn_gated :
    Outside → Waits → NormalizedEvent → RoutedTurnInput → Router → Attempt (Option Text) × Progress
run_signal_turn_gated o w e turn r =
    let r' = w.gate r in
    if is_stale_signal_event turn.route e r'
    then mark_signal_turn_skipped o turn r'
    else (let (out, t) = run_turn o turn r' in (delivered_text out, t))

abbrev pub under_route_lock :
    Outside
    → Waits
    → NormalizedEvent
    → Option RoutedTurnInput
    → Router
    → Attempt (Option Text) × Progress
under_route_lock o w e none r = (raises (exception (other_exception [])), start r)
under_route_lock o w e (some turn) r =
    let r' = w.route_lock r in
    if is_empty_signal_event e
    then mark_signal_turn_skipped o turn r'
    else if is_stale_signal_event turn.route e r'
    then mark_signal_turn_skipped o turn r'
    else run_signal_turn_gated o w e turn r'

abbrev pub on_route :
    Outside
    → Waits
    → Admission
    → NormalizedEvent
    → Option Route
    → Router
    → Attempt (Option Text) × Progress
on_route o w a e none r = (ok none, start r)
on_route o w a e (some route) r = under_route_lock o w e (signal_turn_input o a route e r) r

-- `handle_event`
unfoldable pub handle_event :
    Outside → Waits → Admission → NormalizedEvent → Router → Attempt (Option Text) × Progress
handle_event o w a e r = on_route o w a e (find_route_for_event (or_else a.config r.config) e) r
