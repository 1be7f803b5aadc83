-- ===== src/Router/Turn/Body.antt =====
-- router.py: the body of `_run_turn` between its claims and its `finally`.
--
-- The busy notice and the typing indicator run beside the turn and change nothing of its state:
-- they are left out. So are the blocks of the prompt and the permission policies.
pub mod Rate
pub mod Reply
use signal_hermes_router.Prelude.{
  ℕ, String, Bool, true, false, not, ◌&&◌, ◌||◌, List, [], ◌∷◌, ◌++◌, Option, none, some, is_some,
  or_else, if◌then◌else◌,
}
use signal_hermes_router.Text.{Text}
use signal_hermes_router.Failures.{
  FailureCode, FailureInfo, classify_exception, classify_in_context,
}
use signal_hermes_router.Models.{
  RouteState, shadow, active, maintenance, disabled, TurnOrigin, signal, scheduled_job,
  notification, TurnOutcome, outcome, skipped, deduped, delivered, error, named, OutboundAttachment,
}
use signal_hermes_router.Config.{Route, AppConfig, InboundRateLimit}
use signal_hermes_router.Router.State.{
  Router, Outside, RoutedTurnInput, Progress, Raise, exception, cancelled, Attempt, ok, raises,
  Freeze, frozen, refused, raised, media, freeze, session, prompt, stores_media, gets_session,
  prompts, await, emit, key_of, or_default,
}
use signal_hermes_router.Router.Send.{send_once}
use signal_hermes_router.Router.Breaker.{is_active, effective_turn_state}
use signal_hermes_router.Router.Failure.{
  with_synthetic, failed, handle_hermes_failure, signal_send_failure,
}
use Rate.{reserve_inbound_rate_token}
use Reply.{reply_stage}

abbrev pub is_signal : RoutedTurnInput → Bool
is_signal turn = not (is_some turn.synthetic)

-- An outcome with the state of the route and the fields of a synthetic turn.
abbrev pub plain : RoutedTurnInput → RouteState → TurnOutcome → TurnOutcome
plain turn state o = with_synthetic turn.synthetic (record o { route_state = some state })

-- The turn ends with the outcome, handled.
abbrev pub ends : Bool → TurnOutcome → Progress → Attempt TurnOutcome × Progress
ends handled out t = (ok out, record t { handled = handled })

-- After `_handle_hermes_failure` a Signal turn is consumed.
abbrev pub consumed :
    RoutedTurnInput → Attempt TurnOutcome × Progress → Attempt TurnOutcome × Progress
consumed turn (ok out, t) = (ok out, record t { handled = is_signal turn })
consumed turn (raises r, t) = (raises r, t)

abbrev pub prompted :
    Outside
    → RoutedTurnInput
    → RouteState
    → List OutboundAttachment
    → Attempt Text
    → Progress
    → Attempt TurnOutcome × Progress
prompted o turn state attachments (ok text) t = reply_stage o turn state attachments text t
prompted o turn state attachments (raises (exception e)) t =
    consumed turn (handle_hermes_failure o turn state (classify_exception o.runtime e) true t)
prompted o turn state attachments (raises cancelled) t = (raises cancelled, t)

-- From the prompt on.
unfoldable pub prompt_stage :
    Outside
    → RoutedTurnInput
    → RouteState
    → List OutboundAttachment
    → Progress
    → Attempt TurnOutcome × Progress
prompt_stage o turn state attachments t =
    prompted o turn state attachments o.prompt
      (await o prompt (emit prompts (record t { prompt_attempted = true })))

abbrev pub session_got :
    Outside
    → RoutedTurnInput
    → RouteState
    → List OutboundAttachment
    → Attempt (Unit {0})
    → Progress
    → Attempt TurnOutcome × Progress
session_got o turn state attachments (ok u) t = prompt_stage o turn state attachments t
session_got o turn state attachments (raises (exception e)) t = consumed turn (
    handle_hermes_failure o turn state
      (classify_in_context o.runtime FailureCode.acp_session_failed true e) false t)
session_got o turn state attachments (raises cancelled) t = (raises cancelled, t)

-- From the acquisition of the session on.
unfoldable pub session_stage :
    Outside
    → RoutedTurnInput
    → RouteState
    → List OutboundAttachment
    → Progress
    → Attempt TurnOutcome × Progress
session_stage o turn state attachments t =
    session_got o turn state attachments o.get_session
      (await o session (emit gets_session (record t { session_acquisition_attempted = true })))

abbrev pub attachment_error :
    RoutedTurnInput → RouteState → String → Progress → Attempt TurnOutcome × Progress
attachment_error turn state name t =
    (ok (plain turn state (record (outcome error) { error = some (named name) })), t)

abbrev pub freeze_result :
    Outside → RoutedTurnInput → RouteState → Freeze → Progress → Attempt TurnOutcome × Progress
freeze_result o turn state (frozen attachments) t = session_stage o turn state attachments t
freeze_result o turn state (refused name) t = attachment_error turn state name t
freeze_result o turn state (raised r) t = (raises r, t)

-- Nothing to freeze gives nothing, and asks for no local daemon.
abbrev pub freeze_listed :
    Outside
    → RoutedTurnInput
    → RouteState
    → List OutboundAttachment
    → Progress
    → Attempt TurnOutcome × Progress
freeze_listed o turn state [] t = freeze_result o turn state (frozen []) (await o freeze t)
freeze_listed o turn state (a ∷ rest) t =
    if not t.router.config.router.local_attachment_paths
    then attachment_error turn state "attachment_signal_daemon_not_local" t
    else freeze_result o turn state o.freeze (await o freeze t)

-- From the outbound attachments on.
unfoldable pub freeze_stage :
    Outside → RoutedTurnInput → RouteState → Progress → Attempt TurnOutcome × Progress
freeze_stage o turn state t = freeze_listed o turn state turn.outbound_attachments t

abbrev pub is_shadow : RouteState → Bool
is_shadow shadow = true
is_shadow _ = false

abbrev pub media_stored :
    Outside
    → RoutedTurnInput
    → RouteState
    → Attempt (List String)
    → Progress
    → Attempt TurnOutcome × Progress
media_stored o turn state (raises r) t = (raises r, t)
media_stored o turn state (ok paths) t =
    let t' = record t { live_manifest_paths = t.live_manifest_paths ++ paths } in
    if is_shadow state
    then ends true (plain turn state (outcome skipped)) t'
    else freeze_stage o turn state t'

abbrev pub store_media : Outside → RoutedTurnInput → Attempt (List String)
store_media o turn = if is_some turn.signal_event then o.store_media else ok []

-- From the media on.
unfoldable pub media_stage :
    Outside → RoutedTurnInput → RouteState → Progress → Attempt TurnOutcome × Progress
unfolding freeze_stage
media_stage o turn state t =
    media_stored o turn state (store_media o turn)
      (if is_some turn.signal_event then await o media (emit stores_media t) else t)

abbrev pub rate_reserved :
    Outside
    → RoutedTurnInput
    → RouteState
    → Attempt (Option ℕ)
    → Progress
    → Attempt TurnOutcome × Progress
rate_reserved o turn state (raises r) t = (raises r, t)
rate_reserved o turn state (ok none) t = ends true (plain turn state (outcome skipped)) t
rate_reserved o turn state (ok (some id)) t =
    media_stage o turn state (record t { rate_bucket = some id })

abbrev pub from_signal : TurnOrigin → Bool
from_signal signal = true
from_signal scheduled_job = false
from_signal notification = false

abbrev pub rate_limited :
    Outside
    → RoutedTurnInput
    → RouteState
    → Option InboundRateLimit
    → Progress
    → Attempt TurnOutcome × Progress
rate_limited o turn state none t = media_stage o turn state t
rate_limited o turn state (some limit) t =
    if from_signal turn.origin && is_active state
    then (let (id, r) = reserve_inbound_rate_token o turn.route limit t.router in
        rate_reserved o turn state id (record t { router = r }))
    else media_stage o turn state t

-- From the rate limit on.
unfoldable pub rate_stage :
    Outside → RoutedTurnInput → RouteState → Progress → Attempt TurnOutcome × Progress
rate_stage o turn state t = rate_limited o turn state turn.route.inbound_rate_limit t

abbrev pub maintenance_sent :
    Outside
    → RoutedTurnInput
    → RouteState
    → Attempt Bool × Progress
    → Attempt TurnOutcome × Progress
maintenance_sent o turn state (raises r, t) = (raises r, t)
maintenance_sent o turn state (ok true, t) =
    ends (is_signal turn) (plain turn state (outcome delivered)) t
maintenance_sent o turn state (ok false, t) =
    let (failure, at, t') = signal_send_failure o turn.route t in
    ends (is_signal turn) (failed turn state failure none false at) t'

unfoldable pub maintenance_stage :
    Outside → RoutedTurnInput → RouteState → Progress → Attempt TurnOutcome × Progress
maintenance_stage o turn state t = maintenance_sent o turn state (
    send_once o turn.route
      (or_default turn.route.maintenance_reply t.router.config.router.maintenance_reply) [] t)

abbrev pub gated :
    Outside → RoutedTurnInput → RouteState → Progress → Attempt TurnOutcome × Progress
gated o turn disabled t = ends true (plain turn disabled (outcome skipped)) t
gated o turn maintenance t = maintenance_stage o turn maintenance t
gated o turn active t = rate_stage o turn active t
gated o turn shadow t = rate_stage o turn shadow t

-- From the state of the route on.
unfoldable pub gate_stage : Outside → RoutedTurnInput → Progress → Attempt TurnOutcome × Progress
gate_stage o turn t =
    let (state, r) = effective_turn_state o turn t.router in
    gated o turn state (record t { router = r })

abbrev pub deduped_outcome : Outside → RoutedTurnInput → Progress → TurnOutcome
deduped_outcome o turn t =
    plain turn (or_else (t.router.route_state_overrides (key_of o turn.route)) turn.route.state)
      (outcome deduped)

-- The body, from the result of the claim loop on.
unfoldable pub claimed_turn :
    Outside → RoutedTurnInput → Attempt Bool × Progress → Attempt TurnOutcome × Progress
unfolding gate_stage
claimed_turn o turn (raises r, t) = (raises r, t)
claimed_turn o turn (ok false, t) = (ok (deduped_outcome o turn t), t)
claimed_turn o turn (ok true, t) = gate_stage o turn t
