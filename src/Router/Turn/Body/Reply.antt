-- ===== src/Router/Turn/Body/Reply.antt =====
-- router.py: what `_run_turn` does with the text of a completed prompt.
use signal_hermes_router.Prelude.{
  ℕ, Bool, true, false, not, ◌&&◌, List, [], ◌∷◌, Option, none, some, is_some, if◌then◌else◌,
}
use signal_hermes_router.Text.{Text, codes, strip}
use signal_hermes_router.Failures.{FailureCode, FailureInfo, failure_info}
use signal_hermes_router.Models.{RouteState, TurnOutcome, outcome, delivered, OutboundAttachment}
use signal_hermes_router.Circuit.{record_success}
use signal_hermes_router.Outbound.{is_no_reply_sentinel}
use signal_hermes_router.Router.State.{
  Outside, RoutedTurnInput, Progress, Attempt, ok, raises, key_of,
}
use signal_hermes_router.Router.Send.{send_once}
use signal_hermes_router.Router.Breaker.{record_route_failure, record_route_success}
use signal_hermes_router.Router.Failure.{
  with_synthetic, failed, failure_reply_for, signal_send_failure,
}

abbrev pub attachment_only_fallback_text : Text
attachment_only_fallback_text = codes "Image attached."

abbrev pub is_empty {ℓ} : {A : Type ℓ} → List A → Bool
is_empty [] = true
is_empty (a ∷ rest) = false

-- The reply to a completion: the text to send, or nothing for a completion that is empty and
-- neither the sentinel nor covered by an attachment.
unfoldable pub reply_text : Text → List OutboundAttachment → Option Text
reply_text text attachments =
    if is_no_reply_sentinel text
    then some []
    else if not (is_empty (strip text))
    then some text
    else if is_empty attachments
    then none
    else some attachment_only_fallback_text

abbrev pub is_synthetic : RoutedTurnInput → Bool
is_synthetic turn = is_some turn.synthetic

-- A reply is sent unless it is empty.
abbrev pub send_reply :
    Outside → RoutedTurnInput → Text → List OutboundAttachment → Progress → Attempt Bool × Progress
send_reply o turn [] attachments t = (ok true, t)
send_reply o turn (c ∷ cs) attachments t = send_once o turn.route (c ∷ cs) attachments t

abbrev pub empty_sent :
    RoutedTurnInput
    → RouteState
    → FailureInfo
    → Text
    → Bool
    → ℕ
    → Attempt Bool × Progress
    → Attempt TurnOutcome × Progress
empty_sent turn state failure text wanted at (raises r, t) = (raises r, t)
empty_sent turn state failure text wanted at (ok sent, t) = (
  ok (failed turn state failure (some text) (wanted && sent) at),
  record t { handled = not (is_synthetic turn) },
)

-- An unmarked empty completion: the failure is recorded and the configured reply sent, and neither
-- the breaker nor the profile is touched.
unfoldable pub empty_response_stage :
    Outside
    → RoutedTurnInput
    → RouteState
    → List OutboundAttachment
    → Text
    → Progress
    → Attempt TurnOutcome × Progress
empty_response_stage o turn state attachments text t =
    let failure = failure_info FailureCode.acp_empty_response in
    let r = record_route_failure (key_of o turn.route) failure t.router in
    let reply = failure_reply_for r.config turn.route failure in
    empty_sent turn state failure text (not (is_empty reply)) t.router.clock_ms
      (send_reply o turn reply attachments (record t { router = r }))

abbrev pub delivered_outcome : RoutedTurnInput → RouteState → Text → Bool → TurnOutcome
delivered_outcome turn state text sent = with_synthetic turn.synthetic (record (outcome delivered) {
  route_state = some state;
  result = some text;
  reply_sent = some sent;
})

abbrev pub reply_sent :
    Outside
    → RoutedTurnInput
    → RouteState
    → Text
    → Bool
    → Attempt Bool × Progress
    → Attempt TurnOutcome × Progress
reply_sent o turn state text wanted (raises r, t) = (raises r, t)
reply_sent o turn state text wanted (ok false, t) =
    let (failure, at, t') = signal_send_failure o turn.route t in
    (ok (failed turn state failure (some text) false at), record t' { handled = true })
reply_sent o turn state text wanted (ok true, t) =
    let k = key_of o turn.route in
    let r = record t.router { circuit = record_success k t.router.circuit } in
    (
      ok (delivered_outcome turn state text wanted),
      record t { router = record_route_success k r; handled = true },
    )

abbrev pub replied :
    Outside
    → RoutedTurnInput
    → RouteState
    → List OutboundAttachment
    → Text
    → Option Text
    → Progress
    → Attempt TurnOutcome × Progress
replied o turn state attachments text none t = empty_response_stage o turn state attachments text t
replied o turn state attachments text (some reply) t =
    reply_sent o turn state text (not (is_empty reply)) (send_reply o turn reply attachments t)

-- From the completion of the prompt on.
unfoldable pub reply_stage :
    Outside
    → RoutedTurnInput
    → RouteState
    → List OutboundAttachment
    → Text
    → Progress
    → Attempt TurnOutcome × Progress
unfolding reply_text empty_response_stage
reply_stage o turn state attachments text t =
    replied o turn state attachments text (reply_text text attachments) t
