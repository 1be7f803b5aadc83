-- ===== src/Router/Failure.antt =====
-- router.py: `_handle_hermes_failure`, from the count of the failure over the reply to the recovery.
use signal_hermes_router.Prelude.{
  ℕ, Bool, true, false, ◌&&◌, not, [], ◌∷◌, Option, none, some, if◌then◌else◌,
}
use signal_hermes_router.Text.{Text}
use signal_hermes_router.Failures.{
  FailureCode, FailureInfo, failure_info, is_model_provider_failure,
}
use signal_hermes_router.Models.{
  RouteState, SessionPolicy, ephemeral, TurnOutcome, outcome, error, code,
}
use signal_hermes_router.Config.{Route, AppConfig, SyntheticRouteDefinition}
use signal_hermes_router.Router.State.{
  Outside, RoutedTurnInput, Progress, Raise, exception, cancelled, Attempt, ok, raises, restart,
  replace, restarts, replaces_session, await, emit, key_of, or_default,
}
use signal_hermes_router.Router.Send.{send_once}
use signal_hermes_router.Router.Breaker.{count_failure, record_route_failure}

-- `_failure_reply_for`
unfoldable pub failure_reply_for : AppConfig → Route → FailureInfo → Text
failure_reply_for c route failure = elim route.failure_reply [
  | some reply ↦ reply
  | none ↦
      if is_model_provider_failure failure
      then or_default (some c.router.model_failure_reply) c.router.failure_reply
      else c.router.failure_reply
]

-- `_synthetic_outcome_fields`
abbrev pub with_synthetic : Option SyntheticRouteDefinition → TurnOutcome → TurnOutcome
with_synthetic none o = o
with_synthetic (some d) o = record o { synthetic_id = some d.id; synthetic_kind = some d.kind }

-- `_synthetic_failure_fields`; the route's reference is left out.
abbrev pub with_synthetic_failure :
    Option SyntheticRouteDefinition → Route → ℕ → TurnOutcome → TurnOutcome
with_synthetic_failure none route at o = o
with_synthetic_failure (some d) route at o = record o {
  synthetic_id = some d.id;
  synthetic_kind = some d.kind;
  profile = some route.profile;
  last_failure_at_ms = some at;
}

-- The outcome of a failed turn.
abbrev pub failed :
    RoutedTurnInput → RouteState → FailureInfo → Option Text → Bool → ℕ → TurnOutcome
failed turn state failure result reply_sent at =
    with_synthetic_failure turn.synthetic turn.route at (record (outcome error) {
      route_state = some state;
      result = result;
      error = some (code failure.code);
      failure = some failure;
      reply_sent = some reply_sent;
    })

-- A reply that may be empty, which is not sent.
unfoldable pub send_nonempty : Outside → Route → Text → Progress → Attempt Bool × Progress
send_nonempty o route [] t = (ok false, t)
send_nonempty o route (c ∷ cs) t = send_once o route (c ∷ cs) [] t

abbrev is_ephemeral : SessionPolicy → Bool
is_ephemeral ephemeral = true
is_ephemeral _ = false

-- An exception of the recovery is logged; a cancellation goes through.
abbrev pub swallow : Option Raise → Progress → Attempt (Unit {0}) × Progress
swallow none t = (ok tt, t)
swallow (some (exception e)) t = (ok tt, t)
swallow (some cancelled) t = (raises cancelled, t)

abbrev pub recover_session :
    Outside → RoutedTurnInput → Bool → Progress → Attempt (Unit {0}) × Progress
recover_session o turn had_session t =
    if had_session && not (is_ephemeral turn.route.session_policy)
    then swallow o.replace_raises (await o replace (emit replaces_session t))
    else (ok tt, t)

-- The recovery: the profile is restarted, and a session that is not ephemeral replaced.
unfoldable pub recover :
    Outside → RoutedTurnInput → Bool → Bool → Progress → Attempt (Unit {0}) × Progress
recover o turn here had_session t =
    let t' = await o restart (emit (restarts turn.route.profile) t) in
    if here
    then (elim o.restart_raises [
      | none ↦ recover_session o turn had_session t'
      | some r ↦ swallow (some r) t'
    ])
    else (ok tt, t)

abbrev pub after_recovery :
    TurnOutcome → Attempt (Unit {0}) × Progress → Attempt TurnOutcome × Progress
after_recovery out (ok u, t) = (ok out, t)
after_recovery out (raises r, t) = (raises r, t)

abbrev pub after_reply :
    Outside
    → RoutedTurnInput
    → RouteState
    → FailureInfo
    → Bool
    → Bool
    → ℕ
    → Attempt Bool × Progress
    → Attempt TurnOutcome × Progress
after_reply o turn state failure here had_session at (ok sent, t) =
    after_recovery (failed turn state failure none sent at) (recover o turn here had_session t)
after_reply o turn state failure here had_session at (raises r, t) = (raises r, t)

-- `_handle_hermes_failure`; `had_session` says that `session` is not None.
unfoldable pub handle_hermes_failure :
    Outside
    → RoutedTurnInput
    → RouteState
    → FailureInfo
    → Bool
    → Progress
    → Attempt TurnOutcome × Progress
unfolding recover send_nonempty
handle_hermes_failure o turn state failure had_session t =
    let (r, trip, here) = count_failure o turn.route failure t.router in
    let reply =
      if trip
      then or_default turn.route.maintenance_reply r.config.router.maintenance_reply
      else failure_reply_for r.config turn.route failure in
    after_reply o turn state failure here had_session t.router.clock_ms
      (send_nonempty o turn.route reply (record t { router = r }))

-- `_signal_send_failure`: the failure is recorded, and the breaker is not touched.
unfoldable pub signal_send_failure : Outside → Route → Progress → FailureInfo × ℕ × Progress
signal_send_failure o route t =
    let failure = failure_info FailureCode.signal_send_failed in
    (
      failure,
      t.router.clock_ms,
      record t { router = record_route_failure (key_of o route) failure t.router },
    )
