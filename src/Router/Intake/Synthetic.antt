-- ===== src/Router/Intake/Synthetic.antt =====
-- router.py: a scheduled job or a notification from its definition to its turn.
use Prim.Native.String.{◌++◌, slice}
use signal_hermes_router.Prelude.{
  ℕ, String, Bool, true, false, not, List, [], ◌∷◌, Option, none, some, or_else, if◌then◌else◌,
}
use signal_hermes_router.Models.{
  RouteState, TurnOrigin, SyntheticTurnKind, TurnOutcome, TurnOutcomeStatus, outcome, deduped, busy,
  error, named, ErrorName, OutboundAttachment,
}
use signal_hermes_router.Config.{
  Route, SyntheticRouteDefinition, namespace, truthy, find_route_by_name, find_synthetic_job,
  find_notification,
}
use signal_hermes_router.Dedupe.Rows.{Identity, Status, processing, handled, select_status}
use signal_hermes_router.Router.State.{
  Router, Outside, RoutedTurnInput, Progress, Raise, Attempt, ok, raises, Freeze, frozen, refused,
  raised, start, key_of,
}
use signal_hermes_router.Router.Breaker.{is_active, effective_turn_state}
use signal_hermes_router.Router.Turn.{run_turn}
use signal_hermes_router.Router.Turn.Claims.{turn_dedupe_identities}
use signal_hermes_router.Router.Intake.{Admission, admitted}

-- What comes with a request: `attachments` are the ones that it asks for.
pub record Request : Type 0 where
  pub scheduled_at : Option ℕ
  pub idempotency_key : Option String
  pub attachments : List OutboundAttachment

-- Where a synthetic request awaits before its turn.
pub data Wait : Type 0 where
  query : Identity → Status → Wait
  freezing taking_route_lock taking_profile_lock : Wait

-- The answers to one request. `refuses_to_wait` is that its timeout is not positive while one of
-- its locks is taken. `digest` is the hex digest of SHA-256.
pub record Answers : Type 0 where
  pub nonce : String
  pub digest : String → String
  pub refuses_to_wait : Bool
  pub freeze_first : Freeze
  pub route_lock_acquired : Bool
  pub profile_lock_acquired : Bool
  pub at : Wait → Router → Router

-- `_synthetic_dedupe_identity`
unfoldable pub synthetic_dedupe_identity :
    Answers → String → Option ℕ → Option String → ℕ → String × ℕ
synthetic_dedupe_identity w ns scheduled_at idempotency_key triggered_at =
    elim (truthy idempotency_key) [
      | some key ↦ (ns ++ (":key:" ++ slice (w.digest key) 0 16), 0)
      | none ↦ elim scheduled_at [
        | some at ↦ (ns, at)
        | none ↦ (ns ++ (":manual:" ++ w.nonce), triggered_at)
      ]
    ]

abbrev second_identity : String → Option ℕ → Option String → Option (String × ℕ)
second_identity ns (some at) (some key) = some (ns, at)
second_identity ns _ _ = none

abbrev origin_of : SyntheticTurnKind → TurnOrigin
origin_of SyntheticTurnKind.scheduled_job = TurnOrigin.scheduled_job
origin_of SyntheticTurnKind.notification = TurnOrigin.notification

-- `_synthetic_turn_input`, without the prompt's texts and the permission policy.
unfoldable pub synthetic_turn_input :
    Outside
    → Answers
    → Admission
    → SyntheticRouteDefinition
    → Route
    → Request
    → Router
    → RoutedTurnInput
synthetic_turn_input o w a d route q r =
    let (sender, timestamp) =
      synthetic_dedupe_identity w (namespace d) q.scheduled_at q.idempotency_key r.clock_ms in
    record {
      route = route;
      origin = origin_of d.kind;
      dedupe_sender_id = sender;
      dedupe_timestamp = timestamp;
      secondary_dedupe = second_identity (namespace d) q.scheduled_at (truthy q.idempotency_key);
      session = record { sender_id = namespace d; timestamp = or_else q.scheduled_at r.clock_ms };
      signal_event = none;
      synthetic = some d;
      outbound_attachments = q.attachments;
      admitted_state = some (admitted o a route r);
      admitted_config_generation = some (or_else a.generation r.config_generation);
    }

abbrev same_status : Status → Option Status → Bool
same_status processing (some processing) = true
same_status handled (some handled) = true
same_status _ _ = false

-- `_turn_dedupe_has_status` over the identities, with the router at its end.
unfoldable pub has_status : Answers → Status → List Identity → Router → Bool × Router
has_status w s [] r = (false, r)
has_status w s (k ∷ ks) r =
    let r' = w.at (query k s) r in
    let rest = has_status w s ks r' in
    if same_status s (select_status k r'.dedupe) then (true, r') else rest

-- `_synthetic_outcome`
abbrev pub synthetic_outcome :
    SyntheticRouteDefinition
    → TurnOutcomeStatus
    → Option RouteState
    → Option ErrorName
    → TurnOutcome
synthetic_outcome d status state failure = record (outcome status) {
  route_state = state;
  error = failure;
  synthetic_id = some d.id;
  synthetic_kind = some d.kind;
}

-- An outcome with the state of the route that the overrides give.
abbrev with_current :
    Outside → SyntheticRouteDefinition → TurnOutcomeStatus → Route → Router → TurnOutcome
with_current o d status route r =
    synthetic_outcome d status
      (some (or_else (r.route_state_overrides (key_of o route)) route.state)) none

-- What becomes of a request before its locks.
pub data Prepared : Type 0 where
  answers : TurnOutcome → Prepared
  proceeds : RoutedTurnInput → Prepared
  fails : Raise → Prepared

abbrev freeze_failed :
    Outside
    → SyntheticRouteDefinition
    → RoutedTurnInput
    → RouteState
    → String
    → Bool × Router
    → Prepared × Router
freeze_failed o d turn state name (true, r) = (answers (with_current o d deduped turn.route r), r)
freeze_failed o d turn state name (false, r) =
    (answers (synthetic_outcome d error (some state) (some (named name))), r)

abbrev frozen_first :
    Outside
    → Answers
    → SyntheticRouteDefinition
    → RoutedTurnInput
    → RouteState
    → Freeze
    → Router
    → Prepared × Router
frozen_first o w d turn state (frozen attachments) r =
    (proceeds (record turn { outbound_attachments = attachments }), r)
frozen_first o w d turn state (refused name) r =
    freeze_failed o d turn state name (has_status w handled (turn_dedupe_identities o turn) r)
frozen_first o w d turn state (raised e) r = (fails e, r)

-- The pre-freeze of a turn whose route is active.
abbrev freeze_active :
    Outside
    → Answers
    → SyntheticRouteDefinition
    → RoutedTurnInput
    → RouteState
    → Router
    → Prepared × Router
freeze_active o w d turn state r =
    if w.refuses_to_wait
    then (answers (synthetic_outcome d busy (some state) none), r)
    else if not r.config.router.local_attachment_paths
    then (
      answers (
          synthetic_outcome d error (some state)
            (some (named "attachment_signal_daemon_not_local"))),
      r,
    )
    else frozen_first o w d turn state w.freeze_first (w.at freezing r)

abbrev freeze_if_active :
    Outside
    → Answers
    → SyntheticRouteDefinition
    → RoutedTurnInput
    → RouteState × Router
    → Prepared × Router
freeze_if_active o w d turn (state, r) =
    if is_active state then freeze_active o w d turn state r else (proceeds turn, r)

abbrev unless_processing :
    Outside
    → Answers
    → SyntheticRouteDefinition
    → RoutedTurnInput
    → Bool × Router
    → Prepared × Router
unless_processing o w d turn (true, r) = (proceeds turn, r)
unless_processing o w d turn (false, r) =
    freeze_if_active o w d turn (effective_turn_state o turn r)

abbrev unless_handled :
    Outside
    → Answers
    → SyntheticRouteDefinition
    → RoutedTurnInput
    → Bool × Router
    → Prepared × Router
unless_handled o w d turn (true, r) = (answers (with_current o d deduped turn.route r), r)
unless_handled o w d turn (false, r) =
    unless_processing o w d turn (has_status w processing (turn_dedupe_identities o turn) r)

-- The part of `_handle_synthetic_definition` before the locks.
unfoldable pub prepare :
    Outside → Answers → SyntheticRouteDefinition → RoutedTurnInput → Router → Prepared × Router
unfolding has_status
prepare o w d turn r = elim turn.outbound_attachments [
  | [] ↦ (proceeds turn, r)
  | (x ∷ rest) ↦ unless_handled o w d turn (has_status w handled (turn_dedupe_identities o turn) r)
]

abbrev pub under_locks :
    Outside
    → Answers
    → SyntheticRouteDefinition
    → RoutedTurnInput
    → Router
    → Attempt TurnOutcome × Progress
under_locks o w d turn r =
    let r1 = w.at taking_route_lock r in
    let r2 = w.at taking_profile_lock r1 in
    if not w.route_lock_acquired
    then (ok (with_current o d busy turn.route r1), start r1)
    else if not w.profile_lock_acquired
    then (ok (with_current o d busy turn.route r2), start r2)
    else run_turn o turn r2

abbrev pub prepared :
    Outside
    → Answers
    → SyntheticRouteDefinition
    → Prepared × Router
    → Attempt TurnOutcome × Progress
prepared o w d (answers out, r) = (ok out, start r)
prepared o w d (fails e, r) = (raises e, start r)
prepared o w d (proceeds turn, r) = under_locks o w d turn r

abbrev pub for_route :
    Outside
    → Answers
    → Admission
    → SyntheticRouteDefinition
    → Request
    → Option Route
    → Router
    → Attempt TurnOutcome × Progress
for_route o w a d q none r =
    (ok (synthetic_outcome d error none (some (named "unknown_route"))), start r)
for_route o w a d q (some route) r =
    prepared o w d (prepare o w d (synthetic_turn_input o w a d route q r) r)

-- `_handle_synthetic_definition`
unfoldable pub handle_synthetic_definition :
    Outside
    → Answers
    → Admission
    → SyntheticRouteDefinition
    → Request
    → Router
    → Attempt TurnOutcome × Progress
handle_synthetic_definition o w a d q r =
    for_route o w a d q (find_route_by_name (or_else a.config r.config) d.route_name) r

abbrev unknown : String → SyntheticTurnKind → String → TurnOutcome
unknown name kind id = record (outcome error) {
  error = some (named name);
  synthetic_id = some id;
  synthetic_kind = some kind;
}

abbrev defined :
    Outside
    → Answers
    → Admission
    → TurnOutcome
    → Option SyntheticRouteDefinition
    → Request
    → Router
    → Attempt TurnOutcome × Progress
defined o w a missing none q r = (ok missing, start r)
defined o w a missing (some d) q r = handle_synthetic_definition o w a d q r

unfoldable pub handle_synthetic_job :
    Outside → Answers → Admission → String → Request → Router → Attempt TurnOutcome × Progress
handle_synthetic_job o w a job_id q r =
    defined o w a (unknown "unknown_job" SyntheticTurnKind.scheduled_job job_id)
      (find_synthetic_job (or_else a.config r.config) job_id) (record q { attachments = [] }) r

unfoldable pub handle_notification :
    Outside → Answers → Admission → String → Request → Router → Attempt TurnOutcome × Progress
handle_notification o w a notification_id q r =
    defined o w a (unknown "unknown_notification" SyntheticTurnKind.notification notification_id)
      (find_notification (or_else a.config r.config) notification_id)
      (record q { scheduled_at = none }) r
