-- ===== src/Router/Examples.antt =====
-- Runs of the router: one event of a group route, answered, answered in part, skipped and masked.
use signal_hermes_router.Prelude.{
  ◌≡◌, refl, ◌⊎◌, inl, inr, true, false, [], none, some, empty, put, arith, if◌then◌else◌,
}
use signal_hermes_router.Text.{Text, codes, byte_len, text_eq, strip, utf8_len}
use signal_hermes_router.Failures.{FailureCode, FailureInfo, failure_info, other_exception}
use signal_hermes_router.Models.{active, maintenance, signal, TurnOutcome, outcome, delivered}
use signal_hermes_router.Config.{route_key, find, find_route_by_key}
use signal_hermes_router.Config.Examples.{group_route, config, event}
use signal_hermes_router.Circuit.{failure_count, record_failure, pop_expired}
use signal_hermes_router.Dedupe.Rows.{
  Identity, key_eq, insert_claim, select_row, select_status, handled,
}
use signal_hermes_router.Router.State.{
  Router, Outside, RoutedTurnInput, exception, ok, frozen, start, key_of,
}
use signal_hermes_router.Router.Send.{reply_chunks, send_once}
use signal_hermes_router.Router.Breaker.{
  currently_active, effective_turn_state, count_failure, record_route_success, record_route_failure,
}
use signal_hermes_router.Router.Turn.{run_turn}
use signal_hermes_router.Router.Turn.Claims.{claim_all, claim_identity, turn_dedupe_identities}
use signal_hermes_router.Router.Turn.Finish.{finish_turn}
use signal_hermes_router.Router.Turn.Body.{
  claimed_turn, rate_stage, media_stage, session_stage, prompt_stage,
}
use signal_hermes_router.Router.Turn.Body.Rate.{reserve_inbound_rate_token}
use signal_hermes_router.Router.Turn.Body.Reply.{reply_stage}
use signal_hermes_router.RateLimit.{new, try_acquire}
use signal_hermes_router.Outbound.{
  is_no_reply_sentinel, chunk_for_signal_bytes, prepare_outgoing_message, limit_reply_chars,
  apply_canary_prefix,
}
use signal_hermes_router.Router.Won.{listed, Wins}
use signal_hermes_router.Router.Settled.{IsSettled, run_turn-settles}
use signal_hermes_router.Router.Gate.{run_turn-gated}
use signal_hermes_router.Router.Handled.{run_turn-consumes}
use signal_hermes_router.Router.Masking.Recovery.{HasActive, Lifted, NotSince}
use signal_hermes_router.Router.Masking.{
  IsMasked, effective_turn_state-recovers, effective_turn_state-admitted, count_failure-masks,
}

abbrev pub outside : Outside
outside = record {
  hash = λ s. s;
  runtime = record { lower = λ t. t; search = λ p t. false };
  one_token = 1000;
  claim_raises = λ k. none;
  finalize_fails = λ k. false;
  store_media = ok [];
  freeze = frozen [];
  get_session = ok tt;
  prompt = ok (codes "hi");
  send_raises = λ c. none;
  restart_raises = none;
  replace_raises = none;
  meanwhile = λ p r. r;
}

abbrev pub router : Router
router = record {
  config = config;
  config_generation = 1;
  closing = false;
  recovery = 30;
  reload_cleared_overrides = empty;
  route_state_overrides = empty;
  trip_times = empty;
  trip_times_ms = empty;
  last_breaker_reset_ms = empty;
  last_success_ms = empty;
  last_failures = empty;
  circuit = record { failures = 1; window = 60; deques = empty };
  inbound_rate_buckets = λ k. none;
  buckets = λ i. none;
  next_bucket = 0;
  dedupe = [];
  clock_ms = 1000;
  monotonic = 100;
}

abbrev pub turn : RoutedTurnInput
turn = record {
  route = group_route;
  origin = signal;
  dedupe_sender_id = "u";
  dedupe_timestamp = 970;
  secondary_dedupe = none;
  session = record { sender_id = "u"; timestamp = 970 };
  signal_event = some event;
  synthetic = none;
  outbound_attachments = [];
  admitted_state = some active;
  admitted_config_generation = some 1;
}

abbrev pub event_key : Identity
event_key = record { route_key = "signal:g"; source_uuid = "u"; timestamp = 970 }

claimed_all : (claim_all outside turn (start router)).0 ≡ ok true
unfolding claim_all claim_identity insert_claim
claimed_all = refl

event_listed : listed event_key (run_turn outside turn router).1.claimed ≡ true
unfolding run_turn listed finish_turn claimed_turn claim_all claim_identity insert_claim
    effective_turn_state rate_stage reserve_inbound_rate_token new try_acquire media_stage
    session_stage prompt_stage reply_stage is_no_reply_sentinel text_eq send_once reply_chunks
    chunk_for_signal_bytes prepare_outgoing_message byte_len strip limit_reply_chars
    apply_canary_prefix utf8_len record_route_success find_route_by_key find route_key key_eq
event_listed = refl

abbrev delivered_reply : TurnOutcome
delivered_reply = record (outcome delivered) {
  route_state = some active;
  result = some (codes "hi");
  reply_sent = some true;
}

run_turn_test : (run_turn outside turn router).0 ≡ ok delivered_reply
unfolding run_turn finish_turn claimed_turn claim_all claim_identity insert_claim
    effective_turn_state rate_stage reserve_inbound_rate_token new try_acquire media_stage
    session_stage prompt_stage reply_stage is_no_reply_sentinel text_eq send_once reply_chunks
    chunk_for_signal_bytes prepare_outgoing_message byte_len strip limit_reply_chars
    apply_canary_prefix utf8_len record_route_success find_route_by_key find route_key key_eq
run_turn_test = refl

run_turn-consumes_example :
    select_status event_key (run_turn outside turn router).1.router.dedupe ≡ some handled
run_turn-consumes_example =
    run_turn-consumes outside turn refl refl router delivered_reply event_key claimed_all
      run_turn_test event_listed

-- A job's turn with two identities, both of which it wins.
abbrev pub two_turn : RoutedTurnInput
two_turn = record turn { secondary_dedupe = some ("v", 971) }

abbrev second_key : Identity
second_key = record { route_key = "signal:g"; source_uuid = "v"; timestamp = 971 }

second_won : Wins outside second_key (turn_dedupe_identities outside two_turn) (start router)
unfolding turn_dedupe_identities claim_identity insert_claim select_row key_eq route_key
second_won = inr (refl, inl (refl, refl, refl))

run_turn-settles_example :
    IsSettled
      (run_turn outside two_turn router).1.handled
      second_key
      (run_turn outside two_turn router).1.router.dedupe
run_turn-settles_example = run_turn-settles outside two_turn router second_key second_won refl

run_turn-gated_example :
    (((run_turn outside turn router).1.prompt_attempted ≡ false)
      × ((run_turn outside turn router).1.session_acquisition_attempted ≡ false))
    ⊎ (((claim_all outside turn (start router)).0 ≡ ok true)
        × ((effective_turn_state outside turn (claim_all outside turn (start router)).1.router).0
            ≡ active))
run_turn-gated_example = run_turn-gated outside turn router

-- The second chunk of three fails.
abbrev failing : Outside
failing = record outside {
  send_raises = λ c.
      if text_eq c (codes "[2/2] five six") then some (exception (other_exception [])) else none;
}

abbrev reply : Text
reply = codes "one two five six"

-- The route is masked since 80, its breaker tripped.
abbrev tripped_router : Router
tripped_router = record router {
  route_state_overrides = put empty "signal:g" maintenance;
  trip_times = put empty "signal:g" 60;
}

tripped-IsMasked : IsMasked "signal:g" 60 tripped_router
tripped-IsMasked = record { override = refl; since = refl }

effective_turn_state-recovers_example :
    ((effective_turn_state outside turn tripped_router).0 ≡ active)
    × ((effective_turn_state outside turn tripped_router).1.route_state_overrides "signal:g" ≡ none)
    × ((failure_count "signal:g" 100 (effective_turn_state outside turn tripped_router).1.circuit).1
        ≡ 0)
unfolding route_key
effective_turn_state-recovers_example =
    effective_turn_state-recovers outside turn tripped_router 60 tripped-IsMasked (omega arith) refl

abbrev masked_turn : RoutedTurnInput
masked_turn = record turn { admitted_state = some maintenance }

probe : (effective_turn_state outside masked_turn tripped_router).0 ≡ active
unfolding effective_turn_state route_key find_route_by_key find
probe = refl

effective_turn_state-admitted_example :
    HasActive outside (key_of outside group_route) tripped_router.config.routes
    × Lifted (key_of outside group_route) tripped_router
    × NotSince (tripped_router.reload_cleared_overrides (key_of outside group_route)) (some 1)
effective_turn_state-admitted_example =
    effective_turn_state-admitted outside masked_turn tripped_router refl probe

abbrev failure : FailureInfo
failure = failure_info FailureCode.acp_session_failed

trips : (count_failure outside group_route failure router).1 ≡ true
unfolding count_failure record_failure record_route_failure pop_expired
trips = refl

route_active : (count_failure outside group_route failure router).2 ≡ true
unfolding count_failure currently_active find_route_by_key find record_route_failure route_key
route_active = refl

count_failure-masks_example :
    (effective_turn_state outside turn
      (record (count_failure outside group_route failure router).0 { monotonic = 120 })).0
    ≡ maintenance
count_failure-masks_example =
    count_failure-masks outside turn failure router 120 trips route_active (omega arith)
