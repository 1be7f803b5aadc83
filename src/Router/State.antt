-- ===== src/Router/State.antt =====
-- router.py: the state of SignalHermesRouter that turns share, a turn's own variables, and what a
-- turn asks of the outside.
--
-- asyncio suspends a turn only where it awaits. At each such point the other tasks, and the clocks,
-- take the router's state wherever `meanwhile` says.
use signal_hermes_router.Prelude.{
  ℕ, String, Bool, false, List, [], ◌∷◌, Option, none, some, Dict, or_else,
}
use signal_hermes_router.Text.{Text}
use signal_hermes_router.Failures.{FailureInfo, Exc, Runtime}
use signal_hermes_router.Models.{
  RouteState, SessionKeyInput, TurnOrigin, NormalizedEvent, OutboundAttachment,
}
use signal_hermes_router.Config.{Route, AppConfig, SyntheticRouteDefinition, route_key}
use signal_hermes_router.Circuit.{CircuitBreaker}
use signal_hermes_router.RateLimit.{TokenBucket}
use signal_hermes_router.Dedupe.Rows.{Identity, Row}

-- `_rate_limit_bucket_key`
pub record BucketKey : Type 0 where
  pub route_key : String
  pub max_turns : ℕ
  pub window_ms : ℕ

-- The dictionaries of the source are fields of the same names. A token bucket is an object: the
-- dictionary `_inbound_rate_buckets` holds references into `buckets`.
pub record Router : Type 0 where
  pub config : AppConfig
  pub config_generation : ℕ
  pub closing : Bool
  pub recovery : ℕ
  pub reload_cleared_overrides : Dict ℕ
  pub route_state_overrides : Dict RouteState
  pub trip_times : Dict ℕ
  pub trip_times_ms : Dict ℕ
  pub last_breaker_reset_ms : Dict ℕ
  pub last_success_ms : Dict ℕ
  pub last_failures : Dict (ℕ × FailureInfo)
  pub circuit : CircuitBreaker
  pub inbound_rate_buckets : BucketKey → Option ℕ
  pub buckets : ℕ → Option TokenBucket
  pub next_bucket : ℕ
  pub dedupe : List Row
  pub clock_ms : ℕ
  pub monotonic : ℕ

-- `RoutedTurnInput`, without the permission policy and the texts of the prompt.
pub record RoutedTurnInput : Type 0 where
  pub route : Route
  pub origin : TurnOrigin
  pub dedupe_sender_id : String
  pub dedupe_timestamp : ℕ
  pub secondary_dedupe : Option (String × ℕ)
  pub session : SessionKeyInput
  pub signal_event : Option NormalizedEvent
  pub synthetic : Option SyntheticRouteDefinition
  pub outbound_attachments : List OutboundAttachment
  pub admitted_state : Option RouteState
  pub admitted_config_generation : Option ℕ

-- An exception of class Exception, or the CancelledError that only `finally` sees.
pub data Raise : Type 0 where
  exception : Exc → Raise
  cancelled : Raise

pub data Attempt {ℓ} (A : Type ℓ) : Type ℓ where
  ok : A → Attempt A
  raises : Raise → Attempt A

-- `_freeze_outbound_attachments`: the frozen attachments, or the code of an
-- OutboundAttachmentError, or another exception.
pub data Freeze : Type 0 where
  frozen : List OutboundAttachment → Freeze
  refused : String → Freeze
  raised : Raise → Freeze

-- Where a turn awaits.
pub data Point : Type 0 where
  claim : Identity → Point
  media freeze session typing prompt restart replace : Point
  chunk : Text → Point

-- The answers of the outside to one turn.
pub record Outside : Type 0 where
  pub hash : String → String
  pub runtime : Runtime
  pub one_token : ℕ  -- the unit of RateLimit
  pub claim_raises : Identity → Option Raise
  pub finalize_fails : Identity → Bool  -- mark_handled or release of it raises
  pub store_media : Attempt (List String)
  pub freeze : Freeze
  pub get_session : Attempt (Unit {0})
  pub prompt : Attempt Text
  pub send_raises : Text → Option Raise
  pub restart_raises : Option Raise
  pub replace_raises : Option Raise
  pub meanwhile : Point → Router → Router

-- What a turn does outside.
pub data Effect : Type 0 where
  sends : String → Text → List String → Effect
  stores_media gets_session prompts replaces_session : Effect
  restarts : String → Effect
  reaps : List String → Effect

-- A turn in progress: the shared state, the variables of `_run_turn`, and what it did so far, the
-- latest first. `rate_bucket` refers to the bucket that lent the token.
pub record Progress : Type 0 where
  pub router : Router
  pub handled : Bool
  pub claimed : List Identity
  pub rate_bucket : Option ℕ
  pub prompt_attempted : Bool
  pub session_acquisition_attempted : Bool
  pub live_manifest_paths : List String
  pub effects : List Effect

abbrev pub start : Router → Progress
start r = record {
  router = r;
  handled = false;
  claimed = [];
  rate_bucket = none;
  prompt_attempted = false;
  session_acquisition_attempted = false;
  live_manifest_paths = [];
  effects = [];
}

abbrev pub await : Outside → Point → Progress → Progress
await o p t = record t { router = o.meanwhile p t.router }

abbrev pub emit : Effect → Progress → Progress
emit e t = record t { effects = e ∷ t.effects }

-- A route's key; the parser accepts no route without one.
abbrev pub key_of : Outside → Route → String
key_of o r = or_else (route_key o.hash r) ""

abbrev pub or_default : Option Text → Text → Text
or_default none d = d
or_default (some []) d = d
or_default (some (c ∷ cs)) d = c ∷ cs
