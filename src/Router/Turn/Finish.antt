-- ===== src/Router/Turn/Finish.antt =====
-- router.py: the `finally` of `_run_turn`: the token goes back, the claims are settled, and a route
-- that a reload changed under the turn gets its reap.
use signal_hermes_router.Prelude.{
  ℕ, String, Bool, true, false, not, ◌&&◌, [], ◌∷◌, Option, none, some, if◌then◌else◌, ◌==◌, any,
}
use signal_hermes_router.Models.{
  SessionPolicy, persistent_route, persistent_sender, ephemeral, TurnOutcome,
}
use signal_hermes_router.Config.{Route, find_route_by_key}
use signal_hermes_router.RateLimit.{TokenBucket, refund}
use signal_hermes_router.Router.State.{
  Router, Outside, RoutedTurnInput, Progress, Attempt, reaps, emit, key_of,
}
use signal_hermes_router.Router.Breaker.{is_active}
use signal_hermes_router.Router.Turn.Claims.{finalize_claims, or_raised}

abbrev pub refunded : ℕ → Option TokenBucket → Option TokenBucket
refunded one none = none
refunded one (some b) = some (refund one b)

-- The object that `id` refers to is changed.
abbrev pub update_bucket :
    ℕ
    → (Option TokenBucket → Option TokenBucket)
    → (ℕ → Option TokenBucket)
    → ℕ
    → Option TokenBucket
update_bucket id f heap i = if i == id then f (heap i) else heap i

abbrev pub give_back : ℕ → Option ℕ → Bool → Router → Router
give_back one none prompted r = r
give_back one (some id) true r = r
give_back one (some id) false r = record r { buckets = update_bucket id (refunded one) r.buckets }

abbrev same_policy : SessionPolicy → SessionPolicy → Bool
same_policy persistent_route persistent_route = true
same_policy persistent_sender persistent_sender = true
same_policy ephemeral ephemeral = true
same_policy _ _ = false

abbrev reap_for : String → Route → Option Route → Progress → Progress
reap_for k route none t = emit (reaps []) t
reap_for k route (some current) t =
    if not (is_active current.state)
    then emit (reaps []) t
    else if same_policy current.session_policy route.session_policy
    then t
    else emit (reaps (k ∷ [])) t

unfoldable pub self_heal : Outside → RoutedTurnInput → Progress → Progress
self_heal o turn t =
    if t.session_acquisition_attempted && not t.router.closing
    then reap_for (key_of o turn.route) turn.route
        (find_route_by_key (key_of o) t.router.config (key_of o turn.route)) t
    else t

abbrev settle_claims : Outside → Progress → Progress
settle_claims o t =
    let r = t.router in
    record t {
      router = record r {
        dedupe = finalize_claims o.finalize_fails t.handled r.clock_ms t.claimed r.dedupe;
      };
    }

-- The `finally` up to the reap.
abbrev pub settled : Outside → Progress → Progress
settled o t = settle_claims o (record t {
  router = give_back o.one_token t.rate_bucket t.prompt_attempted t.router;
  live_manifest_paths = [];
})

-- The reap comes only where no finalizer raised.
abbrev pub heal_unless : Bool → Outside → RoutedTurnInput → Progress → Progress
heal_unless true o turn t = t
heal_unless false o turn t = self_heal o turn t

unfoldable pub finish_turn :
    Outside → RoutedTurnInput → Attempt TurnOutcome × Progress → Attempt TurnOutcome × Progress
unfolding self_heal
finish_turn o turn (result, t) =
    let failed = any o.finalize_fails t.claimed in
    (or_raised failed result, heal_unless failed o turn (settled o t))
