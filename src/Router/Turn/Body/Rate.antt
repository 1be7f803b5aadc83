-- ===== src/Router/Turn/Body/Rate.antt =====
-- router.py: `_reserve_inbound_rate_token`. The bucket's refill per millisecond is a whole number of
-- units when the unit of a token is a multiple of the window.
use signal_hermes_router.Prelude.{
  ℕ, suc, ◌*◌, ◌/◌, Bool, true, false, ◌&&◌, [], Option, none, some, str_eq, if◌then◌else◌, ◌==◌,
}
use signal_hermes_router.Failures.{other_exception}
use signal_hermes_router.Config.{Route, InboundRateLimit}
use signal_hermes_router.RateLimit.{TokenBucket, new, try_acquire}
use signal_hermes_router.Router.State.{
  Router, BucketKey, Outside, Attempt, ok, raises, exception, key_of,
}
use signal_hermes_router.Router.Turn.Finish.{update_bucket}

unfoldable pub rate_limit_bucket_key : Outside → Route → InboundRateLimit → BucketKey
rate_limit_bucket_key o route limit = record {
  route_key = key_of o route;
  max_turns = limit.max_turns;
  window_ms = limit.window_ms;
}

abbrev pub bucket_key_eq : BucketKey → BucketKey → Bool
bucket_key_eq a b =
    str_eq a.route_key b.route_key && ((a.max_turns == b.max_turns) && (a.window_ms == b.window_ms))

-- A new bucket object, under its key.
abbrev add_bucket : BucketKey → TokenBucket → Router → Router
add_bucket k b r = record r {
  inbound_rate_buckets =
      λ j. if bucket_key_eq k j then some r.next_bucket else r.inbound_rate_buckets j;
  buckets = update_bucket r.next_bucket (λ _. some b) r.buckets;
  next_bucket = suc r.next_bucket;
}

abbrev acquired : ℕ → TokenBucket × Bool → Router → Attempt (Option ℕ) × Router
acquired id (b, true) r =
    (ok (some id), record r { buckets = update_bucket id (λ _. some b) r.buckets })
acquired id (b, false) r =
    (ok none, record r { buckets = update_bucket id (λ _. some b) r.buckets })

-- A reference has its object.
abbrev acquire_from : Outside → ℕ → Option TokenBucket → Router → Attempt (Option ℕ) × Router
acquire_from o id none r = (raises (exception (other_exception [])), r)
acquire_from o id (some b) r = acquired id (try_acquire o.one_token r.clock_ms b) r

abbrev acquire_new : Outside → BucketKey → Option TokenBucket → Router → Attempt (Option ℕ) × Router
acquire_new o k none r = (raises (exception (other_exception [])), r)
acquire_new o k (some b) r = acquire_from o r.next_bucket (some b) (add_bucket k b r)

abbrev acquire_at :
    Outside → BucketKey → Option TokenBucket → Option ℕ → Router → Attempt (Option ℕ) × Router
acquire_at o k fresh none r = acquire_new o k fresh r
acquire_at o k fresh (some id) r = acquire_from o id (r.buckets id) r

-- The reference to the bucket that lent a token, or `none` where the cap is spent.
unfoldable pub reserve_inbound_rate_token :
    Outside → Route → InboundRateLimit → Router → Attempt (Option ℕ) × Router
unfolding rate_limit_bucket_key
reserve_inbound_rate_token o route limit r =
    let k = rate_limit_bucket_key o route limit in
    let fresh =
      new o.one_token (limit.max_turns * o.one_token)
        (limit.max_turns * o.one_token / limit.window_ms) in
    acquire_at o k fresh (r.inbound_rate_buckets k) r
