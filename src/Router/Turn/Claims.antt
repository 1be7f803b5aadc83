-- ===== src/Router/Turn/Claims.antt =====
-- router.py: the dedupe identities of a turn, their claims and their finalization.
use signal_hermes_router.Prelude.{
  ℕ, String, Bool, true, false, List, [], ◌∷◌, ◌++◌, Option, none, some, if◌then◌else◌,
}
use signal_hermes_router.Dedupe.Rows.{Identity, Row, insert_claim, upsert_handled, delete_claim}
use signal_hermes_router.Failures.{other_exception}
use signal_hermes_router.Router.State.{
  Outside, RoutedTurnInput, Progress, Raise, Attempt, ok, raises, exception, claim, await, key_of,
}

abbrev identity : String → String × ℕ → Identity
identity key (sender_id, timestamp) = record {
  route_key = key;
  source_uuid = sender_id;
  timestamp = timestamp;
}

abbrev secondary : String → Option (String × ℕ) → List Identity
secondary key none = []
secondary key (some d) = identity key d ∷ []

-- `_turn_dedupe_identities`, with the route's key that every use adds.
unfoldable pub turn_dedupe_identities : Outside → RoutedTurnInput → List Identity
turn_dedupe_identities o turn =
    identity (key_of o turn.route) (turn.dedupe_sender_id, turn.dedupe_timestamp)
    ∷ secondary (key_of o turn.route) turn.secondary_dedupe

abbrev pub claimed_row : Identity → Bool → Progress → Progress
claimed_row k won t = if won then record t { claimed = t.claimed ++ k ∷ [] } else t

abbrev pub claim_worker : Outside → Identity → Option Raise → Progress → Attempt Bool × Progress
claim_worker o k (some r) t = (raises r, await o (claim k) t)
claim_worker o k none t =
    let (rows, won) = insert_claim k t.router.clock_ms t.router.dedupe in
    (
      ok won,
      claimed_row k won
          (await o (claim k) (record t { router = record t.router { dedupe = rows } })),
    )

-- `_claim_dedupe_identity`. A claim that is cancelled while its worker runs is released when the
-- worker ends, and one that raises has written nothing: both leave no row.
unfoldable pub claim_identity : Outside → Identity → Progress → Attempt Bool × Progress
claim_identity o k t = claim_worker o k (o.claim_raises k) t

abbrev pub claim_next : Attempt Bool × Progress → Attempt Bool × Progress → Attempt Bool × Progress
claim_next (ok true, t) rest = rest
claim_next (ok false, t) rest = (ok false, t)
claim_next (raises r, t) rest = (raises r, t)

-- The claim loop: whether all identities were claimed.
unfoldable pub claim_each : Outside → List Identity → Progress → Attempt Bool × Progress
claim_each o [] t = (ok true, t)
claim_each o (k ∷ ks) t =
    let step = claim_identity o k t in claim_next step (claim_each o ks step.1)

unfoldable pub claim_all : Outside → RoutedTurnInput → Progress → Attempt Bool × Progress
unfolding claim_each turn_dedupe_identities
claim_all o turn t = claim_each o (turn_dedupe_identities o turn) t

abbrev pub finalize_claim : Bool → Bool → ℕ → Identity → List Row → List Row
finalize_claim true handled now k rows = rows
finalize_claim false handled now k rows =
    if handled then upsert_handled k now rows else delete_claim k rows

-- The statements that `_finalize_dedupe_claims` dispatches, all of them before it waits for any. One
-- that raises (`fails`) has written nothing.
unfoldable pub finalize_claims : (Identity → Bool) → Bool → ℕ → List Identity → List Row → List Row
finalize_claims fails handled now [] rows = rows
finalize_claims fails handled now (k ∷ ks) rows =
    finalize_claims fails handled now ks (finalize_claim (fails k) handled now k rows)

-- `_finalize_dedupe_claims` raises what a statement raised, in place of the result.
abbrev pub or_raised {ℓ} : {A : Type ℓ} → Bool → Attempt A → Attempt A
or_raised true result = raises (exception (other_exception []))
or_raised false result = result
