-- ===== src/Router/Turn.antt =====
-- router.py: `_run_turn`, stage by stage. Each stage is the rest of the method from its point on.
pub mod Claims
pub mod Body
pub mod Finish
use signal_hermes_router.Prelude.{String, Bool, Option, none, some}
use signal_hermes_router.Models.{TurnOutcome}
use signal_hermes_router.Router.State.{Router, Outside, RoutedTurnInput, Progress, Attempt, start}
use Claims.{claim_all}
use Body.{claimed_turn}
use Finish.{finish_turn}

-- `_run_turn`: the `try` with its claims, and the `finally`.
unfoldable pub run_turn : Outside → RoutedTurnInput → Router → Attempt TurnOutcome × Progress
run_turn o turn r = finish_turn o turn (claimed_turn o turn (claim_all o turn (start r)))
