-- ===== src/Dedupe.antt =====
-- src/signal_hermes_router/dedupe.py: the store of claimed and handled event identities.
--
-- The table `dedupe_events` is the list of its rows; each SQL statement of a method is the function
-- on rows that it describes. `_active_operations`, `_close_requested` and `_closed` are the
-- lifecycle, and a method runs its statement between `begin` and `end`. The files, pragmas and
-- locks behind the connection are not modelled; a statement under `_lock` is one step.
pub mod Rows
pub mod View
pub mod Prune
pub mod Handoff
pub mod History
pub mod Refine
pub mod Examples
use signal_hermes_router.Prelude.{
  ℕ, ◌+◌, String, Bool, true, false, List, [], ◌∷◌, Option, none, some, if◌then◌else◌,
}
use Rows.{
  Identity, Row, Status, insert_claim, select_handled, select_status, upsert_handled, delete_claim,
  delete_processing, backfill,
}
use Handoff.{Lifecycle, opened, begin_turn, begin_sweep, end_operation}
use Prune.{prune_rows}

pub record DedupeStore : Type 0 where
  pub rows : List Row
  pub lifecycle : Lifecycle

pub data Outcome {ℓ} (A : Type ℓ) : Type ℓ where
  ok : A → Outcome A
  closing : Outcome A

abbrev finish {ℓ} : {A : Type ℓ} → Lifecycle → List Row × A → Outcome A × DedupeStore
finish l (rows, a) = (ok a, record { rows = rows; lifecycle = end_operation l })

-- `with self._turn_operation()` round one statement.
abbrev turn_operation {ℓ} :
    {A : Type ℓ} → (List Row → List Row × A) → DedupeStore → Outcome A × DedupeStore
turn_operation statement s = elim (begin_turn s.lifecycle) [
  | none ↦ (closing, s)
  | some l ↦ finish l (statement s.rows)
]

unfoldable pub claim : Identity → ℕ → DedupeStore → Outcome Bool × DedupeStore
claim key now = turn_operation (insert_claim key now)

unfoldable pub is_handled : Identity → DedupeStore → Outcome Bool × DedupeStore
is_handled key = turn_operation (λ rows. (rows, select_handled key rows))

unfoldable pub status : Identity → DedupeStore → Outcome (Option Status) × DedupeStore
status key = turn_operation (λ rows. (rows, select_status key rows))

unfoldable pub mark_handled : Identity → ℕ → DedupeStore → Outcome (Unit {0}) × DedupeStore
mark_handled key now = turn_operation (λ rows. (upsert_handled key now rows, tt))

unfoldable pub release : Identity → DedupeStore → Outcome (Unit {0}) × DedupeStore
release key = turn_operation (λ rows. (delete_claim key rows, tt))

-- The constructor's repairs of an existing table: zero retention clocks are set to now, and claims
-- that a dead process left behind are dropped.
unfoldable pub open_store : ℕ → List Row → DedupeStore
open_store now rows = record { rows = delete_processing (backfill now rows); lifecycle = opened }

abbrev swept : Lifecycle → Option (List Row × ℕ) → Option (ℕ × DedupeStore)
swept l none = none
swept l (some (rows, total)) = some (total, record { rows = rows; lifecycle = end_operation l })

-- `stop` is when other threads request a close, as in `prune_rows`, and `meanwhile` is what they do
-- to the lifecycle until the sweep ends. `none` would be a sweep that does not end.
unfoldable pub prune_handled_before :
    ℕ → (ℕ → Bool) → (Lifecycle → Lifecycle) → DedupeStore → Option (ℕ × DedupeStore)
prune_handled_before cutoff stop meanwhile s =
    let (l, started) = begin_sweep s.lifecycle in
    if started then swept (meanwhile l) (prune_rows cutoff stop s.rows) else some (0, s)
