-- ===== src/Dedupe/History.antt =====
-- dedupe.py over a history of calls: who wins the claims of one identity.
use signal_hermes_router.Prelude.{
  ℕ, ◌+◌, ◌≤◌, ◌≡◌, ◌≢◌, refl, ◌⊎◌, inl, inr, Bool, true, false, ◌&&◌, List, [], ◌∷◌, Option, none,
  some, arith, All, leb,
}
use signal_hermes_router.Dedupe.Rows.{
  Identity, Row, Status, processing, handled, key_eq, key_eq_iff, is_handled_status, expired,
  select_row, select_handled, insert_claim, upsert_handled, delete_claim,
}
use signal_hermes_router.Dedupe.View.{
  IsKeyed, keep-IsKeyed, select_row-insert_claim, insert_claim-IsKeyed, select_row-upsert_handled,
  upsert_handled-IsKeyed, select_row-delete_claim, select_handled-row,
}
use signal_hermes_router.Dedupe.Prune.{prune_rows, prune_rows-Pruned, Pruned-select_row}

-- One statement of some caller. A pruning may be stopped by a close.
pub data Call : Type 0 where
  claims marks : Identity → ℕ → Call
  releases : Identity → Call
  prunes : ℕ → (ℕ → Bool) → Call

abbrev rows_or : List Row → Option (List Row × ℕ) → List Row
rows_or rows none = rows
rows_or rows (some (out, n)) = out

unfoldable pub step : Call → List Row → List Row
step (claims k now) rows = (insert_claim k now rows).0
step (marks k now) rows = upsert_handled k now rows
step (releases k) rows = delete_claim k rows
step (prunes cutoff stop) rows = rows_or rows (prune_rows cutoff stop rows)

abbrev one_if : Bool → ℕ
one_if true = 1
one_if false = 0

-- 1 when the call is a claim of the identity that answers true.
abbrev win : Identity → Call → List Row → ℕ
win k (claims j now) rows = one_if (key_eq j k && (insert_claim j now rows).1)
win k (marks j now) rows = 0
win k (releases j) rows = 0
win k (prunes cutoff stop) rows = 0

-- How many claims of an identity answer true over a history of calls.
unfoldable pub wins : Identity → List Call → List Row → ℕ
unfolding step
wins k [] rows = 0
wins k (c ∷ cs) rows = win k c rows + wins k cs (step c rows)

unfoldable pub run : List Call → List Row → List Row
unfolding step
run [] rows = rows
run (c ∷ cs) rows = run cs (step c rows)

-- From `since` on: what is written is stamped no earlier, and no pruning reaches what is stamped so.
abbrev pub Within : ℕ → Call → Type 0
Within since (claims k now) = since ≤ now
Within since (marks k now) = since ≤ now
Within since (releases k) = Unit
Within since (prunes cutoff stop) = cutoff ≤ since

-- And no call releases the identity.
abbrev pub Unreleased : Identity → Call → Type 0
Unreleased k (claims j now) = Unit
Unreleased k (marks j now) = Unit
Unreleased k (releases j) = key_eq j k ≡ false
Unreleased k (prunes cutoff stop) = Unit

pub step-IsKeyed : (c : Call) (rows : List Row) → IsKeyed rows → IsKeyed (step c rows)
unfolding step delete_claim
step-IsKeyed (claims k now) rows u = insert_claim-IsKeyed k now rows u
step-IsKeyed (marks k now) rows u = upsert_handled-IsKeyed k now rows u
step-IsKeyed (releases k) rows u = keep-IsKeyed _ rows u
step-IsKeyed (prunes cutoff stop) rows u =
    let (out, e, v) = prune_rows-Pruned cutoff stop rows in rw e (v.keyed u)

abbrev held_status : ℕ → Status → ℕ → Bool
held_status since processing at = true
held_status since handled at = leb since at

-- The identity has a row that no pruning up to `since` takes.
abbrev held : ℕ → Option Row → Bool
held since none = false
held since (some r) = held_status since r.status r.updated_at_ms

-- It is handled, and no pruning up to `since` takes it.
abbrev settled : ℕ → Option Row → Bool
settled since none = false
settled since (some r) = is_handled_status r.status && leb since r.updated_at_ms

module _ (since : ℕ) (k : Identity) where
  -- Pruning keeps what a test keeps that holds of no expired row.
  prune-keeps :
      (test : Option Row → Bool) (cutoff : ℕ) (stop : ℕ → Bool) (rows : List Row) (o : Option Row)
      → IsKeyed rows
      → select_row k rows ≡ o
      → ((r : Row) → o ≡ some r → expired cutoff r ≡ false)
      → (o ≢ none)
      → test o ≡ true
      → test (select_row k (step (prunes cutoff stop) rows)) ≡ true
  unfolding step
  prune-keeps test cutoff stop rows none u e young s h = absurd (s refl)
  prune-keeps test cutoff stop rows (some r) u e young s h =
      let (out, e', v) = prune_rows-Pruned cutoff stop rows in
      rw (e', Pruned-select_row cutoff stop rows 0 out k u v e (young r refl)) h

  held_young :
      (cutoff : ℕ) (o : Option Row)
      → cutoff ≤ since
      → held since o ≡ true
      → (r : Row) → o ≡ some r
      → expired cutoff r ≡ false
  held_young cutoff o w h r e = ground arith

  settled-held : (o : Option Row) → settled since o ≡ true → held since o ≡ true
  settled-held none h = h
  settled-held (some r) h = ground arith

  step-held :
      (c : Call) (rows : List Row)
      → IsKeyed rows
      → Within since c
      → Unreleased k c
      → held since (select_row k rows) ≡ true
      → held since (select_row k (step c rows)) ≡ true
  unfolding step
  step-held (claims j now) rows u w n h = ground (arith, select_row-insert_claim j k now rows)
  step-held (marks j now) rows u w n h = ground (arith, select_row-upsert_handled j k now rows)
  step-held (releases j) rows u w n h = ground (arith, select_row-delete_claim j k rows u)
  step-held (prunes cutoff stop) rows u w n h =
      prune-keeps (held since) cutoff stop rows (select_row k rows) u refl
        (held_young cutoff (select_row k rows) w h) (λ e. cc (rw e at h)) h

  win-held : (c : Call) (rows : List Row) → held since (select_row k rows) ≡ true → win k c rows ≡ 0
  unfolding insert_claim
  win-held (claims j now) rows h = ground (arith, key_eq_iff j k)
  win-held (marks j now) rows h = refl
  win-held (releases j) rows h = refl
  win-held (prunes cutoff stop) rows h = refl

  wins-held :
      (cs : List Call) (rows : List Row)
      → IsKeyed rows
      → All (Within since) cs
      → All (Unreleased k) cs
      → held since (select_row k rows) ≡ true
      → wins k cs rows ≡ 0
  unfolding wins
  wins-held [] rows u w n h = refl
  wins-held (c ∷ cs) rows u w n h = omega (
    arith,
    win-held c rows h,
    wins-held cs (step c rows) (step-IsKeyed c rows u) w.1 n.1 (step-held c rows u w.0 n.0 h),
  )

  -- A claim that is won, or leaves its identity as it was.
  win_cases :
      (c : Call) (rows : List Row)
      → Within since c
      → (win k c rows ≡ 0) ⊎ ((win k c rows ≡ 1) × (held since (select_row k (step c rows)) ≡ true))
  unfolding step insert_claim
  win_cases (claims j now) rows w = ground (arith, select_row-insert_claim j k now rows)
  win_cases (marks j now) rows w = inl refl
  win_cases (releases j) rows w = inl refl
  win_cases (prunes cutoff stop) rows w = inl refl

  -- Over any history of claims, marks, releases and prunings, from a table with one row at most
  -- for each identity, in which nothing releases the identity and no pruning reaches back to what
  -- the history writes, at most one claim of it succeeds.
  pub single_winner :
      (cs : List Call) (rows : List Row)
      → IsKeyed rows
      → All (Within since) cs
      → All (Unreleased k) cs
      → wins k cs rows ≤ 1
  unfolding wins
  single_winner [] rows u w n = omega arith
  single_winner (c ∷ cs) rows u w n = elim (win_cases c rows w.0) [
    | inl lost ↦ omega (arith, lost, single_winner cs (step c rows) (step-IsKeyed c rows u) w.1 n.1)
    | inr (won, h) ↦
        omega (arith, won, wins-held cs (step c rows) (step-IsKeyed c rows u) w.1 n.1 h)
  ]

  step-settled :
      (c : Call) (rows : List Row)
      → IsKeyed rows
      → Within since c
      → settled since (select_row k rows) ≡ true
      → settled since (select_row k (step c rows)) ≡ true
  unfolding step
  step-settled (claims j now) rows u w h =
      ground (arith, select_row-insert_claim j k now rows, key_eq_iff j k)
  step-settled (marks j now) rows u w h = ground (arith, select_row-upsert_handled j k now rows)
  step-settled (releases j) rows u w h = ground (arith, select_row-delete_claim j k rows u)
  step-settled (prunes cutoff stop) rows u w h =
      prune-keeps (settled since) cutoff stop rows (select_row k rows) u refl
        (held_young cutoff (select_row k rows) w (settled-held (select_row k rows) h))
        (λ e. cc (rw e at h)) h

  -- In a table with one row at most for each identity, one that was marked handled at `since` or
  -- later stays handled and is never claimed again, whatever claims, marks and releases follow,
  -- while no pruning reaches that time and nothing is stamped before it.
  pub handled_final :
      (cs : List Call) (rows : List Row)
      → IsKeyed rows
      → All (Within since) cs
      → settled since (select_row k rows) ≡ true
      → (wins k cs rows ≡ 0) × (select_handled k (run cs rows) ≡ true)
  unfolding wins run
  handled_final [] rows u w h = (refl, ground (arith, select_handled-row k rows u))
  handled_final (c ∷ cs) rows u w h =
      let rest =
        handled_final cs (step c rows) (step-IsKeyed c rows u) w.1 (step-settled c rows u w.0 h) in
      (omega (arith, rest.0, win-held c rows (settled-held (select_row k rows) h)), rest.1)
