-- ===== src/Dedupe/Refine.antt =====
-- dedupe.py: the table against an abstract store, in which an identity is free, claimed, or done
-- at some time.
use signal_hermes_router.Prelude.{
  ℕ, suc, zero, ◌+◌, ◌<◌, ◌≡◌, refl, ◌∙◌, ◌⊎◌, inl, inr, Bool, true, false, not, ◌&&◌, List, [],
  ◌∷◌, Option, none, some, ltb, leb, Bool-cases, Option-cases, arith, length,
}
use signal_hermes_router.Dedupe.Rows.{
  Identity, Row, Status, processing, handled, key_eq, key_eq_iff, select_row, insert_claim,
  delete_expired, expired, is_processing, is_handled_status,
}
use signal_hermes_router.Dedupe.View.{
  IsKeyed, filter_row, key_eq_refl, select_row-insert_claim, select_row-upsert_handled,
  select_row-delete_claim,
}
use signal_hermes_router.Dedupe.Prune.{
  prune_loop, prune_rows, prune_chunk_rows, select_row-delete_expired-none, delete_expired-IsKeyed,
  prune_rows-Pruned, Pruned-select_row,
}
use signal_hermes_router.Dedupe.History.{
  Call, claims, marks, releases, prunes, step, run, step-IsKeyed,
}

-- The abstract store knows of an identity only this.
pub data Phase : Type 0 where
  free claimed : Phase
  done : ℕ → Phase

abbrev phase_of_row : Status → ℕ → Phase
phase_of_row processing at = claimed
phase_of_row handled at = done at

abbrev pub phase_of : Option Row → Phase
phase_of none = free
phase_of (some r) = phase_of_row r.status r.updated_at_ms

-- What the table says of an identity.
abbrev pub phase : Identity → List Row → Phase
phase k rows = phase_of (select_row k rows)

abbrev pub is_free : Phase → Bool
is_free free = true
is_free claimed = false
is_free (done at) = false

abbrev pub claim_phase : Phase → Phase
claim_phase free = claimed
claim_phase claimed = claimed
claim_phase (done at) = done at

abbrev pub release_phase : Phase → Phase
release_phase free = free
release_phase claimed = free
release_phase (done at) = done at

-- The abstract store's part in a call: only the calls of an identity, and the prunings, move it, and
-- a claim of it answers whether it was free. A pruning may free what was done before its cutoff.
abbrev pub Allowed : Identity → Call → Bool → Phase → Phase → Type 0
Allowed k (claims j now) answer p q =
    ((key_eq j k ≡ true) × (answer ≡ is_free p) × (q ≡ claim_phase p))
    ⊎ ((key_eq j k ≡ false) × (q ≡ p))
Allowed k (marks j now) answer p q =
    ((key_eq j k ≡ true) × (q ≡ done now)) ⊎ ((key_eq j k ≡ false) × (q ≡ p))
Allowed k (releases j) answer p q =
    ((key_eq j k ≡ true) × (q ≡ release_phase p)) ⊎ ((key_eq j k ≡ false) × (q ≡ p))
Allowed k (prunes cutoff stop) answer p q =
    (q ≡ p) ⊎ ((at : ℕ) × (p ≡ done at) × (at < cutoff) × (q ≡ free))

-- What the call answers; only a claim has an answer.
abbrev pub answer : Call → List Row → Bool
answer (claims j now) rows = (insert_claim j now rows).1
answer _ rows = false

-- A history of calls and answers takes the abstract store from a phase to another.
abbrev pub Runs : Identity → List (Call × Bool) → Phase → Phase → Type 0
Runs k [] p q = p ≡ q
Runs k ((c, b) ∷ cs) p q = (m : Phase) × Allowed k c b p m × Runs k cs m q

-- The calls with what the table answers.
unfoldable pub answered : List Call → List Row → List (Call × Bool)
answered [] rows = []
answered (c ∷ cs) rows = (c, answer c rows) ∷ answered cs (step c rows)

expired_phase :
    (cutoff : ℕ) (s : Status) (at : ℕ)
    → (is_handled_status s && ltb at cutoff) ≡ true
    → (t : ℕ) × (phase_of_row s at ≡ done t) × (t < cutoff)
expired_phase cutoff processing at h = cc
expired_phase cutoff handled at h = (at, refl, ground arith)

is_free-claim_phase :
    (s : Status) (at : ℕ)
    → (false ≡ is_free (phase_of_row s at)) × (phase_of_row s at ≡ claim_phase (phase_of_row s at))
is_free-claim_phase processing at = (refl, refl)
is_free-claim_phase handled at = (refl, refl)

release_phase-row :
    (r : Row) (s : Status)
    → r.status ≡ s
    → phase_of (filter_row (λ x. not (is_processing x.status)) (some r))
      ≡ release_phase (phase_of (some r))
release_phase-row r processing e = rw e refl
release_phase-row r handled e = rw e refl

freed :
    (o : Option Row)
    → phase_of (filter_row (λ r. not (is_processing r.status)) o) ≡ release_phase (phase_of o)
freed none = refl
freed (some r) = release_phase-row r r.status refl

unmoved : (o : Option Row) → phase_of (filter_row (λ r. true) o) ≡ phase_of o
unmoved none = refl
unmoved (some r) = refl

same_rows : {a b : List Row × ℕ} → some a ≡ some b → b.0 ≡ a.0
same_rows e = cc

module _ (k : Identity) where
  Kept : List Row → List Row → Type 0
  Kept rows out = (select_row k out ≡ none) ⊎ (select_row k out ≡ select_row k rows)

  delete_expired-Kept :
      (cutoff n : ℕ) (rows : List Row) → IsKeyed rows → Kept rows (delete_expired cutoff n rows).0
  unfolding delete_expired select_row Kept
  delete_expired-Kept cutoff zero rows u = inr refl
  delete_expired-Kept cutoff (suc n) [] u = inr refl
  delete_expired-Kept cutoff (suc n) (r ∷ rs) u = elim (Bool-cases (expired cutoff r)) [
    | inl old ↦ elim (Bool-cases (key_eq r.key k)) [
      | inl same ↦
          let e : r.key ≡ k = (key_eq_iff r.key k).0 same in
          inl (rw old (select_row-delete_expired-none cutoff k n rs (rw e at u.0)))
      | inr other ↦ rw (old, other) (delete_expired-Kept cutoff n rs u.1)
    ]
    | inr young ↦ elim (Bool-cases (key_eq r.key k)) [
      | inl same ↦ inr (rw (young, same) refl)
      | inr other ↦ rw (young, other) (delete_expired-Kept cutoff (suc n) rs u.1)
    ]
  ]

  via : (rows mid out : List Row) → Kept rows mid → Kept mid out → Kept rows out
  unfolding Kept
  via rows mid out h (inl e) = inl e
  via rows mid out (inl h) (inr e) = inl (e ∙ h)
  via rows mid out (inr h) (inr e) = inr (e ∙ h)

  prune_loop-Kept :
      (fuel chunk cutoff : ℕ) (stop : ℕ → Bool) (i : ℕ) (rows : List Row) (total : ℕ)
      (out : List Row × ℕ)
      → IsKeyed rows
      → prune_loop fuel chunk cutoff stop i rows total ≡ some out
      → Kept rows out.0
  unfolding prune_loop Kept
  prune_loop-Kept zero chunk cutoff stop i rows total out u e = cc
  prune_loop-Kept (suc fuel) chunk cutoff stop i rows total out u e =
      let kept = delete_expired-Kept cutoff chunk rows u in
      let rows' = (delete_expired cutoff chunk rows).0 in
      elim (Bool-cases (stop i)) [
        | inl stopped ↦ rw (same_rows (rw stopped at e)) (inr refl)
        | inr going ↦ elim (Bool-cases (leb (delete_expired cutoff chunk rows).1 0)) [
          | inl over ↦ rw (same_rows (rw (going, over) at e)) kept
          | inr more ↦ via rows rows' out.0 kept (
              prune_loop-Kept fuel chunk cutoff stop (suc i) rows'
                (total + (delete_expired cutoff chunk rows).1) out
                (delete_expired-IsKeyed cutoff chunk rows u) (rw (going, more) at e))
        ]
      ]

  expired-done :
      (cutoff : ℕ) (r : Row)
      → expired cutoff r ≡ true
      → (at : ℕ) × (phase_of (some r) ≡ done at) × (at < cutoff)
  expired-done cutoff r h = expired_phase cutoff r.status r.updated_at_ms h

  pruned_phase :
      (cutoff : ℕ) (o : Option Row) (q : Option Row)
      → ((r : Row) → o ≡ some r → expired cutoff r ≡ false → q ≡ some r)
      → (q ≡ none) ⊎ (q ≡ o)
      → (phase_of q ≡ phase_of o)
        ⊎ ((at : ℕ) × (phase_of o ≡ done at) × (at < cutoff) × (phase_of q ≡ free))
  pruned_phase cutoff o q young (inr same) = inl (rw same refl)
  pruned_phase cutoff none q young (inl gone) = inl (rw gone refl)
  pruned_phase cutoff (some r) q young (inl gone) = elim (Bool-cases (expired cutoff r)) [
    | inl old ↦ let (at, e, lt) = expired-done cutoff r old in inr (at, e, lt, rw gone refl)
    | inr fresh ↦ cc (gone, young r refl fresh)
  ]

  prune-Allowed :
      (cutoff : ℕ) (stop : ℕ → Bool) (rows : List Row)
      → IsKeyed rows
      → Allowed k
          (prunes cutoff stop)
          false
          (phase k rows)
          (phase k (step (prunes cutoff stop) rows))
  unfolding step prune_rows Kept
  prune-Allowed cutoff stop rows u =
      let (out, e, v) = prune_rows-Pruned cutoff stop rows in
      rw e (
        pruned_phase cutoff (select_row k rows) (select_row k out.0)
          (λ r er y. Pruned-select_row cutoff stop rows 0 out k u v er y)
          (prune_loop-Kept (suc (length rows)) prune_chunk_rows cutoff stop 0 rows 0 out u e))

  own_claim :
      (j : Identity) (now : ℕ) (rows : List Row)
      → key_eq j k ≡ true
      → ((insert_claim j now rows).1 ≡ is_free (phase k rows))
        × (phase k (insert_claim j now rows).0 ≡ claim_phase (phase k rows))
  unfolding insert_claim select_row
  own_claim j now rows own =
      let e : j ≡ k = (key_eq_iff j k).0 own in
      elim (Option-cases (select_row k rows)) [
        | inl absent ↦ rw (e, absent, key_eq_refl k) (refl, refl)
        | inr (r, found) ↦ rw (e, found, found) (is_free-claim_phase r.status r.updated_at_ms)
      ]

  step-Allowed :
      (c : Call) (rows : List Row)
      → IsKeyed rows
      → Allowed k c (answer c rows) (phase k rows) (phase k (step c rows))
  unfolding step insert_claim
  step-Allowed (claims j now) rows u = elim (Bool-cases (key_eq j k)) [
    | inl own ↦ let (a, q) = own_claim j now rows own in inl (own, a, q)
    | inr other ↦ inr (other, ground (arith, select_row-insert_claim j k now rows))
  ]
  step-Allowed (marks j now) rows u = ground (arith, select_row-upsert_handled j k now rows)
  step-Allowed (releases j) rows u = elim (Bool-cases (key_eq j k)) [
    | inl own ↦ inl (own, rw (select_row-delete_claim j k rows u, own) (freed (select_row k rows)))
    | inr other ↦
        inr (other, rw (select_row-delete_claim j k rows u, other) (unmoved (select_row k rows)))
  ]
  step-Allowed (prunes cutoff stop) rows u = prune-Allowed cutoff stop rows u

  -- Over any history of calls, from a table with one row at most for each identity, the table does
  -- to each identity what the abstract store does, with the same answers: an identity is free,
  -- claimed or done; a claim of it answers whether it was free and claims it then; a mark makes it
  -- done; a release frees it if it was claimed; a pruning may free it if it was done before the
  -- cutoff; and no other call moves it.
  pub run-Runs :
      (cs : List Call) (rows : List Row)
      → IsKeyed rows
      → Runs k (answered cs rows) (phase k rows) (phase k (run cs rows))
  unfolding answered run
  run-Runs [] rows u = refl
  run-Runs (c ∷ cs) rows u = (
    phase k (step c rows),
    step-Allowed c rows u,
    run-Runs cs (step c rows) (step-IsKeyed c rows u),
  )
