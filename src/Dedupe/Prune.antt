-- ===== src/Dedupe/Prune.antt =====
-- dedupe.py: `prune_handled_before`, the chunked deletion of old handled rows.
use signal_hermes_router.Prelude.{
  ℕ, zero, suc, ◌+◌, ◌<◌, ◌≡◌, refl, sym, ap, ◌∙◌, inl, inr, Bool, false, not, List, [], ◌∷◌,
  Option, none, some, arith, length, keep, leb, Bool-cases, if◌then◌else◌,
}
use signal_hermes_router.Dedupe.Rows.{Identity, Row, expired, select_row, delete_expired}
use signal_hermes_router.Dedupe.View.{IsKeyed, filter_row, select_row-keep}

-- The rows that pruning at `cutoff` is to leave.
abbrev pub live : ℕ → List Row → List Row
live cutoff = keep (λ r. not (expired cutoff r))

-- The `while True` of `prune_handled_before`: `stop` answers the test of `_close_requested` before
-- each chunk, by the number of chunks done. The result is the table and the total; `none` means
-- that the fuel ran out.
unfoldable pub prune_loop : ℕ → ℕ → ℕ → (ℕ → Bool) → ℕ → List Row → ℕ → Option (List Row × ℕ)
prune_loop zero chunk cutoff stop i rows total = none
prune_loop (suc fuel) chunk cutoff stop i rows total =
    let (rows', n) = delete_expired cutoff chunk rows in
    let rest = prune_loop fuel chunk cutoff stop (suc i) rows' (total + n) in
    if stop i then some (rows, total) else if leb n 0 then some (rows', total) else rest

-- PRUNE_CHUNK_ROWS
abbrev pub prune_chunk_rows : ℕ
prune_chunk_rows = 1000

-- Each round but the last deletes a row, so the number of rows bounds the rounds.
unfoldable pub prune_rows : ℕ → (ℕ → Bool) → List Row → Option (List Row × ℕ)
unfolding prune_loop
prune_rows cutoff stop rows = prune_loop (suc (length rows)) prune_chunk_rows cutoff stop 0 rows 0

filter_row-some : (p : Row → Bool) (o : Option Row) {r : Row} → filter_row p o ≡ some r → o ≡ some r
filter_row-some p none h = h
filter_row-some p (some x) h = ground arith

module _ (cutoff : ℕ) where
  -- A chunk takes expired rows only, and counts what it takes.
  live-delete_expired :
      (n : ℕ) (rows : List Row) → live cutoff (delete_expired cutoff n rows).0 ≡ live cutoff rows
  unfolding delete_expired
  live-delete_expired zero rows = refl
  live-delete_expired (suc n) [] = refl
  live-delete_expired (suc n) (r ∷ rs) = elim (Bool-cases (expired cutoff r)) [
    | inl old ↦ rw old (live-delete_expired n rs)
    | inr young ↦ rw (young, young) (ap (◌∷◌ r) (live-delete_expired (suc n) rs))
  ]

  length-delete_expired :
      (n : ℕ) (rows : List Row)
      → length (delete_expired cutoff n rows).0 + (delete_expired cutoff n rows).1 ≡ length rows
  unfolding delete_expired
  length-delete_expired zero rows = omega arith
  length-delete_expired (suc n) [] = omega arith
  length-delete_expired (suc n) (r ∷ rs) =
      ground (arith, length-delete_expired n rs, length-delete_expired (suc n) rs)

  -- A chunk that takes nothing leaves nothing to take.
  delete_expired_none :
      (n : ℕ) (rows : List Row)
      → (delete_expired cutoff (suc n) rows).1 ≡ 0
      → (delete_expired cutoff (suc n) rows).0 ≡ live cutoff rows
  unfolding delete_expired
  delete_expired_none n [] h = refl
  delete_expired_none n (r ∷ rs) h = ground (arith, delete_expired_none n rs)

  pub select_row-delete_expired-none :
      (k : Identity) (n : ℕ) (rows : List Row)
      → select_row k rows ≡ none
      → select_row k (delete_expired cutoff n rows).0 ≡ none
  unfolding delete_expired select_row
  select_row-delete_expired-none k zero rows h = h
  select_row-delete_expired-none k (suc n) [] h = refl
  select_row-delete_expired-none k (suc n) (r ∷ rs) h =
      ground
        (arith, select_row-delete_expired-none k n rs, select_row-delete_expired-none k (suc n) rs)

  pub delete_expired-IsKeyed :
      (n : ℕ) (rows : List Row) → IsKeyed rows → IsKeyed (delete_expired cutoff n rows).0
  unfolding delete_expired
  delete_expired-IsKeyed zero rows u = u
  delete_expired-IsKeyed (suc n) [] u = tt
  delete_expired-IsKeyed (suc n) (r ∷ rs) u = elim (Bool-cases (expired cutoff r)) [
    | inl old ↦ rw old (delete_expired-IsKeyed n rs u.1)
    | inr young ↦
        rw young (
          select_row-delete_expired-none r.key (suc n) rs u.0,
          delete_expired-IsKeyed (suc n) rs u.1,
        )
  ]

  -- What a pruning is to return: it has kept every row that is not expired, in place, it has
  -- counted the rows that it took, and where no close stops it, it has taken every expired row.
  pub record Pruned (stop : ℕ → Bool) (rows : List Row) (total : ℕ) (out : List Row × ℕ)
      : Type 0 where
    pub keeps : live cutoff out.0 ≡ live cutoff rows
    pub counts : length out.0 + out.1 ≡ length rows + total
    pub keyed : IsKeyed rows → IsKeyed out.0
    pub completes : ((i : ℕ) → stop i ≡ false) → out.0 ≡ live cutoff rows

  prune_loop-Pruned :
      (fuel n : ℕ) (stop : ℕ → Bool) (i : ℕ) (rows : List Row) (total : ℕ)
      → length rows < fuel
      → (out : List Row × ℕ) × (prune_loop fuel (suc n) cutoff stop i rows total ≡ some out)
        × Pruned stop rows total out
  unfolding prune_loop
  prune_loop-Pruned zero n stop i rows total h = absurd (omega arith)
  prune_loop-Pruned (suc fuel) n stop i rows total h = elim (Bool-cases (stop i)) [
    | inl stopped ↦ (
      (rows, total),
      rw stopped,
      record {
        keeps = refl;
        counts = refl;
        keyed = λ u. u;
        completes = λ never. cc (never i, stopped);
      },
    )
    | inr going ↦ elim (Bool-cases (leb (delete_expired cutoff (suc n) rows).1 0)) [
      | inl done ↦ (
        ((delete_expired cutoff (suc n) rows).0, total),
        rw (going, done),
        record {
          keeps = live-delete_expired (suc n) rows;
          counts = ground (arith, length-delete_expired (suc n) rows);
          keyed = delete_expired-IsKeyed (suc n) rows;
          completes = λ never. delete_expired_none n rows (ground arith);
        },
      )
      | inr more ↦
          let (out, e, v) =
            prune_loop-Pruned fuel n stop (suc i) (delete_expired cutoff (suc n) rows).0
              (total + (delete_expired cutoff (suc n) rows).1)
              (ground (arith, length-delete_expired (suc n) rows)) in
          (
            out,
            rw (going, more) e,
            record {
              keeps = v.keeps ∙ live-delete_expired (suc n) rows;
              counts = omega (arith, v.counts, length-delete_expired (suc n) rows);
              keyed = λ u. v.keyed (delete_expired-IsKeyed (suc n) rows u);
              completes = λ never. v.completes never ∙ live-delete_expired (suc n) rows;
            },
          )
    ]
  ]

  -- Pruning ends on every table, and returns what it is to return.
  pub prune_rows-Pruned :
      (stop : ℕ → Bool) (rows : List Row)
      → (out : List Row × ℕ) × (prune_rows cutoff stop rows ≡ some out) × Pruned stop rows 0 out
  unfolding prune_rows
  prune_rows-Pruned stop rows =
      prune_loop-Pruned (suc (length rows)) 999 stop 0 rows 0 (omega arith)

  -- A row that is not expired stays the row of its identity.
  pub Pruned-select_row :
      (stop : ℕ → Bool) (rows : List Row) (total : ℕ) (out : List Row × ℕ) (k : Identity) {r : Row}
      → IsKeyed rows
      → Pruned stop rows total out
      → select_row k rows ≡ some r
      → expired cutoff r ≡ false
      → select_row k out.0 ≡ some r
  Pruned-select_row stop rows total out k {r} u v e y =
      let young = λ (x : Row). not (expired cutoff x) in
      let same : filter_row young (select_row k out.0) ≡ filter_row young (select_row k rows) =
        sym (select_row-keep young k out.0 (v.keyed u))
        ∙ ap (select_row k) v.keeps
        ∙ select_row-keep young k rows u in
      filter_row-some young (select_row k out.0) (same ∙ rw (e, y))

  -- Pruning ends on every table, wherever a close stops it. It keeps every row that is not an old
  -- handled one, in its place, and it returns the number of rows that it took.
  pub prune_rows-keeps :
      (stop : ℕ → Bool) (rows : List Row)
      → (out : List Row × ℕ) × (prune_rows cutoff stop rows ≡ some out)
        × (live cutoff out.0 ≡ live cutoff rows)
        × (length out.0 + out.1 ≡ length rows)
  prune_rows-keeps stop rows =
      let (out, e, v) = prune_rows-Pruned stop rows in (out, e, v.keeps, omega (arith, v.counts))

  -- A pruning that no close stops leaves exactly the rows that are not handled ones older than the
  -- cutoff.
  pub prune_rows_complete :
      (stop : ℕ → Bool) (rows : List Row)
      → ((i : ℕ) → stop i ≡ false)
      → (n : ℕ) × (prune_rows cutoff stop rows ≡ some (live cutoff rows, n))
  prune_rows_complete stop rows never =
      let (out, e, v) = prune_rows-Pruned stop rows in
      (out.1, e ∙ ap (λ rs. some (rs, out.1)) (v.completes never))
