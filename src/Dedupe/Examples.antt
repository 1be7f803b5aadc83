-- ===== src/Dedupe/Examples.antt =====
-- Runs of the dedupe store: two claims of one event, its mark, a pruning, and a close in the middle.
use signal_hermes_router.Prelude.{
  ℕ, ◌+◌, ◌≤◌, ◌≡◌, refl, inl, Bool, true, false, none, some, List, [], ◌∷◌, length, arith,
}
use signal_hermes_router.Dedupe.Rows.{Identity, Row, handled, key_eq, select_row, select_handled}
use signal_hermes_router.Dedupe.View.{IsKeyed}
use signal_hermes_router.Dedupe.Prune.{prune_rows, live, prune_rows-keeps, prune_rows_complete}
use signal_hermes_router.Dedupe.Handoff.{
  Lifecycle, opened, begin_turn, begin_sweep, close, end_all, begins, closes, here, next, IsSound,
  Reach-IsSound, close_deferred,
}
use signal_hermes_router.Dedupe.Refine.{phase, answered, Runs, run-Runs}
use signal_hermes_router.Dedupe.History.{
  Call, claims, marks, releases, prunes, wins, run, single_winner, handled_final,
}

abbrev first_event : Identity
first_event = record { route_key = "signal:g"; source_uuid = "u"; timestamp = 7 }

abbrev other_event : Identity
other_event = record { route_key = "signal:g"; source_uuid = "u"; timestamp = 8 }

abbrev old_row : Row
old_row = record { key = other_event; status = handled; updated_at_ms = 3 }

abbrev done_row : Row
done_row = record { key = first_event; status = handled; updated_at_ms = 12 }

abbrev never : ℕ → Bool
never i = false

abbrev calls : List Call
calls =
    claims first_event 10
    ∷ claims first_event 11
    ∷ releases other_event
    ∷ marks first_event 12
    ∷ prunes 5 never
    ∷ claims first_event 13
    ∷ []

old_row-IsKeyed : IsKeyed (old_row ∷ [])
unfolding select_row
old_row-IsKeyed = (refl, tt)

both-IsKeyed : IsKeyed (done_row ∷ old_row ∷ [])
unfolding select_row key_eq
both-IsKeyed = (refl, (refl, tt))

single_winner_example : wins first_event calls (old_row ∷ []) ≤ 1
unfolding key_eq
single_winner_example =
    single_winner 5 first_event calls (old_row ∷ []) old_row-IsKeyed (ground arith)
      (tt, (tt, (refl, (tt, (tt, (tt, tt))))))

handled_final_example :
    (wins first_event calls (done_row ∷ old_row ∷ []) ≡ 0)
    × (select_handled first_event (run calls (done_row ∷ old_row ∷ [])) ≡ true)
unfolding select_row key_eq
handled_final_example =
    handled_final 5 first_event calls (done_row ∷ old_row ∷ []) both-IsKeyed (ground arith) refl

prune_rows-keeps_example :
    (out : List Row × ℕ) × (prune_rows 5 never (done_row ∷ old_row ∷ []) ≡ some out)
    × (live 5 out.0 ≡ live 5 (done_row ∷ old_row ∷ []))
    × (length out.0 + out.1 ≡ 2)
prune_rows-keeps_example = prune_rows-keeps 5 never (done_row ∷ old_row ∷ [])

prune_rows_complete_example :
    (n : ℕ) × (prune_rows 5 never (done_row ∷ old_row ∷ []) ≡ some (done_row ∷ [], n))
prune_rows_complete_example = prune_rows_complete 5 never (done_row ∷ old_row ∷ []) (λ i. refl)

-- One operation in flight.
abbrev busy : Lifecycle
busy = record { active_operations = 1; close_requested = false; closed = false; db_closes = 0 }

opened-IsSound : IsSound opened
opened-IsSound = record {
  idle_when_closed = inl refl;
  pending_has_owner = inl refl;
  closed_once = refl;
}

begun : begin_turn opened ≡ some busy
unfolding begin_turn
begun = refl

Reach-IsSound_example : IsSound (close busy).0
Reach-IsSound_example =
    Reach-IsSound opened-IsSound (next (next here (begins opened begun)) (closes busy))

close_deferred_example :
    ((close busy).1 ≡ false)
    × (begin_turn (close busy).0 ≡ none)
    × (begin_sweep (close busy).0 ≡ ((close busy).0, false))
    × ((close busy).0.closed ≡ false)
    × ((end_all 1 (close busy).0).closed ≡ true)
close_deferred_example = close_deferred busy refl (omega arith)

run-Runs_example :
    Runs first_event
      (answered calls (old_row ∷ []))
      (phase first_event (old_row ∷ []))
      (phase first_event (run calls (old_row ∷ [])))
run-Runs_example = run-Runs first_event calls (old_row ∷ []) old_row-IsKeyed
