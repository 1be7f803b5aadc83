-- ===== src/Router/Intake/Fresh.antt =====
-- router.py: which Signal events reach a turn, and what becomes of the skipped ones.
use signal_hermes_router.Prelude.{
  ◌≡◌, refl, ◌⊎◌, inl, inr, true, false, Option, none, some, or_else, Bool-cases,
}
use Prim.Native.String.{String}
use signal_hermes_router.Models.{NormalizedEvent}
use signal_hermes_router.Config.{Route, find_route_for_event}
use signal_hermes_router.Dedupe.Rows.{Identity}
use signal_hermes_router.Router.State.{Router, Outside, RoutedTurnInput, Progress, start}
use signal_hermes_router.Router.Turn.Claims.{claim_all}
use signal_hermes_router.Router.Same.{claim_all-SameAttempts}
use signal_hermes_router.Router.Won.{listed}
use signal_hermes_router.Router.Settled.{IsSettled, finalize-settles}
use signal_hermes_router.Router.Intake.{
  Admission, Waits, signal_turn_input, is_empty_signal_event, is_stale_signal_event,
  mark_signal_turn_skipped, run_signal_turn_gated, under_route_lock, on_route, handle_event,
  won_all, signal_turn, routed_sender_id, session_sender_id,
}

-- Neither a session nor a prompt was attempted.
abbrev pub Idle : Progress → Type 0
Idle t = (t.prompt_attempted ≡ false) × (t.session_acquisition_attempted ≡ false)

module _ (o : Outside) where
  skipped-Idle : (turn : RoutedTurnInput) (r : Router) → Idle (mark_signal_turn_skipped o turn r).1
  unfolding mark_signal_turn_skipped
  skipped-Idle turn r =
      let same = claim_all-SameAttempts o turn (start r) in (same.prompt_same, same.session_same)

  -- A skipped event leaves nothing in processing: its identity is marked handled if the skip claimed
  -- it and ran to its end, and otherwise no row of what it claimed is left in processing, unless the
  -- finalizer raises.
  pub mark_signal_turn_skipped-settles :
      (turn : RoutedTurnInput) (r : Router) (k : Identity)
      → listed k (mark_signal_turn_skipped o turn r).1.claimed ≡ true
      → o.finalize_fails k ≡ false
      → IsSettled
          (won_all (claim_all o turn (start r)).0)
          k
          (mark_signal_turn_skipped o turn r).1.router.dedupe
  unfolding mark_signal_turn_skipped
  mark_signal_turn_skipped-settles turn r k h runs =
      let (won, t) = claim_all o turn (start r) in
      finalize-settles o.finalize_fails (won_all won) t.router.clock_ms t.claimed t.router.dedupe k
        h runs

  module _ (w : Waits) (e : NormalizedEvent) where
    -- The route takes the event's turn when nothing makes the router skip it.
    abbrev pub Fresh : Route → Router → Type 0
    Fresh route r =
        (is_empty_signal_event e ≡ false)
        × (is_stale_signal_event route e (w.route_lock r) ≡ false)
        × (is_stale_signal_event route e (w.gate (w.route_lock r)) ≡ false)

    gated-Fresh :
        (turn : RoutedTurnInput) (r : Router)
        → Idle (run_signal_turn_gated o w e turn r).1
          ⊎ (is_stale_signal_event turn.route e (w.gate r) ≡ false)
    unfolding run_signal_turn_gated
    gated-Fresh turn r = elim (Bool-cases (is_stale_signal_event turn.route e (w.gate r))) [
      | inl stale ↦ inl (rw stale (skipped-Idle turn (w.gate r)))
      | inr fresh ↦ inr fresh
    ]

    turn-Fresh :
        (turn : RoutedTurnInput) (r : Router)
        → Idle (under_route_lock o w e (some turn) r).1 ⊎ Fresh turn.route r
    turn-Fresh turn r =
        let r' = w.route_lock r in
        elim (Bool-cases (is_empty_signal_event e)) [
          | inl none_there ↦ inl (rw none_there (skipped-Idle turn r'))
          | inr full ↦ elim (Bool-cases (is_stale_signal_event turn.route e r')) [
            | inl stale ↦ inl (rw (full, stale) (skipped-Idle turn r'))
            | inr fresh ↦ elim (gated-Fresh turn r') [
              | inl idle ↦ inl (rw (full, fresh) idle)
              | inr still ↦ inr (full, fresh, still)
            ]
          ]
        ]

    input-Fresh :
        (a : Admission) (route : Route) (r r0 : Router) (routed session : Option String)
        → Idle (under_route_lock o w e (signal_turn o a route e r0 routed session) r).1
          ⊎ Fresh route r
    input-Fresh a route r r0 none session = inl (refl, refl)
    input-Fresh a route r r0 (some d) none = inl (refl, refl)
    input-Fresh a route r r0 (some d) (some s) = turn-Fresh _ r

    route-Fresh :
        (a : Admission) (found : Option Route) (r : Router)
        → Idle (on_route o w a e found r).1
          ⊎ ((route : Route) × (found ≡ some route) × Fresh route r)
    unfolding signal_turn_input
    route-Fresh a none r = inl (refl, refl)
    route-Fresh a (some route) r =
        elim (input-Fresh a route r r (routed_sender_id route e) (session_sender_id route e)) [
          | inl idle ↦ inl idle
          | inr fresh ↦ inr (route, refl, fresh)
        ]

    -- An event attempts neither a session nor a prompt, or a route is configured for it in the
    -- configuration that admitted it, the event is not empty, and it is stale neither when its turn
    -- has the route's lock nor, after every other wait, at the point where the turn runs.
    pub handle_event-Fresh :
        (a : Admission) (r : Router)
        → Idle (handle_event o w a e r).1
          ⊎ ((route : Route) × (find_route_for_event (or_else a.config r.config) e ≡ some route)
              × Fresh route r)
    unfolding handle_event
    handle_event-Fresh a r = route-Fresh a (find_route_for_event (or_else a.config r.config) e) r
