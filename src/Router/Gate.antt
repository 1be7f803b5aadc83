-- ===== src/Router/Gate.antt =====
-- router.py: when `_run_turn` reaches a session and the prompt.
use signal_hermes_router.Prelude.{
  ◌≡◌, refl, ◌⊎◌, inl, inr, Bool, true, false, String, List, [], Option, none, some, is_some,
  Bool-cases,
}
use signal_hermes_router.Models.{RouteState, shadow, active, maintenance, disabled}
use signal_hermes_router.Config.{InboundRateLimit}
use signal_hermes_router.Router.State.{
  Router, Outside, RoutedTurnInput, Progress, Attempt, ok, raises, start, await, media, emit,
  stores_media, or_default,
}
use signal_hermes_router.Router.Send.{send_once}
use signal_hermes_router.Router.Breaker.{effective_turn_state}
use signal_hermes_router.Router.Failure.{signal_send_failure}
use signal_hermes_router.Router.Turn.{run_turn}
use signal_hermes_router.Router.Turn.Claims.{claim_all}
use signal_hermes_router.Router.Turn.Body.{
  claimed_turn, gate_stage, gated, maintenance_stage, maintenance_sent, rate_stage, rate_limited,
  media_stage, media_stored, from_signal,
}
use signal_hermes_router.Router.Same.{
  SameAttempts, unchanged, SameAttempts_trans, send_once-SameAttempts, claim_all-SameAttempts,
  finish-SameAttempts,
}

module _ (o : Outside) (turn : RoutedTurnInput) where
  maintenance_sent-SameAttempts :
      (state : RouteState) (p : Attempt Bool × Progress)
      → SameAttempts p.1 (maintenance_sent o turn state p).1
  unfolding signal_send_failure
  maintenance_sent-SameAttempts state (raises r, t) = unchanged
  maintenance_sent-SameAttempts state (ok true, t) = record {
    prompt_same = refl;
    session_same = refl;
  }
  maintenance_sent-SameAttempts state (ok false, t) = record {
    prompt_same = refl;
    session_same = refl;
  }

  maintenance-SameAttempts :
      (state : RouteState) (t : Progress) → SameAttempts t (maintenance_stage o turn state t).1
  unfolding maintenance_stage
  maintenance-SameAttempts state t =
      let reply =
        or_default turn.route.maintenance_reply t.router.config.router.maintenance_reply in
      let p = send_once o turn.route reply [] t in
      SameAttempts_trans (send_once-SameAttempts o turn.route reply [] t)
        (maintenance_sent-SameAttempts state p)

  media_stored-shadow :
      (a : Attempt (List String)) (t : Progress) → SameAttempts t (media_stored o turn shadow a t).1
  media_stored-shadow (raises r) t = unchanged
  media_stored-shadow (ok paths) t = record { prompt_same = refl; session_same = refl }

  media_stage-shadow : (t : Progress) → SameAttempts t (media_stage o turn shadow t).1
  unfolding media_stage
  media_stage-shadow t = elim (Bool-cases (is_some turn.signal_event)) [
    | inl e ↦ rw e (
        SameAttempts_trans (record { prompt_same = refl; session_same = refl })
          (media_stored-shadow o.store_media (await o media (emit stores_media t))))
    | inr e ↦ rw e (media_stored-shadow (ok []) t)
  ]

  rate_limited-shadow :
      (limit : Option InboundRateLimit) (t : Progress)
      → SameAttempts t (rate_limited o turn shadow limit t).1
  rate_limited-shadow none t = media_stage-shadow t
  rate_limited-shadow (some limit) t = elim (Bool-cases (from_signal turn.origin)) [
    | inl e ↦ rw e (media_stage-shadow t)
    | inr e ↦ rw e (media_stage-shadow t)
  ]

  gated-SameAttempts :
      (state : RouteState) (t : Progress)
      → SameAttempts t (gated o turn state t).1 ⊎ (state ≡ active)
  unfolding rate_stage
  gated-SameAttempts disabled t = inl (record { prompt_same = refl; session_same = refl })
  gated-SameAttempts maintenance t = inl (maintenance-SameAttempts maintenance t)
  gated-SameAttempts active t = inr refl
  gated-SameAttempts shadow t = inl (rate_limited-shadow turn.route.inbound_rate_limit t)

  claimed-SameAttempts :
      (p : Attempt Bool × Progress)
      → SameAttempts p.1 (claimed_turn o turn p).1
        ⊎ ((p.0 ≡ ok true) × ((effective_turn_state o turn p.1.router).0 ≡ active))
  unfolding claimed_turn gate_stage
  claimed-SameAttempts (raises r, t) = inl unchanged
  claimed-SameAttempts (ok false, t) = inl unchanged
  claimed-SameAttempts (ok true, t) =
      let (state, r) = effective_turn_state o turn t.router in
      elim (gated-SameAttempts state (record t { router = r })) [
        | inl same ↦
            inl (record { prompt_same = same.prompt_same; session_same = same.session_same })
        | inr e ↦ inr (refl, e)
      ]

  -- A turn either attempts neither a session nor a prompt, or it has claimed all its identities and
  -- the effective state of its route, as its claims left the router, is active.
  pub run_turn-gated :
      (r : Router)
      → (((run_turn o turn r).1.prompt_attempted ≡ false)
          × ((run_turn o turn r).1.session_acquisition_attempted ≡ false))
        ⊎ (((claim_all o turn (start r)).0 ≡ ok true)
            × ((effective_turn_state o turn (claim_all o turn (start r)).1.router).0 ≡ active))
  unfolding run_turn
  run_turn-gated r =
      let p = claim_all o turn (start r) in
      let q = claimed_turn o turn p in
      elim (claimed-SameAttempts p) [
        | inl same ↦
            let all =
              SameAttempts_trans (claim_all-SameAttempts o turn (start r))
                (SameAttempts_trans same (finish-SameAttempts o turn q)) in
            inl (all.prompt_same, all.session_same)
        | inr reached ↦ inr reached
      ]
