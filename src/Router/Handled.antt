-- ===== src/Router/Handled.antt =====
-- router.py: which turns of `_run_turn` are handled.
use signal_hermes_router.Prelude.{
  ◌≡◌, refl, ◌∙◌, inl, inr, ℕ, Bool, true, false, ◌&&◌, String, List, [], ◌∷◌, Option, none, some,
  Bool-cases, any, arith,
}
use signal_hermes_router.Text.{Text}
use signal_hermes_router.Failures.{
  FailureCode, FailureInfo, classify_exception, classify_in_context,
}
use signal_hermes_router.Models.{
  RouteState, shadow, active, maintenance, disabled, TurnOutcome, OutboundAttachment,
}
use signal_hermes_router.Config.{InboundRateLimit}
use signal_hermes_router.Dedupe.Rows.{Identity, Row, key_eq, key_eq_iff, select_status, handled}
use signal_hermes_router.Router.Won.{listed}
use signal_hermes_router.Router.Settled.{IsSettled, finish_handled, listed-settles, finish_claimed}
use signal_hermes_router.Router.Turn.Finish.{finish_turn}
use signal_hermes_router.Router.State.{
  Router, Outside, RoutedTurnInput, Progress, exception, cancelled, Attempt, ok, raises, start,
  await, emit, prompt, prompts,
}
use signal_hermes_router.Router.Breaker.{is_active, effective_turn_state}
use signal_hermes_router.Router.Failure.{signal_send_failure, handle_hermes_failure}
use signal_hermes_router.Router.Turn.{run_turn}
use signal_hermes_router.Router.Turn.Claims.{claim_all}
use signal_hermes_router.Router.Turn.Body.{
  claimed_turn, gate_stage, gated, maintenance_stage, maintenance_sent, rate_stage, rate_limited,
  rate_reserved, media_stage, media_stored, store_media, from_signal, freeze_stage, session_stage,
  session_got, prompt_stage, prompted, consumed, is_shadow, freeze_listed,
}
use signal_hermes_router.Router.Turn.Body.Rate.{reserve_inbound_rate_token}
use signal_hermes_router.Router.Turn.Body.Reply.{
  reply_stage, replied, reply_sent, reply_text, empty_response_stage, empty_sent, send_reply,
}

-- A turn that has an outcome is handled.
abbrev pub HandledIfOk : Attempt TurnOutcome × Progress → Type 0
HandledIfOk (ok out, t) = t.handled ≡ true
HandledIfOk (raises r, t) = Unit

module _ (o : Outside) (turn : RoutedTurnInput) (from : turn.synthetic ≡ none)
    (bare : turn.outbound_attachments ≡ []) where
  consumed-HandledIfOk : (p : Attempt TurnOutcome × Progress) → HandledIfOk (consumed turn p)
  consumed-HandledIfOk (ok out, t) = rw from refl
  consumed-HandledIfOk (raises r, t) = tt

  empty_sent-HandledIfOk :
      (state : RouteState) (failure : FailureInfo) (text : Text) (wanted : Bool) (at : ℕ)
      (p : Attempt Bool × Progress)
      → HandledIfOk (empty_sent turn state failure text wanted at p)
  empty_sent-HandledIfOk state failure text wanted at (raises r, t) = tt
  empty_sent-HandledIfOk state failure text wanted at (ok sent, t) = rw from refl

  reply_sent-HandledIfOk :
      (state : RouteState) (text : Text) (wanted : Bool) (p : Attempt Bool × Progress)
      → HandledIfOk (reply_sent o turn state text wanted p)
  unfolding signal_send_failure
  reply_sent-HandledIfOk state text wanted (raises r, t) = tt
  reply_sent-HandledIfOk state text wanted (ok false, t) = refl
  reply_sent-HandledIfOk state text wanted (ok true, t) = refl

  replied-HandledIfOk :
      (state : RouteState) (attachments : List OutboundAttachment) (text : Text)
      (reply : Option Text) (t : Progress)
      → HandledIfOk (replied o turn state attachments text reply t)
  unfolding empty_response_stage
  replied-HandledIfOk state attachments text none t = empty_sent-HandledIfOk state _ text _ _ _
  replied-HandledIfOk state attachments text (some reply) t =
      reply_sent-HandledIfOk state text _ (send_reply o turn reply attachments t)

  prompted-HandledIfOk :
      (state : RouteState) (attachments : List OutboundAttachment) (a : Attempt Text) (t : Progress)
      → HandledIfOk (prompted o turn state attachments a t)
  unfolding reply_stage
  prompted-HandledIfOk state attachments (ok text) t =
      replied-HandledIfOk state attachments text (reply_text text attachments) t
  prompted-HandledIfOk state attachments (raises (exception e)) t =
      consumed-HandledIfOk
        (handle_hermes_failure o turn state (classify_exception o.runtime e) true t)
  prompted-HandledIfOk state attachments (raises cancelled) t = tt

  session_got-HandledIfOk :
      (state : RouteState) (attachments : List OutboundAttachment) (a : Attempt (Unit {0}))
      (t : Progress)
      → HandledIfOk (session_got o turn state attachments a t)
  unfolding prompt_stage
  session_got-HandledIfOk state attachments (ok u) t =
      prompted-HandledIfOk state attachments o.prompt
        (await o prompt (emit prompts (record t { prompt_attempted = true })))
  session_got-HandledIfOk state attachments (raises (exception e)) t = consumed-HandledIfOk (
      handle_hermes_failure o turn state
        (classify_in_context o.runtime FailureCode.acp_session_failed true e) false t)
  session_got-HandledIfOk state attachments (raises cancelled) t = tt

  freeze_listed-HandledIfOk :
      (state : RouteState) (attachments : List OutboundAttachment) (t : Progress)
      → attachments ≡ []
      → HandledIfOk (freeze_listed o turn state attachments t)
  unfolding session_stage
  freeze_listed-HandledIfOk state [] t e = session_got-HandledIfOk state [] o.get_session _
  freeze_listed-HandledIfOk state (a ∷ rest) t e = cc e

  freeze-HandledIfOk :
      (state : RouteState) (t : Progress) → HandledIfOk (freeze_stage o turn state t)
  unfolding freeze_stage
  freeze-HandledIfOk state t = freeze_listed-HandledIfOk state turn.outbound_attachments t bare

  media_stored-HandledIfOk :
      (state : RouteState) (a : Attempt (List String)) (t : Progress)
      → HandledIfOk (media_stored o turn state a t)
  media_stored-HandledIfOk state (raises r) t = tt
  media_stored-HandledIfOk state (ok paths) t = elim (Bool-cases (is_shadow state)) [
    | inl e ↦ rw e refl
    | inr e ↦ rw e (freeze-HandledIfOk state _)
  ]

  media-HandledIfOk : (state : RouteState) (t : Progress) → HandledIfOk (media_stage o turn state t)
  unfolding media_stage
  media-HandledIfOk state t = media_stored-HandledIfOk state (store_media o turn) _

  rate_reserved-HandledIfOk :
      (state : RouteState) (a : Attempt (Option ℕ)) (t : Progress)
      → HandledIfOk (rate_reserved o turn state a t)
  rate_reserved-HandledIfOk state (raises r) t = tt
  rate_reserved-HandledIfOk state (ok none) t = refl
  rate_reserved-HandledIfOk state (ok (some id)) t = media-HandledIfOk state _

  rate_limited-HandledIfOk :
      (state : RouteState) (limit : Option InboundRateLimit) (t : Progress)
      → HandledIfOk (rate_limited o turn state limit t)
  rate_limited-HandledIfOk state none t = media-HandledIfOk state t
  rate_limited-HandledIfOk state (some limit) t =
      elim (Bool-cases (from_signal turn.origin && is_active state)) [
        | inl e ↦ rw e (
            rate_reserved-HandledIfOk state
              (reserve_inbound_rate_token o turn.route limit t.router).0 _)
        | inr e ↦ rw e (media-HandledIfOk state t)
      ]

  maintenance_sent-HandledIfOk :
      (state : RouteState) (p : Attempt Bool × Progress)
      → HandledIfOk (maintenance_sent o turn state p)
  unfolding signal_send_failure
  maintenance_sent-HandledIfOk state (raises r, t) = tt
  maintenance_sent-HandledIfOk state (ok true, t) = rw from refl
  maintenance_sent-HandledIfOk state (ok false, t) = rw from refl

  gated-HandledIfOk : (state : RouteState) (t : Progress) → HandledIfOk (gated o turn state t)
  unfolding rate_stage maintenance_stage
  gated-HandledIfOk disabled t = refl
  gated-HandledIfOk maintenance t = maintenance_sent-HandledIfOk maintenance _
  gated-HandledIfOk active t = rate_limited-HandledIfOk active turn.route.inbound_rate_limit t
  gated-HandledIfOk shadow t = rate_limited-HandledIfOk shadow turn.route.inbound_rate_limit t

  claimed-HandledIfOk :
      (p : Attempt Bool × Progress) → p.0 ≡ ok true → HandledIfOk (claimed_turn o turn p)
  unfolding claimed_turn gate_stage
  claimed-HandledIfOk (ok true, t) e = gated-HandledIfOk (effective_turn_state o turn t.router).0 _
  claimed-HandledIfOk (ok false, t) e = cc e
  claimed-HandledIfOk (raises r, t) e = tt

  -- Where the turn has an outcome no finalizer has raised, and the body has that outcome.
  finish_result :
      (p : Attempt TurnOutcome × Progress) {out : TurnOutcome}
      → (finish_turn o turn p).0 ≡ ok out
      → (p.0 ≡ ok out) × (any o.finalize_fails p.1.claimed ≡ false)
  unfolding finish_turn
  finish_result (result, t) e = elim (Bool-cases (any o.finalize_fails t.claimed)) [
    | inl raised ↦ cc (rw raised at e)
    | inr fine ↦ (rw fine at e, fine)
  ]

  runs-listed :
      (k : Identity) (ks : List Identity)
      → any o.finalize_fails ks ≡ false
      → listed k ks ≡ true
      → o.finalize_fails k ≡ false
  unfolding listed
  runs-listed k [] f h = cc
  runs-listed k (j ∷ ks) f h = elim (Bool-cases (key_eq j k)) [
    | inl same ↦ let e : j ≡ k = (key_eq_iff j k).0 same in rw (← e) (ground arith)
    | inr other ↦ runs-listed k ks (ground arith) (ground arith)
  ]

  outcome-handled :
      (p : Attempt TurnOutcome × Progress) {out : TurnOutcome}
      → p.0 ≡ ok out
      → HandledIfOk p
      → p.1.handled ≡ true
  outcome-handled (ok x, t) e h = h
  outcome-handled (raises r, t) e h = cc e

  settled_handled :
      (k : Identity) (rows : List Row) (done : Bool)
      → done ≡ true
      → IsSettled done k rows
      → select_status k rows ≡ some handled
  settled_handled k rows done e (inl (d, s)) = s
  settled_handled k rows done e (inr (d, s)) = cc (e, d)

  -- A turn that has no synthetic definition and no outbound attachments, as the turns of Signal
  -- events, that claims all its identities and ends with an outcome, whatever the route's state,
  -- the rate limit, the agent and the sends made of it, leaves each identity that it claimed
  -- marked handled.
  pub run_turn-consumes :
      (r : Router) (out : TurnOutcome) (k : Identity)
      → (claim_all o turn (start r)).0 ≡ ok true
      → (run_turn o turn r).0 ≡ ok out
      → listed k (run_turn o turn r).1.claimed ≡ true
      → select_status k (run_turn o turn r).1.router.dedupe ≡ some handled
  unfolding run_turn
  run_turn-consumes r out k won e h =
      let p = claim_all o turn (start r) in
      let q = claimed_turn o turn p in
      let (got, fine) = finish_result q e in
      let done : q.1.handled ≡ true = outcome-handled q got (claimed-HandledIfOk p won) in
      let runs = runs-listed k q.1.claimed fine (rw (finish_claimed o turn q) at h) in
      settled_handled k (finish_turn o turn q).1.router.dedupe (finish_turn o turn q).1.handled
        (finish_handled o turn q ∙ done) (listed-settles o turn r k h runs)
