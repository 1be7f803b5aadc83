-- ===== src/Router/Kept.antt =====
-- router.py: no stage of a turn behind its claims changes the list of what it claimed.
pub mod Sends
use signal_hermes_router.Prelude.{
  ◌≡◌, refl, ◌∙◌, inl, inr, ℕ, Bool, true, false, not, ◌&&◌, String, List, [], ◌∷◌, map, Option,
  none, some, is_some, Bool-cases, arith, if◌then◌else◌,
}
use signal_hermes_router.Text.{Text}
use signal_hermes_router.Failures.{
  FailureCode, FailureInfo, classify_exception, classify_in_context,
}
use signal_hermes_router.Models.{
  RouteState, shadow, active, maintenance, disabled, TurnOutcome, OutboundAttachment,
}
use signal_hermes_router.Config.{Route, InboundRateLimit}
use signal_hermes_router.Router.State.{
  Outside, RoutedTurnInput, Progress, Raise, exception, cancelled, Attempt, ok, raises, Freeze,
  frozen, refused, raised, await, emit, prompt, prompts, chunk, sends, media, stores_media, freeze,
}
use signal_hermes_router.Router.Breaker.{is_active, effective_turn_state, count_failure}
use signal_hermes_router.Router.Send.{
  target, send_to, send_chunks, send_once, reply_chunks, chunk_sent,
}
use signal_hermes_router.Router.Failure.{
  signal_send_failure, handle_hermes_failure, send_nonempty, swallow, recover_session, recover,
  after_recovery, after_reply,
}
use signal_hermes_router.Router.Turn.Body.{
  claimed_turn, gate_stage, gated, maintenance_stage, maintenance_sent, rate_stage, rate_limited,
  rate_reserved, media_stage, media_stored, from_signal, freeze_stage, session_stage, session_got,
  prompt_stage, prompted, consumed, is_shadow, freeze_listed, freeze_result,
}
use signal_hermes_router.Router.Turn.Body.Rate.{reserve_inbound_rate_token}
use signal_hermes_router.Router.Turn.Body.Reply.{
  reply_stage, replied, reply_sent, reply_text, empty_response_stage, empty_sent, send_reply,
}
use signal_hermes_router.Router.Kept.Sends.{send_once-claimed, handle_hermes_failure-claimed}

if-claimed :
    (b : Bool) (t : Progress) (p q : Attempt TurnOutcome × Progress)
    → p.1.claimed ≡ t.claimed
    → q.1.claimed ≡ t.claimed
    → (if b then p else q).1.claimed ≡ t.claimed
if-claimed true t p q hp hq = hp
if-claimed false t p q hp hq = hq

module _ (o : Outside) (turn : RoutedTurnInput) where
  consumed-claimed :
      (p : Attempt TurnOutcome × Progress) → (consumed turn p).1.claimed ≡ p.1.claimed
  consumed-claimed (ok out, t) = refl
  consumed-claimed (raises r, t) = refl

  send_reply-claimed :
      (reply : Text) (attachments : List OutboundAttachment) (t : Progress)
      → (send_reply o turn reply attachments t).1.claimed ≡ t.claimed
  send_reply-claimed [] attachments t = refl
  send_reply-claimed (c ∷ cs) attachments t = send_once-claimed o turn.route (c ∷ cs) attachments t

  empty_sent-claimed :
      (state : RouteState) (failure : FailureInfo) (text : Text) (wanted : Bool) (at : ℕ)
      (p : Attempt Bool × Progress)
      → (empty_sent turn state failure text wanted at p).1.claimed ≡ p.1.claimed
  empty_sent-claimed state failure text wanted at (raises r, t) = refl
  empty_sent-claimed state failure text wanted at (ok sent, t) = refl

  reply_sent-claimed :
      (state : RouteState) (text : Text) (wanted : Bool) (p : Attempt Bool × Progress)
      → (reply_sent o turn state text wanted p).1.claimed ≡ p.1.claimed
  unfolding signal_send_failure
  reply_sent-claimed state text wanted (raises r, t) = refl
  reply_sent-claimed state text wanted (ok false, t) = refl
  reply_sent-claimed state text wanted (ok true, t) = refl

  replied-claimed :
      (state : RouteState) (attachments : List OutboundAttachment) (text : Text)
      (reply : Option Text) (t : Progress)
      → (replied o turn state attachments text reply t).1.claimed ≡ t.claimed
  unfolding empty_response_stage
  replied-claimed state attachments text none t =
      empty_sent-claimed state _ text _ _ _ ∙ send_reply-claimed _ attachments _
  replied-claimed state attachments text (some reply) t =
      reply_sent-claimed state text _ (send_reply o turn reply attachments t)
      ∙ send_reply-claimed reply attachments t

  prompted-claimed :
      (state : RouteState) (attachments : List OutboundAttachment) (a : Attempt Text) (t : Progress)
      → (prompted o turn state attachments a t).1.claimed ≡ t.claimed
  unfolding reply_stage
  prompted-claimed state attachments (ok text) t =
      replied-claimed state attachments text (reply_text text attachments) t
  prompted-claimed state attachments (raises (exception e)) t =
      consumed-claimed (handle_hermes_failure o turn state (classify_exception o.runtime e) true t)
      ∙ handle_hermes_failure-claimed o turn state (classify_exception o.runtime e) true t
  prompted-claimed state attachments (raises cancelled) t = refl

  session_got-claimed :
      (state : RouteState) (attachments : List OutboundAttachment) (a : Attempt (Unit {0}))
      (t : Progress)
      → (session_got o turn state attachments a t).1.claimed ≡ t.claimed
  unfolding prompt_stage
  session_got-claimed state attachments (ok u) t =
      prompted-claimed state attachments o.prompt
        (await o prompt (emit prompts (record t { prompt_attempted = true })))
  session_got-claimed state attachments (raises (exception e)) t =
      let failure = classify_in_context o.runtime FailureCode.acp_session_failed true e in
      consumed-claimed (handle_hermes_failure o turn state failure false t)
      ∙ handle_hermes_failure-claimed o turn state failure false t
  session_got-claimed state attachments (raises cancelled) t = refl

  freeze_result-claimed :
      (state : RouteState) (f : Freeze) (t : Progress)
      → (freeze_result o turn state f t).1.claimed ≡ t.claimed
  unfolding session_stage
  freeze_result-claimed state (frozen attachments) t =
      session_got-claimed state attachments o.get_session _
  freeze_result-claimed state (refused name) t = refl
  freeze_result-claimed state (raised r) t = refl

  freeze_listed-claimed :
      (state : RouteState) (attachments : List OutboundAttachment) (t : Progress)
      → (freeze_listed o turn state attachments t).1.claimed ≡ t.claimed
  freeze_listed-claimed state [] t = freeze_result-claimed state (frozen []) (await o freeze t)
  freeze_listed-claimed state (a ∷ rest) t =
      if-claimed (not t.router.config.router.local_attachment_paths) t _ _ refl
        (freeze_result-claimed state o.freeze (await o freeze t))

  media_stored-claimed :
      (state : RouteState) (a : Attempt (List String)) (t : Progress)
      → (media_stored o turn state a t).1.claimed ≡ t.claimed
  unfolding freeze_stage
  media_stored-claimed state (raises r) t = refl
  media_stored-claimed state (ok paths) t = elim (Bool-cases (is_shadow state)) [
    | inl e ↦ rw e refl
    | inr e ↦ rw e (freeze_listed-claimed state turn.outbound_attachments _)
  ]

  media-claimed :
      (state : RouteState) (t : Progress) → (media_stage o turn state t).1.claimed ≡ t.claimed
  unfolding media_stage
  media-claimed state t = elim (Bool-cases (is_some turn.signal_event)) [
    | inl e ↦ rw e (media_stored-claimed state o.store_media (await o media (emit stores_media t)))
    | inr e ↦ rw e (media_stored-claimed state (ok []) t)
  ]

  rate_reserved-claimed :
      (state : RouteState) (a : Attempt (Option ℕ)) (t : Progress)
      → (rate_reserved o turn state a t).1.claimed ≡ t.claimed
  rate_reserved-claimed state (raises r) t = refl
  rate_reserved-claimed state (ok none) t = refl
  rate_reserved-claimed state (ok (some id)) t =
      media-claimed state (record t { rate_bucket = some id })

  rate_limited-claimed :
      (state : RouteState) (limit : Option InboundRateLimit) (t : Progress)
      → (rate_limited o turn state limit t).1.claimed ≡ t.claimed
  rate_limited-claimed state none t = media-claimed state t
  rate_limited-claimed state (some limit) t =
      elim (Bool-cases (from_signal turn.origin && is_active state)) [
        | inl e ↦ rw e (
            rate_reserved-claimed state (reserve_inbound_rate_token o turn.route limit t.router).0
              _)
        | inr e ↦ rw e (media-claimed state t)
      ]

  maintenance_sent-claimed :
      (state : RouteState) (p : Attempt Bool × Progress)
      → (maintenance_sent o turn state p).1.claimed ≡ p.1.claimed
  unfolding signal_send_failure
  maintenance_sent-claimed state (raises r, t) = refl
  maintenance_sent-claimed state (ok true, t) = refl
  maintenance_sent-claimed state (ok false, t) = refl

  gated-claimed : (state : RouteState) (t : Progress) → (gated o turn state t).1.claimed ≡ t.claimed
  unfolding rate_stage maintenance_stage
  gated-claimed disabled t = refl
  gated-claimed maintenance t =
      maintenance_sent-claimed maintenance _ ∙ send_once-claimed o turn.route _ [] t
  gated-claimed active t = rate_limited-claimed active turn.route.inbound_rate_limit t
  gated-claimed shadow t = rate_limited-claimed shadow turn.route.inbound_rate_limit t

  -- The body of the turn, however it ends, leaves the list of the claims as the claim loop left
  -- it.
  pub claimed_turn-claimed :
      (p : Attempt Bool × Progress) → (claimed_turn o turn p).1.claimed ≡ p.1.claimed
  unfolding claimed_turn gate_stage
  claimed_turn-claimed (raises r, t) = refl
  claimed_turn-claimed (ok false, t) = refl
  claimed_turn-claimed (ok true, t) =
      let (state, r) = effective_turn_state o turn t.router in
      gated-claimed state (record t { router = r })
