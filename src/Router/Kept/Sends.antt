-- ===== src/Router/Kept/Sends.antt =====
-- router.py: neither a reply nor the handling of a failed prompt changes the list of the claims.
use signal_hermes_router.Prelude.{
  ◌≡◌, refl, ◌∙◌, ℕ, Bool, String, List, [], ◌∷◌, map, Option, none, some, arith,
}
use signal_hermes_router.Text.{Text}
use signal_hermes_router.Failures.{FailureInfo}
use signal_hermes_router.Models.{RouteState, TurnOutcome, OutboundAttachment}
use signal_hermes_router.Config.{Route}
use signal_hermes_router.Router.State.{
  Outside, RoutedTurnInput, Progress, Raise, exception, cancelled, Attempt, ok, raises, await, emit,
  chunk, sends,
}
use signal_hermes_router.Router.Breaker.{count_failure}
use signal_hermes_router.Router.Send.{
  target, send_to, send_chunks, send_once, reply_chunks, chunk_sent,
}
use signal_hermes_router.Router.Failure.{
  handle_hermes_failure, send_nonempty, swallow, recover_session, recover, after_recovery,
  after_reply,
}

chunk_sent-claimed :
    (t : Progress) (r : Option Raise) (t' : Progress) (rest : Attempt Bool × Progress)
    → t'.claimed ≡ t.claimed
    → rest.1.claimed ≡ t.claimed
    → (chunk_sent r t' rest).1.claimed ≡ t.claimed
chunk_sent-claimed t none t' rest a b = b
chunk_sent-claimed t (some (exception e)) t' rest a b = a
chunk_sent-claimed t (some cancelled) t' rest a b = a

module _ (o : Outside) where
  send_chunks-claimed :
      (to : String) (chunks : List Text) (paths : List String) (t : Progress)
      → (send_chunks o to chunks paths t).1.claimed ≡ t.claimed
  unfolding send_chunks
  send_chunks-claimed to [] paths t = refl
  send_chunks-claimed to (c ∷ cs) paths t =
      let t' = await o (chunk c) (emit (sends to c paths) t) in
      chunk_sent-claimed t (o.send_raises c) t' (send_chunks o to cs [] t') refl
        (send_chunks-claimed to cs [] t')

  send_to-claimed :
      (to : Option String) (chunks : List Text) (paths : List String) (t : Progress)
      → (send_to to o chunks paths t).1.claimed ≡ t.claimed
  send_to-claimed none chunks paths t = refl
  send_to-claimed (some to) chunks paths t = send_chunks-claimed to chunks paths t

  pub send_once-claimed :
      (route : Route) (message : Text) (attachments : List OutboundAttachment) (t : Progress)
      → (send_once o route message attachments t).1.claimed ≡ t.claimed
  unfolding send_once
  send_once-claimed route message attachments t =
      send_to-claimed (target route) (reply_chunks t route message) (map (λ a. a.path) attachments)
        t

  swallow-claimed : (r : Option Raise) (t : Progress) → (swallow r t).1.claimed ≡ t.claimed
  swallow-claimed none t = refl
  swallow-claimed (some (exception e)) t = refl
  swallow-claimed (some cancelled) t = refl

  module _ (turn : RoutedTurnInput) where
    recover_session-claimed :
        (had : Bool) (t : Progress) → (recover_session o turn had t).1.claimed ≡ t.claimed
    recover_session-claimed had t = ground arith

    recover-claimed :
        (here had : Bool) (t : Progress) → (recover o turn here had t).1.claimed ≡ t.claimed
    unfolding recover
    recover-claimed here had t = ground arith

    after_recovery-claimed :
        (out : TurnOutcome) (p : Attempt (Unit {0}) × Progress)
        → (after_recovery out p).1.claimed ≡ p.1.claimed
    after_recovery-claimed out (ok u, t) = refl
    after_recovery-claimed out (raises r, t) = refl

    after_reply-claimed :
        (state : RouteState) (failure : FailureInfo) (here had : Bool) (at : ℕ)
        (p : Attempt Bool × Progress)
        → (after_reply o turn state failure here had at p).1.claimed ≡ p.1.claimed
    after_reply-claimed state failure here had at (ok sent, t) =
        after_recovery-claimed _ (recover o turn here had t) ∙ recover-claimed here had t
    after_reply-claimed state failure here had at (raises r, t) = refl

    send_nonempty-claimed :
        (message : Text) (t : Progress)
        → (send_nonempty o turn.route message t).1.claimed ≡ t.claimed
    unfolding send_nonempty
    send_nonempty-claimed [] t = refl
    send_nonempty-claimed (c ∷ cs) t = send_once-claimed turn.route (c ∷ cs) [] t

    pub handle_hermes_failure-claimed :
        (state : RouteState) (failure : FailureInfo) (had : Bool) (t : Progress)
        → (handle_hermes_failure o turn state failure had t).1.claimed ≡ t.claimed
    unfolding handle_hermes_failure
    handle_hermes_failure-claimed state failure had t =
        after_reply-claimed state failure _ had t.router.clock_ms _
        ∙ send_nonempty-claimed _
            (record t { router = (count_failure o turn.route failure t.router).0 })
