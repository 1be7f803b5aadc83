-- ===== src/Router/Same.antt =====
-- router.py: the steps of a turn that neither get a session nor prompt.
use signal_hermes_router.Prelude.{
  ◌≡◌, refl, ◌∙◌, Bool, true, false, String, List, [], ◌∷◌, Option, none, some, arith, map, any,
  Bool-cases, inl, inr,
}
use signal_hermes_router.Text.{Text}
use signal_hermes_router.Models.{TurnOutcome, OutboundAttachment}
use signal_hermes_router.Config.{Route}
use signal_hermes_router.Dedupe.Rows.{Identity, insert_claim}
use signal_hermes_router.Router.State.{
  Outside, RoutedTurnInput, Progress, Raise, exception, cancelled, Attempt, ok, raises, await, emit,
  chunk, claim, sends,
}
use signal_hermes_router.Router.Send.{
  target, send_to, send_chunks, send_once, reply_chunks, chunk_sent,
}
use signal_hermes_router.Router.Turn.Claims.{
  claim_identity, claim_worker, claim_next, claimed_row, claim_each, claim_all,
  turn_dedupe_identities,
}
use signal_hermes_router.Router.Turn.Finish.{finish_turn, self_heal}

-- The later progress has made the same attempts.
pub record SameAttempts (t u : Progress) : Type 0 where
  pub prompt_same : u.prompt_attempted ≡ t.prompt_attempted
  pub session_same : u.session_acquisition_attempted ≡ t.session_acquisition_attempted

abbrev pub unchanged : {t : Progress} → SameAttempts t t
unchanged = record { prompt_same = refl; session_same = refl }

pub SameAttempts_trans : {t u v : Progress} → SameAttempts t u → SameAttempts u v → SameAttempts t v
SameAttempts_trans a b = record {
  prompt_same = b.prompt_same ∙ a.prompt_same;
  session_same = b.session_same ∙ a.session_same;
}

chunk_sent-SameAttempts :
    {t t' : Progress} (r : Option Raise) (rest : Attempt Bool × Progress)
    → SameAttempts t t'
    → SameAttempts t' rest.1
    → SameAttempts t (chunk_sent r t' rest).1
chunk_sent-SameAttempts none rest a b = SameAttempts_trans a b
chunk_sent-SameAttempts (some (exception e)) rest a b = a
chunk_sent-SameAttempts (some cancelled) rest a b = a

claim_next-SameAttempts :
    {t : Progress} (step rest : Attempt Bool × Progress)
    → SameAttempts t step.1
    → SameAttempts step.1 rest.1
    → SameAttempts t (claim_next step rest).1
claim_next-SameAttempts (ok true, t') rest a b = SameAttempts_trans a b
claim_next-SameAttempts (ok false, t') rest a b = a
claim_next-SameAttempts (raises r, t') rest a b = a

claimed_row-SameAttempts :
    (k : Identity) (won : Bool) (t : Progress) → SameAttempts t (claimed_row k won t)
claimed_row-SameAttempts k true t = record { prompt_same = refl; session_same = refl }
claimed_row-SameAttempts k false t = unchanged

module _ (o : Outside) where
  send_chunks-SameAttempts :
      (to : String) (chunks : List Text) (paths : List String) (t : Progress)
      → SameAttempts t (send_chunks o to chunks paths t).1
  unfolding send_chunks
  send_chunks-SameAttempts to [] paths t = unchanged
  send_chunks-SameAttempts to (c ∷ cs) paths t =
      let t' = await o (chunk c) (emit (sends to c paths) t) in
      chunk_sent-SameAttempts {t = t} {t' = t'} (o.send_raises c) (send_chunks o to cs [] t')
        (record { prompt_same = refl; session_same = refl }) (send_chunks-SameAttempts to cs [] t')

  send_to-SameAttempts :
      (to : Option String) (chunks : List Text) (paths : List String) (t : Progress)
      → SameAttempts t (send_to to o chunks paths t).1
  send_to-SameAttempts none chunks paths t = unchanged
  send_to-SameAttempts (some to) chunks paths t = send_chunks-SameAttempts to chunks paths t

  pub send_once-SameAttempts :
      (route : Route) (message : Text) (attachments : List OutboundAttachment) (t : Progress)
      → SameAttempts t (send_once o route message attachments t).1
  unfolding send_once
  send_once-SameAttempts route message attachments t =
      send_to-SameAttempts (target route) (reply_chunks t route message)
        (map (λ a. a.path) attachments) t

  claim_worker-SameAttempts :
      (k : Identity) (r : Option Raise) (t : Progress) → SameAttempts t (claim_worker o k r t).1
  claim_worker-SameAttempts k (some r) t = record { prompt_same = refl; session_same = refl }
  claim_worker-SameAttempts k none t =
      let (rows, won) = insert_claim k t.router.clock_ms t.router.dedupe in
      let t' : Progress =
        await o (claim k) (record t { router = record t.router { dedupe = rows } }) in
      let same = claimed_row-SameAttempts k won t' in
      record { prompt_same = same.prompt_same; session_same = same.session_same }

  claim_each-SameAttempts :
      (ks : List Identity) (t : Progress) → SameAttempts t (claim_each o ks t).1
  unfolding claim_each claim_identity
  claim_each-SameAttempts [] t = unchanged
  claim_each-SameAttempts (k ∷ ks) t =
      let step = claim_worker o k (o.claim_raises k) t in
      claim_next-SameAttempts step (claim_each o ks step.1)
        (claim_worker-SameAttempts k (o.claim_raises k) t) (claim_each-SameAttempts ks step.1)

  pub claim_all-SameAttempts :
      (turn : RoutedTurnInput) (t : Progress) → SameAttempts t (claim_all o turn t).1
  unfolding claim_all
  claim_all-SameAttempts turn t = claim_each-SameAttempts (turn_dedupe_identities o turn) t

  pub finish-SameAttempts :
      (turn : RoutedTurnInput) (p : Attempt TurnOutcome × Progress)
      → SameAttempts p.1 (finish_turn o turn p).1
  unfolding finish_turn self_heal
  finish-SameAttempts turn (result, t) = elim (Bool-cases (any o.finalize_fails t.claimed)) [
    | inl e ↦ rw e (record { prompt_same = refl; session_same = refl })
    | inr e ↦ rw e (record { prompt_same = ground arith; session_same = ground arith })
  ]
