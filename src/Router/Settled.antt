-- ===== src/Router/Settled.antt =====
-- router.py: what the end of a turn makes of the identities that it claimed.
use signal_hermes_router.Prelude.{
  ℕ, ◌≡◌, refl, ap, ◌⊎◌, inl, inr, Bool, true, false, ◌&&◌, List, [], ◌∷◌, Option, some, arith, any,
  Bool-cases,
}
use signal_hermes_router.Dedupe.Rows.{
  Identity, Row, handled, key_eq, key_eq_iff, is_processing, select_status, delete_claim,
  select_row,
}
use signal_hermes_router.Dedupe.View.{handled_row, key_eq_refl, select_row-upsert_handled}
use signal_hermes_router.Models.{TurnOutcome}
use signal_hermes_router.Router.State.{Router, Outside, RoutedTurnInput, Progress, Attempt, start}
use signal_hermes_router.Router.Turn.{run_turn}
use signal_hermes_router.Router.Turn.Claims.{
  finalize_claims, finalize_claim, claim_all, turn_dedupe_identities,
}
use signal_hermes_router.Router.Turn.Body.{claimed_turn}
use signal_hermes_router.Router.Turn.Finish.{finish_turn, self_heal, settled, give_back}
use signal_hermes_router.Router.Won.{listed, Wins, claim_each-listed}
use signal_hermes_router.Router.Kept.{claimed_turn-claimed}

-- Some row of the identity is in processing.
unfoldable pub in_processing : Identity → List Row → Bool
in_processing k rows = any (λ r. key_eq r.key k && is_processing r.status) rows

delete_claim_self : (k : Identity) (rows : List Row) → in_processing k (delete_claim k rows) ≡ false
unfolding in_processing delete_claim
delete_claim_self k [] = refl
delete_claim_self k (r ∷ rs) = ground (arith, delete_claim_self k rs)

delete_claim_keeps :
    (k j : Identity) (rows : List Row)
    → in_processing k rows ≡ false
    → in_processing k (delete_claim j rows) ≡ false
unfolding in_processing delete_claim
delete_claim_keeps k j [] h = refl
delete_claim_keeps k j (r ∷ rs) h = ground (arith, delete_claim_keeps k j rs)

finalize_claim-released :
    (b : Bool) (k : Identity) (now : ℕ) (j : Identity) (rows : List Row)
    → in_processing k rows ≡ false
    → in_processing k (finalize_claim b false now j rows) ≡ false
finalize_claim-released true k now j rows h = h
finalize_claim-released false k now j rows h = delete_claim_keeps k j rows h

finalize_claim-marked :
    (b : Bool) (k : Identity) (now : ℕ) (j : Identity) (rows : List Row)
    → handled_row (select_row k rows) ≡ true
    → handled_row (select_row k (finalize_claim b true now j rows)) ≡ true
finalize_claim-marked true k now j rows h = h
finalize_claim-marked false k now j rows h = ground (arith, select_row-upsert_handled j k now rows)

module _ (fails : Identity → Bool) (k : Identity) (runs : fails k ≡ false) where
  finalize-released :
      (now : ℕ) (ks : List Identity) (rows : List Row)
      → (in_processing k rows ≡ false) ⊎ (listed k ks ≡ true)
      → in_processing k (finalize_claims fails false now ks rows) ≡ false
  unfolding finalize_claims listed
  finalize-released now [] rows (inl h) = h
  finalize-released now [] rows (inr h) = cc
  finalize-released now (j ∷ ks) rows (inl h) =
      finalize-released now ks _ (inl (finalize_claim-released (fails j) k now j rows h))
  finalize-released now (j ∷ ks) rows (inr h) = elim (Bool-cases (key_eq j k)) [
    | inl same ↦
        let e : j ≡ k = (key_eq_iff j k).0 same in
        finalize-released now ks _ (inl (rw (e, runs) (delete_claim_self k rows)))
    | inr other ↦ finalize-released now ks _ (inr (ground arith))
  ]

  finalize-marked :
      (now : ℕ) (ks : List Identity) (rows : List Row)
      → (handled_row (select_row k rows) ≡ true) ⊎ (listed k ks ≡ true)
      → handled_row (select_row k (finalize_claims fails true now ks rows)) ≡ true
  unfolding finalize_claims listed
  finalize-marked now [] rows (inl h) = h
  finalize-marked now [] rows (inr h) = cc
  finalize-marked now (j ∷ ks) rows (inl h) =
      finalize-marked now ks _ (inl (finalize_claim-marked (fails j) k now j rows h))
  finalize-marked now (j ∷ ks) rows (inr h) = elim (Bool-cases (key_eq j k)) [
    | inl same ↦
        let e : j ≡ k = (key_eq_iff j k).0 same in
        finalize-marked now ks _
          (inl (rw (e, runs, select_row-upsert_handled k k now rows, key_eq_refl k) refl))
    | inr other ↦ finalize-marked now ks _ (inr (ground arith))
  ]

handled_status :
    (k : Identity) (rows : List Row)
    → handled_row (select_row k rows) ≡ true
    → select_status k rows ≡ some handled
unfolding select_status
handled_status k rows h = ground arith

-- The identity is settled by a turn that was handled or not: it is marked handled, or no row of it
-- is left in processing.
abbrev pub IsSettled : Bool → Identity → List Row → Type 0
IsSettled done k rows =
    ((done ≡ true) × (select_status k rows ≡ some handled))
    ⊎ ((done ≡ false) × (in_processing k rows ≡ false))

pub finalize-settles :
    (fails : Identity → Bool) (b : Bool) (now : ℕ) (ks : List Identity) (rows : List Row)
    (k : Identity)
    → listed k ks ≡ true
    → fails k ≡ false
    → IsSettled b k (finalize_claims fails b now ks rows)
finalize-settles fails true now ks rows k h runs = inl (
  refl,
  handled_status k (finalize_claims fails true now ks rows)
      (finalize-marked fails k runs now ks rows (inr h)),
)
finalize-settles fails false now ks rows k h runs =
    inr (refl, finalize-released fails k runs now ks rows (inr h))

module _ (o : Outside) (turn : RoutedTurnInput) where
  self_heal_router : (t : Progress) → (self_heal o turn t).router ≡ t.router
  unfolding self_heal
  self_heal_router t = ground arith

  self_heal_claimed : (t : Progress) → (self_heal o turn t).claimed ≡ t.claimed
  unfolding self_heal
  self_heal_claimed t = ground arith

  self_heal_handled : (t : Progress) → (self_heal o turn t).handled ≡ t.handled
  unfolding self_heal
  self_heal_handled t = ground arith

  pub finish_claimed :
      (p : Attempt TurnOutcome × Progress) → (finish_turn o turn p).1.claimed ≡ p.1.claimed
  unfolding finish_turn
  finish_claimed (result, t) = elim (Bool-cases (any o.finalize_fails t.claimed)) [
    | inl e ↦ rw e refl
    | inr e ↦ rw e (self_heal_claimed (settled o t))
  ]

  pub finish_handled :
      (p : Attempt TurnOutcome × Progress) → (finish_turn o turn p).1.handled ≡ p.1.handled
  unfolding finish_turn
  finish_handled (result, t) = elim (Bool-cases (any o.finalize_fails t.claimed)) [
    | inl e ↦ rw e refl
    | inr e ↦ rw e (self_heal_handled (settled o t))
  ]

  give_back_dedupe :
      (id : Option ℕ) (b : Bool) (r : Router) → (give_back o.one_token id b r).dedupe ≡ r.dedupe
  give_back_dedupe id b r = ground arith

  settled_dedupe :
      (t : Progress)
      → (now : ℕ) × ((settled o t).router.dedupe
          ≡ finalize_claims o.finalize_fails t.handled now t.claimed t.router.dedupe)
  settled_dedupe t =
      let r = give_back o.one_token t.rate_bucket t.prompt_attempted t.router in
      (
        r.clock_ms,
        ap (finalize_claims o.finalize_fails t.handled r.clock_ms t.claimed)
            (give_back_dedupe t.rate_bucket t.prompt_attempted t.router),
      )

  finish_dedupe :
      (p : Attempt TurnOutcome × Progress)
      → (finish_turn o turn p).1.router.dedupe ≡ (settled o p.1).router.dedupe
  unfolding finish_turn
  finish_dedupe (result, t) = elim (Bool-cases (any o.finalize_fails t.claimed)) [
    | inl e ↦ rw e refl
    | inr e ↦ rw e (ap (λ (x : Router). x.dedupe) (self_heal_router (settled o t)))
  ]

  finish-settles :
      (p : Attempt TurnOutcome × Progress) (k : Identity)
      → listed k p.1.claimed ≡ true
      → o.finalize_fails k ≡ false
      → IsSettled p.1.handled k (finish_turn o turn p).1.router.dedupe
  finish-settles p k h runs =
      let (now, e) = settled_dedupe p.1 in
      rw (finish_dedupe p, e)
        (finalize-settles o.finalize_fails p.1.handled now p.1.claimed p.1.router.dedupe k h runs)

  pub listed-settles :
      (r : Router) (k : Identity)
      → listed k (run_turn o turn r).1.claimed ≡ true
      → o.finalize_fails k ≡ false
      → IsSettled (run_turn o turn r).1.handled k (run_turn o turn r).1.router.dedupe
  unfolding run_turn
  listed-settles r k h runs =
      let p = claimed_turn o turn (claim_all o turn (start r)) in
      rw (finish_handled p) (finish-settles p k (rw (finish_claimed p) at h) runs)

  -- However the turn ends, by an outcome, by an exception or cancelled at any point, and whatever
  -- the other tasks did meanwhile, each identity of the turn whose claim was won in the claim loop,
  -- and whose finalizer does not raise, is marked handled if the turn was handled, and otherwise
  -- has no row left in processing.
  pub run_turn-settles :
      (r : Router) (k : Identity)
      → Wins o k (turn_dedupe_identities o turn) (start r)
      → o.finalize_fails k ≡ false
      → IsSettled (run_turn o turn r).1.handled k (run_turn o turn r).1.router.dedupe
  unfolding run_turn claim_all
  run_turn-settles r k won runs =
      let q = claim_all o turn (start r) in
      let p = claimed_turn o turn q in
      let h : listed k p.1.claimed ≡ true =
        rw (claimed_turn-claimed o turn q)
          (claim_each-listed o k (turn_dedupe_identities o turn) (start r) won) in
      rw (finish_handled p) (finish-settles p k h runs)
