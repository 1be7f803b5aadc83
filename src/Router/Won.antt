-- ===== src/Router/Won.antt =====
-- router.py: the identities whose claims a turn wins, and its list of them.
use signal_hermes_router.Prelude.{
  ◌≡◌, refl, ◌⊎◌, inl, inr, Bool, true, false, List, [], ◌∷◌, ◌++◌, Option, none, some, arith, any,
}
use signal_hermes_router.Dedupe.Rows.{Identity, key_eq, insert_claim}
use signal_hermes_router.Dedupe.View.{key_eq_refl}
use signal_hermes_router.Router.State.{Outside, Progress, Raise, Attempt, ok, raises, await, claim}
use signal_hermes_router.Router.Turn.Claims.{
  claim_identity, claim_worker, claim_next, claimed_row, claim_each,
}

-- The identity is among those listed.
unfoldable pub listed : Identity → List Identity → Bool
listed k ks = any (λ j. key_eq j k) ks

-- The claim of the identity is won in the loop over the identities: all before it are won, its
-- worker does not raise, and its insert meets no row.
abbrev pub Wins : Outside → Identity → List Identity → Progress → Type 0
Wins o k [] t = ⊥
Wins o k (j ∷ ks) t =
    ((j ≡ k)
      × (o.claim_raises j ≡ none)
      × ((insert_claim j t.router.clock_ms t.router.dedupe).1 ≡ true))
    ⊎ (((claim_identity o j t).0 ≡ ok true) × Wins o k ks (claim_identity o j t).1)

listed-append_self : (k : Identity) (ks : List Identity) → listed k (ks ++ k ∷ []) ≡ true
unfolding listed
listed-append_self k [] = ground (arith, key_eq_refl k)
listed-append_self k (j ∷ ks) = ground (arith, listed-append_self k ks)

listed-append :
    (k : Identity) (ks js : List Identity) → listed k ks ≡ true → listed k (ks ++ js) ≡ true
unfolding listed
listed-append k [] js h = cc
listed-append k (j ∷ ks) js h = ground (arith, listed-append k ks js)

claimed_row-listed :
    (k j : Identity) (won : Bool) (t : Progress)
    → listed k t.claimed ≡ true
    → listed k (claimed_row j won t).claimed ≡ true
claimed_row-listed k j true t h = listed-append k t.claimed (j ∷ []) h
claimed_row-listed k j false t h = h

claim_next-listed :
    (k : Identity) (step rest : Attempt Bool × Progress)
    → listed k step.1.claimed ≡ true
    → listed k rest.1.claimed ≡ true
    → listed k (claim_next step rest).1.claimed ≡ true
claim_next-listed k (ok true, t) rest a b = b
claim_next-listed k (ok false, t) rest a b = a
claim_next-listed k (raises r, t) rest a b = a

claim_next_won :
    (step rest : Attempt Bool × Progress) → step.0 ≡ ok true → claim_next step rest ≡ rest
claim_next_won (ok true, t) rest e = refl
claim_next_won (ok false, t) rest e = cc e
claim_next_won (raises r, t) rest e = cc e

module _ (o : Outside) (k : Identity) where
  claim_worker-listed :
      (j : Identity) (e : Option Raise) (t : Progress)
      → listed k t.claimed ≡ true
      → listed k (claim_worker o j e t).1.claimed ≡ true
  claim_worker-listed j (some r) t h = h
  claim_worker-listed j none t h =
      let (rows, won) = insert_claim j t.router.clock_ms t.router.dedupe in
      claimed_row-listed k j won
        (await o (claim j) (record t { router = record t.router { dedupe = rows } })) h

  claim_rest-listed :
      (ks : List Identity) (t : Progress)
      → listed k t.claimed ≡ true
      → listed k (claim_each o ks t).1.claimed ≡ true
  unfolding claim_each claim_identity
  claim_rest-listed [] t h = h
  claim_rest-listed (j ∷ ks) t h =
      let step = claim_worker o j (o.claim_raises j) t in
      let kept = claim_worker-listed j (o.claim_raises j) t h in
      claim_next-listed k step (claim_each o ks step.1) kept (claim_rest-listed ks step.1 kept)

  won-listed :
      (e : Option Raise) (t : Progress)
      → e ≡ none
      → (insert_claim k t.router.clock_ms t.router.dedupe).1 ≡ true
      → listed k (claim_worker o k e t).1.claimed ≡ true
  won-listed none t e w = rw w (listed-append_self k t.claimed)
  won-listed (some r) t e w = cc e

  pub claim_each-listed :
      (ks : List Identity) (t : Progress)
      → Wins o k ks t
      → listed k (claim_each o ks t).1.claimed ≡ true
  unfolding claim_each claim_identity
  claim_each-listed [] t w = elim w [ ]
  claim_each-listed (j ∷ ks) t (inl (e, runs, won)) =
      let step = claim_worker o j (o.claim_raises j) t in
      let here : listed k step.1.claimed ≡ true =
        rw e (won-listed (o.claim_raises k) t (rw e at runs) (rw e at won)) in
      claim_next-listed k step (claim_each o ks step.1) here (claim_rest-listed ks step.1 here)
  claim_each-listed (j ∷ ks) t (inr (first, w)) =
      let step = claim_worker o j (o.claim_raises j) t in
      rw (claim_next_won step (claim_each o ks step.1) first) (claim_each-listed ks step.1 w)
