-- ===== src/Prompt/Escape.antt =====
-- context.py: what escaped text cannot hold.
use signal_hermes_router.Prelude.{
  ℕ, zero, suc, ◌-◌, ◌≡◌, refl, ◌⊎◌, inl, inr, Bool, true, false, not, ◌&&◌, ◌||◌, [], ◌∷◌, ◌++◌,
  length, arith, Bool-cases, ◌==◌, ==_iff,
}
use signal_hermes_router.Text.{Text, codes, starts_with}
use signal_hermes_router.Prompt.{
  replace_from, replace, context_open, context_close, event_open, event_close, context_open_escaped,
  context_close_escaped, event_open_escaped, escape_prompt_text,
}

-- `p in text`
unfoldable pub includes : Text → Text → Bool
unfolding starts_with
includes p [] = starts_with [] p
includes p (c ∷ cs) = starts_with (c ∷ cs) p || includes p cs

-- The opening bracket, and texts without it.
abbrev bracket : ℕ
bracket = 91

abbrev no_bracket : Text → Bool
no_bracket [] = true
no_bracket (c ∷ cs) = not (c == bracket) && no_bracket cs

neither : (a b : Bool) → a ≡ false → b ≡ false → (a || b) ≡ false
neither a b p q = ground arith

module _ (name escaped : Text) where
  abbrev old : Text
  old = bracket ∷ name

  abbrev new : Text
  new = bracket ∷ escaped

  -- Up to the next bracket the text is kept.
  kept :
      (cs t : Text)
      → no_bracket t ≡ true
      → starts_with (replace_from old new zero cs) t ≡ starts_with cs t
  unfolding starts_with replace_from
  kept [] t h = refl
  kept (c ∷ cs) [] h = refl
  kept (c ∷ cs) (d ∷ t) h = elim (Bool-cases (starts_with (c ∷ cs) old)) [
    | inl here ↦ rw here (ground (arith, ==_iff c bracket, ==_iff c d, ==_iff d bracket))
    | inr other ↦ rw (other, kept cs t (ground arith)) refl
  ]

  module _ (tag : Text) (plain : no_bracket tag ≡ true)
      (foreign : (rest : Text)
        → includes (bracket ∷ tag) (new ++ rest) ≡ includes (bracket ∷ tag) rest) where
    -- The tag is the one that is replaced, or the text has none.
    Gone : Text → Type 0
    Gone s = (tag ≡ name) ⊎ (includes (bracket ∷ tag) s ≡ false)

    later-Gone : (c : ℕ) (cs : Text) → Gone (c ∷ cs) → Gone cs
    unfolding Gone includes
    later-Gone c cs (inl e) = inl e
    later-Gone c cs (inr e) = inr (ground arith)

    here-Gone :
        (c : ℕ) (cs : Text)
        → starts_with (c ∷ cs) old ≡ false
        → Gone (c ∷ cs)
        → starts_with (c ∷ cs) (bracket ∷ tag) ≡ false
    unfolding Gone includes
    here-Gone c cs other (inl e) = rw e other
    here-Gone c cs other (inr e) = ground arith

    replace_from-Gone :
        (skip : ℕ) (s : Text)
        → Gone s
        → includes (bracket ∷ tag) (replace_from old new skip s) ≡ false
    unfolding replace_from includes
    replace_from-Gone skip [] g = refl
    replace_from-Gone (suc skip) (c ∷ cs) g = replace_from-Gone skip cs (later-Gone c cs g)
    replace_from-Gone zero (c ∷ cs) g = elim (Bool-cases (starts_with (c ∷ cs) old)) [
      | inl here ↦ rw (here, foreign) (replace_from-Gone (length old - 1) cs (later-Gone c cs g))
      | inr other ↦ rw other (
          neither _ _ (rw (kept cs tag plain) (here-Gone c cs other g))
            (replace_from-Gone zero cs (later-Gone c cs g)))
    ]

-- The tags without their brackets.
abbrev context_open_tag : Text
context_open_tag = codes "route_context:"

abbrev context_close_tag : Text
context_close_tag = codes "/route_context:"

abbrev event_open_tag : Text
event_open_tag = codes "scheduled_event:"

abbrev event_close_tag : Text
event_close_tag = codes "/scheduled_event:"

abbrev context_open_escaped_tag : Text
context_open_escaped_tag = codes "route_context_escaped:"

abbrev context_close_escaped_tag : Text
context_close_escaped_tag = codes "/route_context_escaped:"

abbrev event_open_escaped_tag : Text
event_open_escaped_tag = codes "scheduled_event_escaped:"

abbrev event_close_escaped_tag : Text
event_close_escaped_tag = codes "/scheduled_event_escaped:"

-- The text holds none of the four openings.
abbrev pub Escaped : Text → Type 0
Escaped s =
    (includes context_open s ≡ false)
    × (includes context_close s ≡ false)
    × (includes event_open s ≡ false)
    × (includes event_close s ≡ false)

-- Whatever the text, it holds none of the openings of the router's own blocks once it is escaped.
pub escape_prompt_text-Escaped : (text : Text) → Escaped (escape_prompt_text text)
unfolding escape_prompt_text replace Gone includes starts_with
escape_prompt_text-Escaped text =
    let gone_context_open1 =
      replace_from-Gone context_open_tag context_open_escaped_tag context_open_tag refl
        (λ rest. refl) 0 text (inl refl) in
    let s1 = replace context_open context_open_escaped text in
    let gone_context_open2 =
      replace_from-Gone context_close_tag context_close_escaped_tag context_open_tag refl
        (λ rest. refl) 0 s1 (inr gone_context_open1) in
    let gone_context_close2 =
      replace_from-Gone context_close_tag context_close_escaped_tag context_close_tag refl
        (λ rest. refl) 0 s1 (inl refl) in
    let s2 = replace context_close context_close_escaped s1 in
    let gone_context_open3 =
      replace_from-Gone event_open_tag event_open_escaped_tag context_open_tag refl (λ rest. refl) 0
        s2 (inr gone_context_open2) in
    let gone_context_close3 =
      replace_from-Gone event_open_tag event_open_escaped_tag context_close_tag refl (λ rest. refl)
        0 s2 (inr gone_context_close2) in
    let gone_event_open3 =
      replace_from-Gone event_open_tag event_open_escaped_tag event_open_tag refl (λ rest. refl) 0
        s2 (inl refl) in
    let s3 = replace event_open event_open_escaped s2 in
    let gone_context_open4 =
      replace_from-Gone event_close_tag event_close_escaped_tag context_open_tag refl (λ rest. refl)
        0 s3 (inr gone_context_open3) in
    let gone_context_close4 =
      replace_from-Gone event_close_tag event_close_escaped_tag context_close_tag refl
        (λ rest. refl) 0 s3 (inr gone_context_close3) in
    let gone_event_open4 =
      replace_from-Gone event_close_tag event_close_escaped_tag event_open_tag refl (λ rest. refl) 0
        s3 (inr gone_event_open3) in
    let gone_event_close4 =
      replace_from-Gone event_close_tag event_close_escaped_tag event_close_tag refl (λ rest. refl)
        0 s3 (inl refl) in
    (gone_context_open4, gone_context_close4, gone_event_open4, gone_event_close4)
