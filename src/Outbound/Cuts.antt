-- ===== src/Outbound/Cuts.antt =====
-- outbound.py: one cut of the greedy split, at the last separator that fits or at the limit.
use signal_hermes_router.Prelude.{
  ℕ, zero, suc, Bool, false, ◌||◌, ◌==◌, All, All_zip, Option-cases, ◌≤◌, ◌<◌, ◌≡◌, refl, sym, ap,
  ◌∙◌, ◌⊎◌, inl, inr, List, [], ◌∷◌, ◌++◌, Option, none, some, arith, length, take, drop, leb,
  Bool-cases,
}
use mathlib.Core.List.{append-nil, append_assoc}
use signal_hermes_router.Text.{Text, byte_len, rfind, starts_with}
use signal_hermes_router.Text.Laws.{
  byte_len-append, byte_len-decode_prefix, decode_prefix-IsPrefix, decode_prefix_pos,
  take-length-append, drop-length-append, rfind_split,
}
use signal_hermes_router.Outbound.{byte_prefix, positive, later, Cut, cut_or, break_point}

-- A newline, a space or a tab.
abbrev is_break : ℕ → Bool
is_break c = (c == 10) || ((c == 32) || (c == 9))

-- Behind its first character the text has no place for a cut.
abbrev pub Unbroken : Text → Type 0
Unbroken [] = Unit
Unbroken (c ∷ cs) = All (λ d. is_break d ≡ false) cs

-- What the cut behind a chunk may drop: a separator, or nothing, where the chunk is free to be cut
-- anywhere.
pub data IsSeparator (Free : Text → Type 0) (chunk : Text) : Text → Type 0 where
  nothing : Free chunk → IsSeparator Free chunk []
  paragraph : IsSeparator Free chunk (10 ∷ 10 ∷ [])
  newline : IsSeparator Free chunk (10 ∷ [])
  space : IsSeparator Free chunk (32 ∷ [])
  tab : IsSeparator Free chunk (9 ∷ [])

-- The chunks of a text, in order, with the separators between them left out.
pub data Splits (Free : Text → Type 0) : List Text → Text → Type 0 where
  done : Splits Free [] []
  last : (chunk : Text) → Splits Free (chunk ∷ []) chunk
  cut :
      (chunk separator : Text) {rest : Text} {chunks : List Text}
      → IsSeparator Free chunk separator
      → Splits Free chunks rest
      → Splits Free (chunk ∷ chunks) (chunk ++ (separator ++ rest))

absent_all : (s : ℕ) (cs : Text) → rfind (s ∷ []) cs ≡ none → All (λ d. (d == s) ≡ false) cs
unfolding rfind starts_with
absent_all s [] h = tt
absent_all s (c ∷ cs) h = elim (Option-cases (rfind (s ∷ []) cs)) [
  | inr (i, e) ↦ cc (rw e at h)
  | inl e ↦ (ground arith, absent_all s cs e)
]

behind_first :
    (s c : ℕ) (cs : Text)
    → positive (rfind (s ∷ []) (c ∷ cs)) ≡ none
    → All (λ d. (d == s) ≡ false) cs
unfolding rfind
behind_first s c cs h = elim (Option-cases (rfind (s ∷ []) cs)) [
  | inr (i, e) ↦ cc (rw e at h)
  | inl e ↦ absent_all s cs e
]

later-none :
    (a b : Option ℕ) → positive (later a b) ≡ none → (positive a ≡ none) × (positive b ≡ none)
later-none none b h = (refl, h)
later-none (some a) none h = (h, refl)
later-none (some zero) (some zero) h = (refl, refl)
later-none (some zero) (some (suc b)) h = ground arith
later-none (some (suc a)) (some zero) h = ground arith
later-none (some (suc a)) (some (suc b)) h = ground arith

window-Unbroken :
    (window : Text)
    → positive (rfind (10 ∷ []) window) ≡ none
    → positive (later (rfind (32 ∷ []) window) (rfind (9 ∷ []) window)) ≡ none
    → Unbroken window
window-Unbroken [] n h = tt
window-Unbroken (c ∷ cs) n h =
    let (s, t) = later-none (rfind (32 ∷ []) (c ∷ cs)) (rfind (9 ∷ []) (c ∷ cs)) h in
    All_zip (λ d. (d == 10) ≡ false) (λ d. ((d == 32) || (d == 9)) ≡ false) _
      (λ d p q. ground arith) cs (behind_first 10 c cs n)
      (All_zip (λ d. (d == 32) ≡ false) (λ d. (d == 9) ≡ false) _ (λ d p q. ground arith) cs
        (behind_first 32 c cs s) (behind_first 9 c cs t))

-- The window is a prefix within the limit.
pub window_split : (text : Text) (limit : ℕ) → (t : Text) × (text ≡ byte_prefix text limit ++ t)
unfolding byte_prefix
window_split text limit = elim (Bool-cases (leb (byte_len text) limit)) [
  | inl fits ↦ ([], rw fits (sym (append-nil text)))
  | inr long ↦ rw long (decode_prefix-IsPrefix limit text)
]

pub byte_len-window : (text : Text) (limit : ℕ) → byte_len (byte_prefix text limit) ≤ limit
unfolding byte_prefix
byte_len-window text limit = ground (arith, byte_len-decode_prefix limit text)

pub window_pos :
    (text : Text) (limit : ℕ) → 4 ≤ limit → 0 < length text → 0 < length (byte_prefix text limit)
unfolding byte_prefix
window_pos text limit h l = ground (arith, decode_prefix_pos limit text)

-- A cut is good for a window when what it emits and skips is a prefix of the window, the skipped
-- part a separator.
record GoodCut (window : Text) (c : Cut) : Type 0 where
  before : Text
  separator : Text
  after : Text
  split : window ≡ before ++ (separator ++ after)
  emits : length before ≡ c.emit
  skips : length separator ≡ c.skip
  known : IsSeparator Unbroken before separator

cut_or-GoodCut :
    (window : Text) (o : Option ℕ) (skip : ℕ) (otherwise : Cut)
    → ((i : ℕ) → o ≡ some i → GoodCut window (record { emit = i; skip = skip }))
    → (o ≡ none → GoodCut window otherwise)
    → GoodCut window (cut_or o skip otherwise)
cut_or-GoodCut window none skip otherwise found v = v refl
cut_or-GoodCut window (some i) skip otherwise found v = found i refl

rfind-GoodCut :
    (window separator : Text) (i : ℕ)
    → ((before : Text) → IsSeparator Unbroken before separator)
    → rfind separator window ≡ some i
    → GoodCut window (record { emit = i; skip = length separator })
rfind-GoodCut window separator i known e =
    let (pre, post, split, len) = rfind_split separator window e in
    record {
      before = pre;
      separator = separator;
      after = post;
      split = split;
      emits = len;
      skips = refl;
      known = known pre;
    }

positive-some : (o : Option ℕ) (i : ℕ) → positive o ≡ some i → o ≡ some i
positive-some o i h = ground arith

later-some : (a b : Option ℕ) (i : ℕ) → later a b ≡ some i → (a ≡ some i) ⊎ (b ≡ some i)
later-some a b i h = ground arith

space-GoodCut :
    (window : Text) (i : ℕ)
    → (rfind (32 ∷ []) window ≡ some i) ⊎ (rfind (9 ∷ []) window ≡ some i)
    → GoodCut window (record { emit = i; skip = 1 })
space-GoodCut window i (inl e) = rfind-GoodCut window (32 ∷ []) i (λ _. space) e
space-GoodCut window i (inr e) = rfind-GoodCut window (9 ∷ []) i (λ _. tab) e

break_point-GoodCut : (window : Text) → GoodCut window (break_point window)
unfolding break_point
break_point-GoodCut window =
    cut_or-GoodCut window _ 2 _
      (λ i e. rfind-GoodCut window (10 ∷ 10 ∷ []) i (λ _. paragraph) (positive-some _ i e))
      (λ _.
        cut_or-GoodCut window _ 1 _
          (λ i e. rfind-GoodCut window (10 ∷ []) i (λ _. newline) (positive-some _ i e))
          (λ n.
            cut_or-GoodCut window _ 1 _
              (λ i e. space-GoodCut window i (later-some _ _ i (positive-some _ i e)))
              (λ s. record {
                before = window;
                separator = [];
                after = [];
                split = sym (append-nil window);
                emits = refl;
                skips = refl;
                known = nothing (window-Unbroken window n s);
              })))

pub break_point_pos : (window : Text) → 0 < length window → 0 < (break_point window).emit
unfolding break_point
break_point_pos window h = ground arith

-- A round that emits: the text is the chunk, the separator and what remains.
pub record Round (limit : ℕ) (remaining : Text) (c : Cut) : Type 0 where
  pub separator : Text
  pub known : IsSeparator Unbroken (take c.emit remaining) separator
  pub parts :
      remaining ≡ take c.emit remaining ++ (separator ++ drop c.skip (drop c.emit remaining))
  pub fits : byte_len (take c.emit remaining) ≤ limit

take_front : (n : ℕ) (s t : Text) → length s ≡ n → take n (s ++ t) ≡ s
take_front n s t e = rw (← e) (take-length-append s t)

pub drop_front : (n : ℕ) (s t : Text) → length s ≡ n → drop n (s ++ t) ≡ t
drop_front n s t e = rw (← e) (drop-length-append s t)

GoodCut-Round :
    (limit : ℕ) (remaining window t : Text) (c : Cut)
    → remaining ≡ window ++ t
    → byte_len window ≤ limit
    → GoodCut window c
    → Round limit remaining c
GoodCut-Round limit remaining window t c whole fits v =
    let rest = v.after ++ t in
    let split : remaining ≡ v.before ++ (v.separator ++ rest) =
      whole
      ∙ ap (λ w. w ++ t) v.split
      ∙ append_assoc v.before (v.separator ++ v.after) t
      ∙ ap (◌++◌ v.before) (append_assoc v.separator v.after t) in
    let taken : take c.emit remaining ≡ v.before =
      ap (take c.emit) split ∙ take_front c.emit v.before _ v.emits in
    let left : drop c.skip (drop c.emit remaining) ≡ rest =
      ap (λ w. drop c.skip (drop c.emit w)) split
      ∙ ap (drop c.skip) (drop_front c.emit v.before _ v.emits)
      ∙ drop_front c.skip v.separator rest v.skips in
    record {
      separator = v.separator;
      known = rw taken v.known;
      parts = rw (taken, left) split;
      fits =
          rw taken
            (omega (arith, ap byte_len v.split, byte_len-append v.before (v.separator ++ v.after)));
    }

pub round :
    (limit : ℕ) (remaining : Text)
    → Round limit remaining (break_point (byte_prefix remaining limit))
round limit remaining =
    let (t, whole) = window_split remaining limit in
    GoodCut-Round limit remaining (byte_prefix remaining limit) t _ whole
      (byte_len-window remaining limit) (break_point-GoodCut (byte_prefix remaining limit))
