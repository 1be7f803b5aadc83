-- ===== src/Outbound/Split.antt =====
-- outbound.py: the loops of the greedy split and of the hard cut.
use signal_hermes_router.Prelude.{
  ℕ, zero, suc, ◌≤◌, ◌<◌, ◌≡◌, refl, sym, ap, ◌∙◌, inl, inr, false, List, [], ◌∷◌, ◌++◌, Option,
  some, All, arith, length, length-drop, drop, leb, ◌==◌, Bool-cases,
}
use signal_hermes_router.Text.{Text, byte_len}
use signal_hermes_router.Outbound.{
  byte_prefix, break_point, more, last_chunk, split_loop, split_greedy_bytes, hard_loop,
  hard_byte_cut,
}
use signal_hermes_router.Outbound.Cuts.{
  IsSeparator, Unbroken, Splits, window_split, byte_len-window, window_pos, break_point_pos,
  drop_front, round, nothing, done, last, cut,
}

-- The result of a loop that has fuel enough.
record IsSplit (Free : Text → Type 0) (limit : ℕ) (text : Text) (r : Option (List Text))
    : Type 0 where
  chunks : List Text
  returns : r ≡ some chunks
  within : All (λ c. byte_len c ≤ limit) chunks
  whole : 4 ≤ limit → Splits Free chunks text

-- A cut at any place.
abbrev pub Anywhere : Text → Type 0
Anywhere chunk = Unit

last_chunk-Splits : (text : Text) → Splits Unbroken (last_chunk text) text
last_chunk-Splits [] = done
last_chunk-Splits (c ∷ cs) = last (c ∷ cs)

last_chunk-within :
    (limit : ℕ) (text : Text)
    → byte_len text ≤ limit
    → All (λ c. byte_len c ≤ limit) (last_chunk text)
last_chunk-within limit [] h = tt
last_chunk-within limit (c ∷ cs) h = (h, tt)

more-IsSplit :
    (Free : Text → Type 0) (limit : ℕ) (text chunk separator rest : Text) (r : Option (List Text))
    → text ≡ chunk ++ (separator ++ rest)
    → IsSeparator Free chunk separator
    → byte_len chunk ≤ limit
    → IsSplit Free limit rest r
    → IsSplit Free limit text (more chunk r)
more-IsSplit Free limit text chunk separator rest r e known fits v = record {
  chunks = chunk ∷ v.chunks;
  returns = rw v.returns;
  within = (fits, v.within);
  whole = λ h. rw e (cut chunk separator known (v.whole h));
}

long_pos : (text : Text) (limit : ℕ) → leb (byte_len text) limit ≡ false → 0 < length text
unfolding byte_len
long_pos [] limit h = ground arith
long_pos (c ∷ cs) limit h = omega arith

stuck-IsSplit :
    (limit : ℕ) (text : Text) (r : Option (List Text))
    → 0 < length text
    → (break_point (byte_prefix text limit)).emit ≡ 0
    → IsSplit Unbroken limit (drop 1 text) r
    → IsSplit Unbroken limit text r
stuck-IsSplit limit text r pos stuck v = record {
  chunks = v.chunks;
  returns = v.returns;
  within = v.within;
  whole = λ h.
      let emits = break_point_pos (byte_prefix text limit) (window_pos text limit h pos) in
      absurd (omega arith);
}

split_loop-IsSplit :
    (fuel limit : ℕ) (text : Text)
    → length text < fuel
    → IsSplit Unbroken limit text (split_loop fuel limit text)
unfolding split_loop
split_loop-IsSplit zero limit text h = absurd (omega arith)
split_loop-IsSplit (suc fuel) limit text h = elim (Bool-cases (leb (byte_len text) limit)) [
  | inl fits ↦ rw fits (record {
    chunks = last_chunk text;
    returns = refl;
    within = last_chunk-within limit text (ground arith);
    whole = λ _. last_chunk-Splits text;
  })
  | inr long ↦
      let c = break_point (byte_prefix text limit) in
      let v = round limit text in
      elim (Bool-cases (c.emit == 0)) [
        | inl stuck ↦
            rw (long, stuck)
              (stuck-IsSplit limit text _ (long_pos text limit long) (ground arith) (
                split_loop-IsSplit fuel limit (drop 1 text)
                  (omega (arith, length-drop 1 text, long_pos text limit long))))
        | inr cuts ↦
            rw (long, cuts)
              (more-IsSplit Unbroken limit text _ v.separator _ _ v.parts v.known v.fits (
                split_loop-IsSplit fuel limit _ (
                  ground (
                    arith,
                    length-drop c.skip (drop c.emit text),
                    length-drop c.emit text,
                    long_pos text limit long,
                  ))))
      ]
]

-- The greedy split ends on every text with every limit; each chunk is within the limit; and with a
-- limit of four bytes or more, the chunks are the text, in order, less the separators at the cuts,
-- each cut at a separator if the chunk has one behind its first character.
pub split_greedy_bytes_lem :
    (text : Text) (limit : ℕ)
    → (split_loop (suc (length text)) limit text ≡ some (split_greedy_bytes text limit))
      × All (λ c. byte_len c ≤ limit) (split_greedy_bytes text limit)
      × (4 ≤ limit → Splits Unbroken (split_greedy_bytes text limit) text)
unfolding split_greedy_bytes
split_greedy_bytes_lem text limit =
    let v = split_loop-IsSplit (suc (length text)) limit text (omega arith) in
    rw v.returns (refl, v.within, v.whole)

hard_loop-IsSplit :
    (fuel limit : ℕ) (text : Text)
    → length text < fuel
    → IsSplit Anywhere limit text (hard_loop fuel limit text)
unfolding hard_loop
hard_loop-IsSplit zero limit text h = absurd (omega arith)
hard_loop-IsSplit (suc fuel) limit [] h = record {
  chunks = [];
  returns = refl;
  within = tt;
  whole = λ _. done;
}
hard_loop-IsSplit (suc fuel) limit (c ∷ cs) h =
    let window = byte_prefix (c ∷ cs) limit in
    let (t, whole) = window_split (c ∷ cs) limit in
    elim (Bool-cases (length window == 0)) [
      | inl stuck ↦
          let v = hard_loop-IsSplit fuel limit cs (omega arith) in
          rw stuck (record {
            chunks = v.chunks;
            returns = v.returns;
            within = v.within;
            whole = λ h4.
                let emits = window_pos (c ∷ cs) limit h4 (omega arith) in absurd (ground arith);
          })
      | inr cuts ↦ rw cuts (
          more-IsSplit Anywhere limit (c ∷ cs) window [] _ _
            (whole
              ∙ ap (◌++◌ window) (
                  sym (ap (drop (length window)) whole ∙ drop_front (length window) window t refl)))
            (nothing tt) (byte_len-window (c ∷ cs) limit)
            (hard_loop-IsSplit fuel limit _ (ground (arith, length-drop (length window) (c ∷ cs)))))
    ]

-- So does the hard cut.
pub hard_byte_cut_lem :
    (text : Text) (limit : ℕ)
    → (hard_loop (suc (length text)) limit text ≡ some (hard_byte_cut text limit))
      × All (λ c. byte_len c ≤ limit) (hard_byte_cut text limit)
      × (4 ≤ limit → Splits Anywhere (hard_byte_cut text limit) text)
unfolding hard_byte_cut
hard_byte_cut_lem text limit =
    let v = hard_loop-IsSplit (suc (length text)) limit text (omega arith) in
    rw v.returns (refl, v.within, v.whole)
