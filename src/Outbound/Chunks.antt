-- ===== src/Outbound/Chunks.antt =====
-- outbound.py: `chunk_for_signal_bytes` as a whole.
use signal_hermes_router.Prelude.{
  ℕ, zero, suc, ◌+◌, ◌-◌, ◌≤◌, ◌<◌, ◌≡◌, ◌≢◌, ◌⊎◌, inl, inr, List, [], ◌∷◌, ◌++◌, All, arith,
  length, length-append, ltb, leb, ◌==◌, Bool-cases,
}
use signal_hermes_router.Text.{Text, utf8_len, byte_len, str}
use signal_hermes_router.Text.Laws.{byte_len-append, byte_len-str, length-str_mono}
use signal_hermes_router.Outbound.{
  split_greedy_bytes, marker, number_from, settle, chunk_for_signal_bytes,
}
use signal_hermes_router.Outbound.Cuts.{Splits, Unbroken}
use signal_hermes_router.Outbound.Split.{Anywhere, split_greedy_bytes_lem, hard_byte_cut_lem}

abbrev Within : ℕ → List Text → Type 0
Within limit = All (λ c. byte_len c ≤ limit)

length-marker : (i m : ℕ) → length (marker i m) ≡ length (str i) + length (str m) + 4
unfolding marker
length-marker i m = omega (
  arith,
  length-append (str i) (47 ∷ (str m ++ (93 ∷ 32 ∷ []))),
  length-append (str m) (93 ∷ 32 ∷ []),
)

-- A marker is ASCII.
byte_len-marker : (i m : ℕ) → byte_len (marker i m) ≡ length (str i) + length (str m) + 4
unfolding marker byte_len utf8_len
byte_len-marker i m = omega (
  arith,
  byte_len-append (str i) (47 ∷ (str m ++ (93 ∷ 32 ∷ []))),
  byte_len-append (str m) (93 ∷ 32 ∷ []),
  byte_len-str i,
  byte_len-str m,
)

-- Chunks that leave room for the widest marker are within the limit with their markers.
number_from-Within :
    (i m limit : ℕ) (chunks : List Text)
    → i + length chunks ≤ suc m
    → length (marker m m) ≤ limit
    → Within (limit - length (marker m m)) chunks
    → Within limit (number_from i m chunks)
unfolding number_from
number_from-Within i m limit [] h room w = tt
number_from-Within i m limit (c ∷ cs) h room w = (
  omega (
    arith,
    byte_len-append (marker i m) c,
    byte_len-marker i m,
    length-marker m m,
    length-str_mono i m (omega arith),
    w.0,
  ),
  number_from-Within (suc i) m limit cs (omega arith) room w.1,
)

settle-Within :
    (rounds : ℕ) (message : Text) (limit m : ℕ) → Within limit (settle rounds message limit m)
unfolding settle
settle-Within zero message limit m = (hard_byte_cut_lem message limit).1
settle-Within (suc rounds) message limit m =
    let width = length (marker m m) in
    let fresh = split_greedy_bytes message (limit - width) in
    elim (Bool-cases (ltb limit (width + 4))) [
      | inl tight ↦ rw tight ((hard_byte_cut_lem message limit).1)
      | inr roomy ↦ elim (Bool-cases (length fresh == m)) [
        | inl same ↦
            rw (roomy, same)
              (number_from-Within 1 m limit fresh (ground arith) (ground arith)
                ((split_greedy_bytes_lem message (limit - width)).1))
        | inr other ↦ rw (roomy, other) (settle-Within rounds message limit (length fresh))
      ]
    ]

-- Every chunk that is sent is within the limit in bytes, its marker included, for every message and
-- every limit.
pub chunk_for_signal_bytes_within :
    (message : Text) (max_bytes : ℕ)
    → All (λ c. byte_len c ≤ max_bytes) (chunk_for_signal_bytes message max_bytes)
unfolding chunk_for_signal_bytes
chunk_for_signal_bytes_within message limit =
    let chunks = split_greedy_bytes message limit in
    elim (Bool-cases (leb (byte_len message) limit)) [
      | inl short ↦ rw short (ground arith, tt)
      | inr long ↦ elim (Bool-cases (length chunks == 1)) [
        | inl one ↦ rw (long, one) ((split_greedy_bytes_lem message limit).1)
        | inr many ↦ rw (long, many) (settle-Within 5 message limit (length chunks))
      ]
    ]

-- The number of chunks that the greedy split makes cannot be settled at once: the limit has no room
-- for its marker with a character, or its markers leave room for another number of chunks.
abbrev pub Unsettled : Text → ℕ → Type 0
Unsettled message limit =
    let m = length (split_greedy_bytes message limit) in
    let width = length (marker m m) in
    (limit < width + 4) ⊎ (length (split_greedy_bytes message (limit - width)) ≢ m)

-- Pieces of a message in order, cut at separators wherever a piece has one behind its first
-- character, sent bare, or each with the marker of its place.
abbrev pub Pieces : Text → List Text → Type 0
Pieces message sent =
    (pieces : List Text) × Splits Unbroken pieces message
    × ((sent ≡ pieces) ⊎ (sent ≡ number_from 1 (length pieces) pieces))

-- What is sent for a message: such pieces, or, where their number does not settle, pieces in order
-- that are cut anywhere.
abbrev pub Delivers : Text → ℕ → List Text → Type 0
Delivers message limit sent =
    Pieces message sent ⊎ (Splits Anywhere sent message × Unsettled message limit)
