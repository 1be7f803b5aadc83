-- ===== src/Outbound.antt =====
-- src/signal_hermes_router/outbound.py: the reply on its way to Signal, its prefix, its limit in
-- characters, and its chunks in bytes.
--
-- Texts are lists of code points (Text). A `while` loop over the remaining text has fuel one above
-- its length: each round drops a character at least (Outbound/Split and Outbound/Chunks).
pub mod Cuts
pub mod Split
pub mod Chunks
pub mod Limits
pub mod Examples
use signal_hermes_router.Prelude.{
  ℕ, zero, suc, ◌+◌, ◌-◌, Bool, true, false, List, [], ◌∷◌, ◌++◌, Option, none, some, length, take,
  drop, ltb, leb, ◌==◌, or_else, if◌then◌else◌,
}
use signal_hermes_router.Text.{
  Text, codes, byte_len, decode_prefix, starts_with, rfind, strip, lstrip, rstrip, text_eq, str,
}

abbrev pub truncated_reply_suffix : Text
truncated_reply_suffix = 10 ∷ 10 ∷ codes "[truncated by signal-hermes-router]"

abbrev pub no_reply_sentinel : Text
no_reply_sentinel = codes "[[signal-hermes-router:no-reply]]"

unfoldable pub is_no_reply_sentinel : Text → Bool
unfolding strip
is_no_reply_sentinel message = text_eq (strip message) no_reply_sentinel

-- `route.route_context.get("canary_reply_prefix")`, with `none` where it is missing, no string or
-- empty.
unfoldable pub apply_canary_prefix : Option Text → Text → Text
apply_canary_prefix none message = message
apply_canary_prefix (some prefix) message =
    let stripped = lstrip message in
    if starts_with stripped prefix then stripped else prefix ++ (32 ∷ stripped)

unfoldable pub limit_reply_chars : Text → ℕ → Text
limit_reply_chars message max_reply_chars =
    if leb (length message) max_reply_chars
    then message
    else if leb max_reply_chars (length truncated_reply_suffix)
    then take max_reply_chars message
    else rstrip (take (max_reply_chars - length truncated_reply_suffix) message)
      ++ truncated_reply_suffix

unfoldable pub prepare_outgoing_message : Option Text → Text → ℕ → Text
prepare_outgoing_message prefix message max_reply_chars =
    limit_reply_chars (apply_canary_prefix prefix message) max_reply_chars

-- `_byte_prefix`
unfoldable pub byte_prefix : Text → ℕ → Text
byte_prefix text max_bytes =
    if leb (byte_len text) max_bytes then text else decode_prefix max_bytes text

-- `cut > 0` for the result of `rfind`.
abbrev positive : Option ℕ → Option ℕ
positive none = none
positive (some zero) = none
positive (some (suc i)) = some (suc i)

-- `max` of two results of `rfind`.
abbrev later : Option ℕ → Option ℕ → Option ℕ
later none b = b
later (some a) none = some a
later (some a) (some b) = if leb a b then some b else some a

-- Where a round of the greedy loop cuts: the characters that it emits, and the separator's that it
-- drops behind them.
pub record Cut : Type 0 where
  pub emit : ℕ
  pub skip : ℕ

abbrev cut_or : Option ℕ → ℕ → Cut → Cut
cut_or none skip otherwise = otherwise
cut_or (some n) skip otherwise = record { emit = n; skip = skip }

unfoldable pub break_point : Text → Cut
break_point window = cut_or (positive (rfind (10 ∷ 10 ∷ []) window)) 2 (
    cut_or (positive (rfind (10 ∷ []) window)) 1 (
      cut_or (positive (later (rfind (32 ∷ []) window) (rfind (9 ∷ []) window))) 1
        (record { emit = length window; skip = 0 })))

abbrev more {ℓ} : {A : Type ℓ} → A → Option (List A) → Option (List A)
more a none = none
more a (some rest) = some (a ∷ rest)

abbrev last_chunk : Text → List Text
last_chunk [] = []
last_chunk (c ∷ cs) = (c ∷ cs) ∷ []

-- The loop of `_split_greedy_bytes`; `none` means that the fuel ran out. A cut of no characters is
-- the case of an empty window, where the round drops a character.
unfoldable pub split_loop : ℕ → ℕ → Text → Option (List Text)
split_loop zero limit remaining = none
split_loop (suc fuel) limit remaining =
    let cut = break_point (byte_prefix remaining limit) in
    let dropped = split_loop fuel limit (drop 1 remaining) in
    let emitted =
      more (take cut.emit remaining)
        (split_loop fuel limit (drop cut.skip (drop cut.emit remaining))) in
    if leb (byte_len remaining) limit
    then some (last_chunk remaining)
    else if cut.emit == 0
    then dropped
    else emitted

unfoldable pub split_greedy_bytes : Text → ℕ → List Text
unfolding split_loop
split_greedy_bytes text limit = or_else (split_loop (suc (length text)) limit text) []

-- The loop of `_hard_byte_cut`.
unfoldable pub hard_loop : ℕ → ℕ → Text → Option (List Text)
hard_loop zero max_bytes remaining = none
hard_loop (suc fuel) max_bytes [] = some []
hard_loop (suc fuel) max_bytes (c ∷ cs) =
    let prefix = byte_prefix (c ∷ cs) max_bytes in
    let dropped = hard_loop fuel max_bytes cs in
    let emitted = more prefix (hard_loop fuel max_bytes (drop (length prefix) (c ∷ cs))) in
    if length prefix == 0 then dropped else emitted

unfoldable pub hard_byte_cut : Text → ℕ → List Text
unfolding hard_loop
hard_byte_cut message max_bytes = or_else (hard_loop (suc (length message)) max_bytes message) []

-- f"[{i}/{m}] "
unfoldable pub marker : ℕ → ℕ → Text
marker i m = 91 ∷ (str i ++ (47 ∷ (str m ++ (93 ∷ 32 ∷ []))))

-- [f"[{i + 1}/{m}] {c}" for i, c in enumerate(chunks)], from the chunk `i + 1` on
unfoldable pub number_from : ℕ → ℕ → List Text → List Text
number_from i m [] = []
number_from i m (c ∷ cs) = (marker i m ++ c) ∷ number_from (suc i) m cs

-- The rounds of the `for` loop that looks for a number of chunks that its own markers leave valid.
unfoldable pub settle : ℕ → Text → ℕ → ℕ → List Text
settle zero message max_bytes m = hard_byte_cut message max_bytes
settle (suc rounds) message max_bytes m =
    let marker_width = length (marker m m) in
    let new_chunks = split_greedy_bytes message (max_bytes - marker_width) in
    let again = settle rounds message max_bytes (length new_chunks) in
    if ltb max_bytes (marker_width + 4)
    then hard_byte_cut message max_bytes
    else if length new_chunks == m
    then number_from 1 m new_chunks
    else again

unfoldable pub chunk_for_signal_bytes : Text → ℕ → List Text
chunk_for_signal_bytes message max_bytes =
    let chunks = split_greedy_bytes message max_bytes in
    if leb (byte_len message) max_bytes
    then message ∷ []
    else if length chunks == 1
    then chunks
    else settle 5 message max_bytes (length chunks)
