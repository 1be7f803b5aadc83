-- ===== src/Outbound/Limits.antt =====
-- outbound.py: the limit in characters, the canary prefix and the no-reply sentinel.
use signal_hermes_router.Prelude.{
  ℕ, ◌-◌, ◌≤◌, ◌<◌, ◌≡◌, ◌↔◌, ◌⊎◌, inl, inr, true, ◌∷◌, ◌++◌, Option, some, arith, length,
  length-append, length-take, take, leb, Bool-cases,
}
use signal_hermes_router.Text.{Text, starts_with, strip, lstrip, rstrip}
use signal_hermes_router.Text.Laws.{length-rstrip-le, starts_with-append, text_eq_iff}
use signal_hermes_router.Outbound.{
  truncated_reply_suffix, no_reply_sentinel, is_no_reply_sentinel, apply_canary_prefix,
  limit_reply_chars, prepare_outgoing_message,
}

limit_reply_chars_bound : (message : Text) (n : ℕ) → length (limit_reply_chars message n) ≤ n
unfolding limit_reply_chars
limit_reply_chars_bound message n =
    let cut = take (n - length truncated_reply_suffix) message in
    ground (
      arith,
      length-take n message,
      length-take (n - length truncated_reply_suffix) message,
      length-rstrip-le cut,
      length-append (rstrip cut) truncated_reply_suffix,
    )

limit_reply_chars_cases :
    (whole : Text) (n : ℕ)
    → ((length whole ≤ n) × (limit_reply_chars whole n ≡ whole))
      ⊎ ((n < length whole)
          × ((n ≤ length truncated_reply_suffix)
              ⊎ ((kept : Text) × (limit_reply_chars whole n ≡ kept ++ truncated_reply_suffix))))
unfolding limit_reply_chars
limit_reply_chars_cases whole n =
    let suffix = length truncated_reply_suffix in
    elim (Bool-cases (leb (length whole) n)) [
      | inl fits ↦ inl (ground arith, ground arith)
      | inr long ↦ elim (Bool-cases (leb n suffix)) [
        | inl tight ↦ inr (ground arith, inl (ground arith))
        | inr roomy ↦ inr (ground arith, inr (rstrip (take (n - suffix) whole), ground arith))
      ]
    ]

-- The prepared message has at most `max_reply_chars` characters. It is the message with its prefix
-- where that fits, and otherwise ends with the suffix that says it was truncated, if the limit has
-- room for more than the suffix.
pub prepare_outgoing_message_lem :
    (prefix : Option Text) (message : Text) (n : ℕ)
    → let out = prepare_outgoing_message prefix message n in
      let whole = apply_canary_prefix prefix message in
      (length out ≤ n)
      × (((length whole ≤ n) × (out ≡ whole))
          ⊎ ((n < length whole)
              × ((n ≤ length truncated_reply_suffix)
                  ⊎ ((kept : Text) × (out ≡ kept ++ truncated_reply_suffix)))))
unfolding prepare_outgoing_message
prepare_outgoing_message_lem prefix message n =
    let whole = apply_canary_prefix prefix message in
    (limit_reply_chars_bound whole n, limit_reply_chars_cases whole n)

-- A canary reply begins with its prefix, whether the profile wrote it or not.
apply_canary_prefix-starts_with :
    (prefix message : Text) → starts_with (apply_canary_prefix (some prefix) message) prefix ≡ true
unfolding apply_canary_prefix
apply_canary_prefix-starts_with prefix message =
    ground (arith, starts_with-append prefix (32 ∷ lstrip message))

-- A reply is taken for the sentinel exactly when it is the sentinel within white space.
is_no_reply_sentinel_iff :
    (message : Text) → (is_no_reply_sentinel message ≡ true) ↔ (strip message ≡ no_reply_sentinel)
unfolding is_no_reply_sentinel
is_no_reply_sentinel_iff message = text_eq_iff (strip message) no_reply_sentinel
