-- ===== src/Outbound/Examples.antt =====
-- Runs of outbound.py: a reply that is cut at a space, one that is truncated, and a canary.
use signal_hermes_router.Prelude.{◌≤◌, ◌<◌, ◌≡◌, ◌⊎◌, some, ◌++◌, All, length}
use signal_hermes_router.Text.{Text, codes, byte_len}
use signal_hermes_router.Outbound.{
  truncated_reply_suffix, apply_canary_prefix, prepare_outgoing_message, chunk_for_signal_bytes,
}
use signal_hermes_router.Outbound.Chunks.{chunk_for_signal_bytes_within}
use signal_hermes_router.Outbound.Limits.{prepare_outgoing_message_lem}

abbrev message : Text
message = codes "one two three four five"

chunk_for_signal_bytes_within_example :
    All (λ c. byte_len c ≤ 16) (chunk_for_signal_bytes message 16)
chunk_for_signal_bytes_within_example = chunk_for_signal_bytes_within message 16

prepare_outgoing_message_example :
    let out = prepare_outgoing_message (some (codes "[canary]")) message 22 in
    let whole = apply_canary_prefix (some (codes "[canary]")) message in
    (length out ≤ 22)
    × (((length whole ≤ 22) × (out ≡ whole))
        ⊎ ((22 < length whole)
            × ((22 ≤ length truncated_reply_suffix)
                ⊎ ((kept : Text) × (out ≡ kept ++ truncated_reply_suffix)))))
prepare_outgoing_message_example = prepare_outgoing_message_lem (some (codes "[canary]")) message 22
