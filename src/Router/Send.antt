-- ===== src/Router/Send.antt =====
-- router.py: `_send_once`, the delivery of one reply in chunks.
use signal_hermes_router.Prelude.{
  String, Bool, true, false, List, [], ◌∷◌, map, Option, none, some, if◌then◌else◌,
}
use signal_hermes_router.Text.{Text}
use signal_hermes_router.Models.{OutboundAttachment}
use signal_hermes_router.Config.{Route, is_direct, truthy}
use signal_hermes_router.Outbound.{prepare_outgoing_message, chunk_for_signal_bytes}
use signal_hermes_router.Router.State.{
  Outside, Progress, Raise, exception, cancelled, Attempt, ok, raises, chunk, sends, await, emit,
}

-- The group or the recipient; `none` is the ValueError of `_group_id` and `_direct_recipient`.
unfoldable pub target : Route → Option String
target r = if is_direct r.chat_type then truthy r.sender_id else truthy r.group_id

-- A chunk was sent, or its send raised, which ends the loop.
abbrev pub chunk_sent : Option Raise → Progress → Attempt Bool × Progress → Attempt Bool × Progress
chunk_sent none t rest = rest
chunk_sent (some (exception e)) t rest = (ok false, t)
chunk_sent (some cancelled) t rest = (raises cancelled, t)

-- The loop over the chunks; the attachments go with the first one alone.
unfoldable pub send_chunks :
    Outside → String → List Text → List String → Progress → Attempt Bool × Progress
send_chunks o to [] paths t = (ok true, t)
send_chunks o to (c ∷ cs) paths t =
    let t' = await o (chunk c) (emit (sends to c paths) t) in
    chunk_sent (o.send_raises c) t' (send_chunks o to cs [] t')

abbrev pub send_to :
    Option String → Outside → List Text → List String → Progress → Attempt Bool × Progress
send_to none o chunks paths t = (ok false, t)
send_to (some to) o chunks paths t = send_chunks o to chunks paths t

-- The chunks of a reply under the router's configuration.
unfoldable pub reply_chunks : Progress → Route → Text → List Text
reply_chunks t route message =
    chunk_for_signal_bytes
      (prepare_outgoing_message route.canary_reply_prefix message
        t.router.config.router.max_reply_chars)
      t.router.config.router.max_signal_message_bytes

unfoldable pub send_once :
    Outside → Route → Text → List OutboundAttachment → Progress → Attempt Bool × Progress
unfolding target send_chunks
send_once o route message attachments t =
    send_to (target route) o (reply_chunks t route message) (map (λ a. a.path) attachments) t
