-- ===== src/Router/Intake/Raw.antt =====
-- router.py: a Signal event as it comes in (`handle_raw_event`).
--
-- Which class of exception an event of another form ends in is left out, and so is the log line of
-- an event that is discarded.
use signal_hermes_router.Prelude.{
  ◌≡◌, refl, String, [], Option, none, some, or_else, if◌then◌else◌, ◌⊎◌, inl, inr,
}
use signal_hermes_router.Text.{Text}
use signal_hermes_router.Failures.{other_exception}
use signal_hermes_router.Models.{NormalizedEvent, ChatType, group, direct}
use signal_hermes_router.Values.{Fields, Result, Python}
use signal_hermes_router.Config.{
  Route, AppConfig, find_group_route, find_direct_route, find_route_for_event,
}
use signal_hermes_router.Events.Probe.{SignalRouteProbe, probe_signal_route}
use signal_hermes_router.Events.Parse.{Decoder, parse_signal_event}
use signal_hermes_router.Events.Parse.Agrees.{NamesFalseGroup, Told, parse_signal_event-Agrees}
use signal_hermes_router.Router.State.{
  Router, Outside, Progress, Attempt, ok, raises, exception, start,
}
use signal_hermes_router.Router.Intake.{Admission, Waits, handle_event}

abbrev probed_route : AppConfig → SignalRouteProbe → Option String → Option Route
probed_route config probe (some g) = find_group_route config "signal" g
probed_route config probe none =
    if probe.is_direct_data_message
    then find_direct_route config "signal" probe.source_uuid probe.source_number
    else none

-- The caller's configuration, or the router's.
abbrev pub pinned : Admission → Router → Admission
pinned a r = record a { config = some (or_else a.config r.config) }

abbrev pub discarded : Router → Attempt (Option Text) × Progress
discarded r = (ok none, start r)

abbrev pub unread : Router → Attempt (Option Text) × Progress
unread r = (raises (exception (other_exception [])), start r)

module _ (py : Python) (d : Decoder) (o : Outside) (w : Waits) where
  abbrev parsed :
      Admission → Router → Result (Option NormalizedEvent) → Attempt (Option Text) × Progress
  parsed a r (Result.ok (some e)) = handle_event o w (pinned a r) e r
  parsed a r (Result.ok none) = discarded r
  parsed a r (Result.raises x) = unread r

  abbrev routed : Admission → Fields → Router → Option Route → Attempt (Option Text) × Progress
  routed a raw r none = discarded r
  routed a raw r (some route) =
      parsed a r (parse_signal_event py d raw "signal" r.config.router.max_attachment_bytes)

  abbrev probed :
      Admission → Fields → Router → Result SignalRouteProbe → Attempt (Option Text) × Progress
  probed a raw r (Result.raises x) = unread r
  probed a raw r (Result.ok p) =
      routed a raw r (probed_route (or_else a.config r.config) p p.group_id)

  unfoldable pub handle_raw_event : Admission → Fields → Router → Attempt (Option Text) × Progress
  handle_raw_event a raw r = probed a raw r (probe_signal_route py raw)

told-route :
    (c : AppConfig) (raw : Fields) (e : NormalizedEvent) (p : SignalRouteProbe) (t : ChatType)
    → e.chat_type ≡ t
    → e.platform ≡ "signal"
    → Told raw e p t
    → NamesFalseGroup raw ⊎ (probed_route c p p.group_id ≡ find_route_for_event c e)
unfolding find_route_for_event
told-route c raw e p group et ep (g, pg, eg) = inr (rw (et, ep, pg, eg) refl)
told-route c raw e p direct et ep (u, n, inl (pg, pd)) = inr (rw (et, ep, pg, pd, u, n) refl)
told-route c raw e p direct et ep (u, n, inr names) = inl names

module _ (py : Python) (d : Decoder) (o : Outside) (w : Waits) (a : Admission) (raw : Fields)
    (r : Router) (e : NormalizedEvent)
    (h : parse_signal_event py d raw "signal" r.config.router.max_attachment_bytes
      ≡ Result.ok (some e)) where
  on_found :
      (found : Option Route)
      → find_route_for_event (or_else a.config r.config) e ≡ found
      → routed py d o w a raw r found ≡ handle_event o w (pinned a r) e r
  unfolding handle_event
  on_found none fe = rw fe refl
  on_found (some route) fe = rw h refl

  -- For an event that parses, the route that the probe finds is the one that the parsed event finds:
  -- the raw event is handled just as the parsed one is, discarded if that has no route, unless it
  -- names a group, as 0, that is false in Python and yet not None.
  pub handle_raw_event-handle_event :
      NamesFalseGroup raw ⊎ (handle_raw_event py d o w a raw r ≡ handle_event o w (pinned a r) e r)
  unfolding handle_raw_event
  handle_raw_event-handle_event =
      let (p, ep, pl, told) =
        parse_signal_event-Agrees py d "signal" r.config.router.max_attachment_bytes raw h in
      elim (told-route (or_else a.config r.config) raw e p e.chat_type refl pl told) [
        | inl names ↦ inl names
        | inr same ↦
            inr (rw (ep, same) (on_found (find_route_for_event (or_else a.config r.config) e) refl))
      ]
