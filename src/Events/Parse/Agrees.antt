-- ===== src/Events/Parse/Agrees.antt =====
-- events.py: the probe of an event that parses.
use signal_hermes_router.Prelude.{
  ◌≡◌, refl, sym, ℕ, ◌⊎◌, inl, inr, String, Bool, true, false, not, [], ◌∷◌, Option, none, some,
  str_eq, Bool-cases,
}
use signal_hermes_router.Models.{NormalizedEvent, ChatType, group, direct}
use signal_hermes_router.Values.{
  Value, string, mapping, pos, int, list, nil, to_int, Fields, end, Result, ok, Python, get,
  is_null, truth, text_of, or_value, has_key, get_or, ◌>>=◌,
}
use signal_hermes_router.Values.Holds.{Holds, ok-Holds, raises-Holds, >>=-Holds, any-Holds}
use signal_hermes_router.Events.Fields.{
  unwrap_signal_event, get_attr, get_part, message_type, data_message_from_envelope, group_id,
  first_present, member, optional_str, has_exception,
}
use signal_hermes_router.Events.Parse.Reads.{
  truth-null, first_present-Returns, ungrouped-Returns, is_direct_message-Returns,
}
use signal_hermes_router.Events.Probe.{
  SignalRouteProbe, probe_signal_route, shown_group, is_direct_message, shape_of,
}
use signal_hermes_router.Events.Parse.{
  Decoder, parse_signal_event, parse_kind, parse_group, parse_direct, parse_ungrouped,
  normalized_event, natural, parse_attachments,
}

-- A group that is false in Python and yet not None, as 0 is.
abbrev FalseGroup : Value → Type 0
FalseGroup v = (is_null v ≡ false) × (truth v ≡ false)

-- The groups that the envelope's message and its data message name.
unfoldable pub message_group : Fields → Result Value
message_group raw = do
  params ← unwrap_signal_event raw
  envelope ← get_part "envelope" params
  message ← data_message_from_envelope envelope
  group_id message

unfoldable pub direct_group : Fields → Result Value
direct_group raw = do
  params ← unwrap_signal_event raw
  envelope ← get_part "envelope" params
  message ← get_attr "dataMessage" envelope
  group_id message

abbrev pub NamesFalseGroup : Fields → Type 0
NamesFalseGroup raw =
    (v : Value) × FalseGroup v × ((message_group raw ≡ ok v) ⊎ (direct_group raw ≡ ok v))

-- What the probe says of a group event, its group, and of a direct one, its sender, its number and
-- that it is direct, unless the event names a group that is false and not None.
abbrev pub Told : Fields → NormalizedEvent → SignalRouteProbe → ChatType → Type 0
Told raw e p group = (g : String) × (p.group_id ≡ some g) × (e.group_id ≡ some g)
Told raw e p direct =
    (p.source_uuid ≡ e.source_uuid)
    × (p.source_number ≡ e.source_number)
    × (((p.group_id ≡ none) × (p.is_direct_data_message ≡ true)) ⊎ NamesFalseGroup raw)

abbrev pub Agrees : Python → String → Fields → Option NormalizedEvent → Type 0
Agrees py platform raw none = Unit
Agrees py platform raw (some e) =
    (p : SignalRouteProbe) × (probe_signal_route py raw ≡ ok p)
    × (e.platform ≡ platform)
    × Told raw e p e.chat_type

module _ (py : Python) (d : Decoder) (platform : String) (max_bytes : ℕ) where
  Carries : ChatType → Option String → Option String → Option String → NormalizedEvent → Type 0
  Carries t uuid number gid e =
      (e.platform ≡ platform)
      × (e.chat_type ≡ t)
      × (e.source_uuid ≡ uuid)
      × (e.source_number ≡ number)
      × (e.group_id ≡ gid)

  normalized_event-Carries :
      (envelope message : Value) (t : ChatType) (sender : String) (uuid number gid : Option String)
      → Holds
          (Carries t uuid number gid)
          (normalized_event py d platform max_bytes envelope t message sender uuid number gid)
  unfolding normalized_event Carries
  normalized_event-Carries envelope message t sender uuid number gid =
      any-Holds (first_present message ("timestamp" ∷ [])) (λ sent _.
        any-Holds (to_int py (or_value sent (int (pos 0)))) (λ message_time _.
          any-Holds (first_present envelope ("timestamp" ∷ [])) (λ stamped _.
            any-Holds (to_int py (or_value stamped (int message_time))) (λ time _.
              any-Holds (natural time) (λ timestamp _.
                any-Holds (get_attr "message" message) (λ body _.
                  any-Holds (get_attr "attachments" message) (λ raw_attachments _.
                    any-Holds
                      (parse_attachments py d max_bytes (or_value raw_attachments (list nil)))
                      (λ attachments _. ok-Holds (refl, refl, refl, refl, refl)))))))))

  module _ (raw p env : Fields) (kind : String) (message g : Value)
      (eu : unwrap_signal_event raw ≡ ok (mapping p)) (ee : get "envelope" p ≡ mapping env)
      (full : truth (mapping env) ≡ true) (ek : message_type (mapping env) ≡ ok kind)
      (em : data_message_from_envelope (mapping env) ≡ ok message)
      (eg : group_id message ≡ ok g) where
    abbrev probed : Bool → Value → Value → SignalRouteProbe
    probed b uuid number = record {
      group_id = shown_group py g;
      source_uuid = optional_str py uuid;
      source_number = optional_str py number;
      is_direct_data_message = b;
      summary = record {
        shape = shape_of raw;
        message_type = kind;
        has_group = not (is_null g);
        has_exception = has_exception (mapping p);
      };
    }

    probe_at :
        (b : Bool) (uuid number : Value)
        → is_direct_message kind (get "dataMessage" env) ≡ ok b
        → first_present (mapping env) ("sourceUuid" ∷ []) ≡ ok uuid
        → first_present (mapping env) ("sourceNumber" ∷ "source" ∷ []) ≡ ok number
        → probe_signal_route py raw ≡ ok (probed b uuid number)
    unfolding probe_signal_route
    probe_at b uuid number ed eu' en = rw (eu, ee, ek, em, eg, ed, eu', en) refl

    message_group_at : message_group raw ≡ ok g
    unfolding message_group get_attr
    message_group_at = rw (eu, ee, full, em, eg) refl

    direct_group_at :
        (v h : Value) → get "dataMessage" env ≡ v → group_id v ≡ ok h → direct_group raw ≡ ok h
    unfolding direct_group get_attr
    direct_group_at v h ev eh = rw (eu, ee, full, ev, eh) refl

    group_case :
        truth g ≡ true
        → Holds
            (Agrees py platform raw)
            (parse_group py d platform max_bytes (mapping p) (mapping env) message g)
    unfolding Carries
    group_case tg = any-Holds _ (λ sender _.
        any-Holds (first_present (mapping env) ("sourceUuid" ∷ "source" ∷ [])) (λ uuid _.
          any-Holds (first_present (mapping env) ("sourceNumber" ∷ "source" ∷ [])) (λ number en.
            >>=-Holds _
              (normalized_event-Carries (mapping env) message group sender
                (some (text_of py (or_value uuid (string sender)))) (optional_str py number)
                (some (text_of py g)))
              (λ e (pl, c, u, n, gi).
                let (id, eid) = first_present-Returns env ("sourceUuid" ∷ []) in
                let (b, eb) =
                  is_direct_message-Returns kind (get "dataMessage" env)
                    (ungrouped-Returns (get "dataMessage" env) env refl em) in
                ok-Holds {a = some e} (
                  probed b id number,
                  probe_at b id number eb eid en,
                  pl,
                  rw c (text_of py g, rw (truth-null g tg) refl, gi),
                )))))

    direct_at :
        (md : Fields) (h : Value)
        → str_eq kind "dataMessage" ≡ true
        → get "dataMessage" env ≡ mapping md
        → group_id (mapping md) ≡ ok h
        → is_direct_message kind (get "dataMessage" env) ≡ ok (is_null h)
    direct_at md h kd ev eh = rw (kd, ev, eh) refl

    names :
        (md : Fields) (h : Value)
        → truth g ≡ false
        → truth h ≡ false
        → get "dataMessage" env ≡ mapping md
        → group_id (mapping md) ≡ ok h
        → ((shown_group py g ≡ none) × (is_null h ≡ true)) ⊎ NamesFalseGroup raw
    names md h tg th ev eh = elim (Bool-cases (is_null g)) [
      | inl ng ↦ elim (Bool-cases (is_null h)) [
        | inl nh ↦ inl (rw ng refl, nh)
        | inr fh ↦ inr (h, (fh, th), inr (direct_group_at (mapping md) h ev eh))
      ]
      | inr fg ↦ inr (g, (fg, tg), inl message_group_at)
    ]

    direct_case :
        (md : Fields) (h : Value)
        → str_eq kind "dataMessage" ≡ true
        → truth g ≡ false
        → get "dataMessage" env ≡ mapping md
        → group_id (mapping md) ≡ ok h
        → Holds
            (Agrees py platform raw)
            (parse_ungrouped py d platform max_bytes (mapping p) (mapping env) (mapping md) h)
    unfolding Carries
    direct_case md h kd tg ev eh = elim (Bool-cases (truth h)) [
      | inl grouped ↦ rw grouped (ok-Holds {a = none} tt)
      | inr free ↦ rw free (
          any-Holds (first_present (mapping env) ("sourceUuid" ∷ [])) (λ uuid eu'.
            any-Holds (first_present (mapping env) ("sourceNumber" ∷ "source" ∷ [])) (λ number en.
              any-Holds (first_present (mapping p) ("account" ∷ [])) (λ account _.
                any-Holds _ (λ sender _.
                  >>=-Holds _
                    (normalized_event-Carries (mapping env) (mapping md) direct sender
                      (optional_str py uuid) (optional_str py number) none)
                    (λ e (pl, c, u, n, gi). ok-Holds {a = some e} (
                      probed (is_null h) uuid number,
                      probe_at (is_null h) uuid number (direct_at md h kd ev eh) eu' en,
                      pl,
                      rw c (sym u, sym n, names md h tg free ev eh),
                    )))))))
    ]

    message_case :
        (v : Value)
        → str_eq kind "dataMessage" ≡ true
        → truth g ≡ false
        → get "dataMessage" env ≡ v
        → Holds
            (Agrees py platform raw)
            (parse_direct py d platform max_bytes (mapping p) (mapping env) v)
    message_case (mapping md) kd tg ev =
        any-Holds (group_id (mapping md)) (λ h eh. direct_case md h kd tg ev eh)
    message_case _ kd tg ev = ok-Holds {a = none} tt

    kind_case :
        (a b : Bool)
        → truth g ≡ a
        → str_eq kind "dataMessage" ≡ b
        → Holds (Agrees py platform raw) (
            parse_kind py d platform max_bytes
              (mapping p)
              (mapping env)
              (get "dataMessage" env)
              message
              g
              a
              b)
    kind_case true b tg kd = group_case tg
    kind_case false true tg kd = message_case (get "dataMessage" env) kd tg refl
    kind_case false false tg kd = ok-Holds {a = none} tt

  -- What is left of `parse_signal_event` once the envelope is known.
  abbrev of_envelope : Value → Value → Result (Option NormalizedEvent)
  of_envelope params envelope = do
    kind ← message_type envelope
    message ← data_message_from_envelope envelope
    g ← group_id message
    direct_message ← get_attr "dataMessage" envelope
    parse_kind py d platform max_bytes params envelope direct_message message g (truth g)
        (str_eq kind "dataMessage")

  of_envelope-Agrees :
      (raw p : Fields) (env : Value)
      → unwrap_signal_event raw ≡ ok (mapping p)
      → get "envelope" p ≡ env
      → truth env ≡ true
      → Holds (Agrees py platform raw) (of_envelope (mapping p) env)
  unfolding get_attr data_message_from_envelope
  of_envelope-Agrees raw p (mapping env) eu ee full =
      any-Holds (message_type (mapping env)) (λ kind ek.
        any-Holds (data_message_from_envelope (mapping env)) (λ message em.
          any-Holds (group_id message) (λ g eg.
            kind_case raw p env kind message g eu ee full ek em eg (truth g)
              (str_eq kind "dataMessage") refl refl)))
  of_envelope-Agrees raw p v eu ee full = any-Holds (message_type v) (λ kind ek. raises-Holds)

  empty_envelope : (p : Fields) → of_envelope (mapping p) (mapping end) ≡ ok none
  unfolding message_type data_message_from_envelope group_id get_attr first_present member get
      get_or has_key truth
  empty_envelope p = refl

  params-Agrees :
      (raw : Fields) (params : Value)
      → unwrap_signal_event raw ≡ ok params
      → Holds (Agrees py platform raw) (get_part "envelope" params >>= of_envelope params)
  unfolding get_attr
  params-Agrees raw (mapping p) eu = elim (Bool-cases (truth (get "envelope" p))) [
    | inl full ↦ rw full (of_envelope-Agrees raw p (get "envelope" p) eu refl full)
    | inr void ↦ rw (void, empty_envelope p) (ok-Holds {a = none} tt)
  ]
  params-Agrees raw _ eu = raises-Holds

  -- For an event that parses, the probe gives the group of a group event, and of a direct event the
  -- sender and the number, and that it is direct, unless the event names a group, as 0, that is
  -- false in Python and yet not None.
  pub parse_signal_event-Agrees :
      (raw : Fields) {e : Option NormalizedEvent}
      → parse_signal_event py d raw platform max_bytes ≡ ok e
      → Agrees py platform raw e
  unfolding parse_signal_event
  parse_signal_event-Agrees raw h =
      (any-Holds {Q = Agrees py platform raw} (unwrap_signal_event raw)
          (λ params eu. params-Agrees raw params eu)).of_ok
        _ h
