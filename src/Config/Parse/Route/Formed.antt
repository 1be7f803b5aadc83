-- ===== src/Config/Parse/Route/Formed.antt =====
-- config.py: what the routes that are parsed are like.
use signal_hermes_router.Prelude.{
  ◌≡◌, ◌≢◌, refl, ℕ, inl, inr, String, Bool, true, false, not, ◌&&◌, ◌||◌, Option, none, some,
  is_some, Bool-cases, eq_iff, arith,
}
use signal_hermes_router.Values.{
  Value, null, string, boolean, list, mapping, nil, Fields, Result, ok, value_error, key_error,
  Python, get, get_or, has_key, lookup, is_null, is_blank, or_raise, or_value, text_of,
}
use signal_hermes_router.Values.Holds.{
  Holds, ok-Holds, raises-Holds, >>=-Holds, raise_if-Holds, any-Holds,
}
use signal_hermes_router.Models.{SessionPolicy, ChatType, group, direct}
use signal_hermes_router.Permissions.Parse.{policy_from_config}
use signal_hermes_router.Config.{Route, InboundRateLimit}
use signal_hermes_router.Config.Parse.Numbers.{
  as_bool, as_strict_positive_int, as_positive_finite_float,
}
use signal_hermes_router.Config.Parse.Numbers.Bounds.{
  Positive, as_strict_positive_int-Positive, as_positive_finite_float-Positive,
}
use signal_hermes_router.Config.Parse.Names.{
  normalize_profile_name, normalize_safe_token, normalize_direct_identity,
}
use signal_hermes_router.Config.Parse.Names.Exact.{
  Safe, Exact, normalize_profile_name-Safe, normalize_safe_token-Safe,
  normalize_direct_identity-Exact,
}
use signal_hermes_router.Config.Parse.Route.{
  unless_null, is_ephemeral, Recipient, SessionLimits, parse_recipient, parse_limits,
  parse_inbound_rate_limit, parse_fields, parse_route, parse_context, chat_type_of,
  session_policy_of, route_state_of, reply,
}

-- A value, if it is given, has the property.
abbrev pub Given {ℓ κ} : {A : Type ℓ} → (A → Type κ) → Option A → Type κ
Given P none = Unit
Given P (some a) = P a

-- A group route has a group and no sender; a direct route has one exact sender and no group.
abbrev pub Addressed : Python → ChatType → Recipient → Type 0
Addressed py group r =
    ((id : String) × (r.group_id ≡ some id) × (id ≢ ""))
    × (r.sender_id ≡ none)
    × (r.sender_number ≡ none)
Addressed py direct r =
    ((id : String) × (r.sender_id ≡ some id) × Exact py id)
    × Given (Exact py) r.sender_number
    × (r.group_id ≡ none)

-- A route of fresh sessions has no limits; the others are positive.
abbrev pub Limited : Bool → SessionLimits → Type 0
Limited true l = (l.max_turns ≡ none) × (l.max_age ≡ none)
Limited false l = Given Positive l.max_turns × Given Positive l.max_age

abbrev pub HasRoom : InboundRateLimit → Type 0
HasRoom l = Positive l.max_turns × Positive l.window_ms

pub record IsFormed (py : Python) (r : Route) : Type 0 where
  pub profile : Safe r.profile
  pub name : Given Safe r.name
  pub recipient :
      Addressed py r.chat_type
        (record { group_id = r.group_id; sender_id = r.sender_id; sender_number = r.sender_number })
  pub limits :
      Limited
        (is_ephemeral r.session_policy)
        (record { max_turns = r.session_max_turns; max_age = r.session_max_age })
  pub max_event_age : Given Positive r.max_event_age_ms
  pub rate_limit : Given HasRoom r.inbound_rate_limit
  pub policy : r.permission_policy.mcp_only ≡ r.mcp_only

pub unless_null-Given {ℓ κ} :
    {A : Type ℓ} {P : A → Type κ} (parse : Value → Result A) (v : Value)
    → ((w : Value) → Holds P (parse w))
    → Holds (Given P) (unless_null parse v)
unless_null-Given parse v h = elim (Bool-cases (is_null v)) [
  | inl e ↦ rw e (ok-Holds tt)
  | inr e ↦ rw e (>>=-Holds (parse v) (h v) (λ a p. ok-Holds p))
]

limited :
    (b : Bool) (t a : Option ℕ)
    → Given Positive t
    → Given Positive a
    → (b && (is_some t || is_some a)) ≡ false
    → Limited b (record { max_turns = t; max_age = a })
limited false t a ht ha e = (ht, ha)
limited true none none ht ha e = (refl, refl)
limited true (some t) a ht ha e = cc
limited true none (some a) ht ha e = cc

module _ (py : Python) where
  parse_limits-Limited :
      (policy : SessionPolicy) (raw : Fields)
      → Holds (Limited (is_ephemeral policy)) (parse_limits py policy raw)
  parse_limits-Limited policy raw =
      >>=-Holds (unless_null (as_strict_positive_int py) (get "session_max_turns" raw))
        (unless_null-Given _ (get "session_max_turns" raw) (as_strict_positive_int-Positive py))
        (λ t ht.
          >>=-Holds (unless_null (as_positive_finite_float py) (get "session_max_age_seconds" raw))
            (unless_null-Given _ (get "session_max_age_seconds" raw)
              (as_positive_finite_float-Positive py))
            (λ a ha.
              raise_if-Holds _ value_error
                (λ e. ok-Holds (limited (is_ephemeral policy) t a ht ha e))))

  parse_inbound_rate_limit-HasRoom :
      (v : Value) → Holds (Given HasRoom) (parse_inbound_rate_limit py v)
  unfolding parse_inbound_rate_limit
  parse_inbound_rate_limit-HasRoom null = ok-Holds tt
  parse_inbound_rate_limit-HasRoom (mapping d) = raise_if-Holds _ value_error (λ e.
      >>=-Holds (as_strict_positive_int py (get "max_turns" d))
        (as_strict_positive_int-Positive py (get "max_turns" d))
        (λ t ht.
          >>=-Holds (as_positive_finite_float py (get "window_seconds" d))
            (as_positive_finite_float-Positive py (get "window_seconds" d))
            (λ w hw. ok-Holds {a = some (record { max_turns = t; window_ms = w })} (ht, hw))))
  parse_inbound_rate_limit-HasRoom _ = raises-Holds

  module _ (shown : (v : Value) → py.shown v ≢ "") where
    text_of_nonempty : (v : Value) → is_blank v ≡ false → text_of py v ≢ ""
    unfolding text_of
    text_of_nonempty (string s) h = ground (arith, eq_iff s "")
    text_of_nonempty v h = shown v

    parse_recipient-Addressed :
        (t : ChatType) (raw : Fields) → Holds (Addressed py t) (parse_recipient py t raw)
    parse_recipient-Addressed group raw =
        raise_if-Holds (is_blank (get "group_id" raw)) value_error
          (λ e. ok-Holds ((_, refl, text_of_nonempty (get "group_id" raw) e), refl, refl))
    parse_recipient-Addressed direct raw = raise_if-Holds (has_key "group_id" raw) value_error (λ e.
        >>=-Holds (normalize_direct_identity py (get "sender_id" raw))
          (normalize_direct_identity-Exact py (get "sender_id" raw))
          (λ s hs.
            >>=-Holds (unless_null (normalize_direct_identity py) (get "sender_number" raw))
              (unless_null-Given _ (get "sender_number" raw) (normalize_direct_identity-Exact py))
              (λ n hn. ok-Holds ((s, refl, hs), hn, refl))))

    parse_fields-Holds : (raw : Fields) → Holds (IsFormed py) (parse_fields py raw)
    parse_fields-Holds raw =
        raise_if-Holds (has_key "denylist" raw || has_key "deny" raw) value_error (λ _.
          any-Holds (parse_context py raw) (λ context _.
            any-Holds (chat_type_of (get_or "chat_type" (string "group") raw)) (λ t _.
              any-Holds (or_raise key_error (lookup "platform" raw)) (λ platform _.
                >>=-Holds (parse_recipient py t raw) (parse_recipient-Addressed t raw) (λ to hto.
                  >>=-Holds
                    (unless_null (as_positive_finite_float py) (get "max_event_age_seconds" raw))
                    (unless_null-Given _ (get "max_event_age_seconds" raw)
                      (as_positive_finite_float-Positive py))
                    (λ age hage.
                      any-Holds
                        (session_policy_of
                          (get_or "session_policy" (string "persistent_route") raw))
                        (λ policy _.
                          >>=-Holds (parse_limits py policy raw) (parse_limits-Limited policy raw)
                            (λ limits hlimits.
                              >>=-Holds (unless_null (normalize_safe_token py) (get "name" raw))
                                (unless_null-Given _ (get "name" raw)
                                  (normalize_safe_token-Safe py))
                                (λ name hname.
                                  >>=-Holds (normalize_profile_name py (get "profile" raw))
                                    (normalize_profile_name-Safe py (get "profile" raw))
                                    (λ profile hprofile.
                                      any-Holds
                                        (route_state_of (get_or "state" (string "shadow") raw))
                                        (λ state _.
                                          any-Holds
                                            (policy_from_config py
                                              (or_value (get "permissions" raw) (list nil)) false)
                                            (λ permissions _.
                                              any-Holds (reply (get "maintenance_reply" raw))
                                                (λ maintenance _.
                                                  any-Holds (reply (get "failure_reply" raw))
                                                    (λ failure _.
                                                      >>=-Holds
                                                        (parse_inbound_rate_limit py
                                                          (get "inbound_rate_limit" raw))
                                                        (parse_inbound_rate_limit-HasRoom
                                                          (get "inbound_rate_limit" raw))
                                                        (λ rate hrate.
                                                          raise_if-Holds
                                                            (permissions.mcp_only
                                                            && not (
                                                            as_bool py (
                                                            get_or "mcp_only" (boolean false) raw)))
                                                            value_error
                                                            (λ _. ok-Holds (record {
                                                            profile = hprofile;
                                                            name = hname;
                                                            recipient = hto;
                                                            limits = hlimits;
                                                            max_event_age = hage;
                                                            rate_limit = hrate;
                                                            policy = refl;
                                                            })))))))))))))))))

    parse_route-Holds : (raw : Value) → Holds (IsFormed py) (parse_route py raw)
    unfolding parse_route
    parse_route-Holds (mapping raw) = parse_fields-Holds raw
    parse_route-Holds _ = raises-Holds

    -- A route that is parsed has a safe profile name and name, a recipient that is given exactly,
    -- session limits that are positive and none for fresh sessions, a positive age limit, a rate
    -- limit that has room for a turn, and a policy with the route's own flag for MCP tools.
    pub parse_route-IsFormed : (raw : Value) {r : Route} → parse_route py raw ≡ ok r → IsFormed py r
    parse_route-IsFormed raw e = (parse_route-Holds raw).of_ok _ e
