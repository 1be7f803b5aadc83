-- ===== src/Config/Parse/Route/Denied.antt =====
-- config.py and permissions.py: rules that deny are refused.
use signal_hermes_router.Prelude.{
  ◌≡◌, refl, Bool, true, false, not, ◌&&◌, ◌||◌, arith, ◌⊎◌, inl, inr,
}
use signal_hermes_router.Values.{
  Value, string, boolean, list, mapping, nil, cons, Items, Fields, Exception, raises, value_error,
  key_error, Python, get, get_or, has_key, lookup, or_value, or_raise, truth,
}
use signal_hermes_router.Values.Holds.{
  Holds, ok-Holds, raises-Holds, >>=-Holds, raise_if-Holds, any-Holds, refuted,
}
use signal_hermes_router.Permissions.Parse.{
  rule_from_config, rules_of, rules_in, policy_from_config, arguments_of, raw_arguments,
}
use signal_hermes_router.Config.{Route}
use signal_hermes_router.Config.Parse.Numbers.{as_bool, as_positive_finite_float}
use signal_hermes_router.Config.Parse.Names.{normalize_profile_name, normalize_safe_token}
use signal_hermes_router.Config.Parse.Route.{
  parse_route, parse_fields, parse_context, chat_type_of, session_policy_of, route_state_of, reply,
  parse_recipient, parse_limits, parse_inbound_rate_limit, unless_null,
}

-- A mapping with one of the keys for denying.
abbrev pub has_denial : Fields → Bool
has_denial d = has_key "deny" d || has_key "denylist" d

abbrev denial : Value → Bool
denial (mapping d) = has_denial d
denial _ = false

abbrev pub any_denial : Items → Bool
any_denial nil = false
any_denial (cons v vs) = denial v || any_denial vs

-- The permissions are a list with a rule that denies.
abbrev pub denies : Value → Bool
denies (list xs) = any_denial xs
denies _ = false

or_false : (a b : Bool) → a ≡ false → b ≡ false → (a || b) ≡ false
or_false a b p q = ground arith

denies_kept : (v w : Value) → denies v ≡ true → or_value v w ≡ v
unfolding truth
denies_kept (list nil) w h = cc
denies_kept (list (cons v vs)) w h = refl
denies_kept _ w h = cc

module _ (py : Python) where
  rule-denial : (v : Value) → Holds (λ r. denial v ≡ false) (rule_from_config py v)
  unfolding rule_from_config
  rule-denial (mapping d) = raise_if-Holds (has_denial d) value_error (λ none_there.
      raise_if-Holds (not (truth (or_value (get "tool" d) (get "tool_name" d)))) value_error
        (λ _. any-Holds (arguments_of py (raw_arguments d)) (λ a _. ok-Holds none_there)))
  rule-denial _ = raises-Holds

  rules_of-denial : (xs : Items) → Holds (λ rs. any_denial xs ≡ false) (rules_of py xs)
  rules_of-denial nil = ok-Holds refl
  rules_of-denial (cons v vs) = >>=-Holds _ (rule-denial v) (λ r here.
      >>=-Holds _ (rules_of-denial vs)
        (λ rs later. ok-Holds (or_false (denial v) (any_denial vs) here later)))

  rules_in-denial : (v : Value) → Holds (λ rs. denies v ≡ false) (rules_in py v)
  rules_in-denial (list xs) = rules_of-denial xs
  rules_in-denial v = record { of_ok = λ rs e. refl }

  policy-denial : (v : Value) (b : Bool) → Holds (λ p. denies v ≡ false) (policy_from_config py v b)
  unfolding policy_from_config
  policy-denial v b = >>=-Holds _ (rules_in-denial v) (λ rs h. ok-Holds h)

  Spared : Fields → Route → Type 0
  Spared raw r =
      (has_denial raw ≡ false) × (denies (or_value (get "permissions" raw) (list nil)) ≡ false)

  swapped : (a b : Bool) → (a || b) ≡ false → (b || a) ≡ false
  swapped a b h = ground arith

  parse_fields-denial : (raw : Fields) → Holds (Spared raw) (parse_fields py raw)
  unfolding Spared
  parse_fields-denial raw =
      raise_if-Holds (has_key "denylist" raw || has_key "deny" raw) value_error (λ spared.
        any-Holds (parse_context py raw) (λ context _.
          any-Holds (chat_type_of (get_or "chat_type" (string "group") raw)) (λ t _.
            any-Holds (or_raise key_error (lookup "platform" raw)) (λ platform _.
              any-Holds (parse_recipient py t raw) (λ to _.
                any-Holds
                  (unless_null (as_positive_finite_float py) (get "max_event_age_seconds" raw))
                  (λ age _.
                    any-Holds
                      (session_policy_of (get_or "session_policy" (string "persistent_route") raw))
                      (λ policy _. any-Holds (parse_limits py policy raw) (λ limits _.
                        any-Holds (unless_null (normalize_safe_token py) (get "name" raw))
                          (λ name _.
                            any-Holds (normalize_profile_name py (get "profile" raw)) (λ profile _.
                              any-Holds (route_state_of (get_or "state" (string "shadow") raw))
                                (λ state _.
                                  >>=-Holds
                                    (policy_from_config py
                                      (or_value (get "permissions" raw) (list nil)) false)
                                    (policy-denial (or_value (get "permissions" raw) (list nil))
                                      false)
                                    (λ permissions rules.
                                      any-Holds (reply (get "maintenance_reply" raw))
                                        (λ maintenance _.
                                          any-Holds (reply (get "failure_reply" raw)) (λ failure _.
                                            any-Holds
                                              (parse_inbound_rate_limit py
                                                (get "inbound_rate_limit" raw))
                                              (λ rate _.
                                                raise_if-Holds
                                                  (permissions.mcp_only
                                                    && not (
                                                        as_bool py
                                                          (get_or "mcp_only" (boolean false) raw)))
                                                  value_error
                                                  (λ _. ok-Holds (
                                                    swapped (has_key "denylist" raw)
                                                        (has_key "deny" raw) spared,
                                                    rules,
                                                  )))))))))))))))))

  -- A route with a key for denying, or whose permissions are a list with a rule that has one, ends in
  -- an exception: the policy is an allowlist only.
  pub parse_route-refuses :
      (raw : Fields)
      → (has_denial raw ≡ true) ⊎ (denies (get "permissions" raw) ≡ true)
      → (x : Exception) × (parse_route py (mapping raw) ≡ raises x)
  unfolding parse_route Spared
  parse_route-refuses raw h = refuted (parse_fields py raw) (parse_fields-denial raw) (λ r (a, b).
      elim h [
        | inl e ↦ cc (e, a)
        | inr e ↦ cc (e, rw (denies_kept (get "permissions" raw) (list nil) e) at b)
      ])
