-- ===== src/Config/Parse/RouterSection/Sound.antt =====
-- config.py: what a router section that is parsed is like.
use signal_hermes_router.Prelude.{
  ◌≡◌, ◌≢◌, ℕ, ◌≤◌, ◌⊎◌, Bool, true, false, not, ◌&&◌, ◌||◌, String, str_eq, eq_iff, ltb, ltb→le,
  arith, ◌*◌,
}
use signal_hermes_router.Values.{
  Value, null, int, pos, negsuc, Float, float, finite, infinite, minus_infinite, nan, mapping,
  Fields, Python, value_error, to_float, get, get_or, or_raise,
}
use signal_hermes_router.Values.Holds.{
  Holds, ok-Holds, raises-Holds, >>=-Holds, raise_if-Holds, any-Holds, last-Holds, or_raise-given,
}
use signal_hermes_router.Config.{RouterConfig, RetentionConfig, truthy}
use signal_hermes_router.Config.Parse.Numbers.{
  as_positive_int, as_strict_positive_int, as_non_negative_finite_float,
}
use signal_hermes_router.Config.Parse.Numbers.Bounds.{
  Positive, LongEnough, as_positive_int-Positive, as_strict_positive_int-Positive,
  as_positive_finite_float-Positive, as_retention_window-LongEnough, positive_finite-Positive,
}
use signal_hermes_router.Config.Parse.Route.Formed.{Given, unless_null-Given}
use signal_hermes_router.Config.Parse.Route.{unless_null}
use signal_hermes_router.Config.Parse.Retention.{
  retention_fields, retention_keys, parse_retention_config,
}
use signal_hermes_router.Values.{has_only}
use signal_hermes_router.Config.Parse.RouterSection.{
  System, min_signal_message_bytes, section, is_http, loopback_url, has_host, message_bytes,
  initialize_timeout, lock_timeout, is_negative, base_url, remote_allowed, circuit_of,
  socket_path_of, setting, path_setting, validate_signal_base_url, supports_local_attachment_paths,
  parse_router_fields,
}

-- No window is shorter than a day, and the other limits are positive.
pub record IsPatient (c : RetentionConfig) : Type 0 where
  pub sweep : Positive c.sweep_interval
  pub dedupe : LongEnough c.dedupe_handled
  pub media : LongEnough c.media_max_age
  pub total : Given Positive c.media_max_total_bytes

-- No NaN is negative in Python.
abbrev pub NotNegative : Float → Type 0
NotNegative (finite (negsuc n)) = ⊥
NotNegative minus_infinite = ⊥
NotNegative _ = Unit

pub record IsSound (py : Python) (sys : System) (c : RouterConfig) : Type 0 where
  pub message_bytes : min_signal_message_bytes ≤ c.max_signal_message_bytes
  pub attachment_bytes : Positive c.max_attachment_bytes
  pub event_bytes : Positive c.max_signal_event_bytes
  pub acp_bytes : Positive c.max_acp_line_bytes
  pub reply_chars : Positive c.max_reply_chars
  pub initialize : Positive c.acp_initialize_timeout
  pub turns : Positive c.max_concurrent_turns
  pub lock : NotNegative c.control.route_lock_timeout
  pub payload : Positive c.control.max_notification_payload_bytes
  pub state_db : c.state_db ≢ ":memory:"
  pub retention : IsPatient c.retention
  pub local :
      (c.allow_remote_signal_base_url ≡ true)
      ⊎ (supports_local_attachment_paths py sys c.signal_base_url ≡ true)

module _ (py : Python) where
  retention_fields-IsPatient : (raw : Fields) → Holds IsPatient (retention_fields py raw)
  retention_fields-IsPatient raw =
      raise_if-Holds (not (has_only retention_keys raw)) value_error (λ _.
        >>=-Holds _
          (as_positive_finite_float-Positive py
            (get_or "sweep_interval_seconds" (float (finite (pos 21600000))) raw))
          (λ s hs.
            >>=-Holds _
              (as_retention_window-LongEnough py
                (get_or "dedupe_handled_seconds" (float (finite (pos 2592000000))) raw))
              (λ d hd.
                >>=-Holds _ (as_retention_window-LongEnough py (get "media_max_age_seconds" raw))
                  (λ m hm.
                    >>=-Holds
                      (unless_null (as_strict_positive_int py) (get "media_max_total_bytes" raw))
                      (unless_null-Given _ (get "media_max_total_bytes" raw)
                        (as_strict_positive_int-Positive py))
                      (λ t ht.
                        ok-Holds (record { sweep = hs; dedupe = hd; media = hm; total = ht }))))))

  parse_retention_config-IsPatient : (v : Value) → Holds IsPatient (parse_retention_config py v)
  unfolding parse_retention_config
  parse_retention_config-IsPatient null =
      ok-Holds (record { sweep = omega arith; dedupe = omega arith; media = tt; total = tt })
  parse_retention_config-IsPatient (mapping raw) = retention_fields-IsPatient raw
  parse_retention_config-IsPatient _ = raises-Holds

  module _ (sys : System) where
    message_bytes-enough :
        (v : Value) → Holds (λ n. min_signal_message_bytes ≤ n) (message_bytes py sys v)
    message_bytes-enough v = any-Holds (as_positive_int py v) (λ n _.
        raise_if-Holds (ltb n min_signal_message_bytes) value_error
          (λ e. ok-Holds (ltb→le n min_signal_message_bytes e)))

    initialize_timeout-Positive : (v : Value) → Holds Positive (initialize_timeout py sys v)
    initialize_timeout-Positive v = any-Holds (to_float py v) (λ f _. positive_finite-Positive f)

    not_negative : (f : Float) → is_negative f ≡ false → NotNegative f
    not_negative (finite (pos n)) h = tt
    not_negative (finite (negsuc n)) h = cc
    not_negative infinite h = tt
    not_negative minus_infinite h = cc
    not_negative nan h = tt

    lock_timeout-NotNegative : (v : Value) → Holds NotNegative (lock_timeout py sys v)
    lock_timeout-NotNegative v =
        any-Holds (to_float py v)
          (λ f _. raise_if-Holds (is_negative f) value_error (λ e. ok-Holds (not_negative f e)))

    setting-Positive :
        (key : String) (default : ℕ) (raw : Fields)
        → Holds Positive (setting py sys key default raw)
    setting-Positive key default raw =
        as_positive_int-Positive py (get_or key (int (pos default)) raw)

    Local : String → Bool → Unit {0} → Type 0
    Local url allow u = (allow ≡ true) ⊎ (supports_local_attachment_paths py sys url ≡ true)

    accepted :
        (a h l allow : Bool)
        → not (a && h) ≡ false
        → not (allow || l) ≡ false
        → (allow ≡ true) ⊎ ((a && l) ≡ true)
    accepted a h l allow e f = ground arith

    validate-Local :
        (url : String) (allow : Bool)
        → Holds (Local url allow) (validate_signal_base_url py sys url allow)
    unfolding validate_signal_base_url Local supports_local_attachment_paths
    validate-Local url allow = any-Holds (or_raise value_error (sys.urlparse url)) (λ u eu.
        raise_if-Holds (not (is_http u && has_host (truthy u.hostname))) value_error (λ h.
          last-Holds (not (allow || loopback_url py sys (truthy u.hostname))) value_error (λ l.
            rw (or_raise-given value_error (sys.urlparse url) eu)
              (accepted (is_http u) _ (loopback_url py sys (truthy u.hostname)) allow h l))))

    pub parse_router_fields-Holds :
        (raw : Fields) → Holds (IsSound py sys) (parse_router_fields py sys raw)
    unfolding parse_router_fields Local
    parse_router_fields-Holds raw = any-Holds (section "signal" raw) (λ signal _.
        any-Holds (section "circuit_breaker" raw) (λ circuit _.
          any-Holds (section "control" raw) (λ control _.
            >>=-Holds _ (parse_retention_config-IsPatient (get "retention" raw)) (λ retention hr.
              >>=-Holds _
                (validate-Local (base_url py sys signal raw) (remote_allowed py sys signal raw))
                (λ _ local.
                  >>=-Holds _ (setting-Positive "max_attachment_bytes" (25 * 1024 * 1024) raw)
                    (λ attach ha.
                      >>=-Holds _
                        (message_bytes-enough
                          (get_or "max_signal_message_bytes" (int (pos 1900)) raw))
                        (λ limit hl.
                          any-Holds (path_setting py sys "work_root" "./private/work" raw)
                            (λ root _.
                              >>=-Holds _
                                (initialize_timeout-Positive (
                                  get_or "acp_initialize_timeout_seconds"
                                    (float (finite (pos 30000))) raw))
                                (λ init hi.
                                  >>=-Holds _
                                    (lock_timeout-NotNegative (
                                      get_or "route_lock_timeout_seconds" (float (finite (pos 0)))
                                        control))
                                    (λ lock hlock.
                                      any-Holds
                                        (as_non_negative_finite_float py (
                                          get_or "busy_notice_cooldown_seconds"
                                            (float (finite (pos 0))) raw))
                                        (λ cooldown _.
                                          >>=-Holds _
                                            (setting-Positive "max_notification_payload_bytes"
                                              (16 * 1024) control)
                                            (λ payload hp.
                                              any-Holds
                                                (path_setting py sys "state_db"
                                                  "./private/state/router.db" raw)
                                                (λ db _.
                                                  raise_if-Holds (str_eq db ":memory:") value_error
                                                    (λ hdb.
                                                      any-Holds
                                                        (path_setting py sys "media_root"
                                                          "./private/media" raw)
                                                        (λ media _.
                                                          any-Holds
                                                            (path_setting py sys
                                                            "signal_attachment_root"
                                                            "~/.local/share/signal-cli/attachments"
                                                            raw)
                                                            (λ files _.
                                                            >>=-Holds _
                                                            (setting-Positive
                                                            "max_signal_event_bytes" (attach * 2)
                                                            raw)
                                                            (λ event he.
                                                            >>=-Holds _
                                                            (setting-Positive "max_acp_line_bytes"
                                                            (8 * 1024 * 1024) raw)
                                                            (λ acp hacp.
                                                            >>=-Holds _
                                                            (setting-Positive "max_reply_chars"
                                                            12000 raw)
                                                            (λ chars hc.
                                                            any-Holds
                                                            (to_float py (
                                                            get_or "busy_notice_after_seconds"
                                                            (float (finite (pos 120000))) raw))
                                                            (λ busy _.
                                                            any-Holds
                                                            (to_float py (
                                                            get_or "acp_prompt_timeout_seconds"
                                                            (float (finite (pos 300000))) raw))
                                                            (λ prompt _.
                                                            >>=-Holds _
                                                            (as_strict_positive_int-Positive py (
                                                            get_or "max_concurrent_turns"
                                                            (int (pos 8)) raw))
                                                            (λ turns ht.
                                                            any-Holds (circuit_of py sys circuit)
                                                            (λ breaker _.
                                                            any-Holds
                                                            (socket_path_of py sys
                                                            (get "socket_path" control))
                                                            (λ socket _. ok-Holds (record {
                                                            message_bytes = hl;
                                                            attachment_bytes = ha;
                                                            event_bytes = he;
                                                            acp_bytes = hacp;
                                                            reply_chars = hc;
                                                            initialize = hi;
                                                            turns = ht;
                                                            lock = hlock;
                                                            payload = hp;
                                                            state_db =
                                                            ground (arith, eq_iff db ":memory:");
                                                            retention = hr;
                                                            local = local;
                                                            })))))))))))))))))))))))))
