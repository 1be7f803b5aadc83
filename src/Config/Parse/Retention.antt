-- ===== src/Config/Parse/Retention.antt =====
-- config.py: the section `router.retention` (`_parse_retention_config`).
use signal_hermes_router.Prelude.{Bool, not, String, List, [], ◌∷◌, none, some, is_some, ◌||◌}
use signal_hermes_router.Values.{
  pos, finite, Value, null, float, mapping, Fields, value_error, Result, ok, raises, ◌>>=◌, ◌>>◌,
  raise_if, Python, get, get_or, has_only,
}
use signal_hermes_router.Config.{RetentionConfig}
use signal_hermes_router.Config.Parse.Numbers.{
  as_positive_finite_float, as_retention_window, as_strict_positive_int,
}
use signal_hermes_router.Config.Parse.Route.{unless_null}

-- `RetentionConfig()`
abbrev pub retention_defaults : RetentionConfig
retention_defaults = record {
  sweep_interval = 21600000;
  dedupe_handled = some 2592000000;
  media_max_age = none;
  media_max_total_bytes = none;
}

-- The properties `dedupe_enabled`, `media_enabled` and `enabled`.
unfoldable pub dedupe_enabled : RetentionConfig → Bool
dedupe_enabled c = is_some c.dedupe_handled

unfoldable pub media_enabled : RetentionConfig → Bool
media_enabled c = is_some c.media_max_age || is_some c.media_max_total_bytes

unfoldable pub retention_enabled : RetentionConfig → Bool
unfolding dedupe_enabled media_enabled
retention_enabled c = dedupe_enabled c || media_enabled c

abbrev pub retention_keys : List String
retention_keys =
    "sweep_interval_seconds" ∷ "dedupe_handled_seconds" ∷ "media_max_age_seconds"
    ∷ "media_max_total_bytes" ∷ []

module _ (py : Python) where
  abbrev pub retention_fields : Fields → Result RetentionConfig
  retention_fields raw = do
    raise_if (not (has_only retention_keys raw)) value_error
    sweep ←
        as_positive_finite_float py
          (get_or "sweep_interval_seconds" (float (finite (pos 21600000))) raw)
    dedupe ←
        as_retention_window py
          (get_or "dedupe_handled_seconds" (float (finite (pos 2592000000))) raw)
    media ← as_retention_window py (get "media_max_age_seconds" raw)
    total ← unless_null (as_strict_positive_int py) (get "media_max_total_bytes" raw)
    ok (record {
      sweep_interval = sweep;
      dedupe_handled = dedupe;
      media_max_age = media;
      media_max_total_bytes = total;
    })

  unfoldable pub parse_retention_config : Value → Result RetentionConfig
  parse_retention_config null = ok retention_defaults
  parse_retention_config (mapping raw) = retention_fields raw
  parse_retention_config _ = raises value_error
