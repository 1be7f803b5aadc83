-- ===== src/Config/Parse/Numbers.antt =====
-- config.py: the values of flags, counts and durations.
pub mod Bounds
use signal_hermes_router.Prelude.{
  ℕ, String, Bool, true, false, ◌&&◌, List, [], ◌∷◌, Option, none, some, any, str_eq, ltb,
  if◌then◌else◌, ◌==◌,
}
use signal_hermes_router.Values.{
  ℤ, pos, negsuc, Float, finite, infinite, minus_infinite, nan, Value, null, boolean, int, float,
  string, list, mapping, opaque, Exception, value_error, type_error, Result, ok, raises, ◌>>=◌,
  Python, or_raise, truth, to_int, to_float,
}
use signal_hermes_router.Text.{strip_string}

-- `n < 1` raises a ValueError.
abbrev pub at_least_one : ℤ → Result ℕ
at_least_one (pos n) = if ltb n 1 then raises value_error else ok n
at_least_one (negsuc n) = raises value_error

-- A positive finite number, in thousandths; otherwise a ValueError.
abbrev pub positive_finite : Float → Result ℕ
positive_finite (finite (pos n)) = if n == 0 then raises value_error else ok n
positive_finite _ = raises value_error

abbrev pub non_negative_finite : Float → Result ℕ
non_negative_finite (finite (pos n)) = ok n
non_negative_finite _ = raises value_error

-- `except (TypeError, ValueError)`: they become a ValueError; another exception passes.
abbrev pub as_value_error {ℓ} : {A : Type ℓ} → Result A → Result A
as_value_error (ok a) = ok a
as_value_error (raises type_error) = raises value_error
as_value_error (raises e) = raises e

abbrev bool_of_string : Python → String → Bool
bool_of_string py value =
    let normalized = py.lower (strip_string value) in
    if any (str_eq normalized) ("1" ∷ "true" ∷ "yes" ∷ "on" ∷ [])
    then true
    else if any (str_eq normalized) ("0" ∷ "false" ∷ "no" ∷ "off" ∷ "" ∷ [])
    then false
    else truth (string value)

abbrev strict_int : Value → Result ℕ
strict_int (int z) = at_least_one z
strict_int _ = raises value_error

abbrev strict_string : Python → String → Result ℕ
strict_string py s =
    if py.is_decimal s
    then or_raise value_error (py.int_of s) >>= at_least_one
    else raises value_error

-- 86400.0, MIN_RETENTION_SECONDS
abbrev pub min_retention : ℕ
min_retention = 86400000

abbrev pub window_of : ℕ → Result (Option ℕ)
window_of n = if ltb n min_retention then raises value_error else ok (some n)

module _ (py : Python) where
  unfoldable pub as_bool : Value → Bool
  as_bool (boolean b) = b
  as_bool (string s) = bool_of_string py s
  as_bool v = truth v

  unfoldable pub as_positive_int : Value → Result ℕ
  as_positive_int v = to_int py v >>= at_least_one

  unfoldable pub as_strict_positive_int : Value → Result ℕ
  as_strict_positive_int (string s) = strict_string py s
  as_strict_positive_int v = strict_int v

  unfoldable pub as_positive_finite_float : Value → Result ℕ
  as_positive_finite_float (boolean b) = raises value_error
  as_positive_finite_float v = as_value_error (to_float py v) >>= positive_finite

  unfoldable pub as_non_negative_finite_float : Value → Result ℕ
  as_non_negative_finite_float (boolean b) = raises value_error
  as_non_negative_finite_float v = as_value_error (to_float py v) >>= non_negative_finite

  unfoldable pub as_retention_window : Value → Result (Option ℕ)
  as_retention_window null = ok none
  as_retention_window v = as_positive_finite_float v >>= window_of
