-- ===== src/Config/Parse/Numbers/Bounds.antt =====
-- config.py: the bounds of the counts and durations that are accepted.
use signal_hermes_router.Prelude.{
  ℕ, ◌≤◌, ◌<◌, Option, none, some, Bool-cases, inl, inr, ltb, arith, ltb→le,
}
use signal_hermes_router.Values.{
  ℤ, pos, negsuc, Float, null, boolean, int, Value, string, Python, to_int, to_float, or_raise,
  value_error,
}
use signal_hermes_router.Values.Holds.{Holds, ok-Holds, raises-Holds, any-Holds}
use signal_hermes_router.Config.Parse.Numbers.{
  at_least_one, positive_finite, as_value_error, window_of, min_retention, as_positive_int,
  as_strict_positive_int, as_positive_finite_float, as_retention_window,
}

abbrev pub Positive : ℕ → Type 0
Positive n = 0 < n

abbrev pub LongEnough : Option ℕ → Type 0
LongEnough none = Unit
LongEnough (some n) = min_retention ≤ n

pub at_least_one-Positive : (z : ℤ) → Holds Positive (at_least_one z)
at_least_one-Positive (pos n) = record { of_ok = λ b e. ground arith }
at_least_one-Positive (negsuc n) = raises-Holds

pub positive_finite-Positive : (f : Float) → Holds Positive (positive_finite f)
positive_finite-Positive f = record { of_ok = λ b e. ground arith }

window_of-LongEnough : (n : ℕ) → Holds LongEnough (window_of n)
window_of-LongEnough n = elim (Bool-cases (ltb n min_retention)) [
  | inl e ↦ rw e raises-Holds
  | inr e ↦ rw e (ok-Holds (ltb→le n min_retention e))
]

module _ (py : Python) where
  pub as_positive_int-Positive : (v : Value) → Holds Positive (as_positive_int py v)
  unfolding as_positive_int
  as_positive_int-Positive v = any-Holds (to_int py v) (λ z e. at_least_one-Positive z)

  pub as_strict_positive_int-Positive : (v : Value) → Holds Positive (as_strict_positive_int py v)
  unfolding as_strict_positive_int
  as_strict_positive_int-Positive (int z) = at_least_one-Positive z
  as_strict_positive_int-Positive (string s) = elim (Bool-cases (py.is_decimal s)) [
    | inl e ↦ rw e (any-Holds (or_raise value_error (py.int_of s)) (λ z h. at_least_one-Positive z))
    | inr e ↦ rw e raises-Holds
  ]
  as_strict_positive_int-Positive _ = raises-Holds

  pub as_positive_finite_float-Positive :
      (v : Value) → Holds Positive (as_positive_finite_float py v)
  unfolding as_positive_finite_float
  as_positive_finite_float-Positive (boolean b) = raises-Holds
  as_positive_finite_float-Positive v =
      any-Holds (as_value_error (to_float py v)) (λ f e. positive_finite-Positive f)

  pub as_retention_window-LongEnough : (v : Value) → Holds LongEnough (as_retention_window py v)
  unfolding as_retention_window
  as_retention_window-LongEnough null = ok-Holds tt
  as_retention_window-LongEnough v =
      any-Holds (as_positive_finite_float py v) (λ n e. window_of-LongEnough n)
