-- ===== src/Config/Parse/Names/Exact.antt =====
-- config.py: which names and identities are accepted.
use signal_hermes_router.Prelude.{
  ◌≡◌, ◌≢◌, inl, inr, String, true, false, Bool-cases, str_eq, eq_iff, arith,
}
use signal_hermes_router.Text.{strip_string}
use signal_hermes_router.Values.{Value, value_error, Python, is_null, text_of}
use signal_hermes_router.Values.Holds.{Holds, ok-Holds, raises-Holds, raise_if-Holds}
use signal_hermes_router.Config.Parse.Names.{
  is_safe_token, is_wildcard, matched, exact_identity, normalize_profile_name, normalize_safe_token,
  normalize_direct_identity,
}

abbrev pub Safe : String → Type 0
Safe s = is_safe_token s ≡ true

-- A nonempty identity that stands for one sender.
abbrev pub Exact : Python → String → Type 0
Exact py s = (s ≢ "") × (is_wildcard py s ≡ false)

module _ (py : Python) where
  matched-Safe : (s : String) → Holds Safe (matched py s)
  matched-Safe s = elim (Bool-cases (is_safe_token s)) [
    | inl e ↦ rw e (ok-Holds e)
    | inr e ↦ rw e raises-Holds
  ]

  pub normalize_profile_name-Safe : (v : Value) → Holds Safe (normalize_profile_name py v)
  unfolding normalize_profile_name
  normalize_profile_name-Safe v =
      raise_if-Holds (is_null v) value_error (λ e. matched-Safe (text_of py v))

  pub normalize_safe_token-Safe : (v : Value) → Holds Safe (normalize_safe_token py v)
  unfolding normalize_safe_token
  normalize_safe_token-Safe v =
      raise_if-Holds (is_null v) value_error (λ e. matched-Safe (text_of py v))

  exact_identity-Exact : (s : String) → Holds (Exact py) (exact_identity py s)
  exact_identity-Exact s = raise_if-Holds (str_eq s "") value_error (λ e.
      raise_if-Holds (is_wildcard py s) value_error
        (λ w. ok-Holds (ground (arith, eq_iff s ""), w)))

  pub normalize_direct_identity-Exact :
      (v : Value) → Holds (Exact py) (normalize_direct_identity py v)
  unfolding normalize_direct_identity
  normalize_direct_identity-Exact v =
      raise_if-Holds (is_null v) value_error
        (λ e. exact_identity-Exact (strip_string (text_of py v)))
