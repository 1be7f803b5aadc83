-- ===== src/Config/Parse/Names.antt =====
-- config.py: profile names, tokens and the identity of a direct route.
pub mod Exact
use Prim.Native.Char.{code}
use signal_hermes_router.Prelude.{
  ℕ, String, Bool, true, false, ◌&&◌, ◌||◌, List, [], ◌∷◌, any, length, str_eq, leb, if◌then◌else◌,
  ◌==◌,
}
use signal_hermes_router.Text.{Text, codes, strip_string}
use signal_hermes_router.Values.{
  Value, null, value_error, Result, ok, raises, ◌>>=◌, ◌>>◌, raise_if, is_null, Python, text_of,
}

-- [A-Za-z0-9]
abbrev is_alphanumeric : ℕ → Bool
is_alphanumeric c = (leb 65 c && leb c 90) || (leb 97 c && leb c 122) || (leb 48 c && leb c 57)

-- [A-Za-z0-9._-]
abbrev is_token_character : ℕ → Bool
is_token_character c = is_alphanumeric c || (c == 46) || (c == 95) || (c == 45)

abbrev all_token_characters : Text → Bool
all_token_characters [] = true
all_token_characters (c ∷ cs) = is_token_character c && all_token_characters cs

abbrev token_text : Text → Bool
token_text [] = false
token_text (c ∷ cs) = is_alphanumeric c && (leb (length cs) 63 && all_token_characters cs)

-- Whether PROFILE_NAME_RE, which is SAFE_TOKEN_RE too, matches the whole string.
unfoldable pub is_safe_token : String → Bool
is_safe_token s = token_text (codes s)

abbrev contains_star : Text → Bool
contains_star [] = false
contains_star (c ∷ cs) = (c == 42) || contains_star cs

module _ (py : Python) where
  -- The identity is a wildcard.
  unfoldable pub is_wildcard : String → Bool
  is_wildcard identity =
      contains_star (codes identity)
      || any (str_eq (py.lower identity)) ("any" ∷ "all" ∷ "default" ∷ [])

  abbrev matched : String → Result String
  matched s = if is_safe_token s then ok s else raises value_error

  unfoldable pub normalize_profile_name : Value → Result String
  normalize_profile_name v = raise_if (is_null v) value_error >> matched (text_of py v)

  unfoldable pub normalize_safe_token : Value → Result String
  normalize_safe_token v = raise_if (is_null v) value_error >> matched (text_of py v)

  abbrev exact_identity : String → Result String
  exact_identity identity = do
    raise_if (str_eq identity "") value_error
    raise_if (is_wildcard identity) value_error
    ok identity

  -- `_normalize_direct_identity`
  unfoldable pub normalize_direct_identity : Value → Result String
  normalize_direct_identity v =
      raise_if (is_null v) value_error >> exact_identity (strip_string (text_of py v))
