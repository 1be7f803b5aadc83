-- ===== src/Text.antt =====
-- Python text as the program uses it: a list of code points, with its UTF-8 length, `strip`,
-- `rfind`, `startswith`, and decimal numerals. A text holds no lone surrogates.
pub mod Laws
use Prim.Native.Char.{Char, code}
use signal_hermes_router.Prelude.{
  ℕ, zero, suc, ◌+◌, ◌-◌, ◌/◌, ◌%◌, String, Bool, true, false, ◌&&◌, ◌||◌, List, [], ◌∷◌, ◌++◌,
  Option, none, some, length, ltb, leb, ◌==◌, if◌then◌else◌,
}

abbrev pub Text : Type 0
Text = List ℕ

abbrev pub codes : String → Text
codes String.[] = []
codes (String.◌∷◌ c s) = code c ∷ codes s

-- The bytes of a code point in UTF-8.
unfoldable pub utf8_len : ℕ → ℕ
utf8_len c = if ltb c 0x80 then 1 else if ltb c 0x800 then 2 else if ltb c 0x10000 then 3 else 4

-- len(text.encode("utf-8"))
unfoldable pub byte_len : Text → ℕ
byte_len [] = 0
byte_len (c ∷ cs) = utf8_len c + byte_len cs

-- text.encode("utf-8")[:n].decode("utf-8", errors="ignore"): the characters that are whole within
-- the first `n` bytes, the bytes of one that is cut being ignored.
unfoldable pub decode_prefix : ℕ → Text → Text
decode_prefix n [] = []
decode_prefix n (c ∷ cs) =
    let rest = decode_prefix (n - utf8_len c) cs in if leb (utf8_len c) n then c ∷ rest else []

unfoldable pub starts_with : Text → Text → Bool
starts_with s [] = true
starts_with [] (p ∷ ps) = false
starts_with (c ∷ cs) (p ∷ ps) = (c == p) && starts_with cs ps

abbrev rfind_next : Option ℕ → Bool → Option ℕ
rfind_next (some i) here = some (suc i)
rfind_next none true = some 0
rfind_next none false = none

-- s.rfind(pattern), with `none` for -1; the pattern is not empty.
unfoldable pub rfind : Text → Text → Option ℕ
unfolding starts_with
rfind pattern [] = none
rfind pattern (c ∷ cs) = rfind_next (rfind pattern cs) (starts_with (c ∷ cs) pattern)

-- str.isspace
unfoldable pub is_space : ℕ → Bool
is_space c =
    (leb 9 c && leb c 13)
    || (leb 28 c && leb c 32)
    || (c == 0x85)
    || (c == 0xa0)
    || (c == 0x1680)
    || (leb 0x2000 c && leb c 0x200a)
    || (c == 0x2028)
    || (c == 0x2029)
    || (c == 0x202f)
    || (c == 0x205f)
    || (c == 0x3000)

unfoldable pub lstrip : Text → Text
unfolding is_space
lstrip [] = []
lstrip (c ∷ cs) = let rest = lstrip cs in if is_space c then rest else c ∷ cs

abbrev rstrip_next : Bool → ℕ → Text → Text
rstrip_next true c [] = []
rstrip_next true c (d ∷ ds) = c ∷ d ∷ ds
rstrip_next false c rest = c ∷ rest

unfoldable pub rstrip : Text → Text
unfolding is_space
rstrip [] = []
rstrip (c ∷ cs) = rstrip_next (is_space c) c (rstrip cs)

unfoldable pub strip : Text → Text
unfolding lstrip rstrip
strip s = rstrip (lstrip s)

unfoldable pub text_eq : Text → Text → Bool
text_eq [] [] = true
text_eq [] (d ∷ ds) = false
text_eq (c ∷ cs) [] = false
text_eq (c ∷ cs) (d ∷ ds) = (c == d) && text_eq cs ds

-- The decimal digits of `n`, for fuel above `n`.
unfoldable pub digits : ℕ → ℕ → Text
digits zero n = []
digits (suc fuel) n =
    let more = digits fuel (n / 10) ++ (48 + n % 10) ∷ [] in
    if ltb n 10 then (48 + n) ∷ [] else more

-- str(n)
unfoldable pub str : ℕ → Text
unfolding digits
str n = digits (suc n) n

-- The same on a string.
unfoldable pub lstrip_string : String → String
unfolding is_space
lstrip_string String.[] = String.[]
lstrip_string (String.◌∷◌ c s) =
    let rest = lstrip_string s in if is_space (code c) then rest else String.◌∷◌ c s

abbrev rstrip_string_next : Bool → Char → String → String
rstrip_string_next true c String.[] = String.[]
rstrip_string_next true c (String.◌∷◌ d s) = String.◌∷◌ c (String.◌∷◌ d s)
rstrip_string_next false c rest = String.◌∷◌ c rest

unfoldable pub rstrip_string : String → String
unfolding is_space
rstrip_string String.[] = String.[]
rstrip_string (String.◌∷◌ c s) = rstrip_string_next (is_space (code c)) c (rstrip_string s)

-- s.strip()
unfoldable pub strip_string : String → String
unfolding lstrip_string rstrip_string
strip_string s = rstrip_string (lstrip_string s)
