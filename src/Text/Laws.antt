-- ===== src/Text/Laws.antt =====
-- Lemmas on the text operations.
use signal_hermes_router.Prelude.{
  ℕ, zero, suc, ◌+◌, ◌-◌, ◌/◌, ◌%◌, ◌≤◌, ◌<◌, ◌≡◌, refl, ap, ◌↔◌, inl, inr, true, [], ◌∷◌, ◌++◌,
  some, arith, length, length-append, take, drop, leb, ==_iff, Bool-cases, Option-cases,
}
use signal_hermes_router.Text.{
  Text, utf8_len, byte_len, decode_prefix, starts_with, rfind, digits, str, rstrip, text_eq,
}

pub utf8_len_bounds : (c : ℕ) → (1 ≤ utf8_len c) × (utf8_len c ≤ 4)
unfolding utf8_len
utf8_len_bounds c = ground arith

pub byte_len-append : (s t : Text) → byte_len (s ++ t) ≡ byte_len s + byte_len t
unfolding byte_len
byte_len-append [] t = omega arith
byte_len-append (c ∷ s) t = omega (arith, byte_len-append s t)

pub length-le-byte_len : (s : Text) → length s ≤ byte_len s
unfolding byte_len
length-le-byte_len [] = omega arith
length-le-byte_len (c ∷ s) = omega (arith, length-le-byte_len s, utf8_len_bounds c)

-- The decoded prefix fits, and is a prefix.
pub byte_len-decode_prefix : (n : ℕ) (s : Text) → byte_len (decode_prefix n s) ≤ n
unfolding byte_len decode_prefix
byte_len-decode_prefix n [] = omega arith
byte_len-decode_prefix n (c ∷ s) = ground (arith, byte_len-decode_prefix (n - utf8_len c) s)

pub decode_prefix-IsPrefix : (n : ℕ) (s : Text) → (t : Text) × (s ≡ decode_prefix n s ++ t)
unfolding decode_prefix
decode_prefix-IsPrefix n [] = ([], refl)
decode_prefix-IsPrefix n (c ∷ s) =
    let (t, e) = decode_prefix-IsPrefix (n - utf8_len c) s in
    elim (Bool-cases (leb (utf8_len c) n)) [
      | inl fits ↦ (t, rw fits (ap (◌∷◌ c) e))
      | inr cut ↦ (c ∷ s, rw cut)
    ]

-- Every character fits in four bytes, so the prefix of a longer text is not empty.
pub decode_prefix_pos : (n : ℕ) (s : Text) → 4 ≤ n → 0 < length s → 0 < length (decode_prefix n s)
unfolding decode_prefix
decode_prefix_pos n [] h l = absurd (omega arith)
decode_prefix_pos n (c ∷ s) h l = ground (arith, utf8_len_bounds c)

pub take-length-append : (s t : Text) → take (length s) (s ++ t) ≡ s
take-length-append [] t = refl
take-length-append (c ∷ s) t = ap (◌∷◌ c) (take-length-append s t)

pub drop-length-append : (s t : Text) → drop (length s) (s ++ t) ≡ t
drop-length-append [] t = refl
drop-length-append (c ∷ s) t = drop-length-append s t

starts_with_split : (s p : Text) → starts_with s p ≡ true → (t : Text) × (s ≡ p ++ t)
unfolding starts_with
starts_with_split s [] h = (s, refl)
starts_with_split [] (p ∷ ps) h = cc
starts_with_split (c ∷ cs) (p ∷ ps) h =
    let (t, e) = starts_with_split cs ps (ground arith) in (t, ground (arith, ==_iff c p))

pub starts_with-append : (p t : Text) → starts_with (p ++ t) p ≡ true
unfolding starts_with
starts_with-append [] t = refl
starts_with-append (p ∷ ps) t = ground (arith, starts_with-append ps t)

-- Where the pattern is found, the text is what precedes it, the pattern, and the rest.
pub rfind_split :
    (p s : Text) {i : ℕ}
    → rfind p s ≡ some i
    → (pre : Text) × (post : Text) × (s ≡ pre ++ (p ++ post)) × (length pre ≡ i)
unfolding rfind
rfind_split p [] h = cc
rfind_split p (c ∷ s) {i} h = elim (Option-cases (rfind p s)) [
  | inr (j, e) ↦
      let (pre, post, split, len) = rfind_split p s e in
      (c ∷ pre, post, ap (◌∷◌ c) split, ground arith)
  | inl e ↦
      let (t, split) = starts_with_split (c ∷ s) p (ground arith) in ([], t, split, ground arith)
]

pub length-digits_mono :
    (f g i m : ℕ) → i ≤ m → i < f → m < g → length (digits f i) ≤ length (digits g m)
unfolding digits
length-digits_mono zero g i m h k l = absurd (omega arith)
length-digits_mono (suc f) zero i m h k l = absurd (omega arith)
length-digits_mono (suc f) (suc g) i m h k l = ground (
  arith,
  length-digits_mono f g (i / 10) (m / 10),
  length-append (digits f (i / 10)) ((48 + i % 10) ∷ []),
  length-append (digits g (m / 10)) ((48 + m % 10) ∷ []),
)

-- A smaller number has no longer numeral.
pub length-str_mono : (i m : ℕ) → i ≤ m → length (str i) ≤ length (str m)
unfolding str
length-str_mono i m h = length-digits_mono (suc i) (suc m) i m h (omega arith) (omega arith)

byte_len-digits : (f n : ℕ) → byte_len (digits f n) ≡ length (digits f n)
unfolding digits byte_len utf8_len
byte_len-digits zero n = refl
byte_len-digits (suc f) n = ground (
  arith,
  byte_len-digits f (n / 10),
  byte_len-append (digits f (n / 10)) ((48 + n % 10) ∷ []),
  length-append (digits f (n / 10)) ((48 + n % 10) ∷ []),
)

pub byte_len-str : (n : ℕ) → byte_len (str n) ≡ length (str n)
unfolding str
byte_len-str n = byte_len-digits (suc n) n

pub length-rstrip-le : (s : Text) → length (rstrip s) ≤ length s
unfolding rstrip
length-rstrip-le [] = omega arith
length-rstrip-le (c ∷ s) = ground (arith, length-rstrip-le s)

pub text_eq_iff : (s t : Text) → (text_eq s t ≡ true) ↔ (s ≡ t)
unfolding text_eq
text_eq_iff [] [] = ground arith
text_eq_iff [] (d ∷ t) = ground arith
text_eq_iff (c ∷ s) [] = ground arith
text_eq_iff (c ∷ s) (d ∷ t) = ground (arith, text_eq_iff s t)
