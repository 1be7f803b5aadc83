-- ===== src/Values.antt =====
-- What a YAML or JSON document holds, and the built-in functions of Python that the program applies
-- to it: `d.get(k)`, `k in d`, truth, `==` with a string, `str`, `int` and `float`.
--
-- Numbers are exact: a float is a count of thousandths, and its rounding to a double is left out.
-- How a string is read as a number, how a value that is no string is shown, and what `dict` and
-- `json.dumps` make of a value are parameters (Python). The text of an exception is left out.
pub mod Holds
use signal_hermes_router.Prelude.{
  ℕ, suc, ◌+◌, ◌-◌, ◌*◌, ◌/◌, ◌^◌, String, Bool, true, false, not, ◌||◌, List, [], ◌∷◌, Option,
  none, some, str_eq, ltb, if◌then◌else◌, ◌==◌,
}

-- The integers over native numbers.
pub data ℤ : Type 0 where
  pos : ℕ → ℤ
  negsuc : ℕ → ℤ  -- negsuc n is -(n + 1)

pub data Float : Type 0 where
  finite : ℤ → Float  -- in thousandths
  infinite minus_infinite nan : Float

mutual
  -- `opaque` is a value of another class, true and not iterable, such as a date.
  pub data Value : Type 0 where
    null : Value
    boolean : Bool → Value
    int : ℤ → Value
    float : Float → Value
    string : String → Value
    list : Items → Value
    mapping : Fields → Value
    opaque : ℕ → Value

  pub data Items : Type 0 where
    nil : Items
    cons : Value → Items → Items

  pub data Fields : Type 0 where
    end : Fields
    field : Value → Value → Fields → Fields  -- the key, its value, and the rest

-- The classes of exception; `unspecified` where which one is left out.
pub data Exception : Type 0 where
  value_error type_error key_error overflow_error attribute_error unspecified : Exception

pub data Result {ℓ} (A : Type ℓ) : Type ℓ where
  ok : A → Result A
  raises : Exception → Result A

infixl 5 ◌>>=◌ ◌>>◌
abbrev pub ◌>>=◌ {ℓ κ} : {A : Type ℓ} {B : Type κ} → Result A → (A → Result B) → Result B
ok a >>= f = f a
raises e >>= f = raises e

abbrev pub ◌>>◌ {ℓ} : {B : Type ℓ} → Result (Unit {0}) → Result B → Result B
m >> k = m >>= λ _. k

-- `if bad: raise ...`
abbrev pub raise_if : Bool → Exception → Result (Unit {0})
raise_if true e = raises e
raise_if false e = ok tt

abbrev pub or_raise {ℓ} : {A : Type ℓ} → Exception → Option A → Result A
or_raise e none = raises e
or_raise e (some a) = ok a

pub record Python : Type 0 where
  pub int_of : String → Option ℤ
  pub float_of : String → Option Float
  pub is_decimal : String → Bool
  pub lower : String → String
  pub shown : Value → String  -- `str` of a value that is no string
  pub dict_of : Value → Result Fields  -- `dict` of a value that is no mapping
  pub dumps : Value → Result String  -- compact_json_dumps

-- Whether a key is the string `k`.
abbrev pub is_key : String → Value → Bool
is_key k (string s) = str_eq s k
is_key k _ = false

-- The value of `k`, if `d` has the key.
unfoldable pub lookup : String → Fields → Option Value
lookup k end = none
lookup k (field j v rest) = if is_key k j then some v else lookup k rest

-- d.get(k, default)
unfoldable pub get_or : String → Value → Fields → Value
get_or k default end = default
get_or k default (field j v rest) = if is_key k j then v else get_or k default rest

-- d.get(k)
unfoldable pub get : String → Fields → Value
unfolding get_or
get k d = get_or k null d

-- k in d
unfoldable pub has_key : String → Fields → Bool
has_key k end = false
has_key k (field j v rest) = is_key k j || has_key k rest

abbrev known_key : List String → Value → Bool
known_key [] j = false
known_key (k ∷ ks) j = is_key k j || known_key ks j

-- set(d) - {...}, as whether it is empty
unfoldable pub has_only : List String → Fields → Bool
has_only known end = true
has_only known (field j v rest) = if known_key known j then has_only known rest else false

abbrev is_zero : ℤ → Bool
is_zero (pos n) = n == 0
is_zero (negsuc n) = false

abbrev true_float : Float → Bool
true_float (finite z) = not (is_zero z)
true_float _ = true

-- bool(value)
unfoldable pub truth : Value → Bool
truth null = false
truth (boolean b) = b
truth (int z) = not (is_zero z)
truth (float f) = true_float f
truth (string s) = not (str_eq s "")
truth (list nil) = false
truth (list (cons v vs)) = true
truth (mapping end) = false
truth (mapping (field k v rest)) = true
truth (opaque n) = true

-- `a or b`
abbrev pub or_value : Value → Value → Value
or_value a b = if truth a then a else b

-- value is None
abbrev pub is_null : Value → Bool
is_null null = true
is_null _ = false

-- value in (None, "")
abbrev pub is_blank : Value → Bool
is_blank null = true
is_blank (string s) = str_eq s ""
is_blank _ = false

abbrev pub truncated : ℤ → ℤ
truncated (pos n) = pos (n / 1000)
truncated (negsuc n) = if suc n / 1000 == 0 then pos 0 else negsuc (suc n / 1000 - 1)

abbrev int_of_float : Float → Result ℤ
int_of_float (finite z) = ok (truncated z)
int_of_float nan = raises value_error
int_of_float infinite = raises overflow_error
int_of_float minus_infinite = raises overflow_error

-- The magnitudes that a double does not reach, after rounding.
abbrev overflows : ℕ → Bool
overflows n = not (ltb n (2 ^ 1024 - 2 ^ 970))

abbrev pub float_of_int : ℤ → Result Float
float_of_int (pos n) = if overflows n then raises overflow_error else ok (finite (pos (n * 1000)))
float_of_int (negsuc n) =
    if overflows (suc n) then raises overflow_error else ok (finite (negsuc (suc n * 1000 - 1)))

module _ (py : Python) where
  -- str(value)
  unfoldable pub text_of : Value → String
  text_of (string s) = s
  text_of v = py.shown v

  -- int(value)
  unfoldable pub to_int : Value → Result ℤ
  to_int (boolean true) = ok (pos 1)
  to_int (boolean false) = ok (pos 0)
  to_int (int z) = ok z
  to_int (float f) = int_of_float f
  to_int (string s) = or_raise value_error (py.int_of s)
  to_int _ = raises type_error

  -- float(value)
  unfoldable pub to_float : Value → Result Float
  to_float (boolean true) = ok (finite (pos 1000))
  to_float (boolean false) = ok (finite (pos 0))
  to_float (int z) = float_of_int z
  to_float (float f) = ok f
  to_float (string s) = or_raise value_error (py.float_of s)
  to_float _ = raises type_error
