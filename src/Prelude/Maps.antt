-- ===== src/Prelude/Maps.antt =====
-- Python dictionaries with text keys that the program only reads and writes by key: a function
-- from keys. A dictionary whose entries are walked is a list in its own component.
use Prim.Native.String.{String}
use mathlib.Core.Path.{◌≡◌}
use mathlib.Core.Bool.{Bool}
use mathlib.Core.Logic.{◌≢◌}
use mathlib.Core.Option.{Option, none, some}
use native.Mathlib.Omega.{arith}
use text.Mathlib.Text.{◌==◌}
use text.Mathlib.TextEquality.{eq_iff}
use text.Mathlib.TextPositions.{eq_refl}
use signal_hermes_router.Prelude.Tests.{if◌then◌else◌}

abbrev pub str_eq : String → String → Bool
str_eq a b = a == b

abbrev pub Dict {ℓ} : Type ℓ → Type ℓ
Dict V = String → Option V

module _ {ℓ} {V : Type ℓ} where
  abbrev pub empty : Dict V
  empty k = none

  -- d[k] = v
  abbrev pub put : Dict V → String → V → Dict V
  put d k v j = if str_eq k j then some v else d j

  -- d.pop(k, None)
  abbrev pub remove : Dict V → String → Dict V
  remove d k j = if str_eq k j then none else d j

  pub put_self : (d : Dict V) (k : String) (v : V) → put d k v k ≡ some v
  put_self d k v = ground (arith, eq_refl k)

  pub put_ne : (d : Dict V) (k j : String) (v : V) → k ≢ j → put d k v j ≡ d j
  put_ne d k j v h = ground (arith, eq_iff k j)

  pub remove_self : (d : Dict V) (k : String) → remove d k k ≡ none
  remove_self d k = ground (arith, eq_refl k)

  pub remove_ne : (d : Dict V) (k j : String) → k ≢ j → remove d k j ≡ d j
  remove_ne d k j h = ground (arith, eq_iff k j)
