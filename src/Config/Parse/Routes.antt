-- ===== src/Config/Parse/Routes.antt =====
-- config.py: the routes of routes.yaml (`parse_routes`).
--
-- The dictionaries of what was seen map to positions, which only an exception's message shows; here
-- they are lists of their keys. `hash` is the parameter of `route_key`.
pub mod Apart
pub mod Found
use signal_hermes_router.Prelude.{
  String, Bool, true, false, ◌&&◌, List, [], ◌∷◌, Option, none, some, any, str_eq, if◌then◌else◌,
}
use signal_hermes_router.Values.{
  Value, list, Items, nil, cons, Fields, value_error, unspecified, Result, ok, raises, ◌>>=◌, ◌>>◌,
  raise_if, or_raise, Python, get, or_value,
}
use signal_hermes_router.Config.{Route, is_direct, route_key, truthy}
use signal_hermes_router.Config.Parse.Route.{parse_route}

pub record Seen : Type 0 where
  pub names : List String
  pub senders : List (String × String)
  pub numbers : List (String × String)
  pub keys : List String

abbrev pub nothing_seen : Seen
nothing_seen = record { names = []; senders = []; numbers = []; keys = [] }

abbrev pub pair_eq : String × String → String × String → Bool
pair_eq (a, b) (c, d) = str_eq a c && str_eq b d

abbrev pub on_platform : String → Option String → Option (String × String)
on_platform platform none = none
on_platform platform (some s) = some (platform, s)

-- (route.platform, route.sender_id), for a direct route
abbrev pub sender_key : Route → Option (String × String)
sender_key r = on_platform r.platform (if is_direct r.chat_type then r.sender_id else none)

abbrev pub number_key : Route → Option (String × String)
number_key r =
    on_platform r.platform (if is_direct r.chat_type then truthy r.sender_number else none)

-- A key is in a dictionary; an absent one is not looked up.
abbrev pub clashes {ℓ} : {A : Type ℓ} → (A → A → Bool) → Option A → List A → Bool
clashes eq none seen = false
clashes eq (some a) seen = any (eq a) seen

abbrev pub with_key {ℓ} : {A : Type ℓ} → Option A → List A → List A
with_key none seen = seen
with_key (some a) seen = a ∷ seen

-- `if key in seen: raise ...; seen[key] = index`
abbrev pub see {ℓ} : {A : Type ℓ} → (A → A → Bool) → Option A → List A → Result (List A)
see eq o seen = raise_if (clashes eq o seen) value_error >> ok (with_key o seen)

abbrev is_absent : Option String → Bool
is_absent none = true
is_absent (some s) = false

-- The assertion that a direct route has a sender.
abbrev pub lacks_sender : Route → Bool
lacks_sender r = is_direct r.chat_type && is_absent r.sender_id

module _ (py : Python) (hash : String → String) where
  -- The checks of one route against the earlier ones.
  unfoldable pub admit : Route → Seen → Result Seen
  admit r seen = do
    names ← see str_eq r.name seen.names
    raise_if (lacks_sender r) unspecified
    senders ← see pair_eq (sender_key r) seen.senders
    numbers ← see pair_eq (number_key r) seen.numbers
    key ← or_raise value_error (route_key hash r)
    keys ← see str_eq (some key) seen.keys
    ok (record { names = names; senders = senders; numbers = numbers; keys = keys })

  unfoldable pub parse_each : Items → Seen → Result (List Route)
  parse_each nil seen = ok []
  parse_each (cons v vs) seen = do
    r ← parse_route py v
    seen' ← admit r seen
    rest ← parse_each vs seen'
    ok (r ∷ rest)

  abbrev pub routes_in : Value → Result (List Route)
  routes_in (list values) = parse_each values nothing_seen
  routes_in _ = raises value_error

  unfoldable pub parse_routes : Fields → Result (List Route)
  parse_routes raw = routes_in (or_value (get "routes" raw) (list nil))
