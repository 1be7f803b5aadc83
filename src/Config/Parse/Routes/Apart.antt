-- ===== src/Config/Parse/Routes/Apart.antt =====
-- config.py: no two routes that are parsed clash.
use signal_hermes_router.Prelude.{
  Apart, ◌≡◌, ◌≢◌, refl, String, Bool, false, List, [], ◌∷◌, Option, none, some, All, str_eq, arith,
}
use signal_hermes_router.Values.{
  Value, list, nil, cons, Items, Fields, Python, value_error, unspecified, or_raise, ok, get,
  or_value,
}
use signal_hermes_router.Values.Holds.{
  Holds, ok-Holds, raises-Holds, >>=-Holds, raise_if-Holds, any-Holds, or_raise-given,
}
use signal_hermes_router.Config.{Route, route_key}
use signal_hermes_router.Config.Parse.Route.{parse_route}
use signal_hermes_router.Config.Parse.Route.Formed.{IsFormed, parse_route-IsFormed}
use signal_hermes_router.Config.Parse.Routes.{
  Seen, pair_eq, sender_key, number_key, clashes, with_key, see, lacks_sender, admit, parse_each,
  parse_routes, nothing_seen, routes_in,
}

abbrev pub same {ℓ} : {A : Type ℓ} → (A → A → Bool) → Option A → Option A → Bool
same eq none b = false
same eq (some a) none = false
same eq (some a) (some b) = eq a b

-- The second route has neither the name, the sender, the number nor the key of the first.
abbrev pub Differs : (String → String) → Route → Route → Type 0
Differs hash x y =
    (same str_eq y.name x.name ≡ false)
    × (same pair_eq (sender_key y) (sender_key x) ≡ false)
    × (same pair_eq (number_key y) (number_key x) ≡ false)
    × (same str_eq (route_key hash y) (route_key hash x) ≡ false)

abbrev Unseen : (String → String) → Seen → Route → Type 0
Unseen hash seen r =
    (clashes str_eq r.name seen.names ≡ false)
    × (clashes pair_eq (sender_key r) seen.senders ≡ false)
    × (clashes pair_eq (number_key r) seen.numbers ≡ false)
    × (clashes str_eq (route_key hash r) seen.keys ≡ false)

abbrev with_route : (String → String) → Route → Seen → Seen
with_route hash r seen = record {
  names = with_key r.name seen.names;
  senders = with_key (sender_key r) seen.senders;
  numbers = with_key (number_key r) seen.numbers;
  keys = with_key (route_key hash r) seen.keys;
}

module _ {ℓ} {A : Type ℓ} (eq : A → A → Bool) where
  clash_split :
      (b a : Option A) (seen : List A)
      → clashes eq b (with_key a seen) ≡ false
      → (same eq b a ≡ false) × (clashes eq b seen ≡ false)
  clash_split none a seen h = (refl, refl)
  clash_split (some b) none seen h = (refl, h)
  clash_split (some b) (some a) seen h = ground arith

  Saw : Option A → List A → List A → Type ℓ
  Saw o seen s = (clashes eq o seen ≡ false) × (s ≡ with_key o seen)

  see-Saw : (o : Option A) (seen : List A) → Holds (Saw o seen) (see eq o seen)
  unfolding Saw
  see-Saw o seen = raise_if-Holds (clashes eq o seen) value_error (λ e. ok-Holds (e, refl))

module _ (hash : String → String) where
  split_one :
      (r : Route) (seen : Seen) (y : Route)
      → Unseen hash (with_route hash r seen) y
      → Differs hash r y × Unseen hash seen y
  split_one r seen y (n, s, u, k) =
      let (n1, n2) = clash_split str_eq y.name r.name seen.names n in
      let (s1, s2) = clash_split pair_eq (sender_key y) (sender_key r) seen.senders s in
      let (u1, u2) = clash_split pair_eq (number_key y) (number_key r) seen.numbers u in
      let (k1, k2) = clash_split str_eq (route_key hash y) (route_key hash r) seen.keys k in
      ((n1, s1, u1, k1), (n2, s2, u2, k2))

  split_all :
      (r : Route) (seen : Seen) (rs : List Route)
      → All (Unseen hash (with_route hash r seen)) rs
      → All (Differs hash r) rs × All (Unseen hash seen) rs
  split_all r seen [] h = (tt, tt)
  split_all r seen (y ∷ rs) (h, hs) =
      let (d, u) = split_one r seen y h in
      let (ds, us) = split_all r seen rs hs in ((d, ds), (u, us))

  module _ (py : Python) where
    Admitted : Route → Seen → Seen → Type 0
    Admitted r seen s = Unseen hash seen r × (s ≡ with_route hash r seen)

    admit-Unseen : (r : Route) (seen : Seen) → Holds (Admitted r seen) (admit py hash r seen)
    unfolding admit Admitted Saw
    admit-Unseen r seen =
        >>=-Holds (see str_eq r.name seen.names) (see-Saw str_eq r.name seen.names) (λ n (hn, en).
          raise_if-Holds (lacks_sender r) unspecified (λ _.
            >>=-Holds (see pair_eq (sender_key r) seen.senders)
              (see-Saw pair_eq (sender_key r) seen.senders)
              (λ s (hs, es).
                >>=-Holds (see pair_eq (number_key r) seen.numbers)
                  (see-Saw pair_eq (number_key r) seen.numbers)
                  (λ u (hu, eu). any-Holds (or_raise value_error (route_key hash r)) (λ key ek.
                    >>=-Holds (see str_eq (some key) seen.keys)
                      (see-Saw str_eq (some key) seen.keys)
                      (λ k (hk, ek').
                        let found = or_raise-given value_error (route_key hash r) ek in
                        ok-Holds ((hn, hs, hu, rw found hk), rw (found, en, es, eu, ek'))))))))

    module _ (shown : (v : Value) → py.shown v ≢ "") where
      Parsed : Seen → List Route → Type 0
      Parsed seen rs = All (IsFormed py) rs × All (Unseen hash seen) rs × Apart (Differs hash) rs

      parse_each-Parsed :
          (vs : Items) (seen : Seen) → Holds (Parsed seen) (parse_each py hash vs seen)
      unfolding parse_each Parsed Admitted
      parse_each-Parsed nil seen = ok-Holds (tt, tt, tt)
      parse_each-Parsed (cons v vs) seen = any-Holds (parse_route py v) (λ r er.
          >>=-Holds (admit py hash r seen) (admit-Unseen r seen) (λ s (hs, es).
            >>=-Holds (parse_each py hash vs s) (parse_each-Parsed vs s)
              (λ rs (formed, unseen, apart).
                let (differ, rest) = split_all r seen rs (rw es at unseen) in
                ok-Holds
                  ((parse_route-IsFormed py shown v er, formed), (hs, rest), (differ, apart)))))

      Sound : List Route → Type 0
      Sound rs = All (IsFormed py) rs × Apart (Differs hash) rs

      routes_in-Sound : (v : Value) → Holds Sound (routes_in py hash v)
      unfolding Sound Parsed
      routes_in-Sound (list values) =
          let h = parse_each-Parsed values nothing_seen in
          record { of_ok = λ rs e. let (f, _, a) = h.of_ok rs e in (f, a) }
      routes_in-Sound _ = raises-Holds

      -- Every route that is parsed is well formed, and no two of them have the same name, the same
      -- key, the same sender or the same number of one platform.
      pub parse_routes-Apart :
          (raw : Fields) {rs : List Route}
          → parse_routes py hash raw ≡ ok rs
          → All (IsFormed py) rs × Apart (Differs hash) rs
      unfolding parse_routes Sound
      parse_routes-Apart raw e =
          (routes_in-Sound (or_value (get "routes" raw) (list nil))).of_ok _ e
