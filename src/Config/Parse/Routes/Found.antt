-- ===== src/Config/Parse/Routes/Found.antt =====
-- config.py: the lookups find each route that was parsed.
use Prim.Native.String.{◌++◌}
use mathlib.Core.Path.{subst}
use mathlib.Core.List.{Memᴰ}
use signal_hermes_router.Prelude.{
  Apart, ◌≡◌, ◌≢◌, refl, sym, String, Bool, true, false, List, [], ◌∷◌, Option, none, some, All,
  str_eq, eq_iff, eq_refl, arith,
}
use signal_hermes_router.Values.{Value, Fields, Python, ok}
use signal_hermes_router.Models.{ChatType, group, direct}
use signal_hermes_router.Config.{
  Route, AppConfig, is_group, is_direct, find_route_by_name, find_group_route, find_direct_route,
  matches_group, matches_sender, matches_number, opt_eq, route_key, truthy,
}
use signal_hermes_router.Config.Lookup.{opt_eq-some, first_match}
use signal_hermes_router.Config.Parse.Names.Exact.{Exact}
use signal_hermes_router.Config.Parse.Route.Formed.{IsFormed, Given, Addressed}
use signal_hermes_router.Config.Parse.Routes.{parse_routes, pair_eq, sender_key, number_key}
use signal_hermes_router.Config.Parse.Routes.Apart.{Differs, same, parse_routes-Apart}

-- A group route is found by its group, a direct route by its sender and by its number.
abbrev FoundFor : AppConfig → Route → Option String → ChatType → Type 0
FoundFor c r number group = Given (λ g. find_group_route c r.platform g ≡ some r) r.group_id
FoundFor c r number direct =
    Given (λ s. find_direct_route c r.platform (some s) number ≡ some r) r.sender_id
    × Given (λ n. find_direct_route c r.platform none (some n) ≡ some r) r.sender_number

abbrev pub Found : AppConfig → Option String → Route → Type 0
Found c number r =
    Given (λ n. find_route_by_name c n ≡ some r) r.name × FoundFor c r number r.chat_type

same_self : (s : String) → same str_eq (some s) (some s) ≡ true
same_self s = eq_refl s

same_pair : (a b : String) → same pair_eq (some (a, b)) (some (a, b)) ≡ true
same_pair a b = rw (eq_refl a, eq_refl b) refl

is_group_eq : (t : ChatType) → is_group t ≡ true → t ≡ group
is_group_eq group h = refl
is_group_eq direct h = cc

is_direct_eq : (t : ChatType) → is_direct t ≡ true → t ≡ direct
is_direct_eq group h = cc
is_direct_eq direct h = refl

nonempty : (s : String) → s ≢ "" → truthy (some s) ≡ some s
nonempty s h = ground (arith, eq_iff s "")

-- A test that passes only where two keys agree fails on a route whose key differs.
refuted : (b : Bool) (k : Bool) → k ≡ false → (b ≡ true → k ≡ true) → b ≡ false
refuted true k e h = cc (e, h refl)
refuted false k e h = refl

module _ (platform s : String) (x : Route) where
  Hit : ChatType → Option String → Type 0
  Hit t o = (x.platform ≡ platform) × (x.chat_type ≡ t) × (o ≡ some s)

  group_reads : matches_group platform s x ≡ true → Hit group x.group_id
  unfolding Hit
  group_reads h = (
    ground (arith, eq_iff x.platform platform),
    is_group_eq x.chat_type (ground arith),
    opt_eq-some x.group_id s (ground arith),
  )

  sender_reads : matches_sender platform s x ≡ true → Hit direct x.sender_id
  unfolding Hit
  sender_reads h = (
    ground (arith, eq_iff x.platform platform),
    is_direct_eq x.chat_type (ground arith),
    opt_eq-some x.sender_id s (ground arith),
  )

  number_reads : matches_number platform s x ≡ true → Hit direct x.sender_number
  unfolding Hit
  number_reads h = (
    ground (arith, eq_iff x.platform platform),
    is_direct_eq x.chat_type (ground arith),
    opt_eq-some x.sender_number s (ground arith),
  )

group_key :
    (hash : String → String) (r : Route) (g : String)
    → r.chat_type ≡ group
    → r.group_id ≡ some g
    → g ≢ ""
    → route_key hash r ≡ some ((r.platform ++ ":") ++ g)
unfolding route_key
group_key hash r g et eg hg = rw (et, eg, nonempty g hg) refl

module _ (hash : String → String) (r : Route) where
  name_other :
      (n : String) → r.name ≡ some n → (x : Route) → Differs hash x r → opt_eq x.name n ≡ false
  name_other n en x d =
      refuted _ (same str_eq r.name x.name) d.0
        (λ h. let ex = opt_eq-some x.name n h in rw (en, ex) (same_self n))

  group_other :
      (g : String)
      → r.chat_type ≡ group
      → r.group_id ≡ some g
      → g ≢ ""
      → (x : Route) → Differs hash x r
      → matches_group r.platform g x ≡ false
  unfolding Hit
  group_other g et eg hg x (_, _, _, d) =
      refuted _ (same str_eq (route_key hash r) (route_key hash x)) d (λ h.
        let (p, t, i) = group_reads r.platform g x h in
        rw (group_key hash r g et eg hg, group_key hash x g t i hg, p) (same_self _))

  sender_other :
      (s : String)
      → r.chat_type ≡ direct
      → r.sender_id ≡ some s
      → (x : Route) → Differs hash x r
      → matches_sender r.platform s x ≡ false
  unfolding Hit
  sender_other s et es x (_, d, _, _) =
      refuted _ (same pair_eq (sender_key r) (sender_key x)) d (λ h.
        let (p, t, i) = sender_reads r.platform s x h in
        rw (et, es, t, i, p) (same_pair r.platform s))

  number_other :
      (n : String)
      → r.chat_type ≡ direct
      → r.sender_number ≡ some n
      → n ≢ ""
      → (x : Route) → Differs hash x r
      → matches_number r.platform n x ≡ false
  unfolding Hit
  number_other n et en hn x (_, _, d, _) =
      refuted _ (same pair_eq (number_key r) (number_key x)) d (λ h.
        let (p, t, i) = number_reads r.platform n x h in
        rw (et, en, t, i, p, nonempty n hn) (same_pair r.platform n))

given {ℓ κ} : {A : Type ℓ} (P : A → Type κ) {o : Option A} {a : A} → o ≡ some a → P a → Given P o
given P e h = subst (Given P) (sym e) h

module _ (hash : String → String) (py : Python) (c : AppConfig) (number : Option String) where
  module _ (r : Route) (m : Memᴰ r c.routes) (apart : Apart (Differs hash) c.routes) where
    name_found : (o : Option String) → r.name ≡ o → Given (λ n. find_route_by_name c n ≡ some r) o
    unfolding find_route_by_name
    name_found none e = tt
    name_found (some n) e =
        first_match (Differs hash) (λ x. opt_eq x.name n) r (rw e (eq_refl n))
          (name_other hash r n e) c.routes m apart

    group_found :
        (g : String)
        → r.chat_type ≡ group
        → r.group_id ≡ some g
        → g ≢ ""
        → find_group_route c r.platform g ≡ some r
    unfolding find_group_route
    group_found g et eg hg =
        first_match (Differs hash) (matches_group r.platform g) r
          (rw (et, eg, eq_refl r.platform, eq_refl g) refl) (group_other hash r g et eg hg) c.routes
          m apart

    sender_found :
        (s : String)
        → r.chat_type ≡ direct
        → r.sender_id ≡ some s
        → s ≢ ""
        → find_direct_route c r.platform (some s) number ≡ some r
    unfolding find_direct_route
    sender_found s et es hs = rw (nonempty s hs) (
        first_match (Differs hash) (matches_sender r.platform s) r
          (rw (et, es, eq_refl r.platform, eq_refl s) refl) (sender_other hash r s et es) c.routes m
          apart)

    number_found :
        (o : Option String)
        → r.chat_type ≡ direct
        → r.sender_number ≡ o
        → Given (Exact py) o
        → Given (λ n. find_direct_route c r.platform none (some n) ≡ some r) o
    unfolding find_direct_route
    number_found none et en hn = tt
    number_found (some n) et en (hn, _) = rw (nonempty n hn) (
        first_match (Differs hash) (matches_number r.platform n) r
          (rw (et, en, eq_refl r.platform, eq_refl n) refl) (number_other hash r n et en hn)
          c.routes m apart)

    recipient_found :
        (t : ChatType)
        → r.chat_type ≡ t
        → Addressed py t (record {
          group_id = r.group_id;
          sender_id = r.sender_id;
          sender_number = r.sender_number;
        })
        → FoundFor c r number t
    recipient_found group e ((g, eg, hg), _, _) =
        given (λ g. find_group_route c r.platform g ≡ some r) eg (group_found g e eg hg)
    recipient_found direct e ((s, es, (hs, ws)), hn, _) = (
      given (λ s. find_direct_route c r.platform (some s) number ≡ some r) es
          (sender_found s e es hs),
      number_found r.sender_number e refl hn,
    )

    route_found : IsFormed py r → Found c number r
    route_found f = (name_found r.name refl, recipient_found r.chat_type refl f.recipient)

  all_found :
      (rs : List Route)
      → ((r : Route) → Memᴰ r rs → Memᴰ r c.routes)
      → Apart (Differs hash) c.routes
      → All (IsFormed py) rs
      → All (Found c number) rs
  all_found [] within apart formed = tt
  all_found (r ∷ rs) within apart (f, fs) = (
    route_found r (within r (Memᴰ.head refl)) apart f,
    all_found rs (λ x m. within x (Memᴰ.tail m)) apart fs,
  )

  -- A configuration with the routes that were parsed finds each of them: by its name if it has one,
  -- a group route by its group, a direct route by its sender, whatever number comes with that, and
  -- by its number, if it has one, where no sender is given.
  pub parse_routes-Found :
      (shown : (v : Value) → py.shown v ≢ "")
      → (raw : Fields) → parse_routes py hash raw ≡ ok c.routes
      → All (Found c number) c.routes
  parse_routes-Found shown raw e =
      let (formed, apart) = parse_routes-Apart hash py shown raw e in
      all_found c.routes (λ r m. m) apart formed
