-- ===== src/Config/Lookup.antt =====
-- config.py: which routes the lookup of an event can find.
use mathlib.Core.List.{Memᴰ}
use signal_hermes_router.Prelude.{
  Apart, All, All_at, All_zip, false, ◌≡◌, refl, Bool, true, String, List, [], ◌∷◌, Option, none,
  some, arith, eq_iff,
}
use signal_hermes_router.Models.{ChatType, group, direct, NormalizedEvent}
use signal_hermes_router.Config.{
  Route, AppConfig, find, find_group_route, find_direct_route, find_by_number, find_by_source,
  group_route, route_for, matches_group, matches_sender, matches_number, truthy, opt_eq,
  find_route_for_event,
}

-- What a route must be configured with to receive an event: the event's group, or, for a direct
-- message, its sender's UUID, or its number where it has no UUID.
pub data Receives (e : NormalizedEvent) (r : Route) : Type 0 where
  of_group :
      e.chat_type ≡ group
      → r.chat_type ≡ group
      → (g : String) → e.group_id ≡ some g
      → r.group_id ≡ some g
      → Receives e r
  of_sender :
      e.chat_type ≡ direct
      → r.chat_type ≡ direct
      → (u : String) → e.source_uuid ≡ some u
      → r.sender_id ≡ some u
      → Receives e r
  of_number :
      e.chat_type ≡ direct
      → r.chat_type ≡ direct
      → truthy e.source_uuid ≡ none
      → (n : String) → e.source_number ≡ some n
      → r.sender_number ≡ some n
      → Receives e r

find_passes {ℓ} :
    {A : Type ℓ} (p : A → Bool) (xs : List A) {a : A} → find p xs ≡ some a → p a ≡ true
unfolding find
find_passes p [] h = cc
find_passes p (x ∷ xs) {a = a} h = ground (arith, find_passes p xs {a = a})

-- The first element that passes a test is `a`, where no earlier one does.
pub first_match {ℓ κ} :
    {A : Type ℓ} (R : A → A → Type κ) (p : A → Bool) (a : A)
    → p a ≡ true
    → ((x : A) → R x a → p x ≡ false)
    → (xs : List A) → Memᴰ a xs
    → Apart R xs
    → find p xs ≡ some a
unfolding find
first_match R p a pa other [] m h = elim m [ ]
first_match R p a pa other (x ∷ xs) (Memᴰ.head e) (d, ds) = rw (← e, pa) refl
first_match R p a pa other (x ∷ xs) (Memᴰ.tail m) (d, ds) =
    rw (other x (All_at (R x) xs m d)) (first_match R p a pa other xs m ds)

-- Every element is the first to pass its own test, where that refuses the earlier ones.
pub all_first {ℓ κ} :
    {A : Type ℓ} (R : A → A → Type κ) (p : A → A → Bool)
    → ((a : A) → p a a ≡ true)
    → ((x a : A) → R x a → p a x ≡ false)
    → (xs : List A) → Apart R xs
    → All (λ a. find (p a) xs ≡ some a) xs
unfolding find
all_first R p self other [] h = tt
all_first R p self other (x ∷ xs) (d, ds) = (
  rw (self x) refl,
  All_zip (R x) (λ a. find (p a) xs ≡ some a) (λ a. find (p a) (x ∷ xs) ≡ some a)
      (λ a r e. rw (other x a r) e) xs d (all_first R p self other xs ds),
)

pub opt_eq-some : (o : Option String) (s : String) → opt_eq o s ≡ true → o ≡ some s
opt_eq-some none s h = cc
opt_eq-some (some r) s h = ground (arith, eq_iff r s)

pub truthy-some : (o : Option String) (s : String) → truthy o ≡ some s → o ≡ some s
truthy-some none s h = cc
truthy-some (some r) s h = ground arith

module _ (c : AppConfig) (e : NormalizedEvent) (r : Route) where
  Routed : Type 0
  Routed = Receives e r × (r.platform ≡ e.platform)

  by_group :
      (o : Option String)
      → e.group_id ≡ o
      → e.chat_type ≡ group
      → group_route c e.platform o ≡ some r
      → Routed
  unfolding find_group_route Routed
  by_group none eo ct h = cc
  by_group (some g) eo ct h =
      let m = find_passes (matches_group e.platform g) c.routes h in
      (
        of_group ct (ground arith) g eo (opt_eq-some r.group_id g (ground arith)),
        ground (arith, eq_iff r.platform e.platform),
      )

  by_number :
      (o : Option String)
      → truthy e.source_number ≡ o
      → truthy e.source_uuid ≡ none
      → e.chat_type ≡ direct
      → find_by_number c e.platform o ≡ some r
      → Routed
  unfolding Routed
  by_number none eo eu ct h = cc
  by_number (some n) eo eu ct h =
      let m = find_passes (matches_number e.platform n) c.routes h in
      (
        of_number ct (ground arith) eu n (truthy-some e.source_number n eo)
            (opt_eq-some r.sender_number n (ground arith)),
        ground (arith, eq_iff r.platform e.platform),
      )

  by_source :
      (o : Option String)
      → truthy e.source_uuid ≡ o
      → e.chat_type ≡ direct
      → find_by_source c e.platform o (truthy e.source_number) ≡ some r
      → Routed
  unfolding Routed
  by_source none eo ct h = by_number (truthy e.source_number) refl eo ct h
  by_source (some u) eo ct h =
      let m = find_passes (matches_sender e.platform u) c.routes h in
      (
        of_sender ct (ground arith) u (truthy-some e.source_uuid u eo)
            (opt_eq-some r.sender_id u (ground arith)),
        ground (arith, eq_iff r.platform e.platform),
      )

  by_chat : (t : ChatType) → e.chat_type ≡ t → route_for c e t ≡ some r → Routed
  unfolding find_direct_route
  by_chat ChatType.group et h = by_group e.group_id refl et h
  by_chat ChatType.direct et h = by_source (truthy e.source_uuid) refl et h

  -- A route that is found for an event is configured for it, on the event's platform.
  pub find_route_for_event-Receives :
      find_route_for_event c e ≡ some r → Receives e r × (r.platform ≡ e.platform)
  unfolding find_route_for_event Routed
  find_route_for_event-Receives h = by_chat e.chat_type refl h
