-- ===== src/Sessions/Keyed.antt =====
-- sessions.py: the keys of the two dictionaries of the registry.
use signal_hermes_router.Prelude.{
  ℕ, ◌≡◌, refl, inl, inr, String, Bool, false, List, [], ◌∷◌, Option, none, some, is_some, arith,
  str_eq, eq_iff, eq_refl, ◌==◌, Bool-cases, if◌then◌else◌,
}
use signal_hermes_router.Config.{Route}
use signal_hermes_router.Sessions.{
  RoutedSession, SessionRegistry, Acp, Created, created, create_failed, is_spent,
  is_ephemeral_policy, counted, get_resumed, get_existing, get_new, get_cached, get_on, replaced,
  replace_on, resume_or_recreate, drop_one, drop_found, set_item, pop_item, store, forget,
  rotate_expired, get, replace_after_restart, drop_listed, drop_sessions_matching,
}

-- The value of a key among the items.
unfoldable pub owner : String → List (String × String) → Option String
owner k [] = none
owner k ((j, v) ∷ rest) = if str_eq j k then some v else owner k rest

abbrev pub IsDistinct : List (String × String) → Type 0
IsDistinct [] = Unit
IsDistinct ((k, v) ∷ rest) = (owner k rest ≡ none) × IsDistinct rest

-- The items have one entry for each session and no other.
pub record IsRegistered (g : SessionRegistry) : Type 0 where
  pub distinct : IsDistinct g.session_routes
  pub same_keys : (k : String) → is_some (g.sessions k) ≡ is_some (owner k g.session_routes)

pub owner-set_item :
    (k j v : String) (items : List (String × String))
    → owner k (set_item j v items) ≡ (if str_eq j k then some v else owner k items)
unfolding owner set_item
owner-set_item k j v [] = refl
owner-set_item k j v ((i, w) ∷ rest) =
    ground (arith, owner-set_item k j v rest, eq_iff i j, eq_iff i k, eq_iff j k)

set_item-IsDistinct :
    (j v : String) (items : List (String × String))
    → IsDistinct items
    → IsDistinct (set_item j v items)
unfolding set_item owner
set_item-IsDistinct j v [] d = (refl, tt)
set_item-IsDistinct j v ((i, w) ∷ rest) d = elim (Bool-cases (str_eq i j)) [
  | inl e ↦ rw e d
  | inr e ↦ rw e (
    ground (arith, owner-set_item i j v rest, eq_iff i j, eq_iff j i),
    set_item-IsDistinct j v rest d.1,
  )
]

pub owner-pop_item :
    (k j : String) (items : List (String × String))
    → owner k (pop_item j items) ≡ (if str_eq j k then none else owner k items)
unfolding owner pop_item
owner-pop_item k j [] = ground arith
owner-pop_item k j ((i, w) ∷ rest) =
    ground (arith, owner-pop_item k j rest, eq_iff i j, eq_iff i k, eq_iff j k)

pop_item-IsDistinct :
    (j : String) (items : List (String × String)) → IsDistinct items → IsDistinct (pop_item j items)
unfolding pop_item owner
pop_item-IsDistinct j [] d = tt
pop_item-IsDistinct j ((i, w) ∷ rest) d = elim (Bool-cases (str_eq i j)) [
  | inl e ↦ rw e (pop_item-IsDistinct j rest d.1)
  | inr e ↦ rw e (ground (arith, owner-pop_item i j rest), pop_item-IsDistinct j rest d.1)
]

store-IsRegistered :
    (k route_key : String) (s : RoutedSession) (g : SessionRegistry)
    → IsRegistered g
    → IsRegistered (store k route_key s g)
store-IsRegistered k route_key s g v = record {
  distinct = set_item-IsDistinct k route_key g.session_routes v.distinct;
  same_keys = λ j. ground (arith, v.same_keys j, owner-set_item j k route_key g.session_routes);
}

pub forget-IsRegistered :
    (k : String) (g : SessionRegistry) → IsRegistered g → IsRegistered (forget k g)
forget-IsRegistered k g v = record {
  distinct = pop_item-IsDistinct k g.session_routes v.distinct;
  same_keys = λ j. ground (arith, v.same_keys j, owner-pop_item j k g.session_routes);
}

rotate-IsRegistered :
    (route : Route) (k : String) (s : RoutedSession) (profile now : ℕ) (g : SessionRegistry)
    → IsRegistered g
    → IsRegistered (rotate_expired route k s profile now g).0
unfolding rotate_expired
rotate-IsRegistered route k s profile now g v =
    let w = forget-IsRegistered k g v in
    elim (Bool-cases (is_spent route now s)) [
      | inr e ↦ rw e v
      | inl e ↦ rw e (elim (Bool-cases (s.profile == profile)) [
        | inl same ↦ rw same (record { distinct = w.distinct; same_keys = w.same_keys })
        | inr other ↦ rw other w
      ])
    ]

counted-IsRegistered :
    (k : String) (s : RoutedSession) (g : SessionRegistry)
    → g.sessions k ≡ some s
    → IsRegistered g
    → IsRegistered (counted k s g).0
counted-IsRegistered k s g e v = record {
  distinct = v.distinct;
  same_keys = λ j. ground (arith, v.same_keys j, v.same_keys k, eq_iff k j);
}

new-IsRegistered :
    (route : Route) (k route_key cwd : String) (profile now : ℕ) (c : Created) (g : SessionRegistry)
    → IsRegistered g
    → IsRegistered (get_new route k route_key cwd profile now c g).0
new-IsRegistered route k route_key cwd profile now create_failed g v = v
new-IsRegistered route k route_key cwd profile now (created id) g v =
    elim (Bool-cases (is_ephemeral_policy route.session_policy)) [
      | inl e ↦ rw e v
      | inr e ↦ rw e (store-IsRegistered k route_key _ g v)
    ]

resumed-IsRegistered :
    (k route_key : String) (o : Option RoutedSession) (g : SessionRegistry)
    → IsRegistered g
    → IsRegistered (get_resumed k route_key o g).0
resumed-IsRegistered k route_key none g v = v
resumed-IsRegistered k route_key (some s) g v =
    counted-IsRegistered k s (store k route_key s g) (ground (arith, eq_refl k))
      (store-IsRegistered k route_key s g v)

-- A session that is not rotated stays in a registry that is unchanged.
pub rotate_kept :
    (route : Route) (k : String) (s : RoutedSession) (profile now : ℕ) (g : SessionRegistry)
    → (rotate_expired route k s profile now g).1 ≡ false
    → ((rotate_expired route k s profile now g).0 ≡ g) × (is_spent route now s ≡ false)
unfolding rotate_expired
rotate_kept route k s profile now g h = elim (Bool-cases (is_spent route now s)) [
  | inl e ↦ cc (rw e at h)
  | inr e ↦ rw e (refl, refl)
]

module _ (acp : Acp)
    (calm : (g : SessionRegistry) → IsRegistered g → IsRegistered (acp.meanwhile g)) where
  existing-IsRegistered :
      (route : Route) (k route_key : String) (profile : ℕ) (s : RoutedSession) (g : SessionRegistry)
      → g.sessions k ≡ some s
      → IsRegistered g
      → IsRegistered (get_existing acp route k route_key profile s g).0
  existing-IsRegistered route k route_key profile s g e v =
      elim (Bool-cases (s.profile == profile)) [
        | inl same ↦ rw same (counted-IsRegistered k s g e v)
        | inr other ↦ rw other (
            resumed-IsRegistered k route_key (resume_or_recreate acp route profile s)
              (acp.meanwhile g) (calm g v))
      ]

  cached-IsRegistered :
      (route : Route) (k route_key cwd : String) (profile now : ℕ) (o : Option RoutedSession)
      (g : SessionRegistry)
      → g.sessions k ≡ o
      → IsRegistered g
      → IsRegistered (get_cached acp route k route_key cwd profile now o g).0
  cached-IsRegistered route k route_key cwd profile now none g e v =
      new-IsRegistered route k route_key cwd profile acp.answered_at acp.new_session
        (acp.meanwhile g) (calm g v)
  cached-IsRegistered route k route_key cwd profile now (some s) g e v =
      elim (Bool-cases (rotate_expired route k s profile now g).1) [
        | inl gone ↦ rw gone (
            new-IsRegistered route k route_key cwd profile acp.answered_at acp.new_session
              (acp.meanwhile (rotate_expired route k s profile now g).0)
              (calm (rotate_expired route k s profile now g).0
                (rotate-IsRegistered route k s profile now g v)))
        | inr kept ↦
            rw (kept, (rotate_kept route k s profile now g kept).0)
              (existing-IsRegistered route k route_key profile s g e v)
      ]

  on-IsRegistered :
      (route : Route) (k route_key cwd : String) (o : Option ℕ) (now : ℕ) (g : SessionRegistry)
      → IsRegistered g
      → IsRegistered (get_on acp route k route_key cwd o now g).0
  on-IsRegistered route k route_key cwd none now g v = v
  on-IsRegistered route k route_key cwd (some profile) now g v =
      cached-IsRegistered route k route_key cwd profile now (g.sessions k) g refl v

  replaced-IsRegistered :
      (route : Route) (k route_key : String) (o : Option RoutedSession) (g : SessionRegistry)
      → IsRegistered g
      → IsRegistered (replaced route k route_key o g).0
  replaced-IsRegistered route k route_key none g v = v
  replaced-IsRegistered route k route_key (some s) g v =
      elim (Bool-cases (is_ephemeral_policy route.session_policy)) [
        | inl e ↦ rw e v
        | inr e ↦ rw e (store-IsRegistered k route_key s g v)
      ]

  replace_on-IsRegistered :
      (route : Route) (k route_key : String) (previous : RoutedSession) (o : Option ℕ)
      (g : SessionRegistry)
      → IsRegistered g
      → IsRegistered (replace_on acp route k route_key previous o g).0
  replace_on-IsRegistered route k route_key previous none g v = v
  replace_on-IsRegistered route k route_key previous (some profile) g v =
      replaced-IsRegistered route k route_key (resume_or_recreate acp route profile previous)
        (acp.meanwhile g) (calm g v)

drop_found-IsRegistered :
    (test : String → RoutedSession → Bool) (k route_key : String) (o : Option RoutedSession)
    (g : SessionRegistry)
    → IsRegistered g
    → IsRegistered (drop_found test k route_key o g).0
drop_found-IsRegistered test k route_key none g v = v
drop_found-IsRegistered test k route_key (some s) g v =
    let w = forget-IsRegistered k g v in
    elim (Bool-cases (test route_key s)) [
      | inl e ↦ rw e (record { distinct = w.distinct; same_keys = w.same_keys })
      | inr e ↦ rw e v
    ]

pub drop_listed-IsRegistered :
    (test : String → RoutedSession → Bool) (items : List (String × String)) (g : SessionRegistry)
    → IsRegistered g
    → IsRegistered (drop_listed test items g).0
unfolding drop_listed
drop_listed-IsRegistered test [] g v = v
drop_listed-IsRegistered test (e ∷ rest) g v =
    drop_listed-IsRegistered test rest (drop_one test e g).0
      (drop_found-IsRegistered test e.0 e.1 (g.sessions e.0) g v)

-- Every operation keeps the two dictionaries on the same keys, with one entry for each: an
-- acquisition that creates, resumes, rotates or fails, a replacement after a restart, and an
-- eviction of whatever sessions, if what the other tasks do while an acquisition waits does.
pub registry-IsRegistered :
    (acp : Acp) (route : Route) (k route_key cwd : String) (previous : RoutedSession) (now : ℕ)
    (test : String → RoutedSession → Bool) (g : SessionRegistry)
    → ((g : SessionRegistry) → IsRegistered g → IsRegistered (acp.meanwhile g))
    → IsRegistered g
    → IsRegistered (get acp route k route_key cwd now g).0
      × IsRegistered (replace_after_restart acp route k route_key previous g).0
      × IsRegistered (drop_sessions_matching test g).0
unfolding get replace_after_restart drop_sessions_matching
registry-IsRegistered acp route k route_key cwd previous now test g calm v = (
  on-IsRegistered acp calm route k route_key cwd acp.profile now g v,
  replace_on-IsRegistered acp calm route k route_key previous acp.profile g v,
  drop_listed-IsRegistered test g.session_routes g v,
)
