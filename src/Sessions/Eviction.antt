-- ===== src/Sessions/Eviction.antt =====
-- sessions.py: which sessions an eviction drops.
use signal_hermes_router.Prelude.{
  ◌≡◌, refl, ap, sym, ◌∙◌, inl, inr, String, Bool, not, ◌&&◌, List, [], ◌∷◌, Option, none, some,
  Dict, arith, str_eq, eq_iff, Bool-cases, if◌then◌else◌,
}
use signal_hermes_router.Models.{SessionPolicy}
use signal_hermes_router.Sessions.{
  RoutedSession, SessionRegistry, drop_one, drop_found, drop_listed, drop_sessions_matching,
  drop_sessions_not_in, drop_sessions_with_mismatched_policy, in_scope, mismatched,
}
use signal_hermes_router.Sessions.Keyed.{owner, IsDistinct, IsRegistered}

-- What an eviction leaves under a key, by the route that owns the key.
abbrev pub survivor :
    (String → RoutedSession → Bool) → Option String → Option RoutedSession → Option RoutedSession
survivor test none o = o
survivor test (some route_key) none = none
survivor test (some route_key) (some s) = if test route_key s then none else some s

drop_found-sessions :
    (test : String → RoutedSession → Bool) (k route_key j : String) (o : Option RoutedSession)
    (g : SessionRegistry)
    → g.sessions k ≡ o
    → (drop_found test k route_key o g).0.sessions j
      ≡ (if str_eq k j then survivor test (some route_key) (g.sessions j) else g.sessions j)
drop_found-sessions test k route_key j none g e = ground (arith, eq_iff k j)
drop_found-sessions test k route_key j (some s) g e = ground (arith, eq_iff k j)

drop_listed-sessions :
    (test : String → RoutedSession → Bool) (items : List (String × String)) (g : SessionRegistry)
    (j : String)
    → IsDistinct items
    → (drop_listed test items g).0.sessions j ≡ survivor test (owner j items) (g.sessions j)
unfolding drop_listed owner
drop_listed-sessions test [] g j d = refl
drop_listed-sessions test ((k, route_key) ∷ rest) g j d =
    let g' = (drop_one test (k, route_key) g).0 in
    let here = drop_found-sessions test k route_key j (g.sessions k) g refl in
    let there = drop_listed-sessions test rest g' j d.1 in
    elim (Bool-cases (str_eq k j)) [
      | inl same ↦ rw same (
          there
          ∙ ap (λ o. survivor test o (g'.sessions j))
              (ap (λ x. owner x rest) (sym ((eq_iff k j).0 same)) ∙ d.0)
          ∙ (rw same at here))
      | inr other ↦ rw other (there ∙ ap (survivor test (owner j rest)) (rw other at here))
    ]

-- The reload's evictions. A session is dropped exactly when its route is not live and is in the given
-- scope, or, for the second, when its policy is not the current one of its route in the scope; every
-- other session stays as it is.
pub evictions-survivor :
    (live : String → Bool) (current : Dict SessionPolicy) (only : Option (String → Bool))
    (g : SessionRegistry) (k : String)
    → IsRegistered g
    → ((drop_sessions_not_in live only g).0.sessions k
        ≡ survivor
            (λ route_key s. not (live route_key) && in_scope only route_key)
            (owner k g.session_routes)
            (g.sessions k))
      × ((drop_sessions_with_mismatched_policy current only g).0.sessions k
          ≡ survivor
              (λ route_key s. mismatched current route_key s && in_scope only route_key)
              (owner k g.session_routes)
              (g.sessions k))
unfolding drop_sessions_not_in drop_sessions_with_mismatched_policy drop_sessions_matching
evictions-survivor live current only g k v = (
  drop_listed-sessions _ g.session_routes g k v.distinct,
  drop_listed-sessions _ g.session_routes g k v.distinct,
)
