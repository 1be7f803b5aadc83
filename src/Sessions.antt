-- ===== src/Sessions.antt =====
-- src/signal_hermes_router/sessions.py: the registry of the cached ACP sessions.
--
-- `_sessions` and `_session_routes` are its two dictionaries; the second is a list of its items,
-- since methods iterate over it. A profile object is its identity, a number. The supervisor's
-- `get_profile` and the ACP calls `session/new` and `session/resume` are answers of the outside.
-- The key of a session is `key_of`: the hash of the text that `session_raw` names; the nonce of an
-- ephemeral one is an argument. Directories, permission policies and logs are left out.
pub mod Keyed
pub mod Budget
pub mod Eviction
pub mod Examples
use Prim.Native.String.{◌++◌}
use signal_hermes_router.Prelude.{
  ℕ, suc, ◌+◌, ◌-◌, String, Bool, true, false, not, ◌&&◌, ◌||◌, List, [], ◌∷◌, map, Option, none,
  some, is_some, Dict, put, remove, str_eq, any, keep, length, leb, ltb, if◌then◌else◌, ◌==◌,
}
use signal_hermes_router.Models.{
  SessionPolicy, persistent_route, persistent_sender, ephemeral, SessionKeyInput, NormalizedEvent,
}
use signal_hermes_router.Config.{Route, is_direct, truthy}

pub record RoutedSession : Type 0 where
  pub profile : ℕ
  pub session_id : String
  pub cwd : String
  pub is_ephemeral : Bool
  pub policy : SessionPolicy
  pub created_at : ℕ
  pub turn_count : ℕ

pub record SessionRegistry : Type 0 where
  pub sessions : Dict RoutedSession
  pub session_routes : List (String × String)
  pub released : List (ℕ × String)  -- the calls of `release_session`, the latest first

pub record SessionStatus : Type 0 where
  pub policy : SessionPolicy
  pub cached : Bool
  pub cached_sessions : ℕ

-- What `resume_session` does: it resumes, it is not advertised, it raises an Exception, or it is
-- cancelled.
pub data Resume : Type 0 where
  resumed not_advertised resume_failed resume_cancelled : Resume

-- A session id, or an exception.
pub data Created : Type 0 where
  created : String → Created
  create_failed : Created

-- The answers to one acquisition: the profile that `get_profile` returns, if it does, the agent's
-- answers, the clock when they are there, and what the other tasks do to the registry while the
-- acquisition waits for them.
pub record Acp : Type 0 where
  pub profile : Option ℕ
  pub resume : Resume
  pub new_session : Created
  pub answered_at : ℕ
  pub meanwhile : SessionRegistry → SessionRegistry

-- A dictionary's `d[k] = v` on its items: an existing key keeps its place.
unfoldable pub set_item : String → String → List (String × String) → List (String × String)
set_item k v [] = (k, v) ∷ []
set_item k v ((j, w) ∷ rest) = if str_eq j k then (j, v) ∷ rest else (j, w) ∷ set_item k v rest

-- `d.pop(k, None)` on the items
unfoldable pub pop_item : String → List (String × String) → List (String × String)
pop_item k items = keep (λ (e : String × String). not (str_eq e.0 k)) items

abbrev pub same_policy : SessionPolicy → SessionPolicy → Bool
same_policy persistent_route persistent_route = true
same_policy persistent_sender persistent_sender = true
same_policy ephemeral ephemeral = true
same_policy _ _ = false

abbrev pub is_ephemeral_policy : SessionPolicy → Bool
is_ephemeral_policy p = same_policy p ephemeral

-- `_routed_sender_id`; `none` is the ValueError.
unfoldable pub routed_sender_id : Route → NormalizedEvent → Option String
routed_sender_id route event =
    if is_direct route.chat_type then truthy route.sender_id else some event.sender_id

abbrev key_input_of : Option String → ℕ → Option SessionKeyInput
key_input_of none timestamp = none
key_input_of (some s) timestamp = some (record { sender_id = s; timestamp = timestamp })

-- `_session_key_input` of an event
unfoldable pub session_key_input : Route → NormalizedEvent → Option SessionKeyInput
unfolding routed_sender_id
session_key_input route event = key_input_of (routed_sender_id route event) event.timestamp

-- The text that `_session_key` hashes, from the route's key. `shown` is `str` of an int.
unfoldable pub session_raw :
    (ℕ → String) → SessionPolicy → String → SessionKeyInput → String → String
session_raw shown policy route_key input nonce = elim policy [
  | persistent_route ↦ route_key
  | persistent_sender ↦ route_key ++ (":" ++ input.sender_id)
  | ephemeral ↦
      route_key ++ (":" ++ (input.sender_id ++ (":" ++ (shown input.timestamp ++ (":" ++ nonce)))))
]

abbrev pub store : String → String → RoutedSession → SessionRegistry → SessionRegistry
store k route_key s g = record g {
  sessions = put g.sessions k s;
  session_routes = set_item k route_key g.session_routes;
}

abbrev pub forget : String → SessionRegistry → SessionRegistry
forget k g = record g {
  sessions = remove g.sessions k;
  session_routes = pop_item k g.session_routes;
}

abbrev release : ℕ → String → SessionRegistry → SessionRegistry
release profile id g = record g { released = (profile, id) ∷ g.released }

abbrev pub spent_turns : Option ℕ → ℕ → Bool
spent_turns none turns = false
spent_turns (some n) turns = leb n turns

abbrev pub spent_age : Option ℕ → ℕ → Bool
spent_age none age = false
spent_age (some n) age = leb n age

-- The budget of `_rotate_expired`.
unfoldable pub is_spent : Route → ℕ → RoutedSession → Bool
is_spent route now s =
    spent_turns route.session_max_turns s.turn_count
    || spent_age route.session_max_age (now - s.created_at)

-- `_rotate_expired`
unfoldable pub rotate_expired :
    Route → String → RoutedSession → ℕ → ℕ → SessionRegistry → SessionRegistry × Bool
unfolding is_spent
rotate_expired route k s profile now g =
    if is_spent route now s
    then (
      if s.profile == profile then release profile s.session_id (forget k g) else forget k g,
      true,
    )
    else (g, false)

abbrev pub fresh_session : RoutedSession → ℕ → SessionPolicy → String → ℕ → RoutedSession
fresh_session previous profile policy id now = record {
  profile = profile;
  session_id = id;
  cwd = previous.cwd;
  is_ephemeral = previous.is_ephemeral;
  policy = policy;
  created_at = if str_eq id previous.session_id then previous.created_at else now;
  turn_count = if str_eq id previous.session_id then previous.turn_count else 0;
}

abbrev pub from_created : RoutedSession → ℕ → SessionPolicy → ℕ → Created → Option RoutedSession
from_created previous profile policy now (created id) =
    some (fresh_session previous profile policy id now)
from_created previous profile policy now create_failed = none

abbrev pub recreated : Resume → Created → Route → ℕ → RoutedSession → ℕ → Option RoutedSession
recreated resumed c route profile previous now =
    some (fresh_session previous profile route.session_policy previous.session_id now)
recreated not_advertised c route profile previous now =
    from_created previous profile route.session_policy now c
recreated resume_failed c route profile previous now =
    if route.recreate_session_on_resume_failure
    then from_created previous profile route.session_policy now c
    else none
recreated resume_cancelled c route profile previous now = none

-- `_resume_or_recreate`; `none` is an exception.
unfoldable pub resume_or_recreate : Acp → Route → ℕ → RoutedSession → Option RoutedSession
resume_or_recreate acp route profile previous =
    recreated acp.resume acp.new_session route profile previous acp.answered_at

-- `existing.turn_count += 1` on the cached object
abbrev pub counted :
    String → RoutedSession → SessionRegistry → SessionRegistry × Option RoutedSession
counted k s g =
    let s' = record s { turn_count = suc s.turn_count } in
    (record g { sessions = put g.sessions k s' }, some s')

abbrev pub get_resumed :
    String
    → String
    → Option RoutedSession
    → SessionRegistry
    → SessionRegistry × Option RoutedSession
get_resumed k route_key none g = (g, none)
get_resumed k route_key (some s) g = counted k s (store k route_key s g)

abbrev pub get_existing :
    Acp
    → Route
    → String
    → String
    → ℕ
    → RoutedSession
    → SessionRegistry
    → SessionRegistry × Option RoutedSession
get_existing acp route k route_key profile s g =
    if s.profile == profile
    then counted k s g
    else get_resumed k route_key (resume_or_recreate acp route profile s) (acp.meanwhile g)

abbrev pub get_new :
    Route
    → String
    → String
    → String
    → ℕ
    → ℕ
    → Created
    → SessionRegistry
    → SessionRegistry × Option RoutedSession
get_new route k route_key cwd profile now create_failed g = (g, none)
get_new route k route_key cwd profile now (created id) g =
    let s : RoutedSession = record {
      profile = profile;
      session_id = id;
      cwd = cwd;
      is_ephemeral = is_ephemeral_policy route.session_policy;
      policy = route.session_policy;
      created_at = now;
      turn_count = 1;
    } in
    (if is_ephemeral_policy route.session_policy then g else store k route_key s g, some s)

abbrev pub get_cached :
    Acp
    → Route
    → String
    → String
    → String
    → ℕ
    → ℕ
    → Option RoutedSession
    → SessionRegistry
    → SessionRegistry × Option RoutedSession
get_cached acp route k route_key cwd profile now none g =
    get_new route k route_key cwd profile acp.answered_at acp.new_session (acp.meanwhile g)
get_cached acp route k route_key cwd profile now (some s) g =
    let (g', rotated) = rotate_expired route k s profile now g in
    if rotated
    then get_new route k route_key cwd profile acp.answered_at acp.new_session (acp.meanwhile g')
    else get_existing acp route k route_key profile s g'

abbrev pub get_on :
    Acp
    → Route
    → String
    → String
    → String
    → Option ℕ
    → ℕ
    → SessionRegistry
    → SessionRegistry × Option RoutedSession
get_on acp route k route_key cwd none now g = (g, none)
get_on acp route k route_key cwd (some profile) now g =
    get_cached acp route k route_key cwd profile now (g.sessions k) g

-- `SessionRegistry.get` from the return of `get_profile`, when the clock reads `now`, with the
-- session's key `k` and the route's; `none` is an exception.
unfoldable pub get :
    Acp
    → Route
    → String
    → String
    → String
    → ℕ
    → SessionRegistry
    → SessionRegistry × Option RoutedSession
unfolding rotate_expired resume_or_recreate
get acp route k route_key cwd now g = get_on acp route k route_key cwd acp.profile now g

abbrev pub replaced :
    Route
    → String
    → String
    → Option RoutedSession
    → SessionRegistry
    → SessionRegistry × Option RoutedSession
replaced route k route_key none g = (g, none)
replaced route k route_key (some s) g =
    (if is_ephemeral_policy route.session_policy then g else store k route_key s g, some s)

abbrev pub replace_on :
    Acp
    → Route
    → String
    → String
    → RoutedSession
    → Option ℕ
    → SessionRegistry
    → SessionRegistry × Option RoutedSession
replace_on acp route k route_key previous none g = (g, none)
replace_on acp route k route_key previous (some profile) g =
    replaced route k route_key (resume_or_recreate acp route profile previous) (acp.meanwhile g)

unfoldable pub replace_after_restart :
    Acp
    → Route
    → String
    → String
    → RoutedSession
    → SessionRegistry
    → SessionRegistry × Option RoutedSession
replace_after_restart acp route k route_key previous g =
    replace_on acp route k route_key previous acp.profile g

unfoldable pub status_for_route : SessionPolicy → String → SessionRegistry → SessionStatus
status_for_route policy route_key g =
    let n = length (
      keep (λ (e : String × String). str_eq e.1 route_key && is_some (g.sessions e.0))
        g.session_routes) in
    record { policy = policy; cached = ltb 0 n; cached_sessions = n }

-- One session of `_drop_sessions_matching`.
abbrev pub drop_found :
    (String → RoutedSession → Bool)
    → String
    → String
    → Option RoutedSession
    → SessionRegistry
    → SessionRegistry × ℕ
drop_found test k route_key none g = (g, 0)
drop_found test k route_key (some s) g =
    if test route_key s then (release s.profile s.session_id (forget k g), 1) else (g, 0)

abbrev pub drop_one :
    (String → RoutedSession → Bool) → String × String → SessionRegistry → SessionRegistry × ℕ
drop_one test (k, route_key) g = drop_found test k route_key (g.sessions k) g

-- `_drop_sessions_matching` over the items that it listed first.
unfoldable pub drop_listed :
    (String → RoutedSession → Bool) → List (String × String) → SessionRegistry → SessionRegistry × ℕ
drop_listed test [] g = (g, 0)
drop_listed test (e ∷ rest) g =
    let (g', n) = drop_one test e g in let (out, m) = drop_listed test rest g' in (out, n + m)

unfoldable pub drop_sessions_matching :
    (String → RoutedSession → Bool) → SessionRegistry → SessionRegistry × ℕ
unfolding drop_listed
drop_sessions_matching test g = drop_listed test g.session_routes g

-- A set of route keys, by its membership; `none` is no restriction.
abbrev pub in_scope : Option (String → Bool) → String → Bool
in_scope none k = true
in_scope (some only) k = only k

unfoldable pub drop_sessions_not_in :
    (String → Bool) → Option (String → Bool) → SessionRegistry → SessionRegistry × ℕ
drop_sessions_not_in live only g = drop_sessions_matching (λ k s. not (live k) && in_scope only k) g

-- The policies of the current configuration, by route key.
abbrev pub mismatched : Dict SessionPolicy → String → RoutedSession → Bool
mismatched current k s = elim (current k) [ none ↦ false | some p ↦ not (same_policy s.policy p) ]

unfoldable pub drop_sessions_with_mismatched_policy :
    Dict SessionPolicy → Option (String → Bool) → SessionRegistry → SessionRegistry × ℕ
drop_sessions_with_mismatched_policy current only g =
    drop_sessions_matching (λ k s. mismatched current k s && in_scope only k) g

abbrev mismatched_at : Dict SessionPolicy → SessionRegistry → String × String → Bool
mismatched_at current g (k, route_key) = elim (g.sessions k) [
  | none ↦ false
  | some s ↦ mismatched current route_key s
]

-- The route keys, one for each session that is found.
unfoldable pub route_keys_with_mismatched_policy :
    Dict SessionPolicy → SessionRegistry → List String
route_keys_with_mismatched_policy current g =
    map (λ (e : String × String). e.1) (keep (mismatched_at current g) g.session_routes)
