-- ===== src/Sessions/Budget.antt =====
-- sessions.py: the sessions that `get` returns, their profiles, turns and ages.
use signal_hermes_router.Prelude.{ℕ, suc, ◌-◌, ◌≤◌, ◌<◌, ◌≡◌, Option, none, some}
use signal_hermes_router.Config.{Route}
use signal_hermes_router.Sessions.{RoutedSession}

abbrev pub TurnsWithin : Option ℕ → ℕ → Type 0
TurnsWithin none turns = Unit
TurnsWithin (some n) turns = turns ≤ n

abbrev pub AgeWithin : Option ℕ → ℕ → Type 0
AgeWithin none age = Unit
AgeWithin (some n) age = age < n

-- A limit, if there is one, is not 0.
abbrev pub Positive : Option ℕ → Type 0
Positive none = Unit
Positive (some n) = 0 < n

-- What is promised of a session that serves a turn, of which `now` is the time of the lookup.
pub record Serves (route : Route) (profile now : ℕ) (s : RoutedSession) : Type 0 where
  pub on_profile : s.profile ≡ profile
  pub turns_within : TurnsWithin route.session_max_turns s.turn_count
  pub age_within : AgeWithin route.session_max_age (now - s.created_at)

-- What is promised of whatever an acquisition returns.
abbrev pub ServesAny : Route → ℕ → ℕ → Option RoutedSession → Type 0
ServesAny route profile now none = Unit
ServesAny route profile now (some s) = Serves route profile now s

-- And of the session that `counted` is to return.
abbrev Resumed : Route → ℕ → ℕ → Option RoutedSession → Type 0
Resumed route profile now none = Unit
Resumed route profile now (some r) =
    Serves route profile now (record r { turn_count = suc r.turn_count })
