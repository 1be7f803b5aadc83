-- ===== src/Profiles/Examples.antt =====
-- A profile whose child has died is replaced by a new one.
use signal_hermes_router.Prelude.{◌≡◌, refl, ◌==◌, [], ◌∷◌, empty}
use signal_hermes_router.Profiles.{
  ProfileSupervisor, Outside, returned, get_profile, acquires, cached, evict, spawn_unless_cooling,
  spawn, set_profile, pop_profile,
}
use signal_hermes_router.Profiles.Acquired.{Outcome, get_profile-Outcome}

abbrev outside : Outside
outside = record { start = λ p. returned; close = λ p. returned; meanwhile = λ p s. s }

-- The profile 0 is cached, and its child has exited.
abbrev supervisor : ProfileSupervisor
supervisor = record {
  restart_cooldown = 1000;
  profiles = ("p", 0) ∷ [];
  last_restart = empty;
  suspected = λ p. p == 0;
  spawned = 1;
  closed = [];
  monotonic = 5;
}

replaces : (get_profile outside "p" supervisor).0 ≡ acquires 1
unfolding get_profile cached evict spawn_unless_cooling spawn set_profile pop_profile
replaces = refl

get_profile-Outcome_example :
    Outcome "p" (get_profile outside "p" supervisor).0 (get_profile outside "p" supervisor).1
get_profile-Outcome_example = get_profile-Outcome outside "p" supervisor
