-- ===== src/Profiles.antt =====
-- src/signal_hermes_router/sessions.py: the supervisor of the ACP profiles (ProfileSupervisor).
--
-- A profile object is a number; `suspected` is its `exit_suspected()`. At an await the other tasks
-- and the clock take the supervisor wherever `meanwhile` says: the lock of a profile's name keeps
-- out other acquisitions of that name, which is not used here. Commands, sizes and logs are left out.
pub mod Acquired
pub mod Examples
use signal_hermes_router.Prelude.{
  ℕ, zero, suc, ◌+◌, ◌-◌, String, Bool, true, false, not, ◌&&◌, ◌||◌, List, [], ◌∷◌, ◌++◌, map,
  Option, none, some, is_some, Dict, put, remove, empty, ltb, if◌then◌else◌, ◌==◌, keep, str_eq,
}

pub record ProfileSupervisor : Type 0 where
  pub restart_cooldown : ℕ
  pub profiles : List (String × ℕ)  -- the items of `_profiles`
  pub last_restart : Dict ℕ
  pub suspected : ℕ → Bool
  pub spawned : ℕ  -- the profiles so far; the next one is this number
  pub closed : List ℕ  -- the calls of `close`, the latest first
  pub monotonic : ℕ

-- How an awaited call ends: it returns, or raises an Exception, or is cancelled.
pub data Ending : Type 0 where
  returned failed cancelled : Ending

pub data Point : Type 0 where
  closing starting : ℕ → Point
  yielding : Point

pub record Outside : Type 0 where
  pub start : ℕ → Ending
  pub close : ℕ → Ending
  pub meanwhile : Point → ProfileSupervisor → ProfileSupervisor

-- What an acquisition ends in: a profile, the RuntimeError of the cooldown, the exception of
-- `start`, the RuntimeError of a child that exited, or a cancellation.
pub data Acquisition : Type 0 where
  acquires : ℕ → Acquisition
  cooling start_failed exited interrupted : Acquisition

-- self._profiles.get(name)
unfoldable pub cached : String → List (String × ℕ) → Option ℕ
cached name [] = none
cached name ((n, p) ∷ rest) = if str_eq n name then some p else cached name rest

-- self._profiles[name] = profile
unfoldable pub set_profile : String → ℕ → List (String × ℕ) → List (String × ℕ)
set_profile name p [] = (name, p) ∷ []
set_profile name p ((n, q) ∷ rest) =
    let later = set_profile name p rest in if str_eq n name then (n, p) ∷ rest else (n, q) ∷ later

-- self._profiles.pop(name, None)
unfoldable pub pop_profile : String → List (String × ℕ) → List (String × ℕ)
pop_profile name items = keep (λ (e : String × ℕ). not (str_eq e.0 name)) items

abbrev pub is_cached_as : Option ℕ → ℕ → Bool
is_cached_as none p = false
is_cached_as (some q) p = q == p

-- `if self._profiles.get(name) is profile: del self._profiles[name]`
unfoldable pub evict : String → ℕ → ProfileSupervisor → ProfileSupervisor
evict name p s =
    if is_cached_as (cached name s.profiles) p
    then record s { profiles = pop_profile name s.profiles }
    else s

-- `profile.close()`, awaited
abbrev pub close_profile : Outside → ℕ → ProfileSupervisor → ProfileSupervisor
close_profile o p s = o.meanwhile (closing p) (record s { closed = p ∷ s.closed })

abbrev is_cooling : Option ℕ → ℕ → ℕ → Bool
is_cooling none cooldown now = false
is_cooling (some last) cooldown now = ltb 0 cooldown && ltb (now - last) cooldown

-- `_handle_profile_exit`
unfoldable pub handle_profile_exit : String → ℕ → ProfileSupervisor → ProfileSupervisor
handle_profile_exit name p s = evict name p s

abbrev pub with_profile : String → ProfileSupervisor → ProfileSupervisor
with_profile name s = record s {
  profiles = set_profile name s.spawned s.profiles;
  spawned = suc s.spawned;
}

abbrev pub stamped : String → ProfileSupervisor → ProfileSupervisor
stamped name s = record s { last_restart = put s.last_restart name s.monotonic }

module _ (o : Outside) (name : String) where
  -- The yields before the last check: at most three, fewer once an exit is suspected.
  abbrev pub yields : ℕ → ℕ → ProfileSupervisor → ProfileSupervisor
  yields zero p s = s
  yields (suc n) p s =
      let next = yields n p (o.meanwhile yielding s) in if s.suspected p then s else next

  -- `_close_evicted_profile`: only a cancellation passes on.
  abbrev pub close_evicted :
      ℕ → Ending → Acquisition → ProfileSupervisor → Acquisition × ProfileSupervisor
  close_evicted p cancelled then_result s = (interrupted, close_profile o p s)
  close_evicted p _ then_result s = (then_result, close_profile o p s)

  abbrev pub checked : ℕ → Bool → ProfileSupervisor → Acquisition × ProfileSupervisor
  checked p true s = (acquires p, s)
  checked p false s = close_evicted p (o.close p) exited (evict name p s)

  abbrev pub is_live : ℕ → ProfileSupervisor → Bool
  is_live p s = is_cached_as (cached name s.profiles) p && not (s.suspected p)

  abbrev pub started : ℕ → Ending → ProfileSupervisor → Acquisition × ProfileSupervisor
  started p returned s = let s' = yields 3 p s in checked p (is_live p s') s'
  started p failed s = (start_failed, stamped name (evict name p s))
  started p cancelled s = (interrupted, evict name p s)

  unfoldable pub spawn : ProfileSupervisor → Acquisition × ProfileSupervisor
  spawn s =
      let p = s.spawned in started p (o.start p) (o.meanwhile (starting p) (with_profile name s))

  unfoldable pub spawn_unless_cooling : ProfileSupervisor → Acquisition × ProfileSupervisor
  spawn_unless_cooling s =
      if is_cooling (s.last_restart name) s.restart_cooldown s.monotonic
      then (cooling, s)
      else spawn s

  abbrev pub replaced : ℕ → Ending → ProfileSupervisor → Acquisition × ProfileSupervisor
  replaced p cancelled s = (interrupted, close_profile o p s)
  replaced p _ s = spawn_unless_cooling (close_profile o p s)

  abbrev pub acquire_profile_from : Option ℕ → ProfileSupervisor → Acquisition × ProfileSupervisor
  acquire_profile_from none s = spawn_unless_cooling s
  acquire_profile_from (some p) s =
      if s.suspected p then replaced p (o.close p) (evict name p s) else (acquires p, s)

  -- `get_profile`, with its lock, and `_acquire_profile`
  unfoldable pub get_profile : ProfileSupervisor → Acquisition × ProfileSupervisor
  get_profile s = acquire_profile_from (cached name s.profiles) s

  abbrev popped : ProfileSupervisor → ProfileSupervisor
  popped s = record s { profiles = pop_profile name s.profiles }

  abbrev close_popped : Option ℕ → ProfileSupervisor → ProfileSupervisor
  close_popped none s = s
  close_popped (some p) s = close_profile o p s

  -- An exception of `close` passes on; the state is the same.
  unfoldable pub restart_profile : ProfileSupervisor → ProfileSupervisor
  restart_profile s = close_popped (cached name s.profiles) (popped s)

  -- `retire_profile`; `should_retire` is read under the lock.
  unfoldable pub retire_profile :
      (ProfileSupervisor → Bool) → ProfileSupervisor → ProfileSupervisor × Bool
  retire_profile should_retire s =
      if should_retire s
      then (close_popped (cached name s.profiles) (popped s), is_some (cached name s.profiles))
      else (s, false)

-- `close`: all of them, at once. Whether one fails is its result.
unfoldable pub close : Outside → ProfileSupervisor → ProfileSupervisor
close o s = record s {
  profiles = [];
  closed = map (λ (e : String × ℕ). e.1) s.profiles ++ s.closed;
}

unfoldable pub cached_profile_names : ProfileSupervisor → List String
cached_profile_names s = map (λ (e : String × ℕ). e.0) s.profiles
