-- ===== src/Profiles/Acquired.antt =====
-- sessions.py: what an acquisition of a profile leaves behind.
use signal_hermes_router.Prelude.{
  ◌≡◌, refl, ℕ, ◌-◌, ◌<◌, inl, inr, String, Bool, true, false, Option, none, some, put_self,
  Bool-cases, arith, ==_iff,
}
use signal_hermes_router.Profiles.{
  ProfileSupervisor, Outside, Ending, returned, failed, cancelled, Acquisition, acquires, cooling,
  start_failed, exited, interrupted, cached, is_cached_as, evict, is_live, get_profile,
  acquire_profile_from, spawn, spawn_unless_cooling, started, checked, replaced, close_evicted,
  yields, is_cooling,
}

-- An acquired profile is the one cached under the name and shows no sign of an exit; a refusal comes
-- within the cooldown after the time noted for the name; a failed start notes its time.
abbrev pub Outcome : String → Acquisition → ProfileSupervisor → Type 0
Outcome name (acquires p) s = (cached name s.profiles ≡ some p) × (s.suspected p ≡ false)
Outcome name cooling s =
    (last : ℕ) × (s.last_restart name ≡ some last) × (s.monotonic - last < s.restart_cooldown)
Outcome name start_failed s = s.last_restart name ≡ some s.monotonic
Outcome name exited s = Unit
Outcome name interrupted s = Unit

is_cached_as-some : (o : Option ℕ) (p : ℕ) → is_cached_as o p ≡ true → o ≡ some p
is_cached_as-some none p h = cc
is_cached_as-some (some q) p h = ground (arith, ==_iff q p)

module _ (o : Outside) (name : String) where
  close_evicted-Outcome :
      (p : ℕ) (e : Ending) (s : ProfileSupervisor)
      → let (a, s') = close_evicted o name p e exited s in Outcome name a s'
  close_evicted-Outcome p returned s = tt
  close_evicted-Outcome p failed s = tt
  close_evicted-Outcome p cancelled s = tt

  checked-Outcome :
      (p : ℕ) (b : Bool) (s : ProfileSupervisor)
      → is_live o name p s ≡ b
      → let (a, s') = checked o name p b s in Outcome name a s'
  checked-Outcome p true s h =
      (is_cached_as-some (cached name s.profiles) p (ground arith), ground arith)
  checked-Outcome p false s h = close_evicted-Outcome p (o.close p) (evict name p s)

  started-Outcome :
      (p : ℕ) (e : Ending) (s : ProfileSupervisor)
      → let (a, s') = started o name p e s in Outcome name a s'
  started-Outcome p returned s =
      let s' = yields o name 3 p s in checked-Outcome p (is_live o name p s') s' refl
  started-Outcome p failed s = let s' = evict name p s in put_self s'.last_restart name s'.monotonic
  started-Outcome p cancelled s = tt

  cooled :
      (l : Option ℕ) (s : ProfileSupervisor)
      → s.last_restart name ≡ l
      → is_cooling l s.restart_cooldown s.monotonic ≡ true
      → Outcome name cooling s
  cooled none s e h = cc
  cooled (some last) s e h = (last, e, ground arith)

  spawn_unless_cooling-Outcome :
      (s : ProfileSupervisor) → let (a, s') = spawn_unless_cooling o name s in Outcome name a s'
  unfolding spawn_unless_cooling spawn
  spawn_unless_cooling-Outcome s =
      elim (Bool-cases (is_cooling (s.last_restart name) s.restart_cooldown s.monotonic)) [
        | inl e ↦ rw e (cooled (s.last_restart name) s refl e)
        | inr e ↦ rw e (started-Outcome s.spawned (o.start s.spawned) _)
      ]

  replaced-Outcome :
      (p : ℕ) (e : Ending) (s : ProfileSupervisor)
      → let (a, s') = replaced o name p e s in Outcome name a s'
  replaced-Outcome p returned s = spawn_unless_cooling-Outcome _
  replaced-Outcome p failed s = spawn_unless_cooling-Outcome _
  replaced-Outcome p cancelled s = tt

  acquire_profile_from-Outcome :
      (c : Option ℕ) (s : ProfileSupervisor)
      → cached name s.profiles ≡ c
      → let (a, s') = acquire_profile_from o name c s in Outcome name a s'
  acquire_profile_from-Outcome none s e = spawn_unless_cooling-Outcome s
  acquire_profile_from-Outcome (some p) s e = elim (Bool-cases (s.suspected p)) [
    | inl dead ↦ rw dead (replaced-Outcome p (o.close p) (evict name p s))
    | inr alive ↦ rw alive (e, alive)
  ]

  -- However an acquisition ends, and whatever the other tasks do meanwhile: an acquired profile is
  -- the one cached under the name, and shows no sign of an exit when it is handed out; a refusal
  -- comes within the cooldown after the time noted for the name; a failed start notes its time.
  pub get_profile-Outcome :
      (s : ProfileSupervisor) → Outcome name (get_profile o name s).0 (get_profile o name s).1
  unfolding get_profile
  get_profile-Outcome s = acquire_profile_from-Outcome (cached name s.profiles) s refl
