-- ===== src/Circuit/Window.antt =====
-- circuit.py: the breaker against the history of its calls.
use signal_hermes_router.Prelude.{
  ℕ, ◌+◌, ◌≤◌, ◌≡◌, refl, ap, sym, ◌∙◌, String, Bool, true, false, inl, inr, List, [], ◌∷◌, ◌++◌,
  Option, none, some, length, keep, All, All-append, arith, leb, str_eq, eq_iff, eq_refl,
  Bool-cases, if◌then◌else◌,
}
use signal_hermes_router.Circuit.{
  CircuitBreaker, new, deque_of, pop_expired, record_success, record_failure, failure_count,
}

-- A call on the breaker: for a route, and at a time where the call reads the clock.
pub data Call : Type 0 where
  succeed : String → Call
  fail count : String → ℕ → Call

unfoldable pub step : Call → CircuitBreaker → CircuitBreaker
unfolding record_success record_failure failure_count
step (succeed k) b = record_success k b
step (fail k now) b = (record_failure k now b).0
step (count k now) b = (failure_count k now b).0

-- The breaker after a history of calls, the latest first.
unfoldable pub after : ℕ → ℕ → List Call → CircuitBreaker
after failures window [] = new failures window
after failures window (c ∷ older) = step c (after failures window older)

-- The failures of a route since its last success, oldest first: read off the history alone.
unfoldable pub since_success : String → List Call → List ℕ
since_success k [] = []
since_success k (succeed j ∷ older) = if str_eq j k then [] else since_success k older
since_success k (fail j now ∷ older) =
    let rest = since_success k older in if str_eq j k then rest ++ now ∷ [] else rest
since_success k (count j now ∷ older) = since_success k older

abbrev pub in_window : ℕ → ℕ → ℕ → Bool
in_window window now t = leb now (t + window)

-- The failures that count at a time.
abbrev pub recent : ℕ → ℕ → List ℕ → List ℕ
recent window now = keep (in_window window now)

-- The clock never steps back over a history whose calls are no later than `now`.
abbrev pub Monotone : ℕ → List Call → Type 0
Monotone now [] = Unit
Monotone now (succeed k ∷ older) = Monotone now older
Monotone now (fail k t ∷ older) = (t ≤ now) × Monotone t older
Monotone now (count k t ∷ older) = (t ≤ now) × Monotone t older

abbrev Sorted : List ℕ → Type 0
Sorted [] = Unit
Sorted (t ∷ ts) = All (λ u. t ≤ u) ts × Sorted ts

recent-All :
    (window now t : ℕ) (ts : List ℕ)
    → now ≤ t + window
    → All (λ u. t ≤ u) ts
    → recent window now ts ≡ ts
recent-All window now t [] h a = refl
recent-All window now t (u ∷ us) h a = ground (arith, recent-All window now t us h a.1)

pop_expired-eq-recent :
    (window now : ℕ) (ts : List ℕ) → Sorted ts → pop_expired window now ts ≡ recent window now ts
unfolding pop_expired
pop_expired-eq-recent window now [] s = refl
pop_expired-eq-recent window now (t ∷ ts) s = elim (Bool-cases (leb now (t + window))) [
  | inl live ↦ rw live (ground (arith, recent-All window now t ts))
  | inr old ↦ rw old (ground (arith, pop_expired-eq-recent window now ts s.1))
]

recent-recent :
    (window now later : ℕ) (ts : List ℕ)
    → now ≤ later
    → recent window later (recent window now ts) ≡ recent window later ts
recent-recent window now later [] h = refl
recent-recent window now later (t ∷ ts) h = ground (arith, recent-recent window now later ts h)

recent-append :
    (window now : ℕ) (xs ys : List ℕ)
    → recent window now (xs ++ ys) ≡ recent window now xs ++ recent window now ys
recent-append window now [] ys = refl
recent-append window now (x ∷ xs) ys = ground (arith, recent-append window now xs ys)

All-keep {κ} : (P : ℕ → Type κ) (p : ℕ → Bool) (ts : List ℕ) → All P ts → All P (keep p ts)
All-keep P p [] h = h
All-keep P p (t ∷ ts) h = elim (Bool-cases (p t)) [
  | inl kept ↦ rw kept (h.0, All-keep P p ts h.1)
  | inr out ↦ rw out (All-keep P p ts h.1)
]

Sorted-keep : (p : ℕ → Bool) (ts : List ℕ) → Sorted ts → Sorted (keep p ts)
Sorted-keep p [] s = s
Sorted-keep p (t ∷ ts) s = elim (Bool-cases (p t)) [
  | inl live ↦ rw live (All-keep (λ u. t ≤ u) p ts s.0, Sorted-keep p ts s.1)
  | inr old ↦ rw old (Sorted-keep p ts s.1)
]

Sorted-append :
    (ts : List ℕ) (now : ℕ) → Sorted ts → All (λ u. u ≤ now) ts → Sorted (ts ++ now ∷ [])
Sorted-append [] now s a = (tt, tt)
Sorted-append (t ∷ ts) now s a =
    (All-append (λ u. t ≤ u) ts (now ∷ []) s.0 (a.0, tt), Sorted-append ts now s.1 a.1)

All-le_trans : (ts : List ℕ) (a b : ℕ) → a ≤ b → All (λ u. u ≤ a) ts → All (λ u. u ≤ b) ts
All-le_trans [] a b h l = tt
All-le_trans (t ∷ ts) a b h l = (omega arith, All-le_trans ts a b h l.1)

-- What each call does to the deque of a route.
abbrev next_deque : ℕ → String → Call → List ℕ → List ℕ
next_deque window j (succeed k) ts = if str_eq k j then [] else ts
next_deque window j (fail k now) ts =
    if str_eq k j then pop_expired window now (ts ++ now ∷ []) else ts
next_deque window j (count k now) ts = if str_eq k j then pop_expired window now ts else ts

module _ (b : CircuitBreaker) (j : String) where
  deque_of-failure_count :
      (k : String) (now : ℕ) (e : Option (List ℕ))
      → b.deques k ≡ e
      → deque_of (failure_count k now b).0 j
        ≡ (if str_eq k j then pop_expired b.window now (deque_of b j) else deque_of b j)
  unfolding failure_count pop_expired
  deque_of-failure_count k now none e = ground (arith, eq_iff k j)
  deque_of-failure_count k now (some []) e = ground (arith, eq_iff k j)
  deque_of-failure_count k now (some (t ∷ ts)) e = ground (arith, eq_iff k j)

  deque_of-step : (c : Call) → deque_of (step c b) j ≡ next_deque b.window j c (deque_of b j)
  unfolding step
  deque_of-step (succeed k) = ground (arith, eq_iff k j)
  deque_of-step (fail k now) = ground (arith, eq_iff k j)
  deque_of-step (count k now) = deque_of-failure_count k now (b.deques k) refl

  window-step : (c : Call) → (step c b).window ≡ b.window
  unfolding step
  window-step (succeed k) = refl
  window-step (fail k now) = refl
  window-step (count k now) = ground arith

  failures-step : (c : Call) → (step c b).failures ≡ b.failures
  unfolding step
  failures-step (succeed k) = refl
  failures-step (fail k now) = refl
  failures-step (count k now) = ground arith

window-after : (f w : ℕ) (cs : List Call) → (after f w cs).window ≡ w
unfolding after
window-after f w [] = refl
window-after f w (c ∷ cs) = window-step (after f w cs) "" c ∙ window-after f w cs

failures-after : (f w : ℕ) (cs : List Call) → (after f w cs).failures ≡ f
unfolding after
failures-after f w [] = refl
failures-after f w (c ∷ cs) = failures-step (after f w cs) "" c ∙ failures-after f w cs

-- A deque agrees with the list of failures that it stands for, from `now` on.
record Tracks (window now : ℕ) (ts spec : List ℕ) : Type 0 where
  sorted : Sorted ts
  past : All (λ u. u ≤ now) ts
  agrees : (later : ℕ) → now ≤ later → recent window later ts ≡ recent window later spec

module _ (window t now : ℕ) (ts spec : List ℕ) (v : Tracks window t ts spec) (h : t ≤ now) where
  Tracks-later : Tracks window now ts spec
  Tracks-later = record {
    sorted = v.sorted;
    past = All-le_trans ts t now h v.past;
    agrees = λ later l. v.agrees later (omega arith);
  }

  Tracks-pop : Tracks window now (pop_expired window now ts) spec
  Tracks-pop = rw (pop_expired-eq-recent window now ts v.sorted) (record {
    sorted = Sorted-keep (in_window window now) ts v.sorted;
    past = All-keep (λ u. u ≤ now) (in_window window now) ts (All-le_trans ts t now h v.past);
    agrees = λ later l. recent-recent window now later ts l ∙ v.agrees later (omega arith);
  })

  Tracks-append : Tracks window now (ts ++ now ∷ []) (spec ++ now ∷ [])
  Tracks-append = record {
    sorted = Sorted-append ts now v.sorted (All-le_trans ts t now h v.past);
    past =
        All-append (λ u. u ≤ now) ts (now ∷ []) (All-le_trans ts t now h v.past) (omega arith, tt);
    agrees = λ later l.
        recent-append window later ts (now ∷ [])
        ∙ ap (λ xs. xs ++ recent window later (now ∷ [])) (v.agrees later (omega arith))
        ∙ sym (recent-append window later spec (now ∷ []));
  }

Tracks-nil : (window now : ℕ) → Tracks window now [] []
Tracks-nil window now = record { sorted = tt; past = tt; agrees = λ later l. refl }

if_Tracks :
    {window now : ℕ} {xs ys xs' ys' : List ℕ} (b : Bool)
    → Tracks window now xs xs'
    → Tracks window now ys ys'
    → Tracks window now (if b then xs else ys) (if b then xs' else ys')
if_Tracks true v u = v
if_Tracks false v u = u

if_Tracks_left :
    {window now : ℕ} {xs ys spec : List ℕ} (b : Bool)
    → Tracks window now xs spec
    → Tracks window now ys spec
    → Tracks window now (if b then xs else ys) spec
if_Tracks_left true v u = v
if_Tracks_left false v u = u

failure_count-length :
    (k : String) (now : ℕ) (b : CircuitBreaker)
    → (failure_count k now b).1 ≡ length (pop_expired b.window now (deque_of b k))
unfolding failure_count pop_expired
failure_count-length k now b = ground arith

after-Tracks :
    (f w now : ℕ) (k : String) (cs : List Call)
    → Monotone now cs
    → Tracks w now (deque_of (after f w cs) k) (since_success k cs)
unfolding after since_success
after-Tracks f w now k [] m = Tracks-nil w now
after-Tracks f w now k (succeed j ∷ cs) m =
    rw (deque_of-step (after f w cs) k (succeed j))
      (if_Tracks (str_eq j k) (Tracks-nil w now) (after-Tracks f w now k cs m))
after-Tracks f w now k (fail j t ∷ cs) m =
    let v = after-Tracks f w t k cs m.1 in
    rw (deque_of-step (after f w cs) k (fail j t), window-after f w cs)
      (Tracks-later w t now _ _
        (if_Tracks (str_eq j k)
          (Tracks-pop w t t _ _ (Tracks-append w t t _ _ v (omega arith)) (omega arith)) v)
        m.0)
after-Tracks f w now k (count j t ∷ cs) m =
    let v = after-Tracks f w t k cs m.1 in
    rw (deque_of-step (after f w cs) k (count j t), window-after f w cs)
      (Tracks-later w t now _ _
        (if_Tracks_left (str_eq j k) (Tracks-pop w t t _ _ v (omega arith)) v) m.0)

-- The failures of a route that count at `now`, by its history.
unfoldable pub live_failures : ℕ → ℕ → String → List Call → List ℕ
live_failures window now k cs = recent window now (since_success k cs)

-- After any history in which the clock does not step back, a failure trips the breaker exactly when
-- the failures of its route since the last success that are still in the window, with this one,
-- reach the limit; the trip names the route, that number and the window.
pub record_failure-trips :
    (failures window now : ℕ) (k : String) (cs : List Call)
    → Monotone now cs
    → (record_failure k now (after failures window cs)).1 ≡ (
        let n = length (live_failures window now k (fail k now ∷ cs)) in
        if leb failures n
        then some (record { route_key = k; failures = n; window = window })
        else none)
unfolding record_failure live_failures since_success
record_failure-trips f w now k cs m =
    let v = Tracks-append w now now _ _ (after-Tracks f w now k cs m) (omega arith) in
    let e = pop_expired-eq-recent w now _ v.sorted ∙ v.agrees now (omega arith) in
    rw (window-after f w cs, failures-after f w cs, e, eq_refl k)

-- The failure count of a route is the number of those failures.
pub failure_count-live :
    (failures window now : ℕ) (k : String) (cs : List Call)
    → Monotone now cs
    → (failure_count k now (after failures window cs)).1 ≡ length (live_failures window now k cs)
unfolding live_failures
failure_count-live f w now k cs m =
    let v = after-Tracks f w now k cs m in
    failure_count-length k now (after f w cs)
    ∙ rw (window-after f w cs)
        (ap length (pop_expired-eq-recent w now _ v.sorted ∙ v.agrees now (omega arith)))
