-- ===== src/Dedupe/Handoff.antt =====
-- dedupe.py: the handoff of `close` to the last operation in flight.
use signal_hermes_router.Prelude.{
  ℕ, suc, ◌+◌, ◌-◌, ◌<◌, ◌≡◌, ◌⊎◌, Bool, true, false, not, ◌&&◌, ◌||◌, Option, none, some, arith,
  ltb, ◌==◌, if◌then◌else◌,
}

-- `db_closes` counts the calls of the connection's own `close`.
pub record Lifecycle : Type 0 where
  pub active_operations : ℕ
  pub close_requested : Bool
  pub closed : Bool
  pub db_closes : ℕ

abbrev pub opened : Lifecycle
opened = record { active_operations = 0; close_requested = false; closed = false; db_closes = 0 }

-- `_begin_turn_operation`; `none` is the ProgrammingError.
unfoldable pub begin_turn : Lifecycle → Option Lifecycle
begin_turn l =
    if l.closed || l.close_requested
    then none
    else some (record l { active_operations = l.active_operations + 1 })

-- `_begin_sweep_operation` answers false where a turn operation is refused.
unfoldable pub begin_sweep : Lifecycle → Lifecycle × Bool
begin_sweep l =
    if l.closed || l.close_requested
    then (l, false)
    else (record l { active_operations = l.active_operations + 1 }, true)

abbrev close_connection : Lifecycle → Lifecycle
close_connection l = record l { closed = true; db_closes = l.db_closes + 1 }

abbrev finalize : Lifecycle → Lifecycle
finalize l =
    if (l.active_operations == 0) && (l.close_requested && not l.closed)
    then close_connection l
    else l

-- `_end_operation`. Its caller holds an operation, so the count is not 0.
unfoldable pub end_operation : Lifecycle → Lifecycle
end_operation l = finalize (record l { active_operations = l.active_operations - 1 })

-- `close`: true when the connection is closed on return.
unfoldable pub close : Lifecycle → Lifecycle × Bool
close l =
    if l.closed
    then (l, true)
    else if ltb 0 l.active_operations
    then (record l { close_requested = true }, false)
    else (close_connection l, true)

-- One step of some thread.
pub data Step : Lifecycle → Lifecycle → Type 0 where
  begins : (l : Lifecycle) {l' : Lifecycle} → begin_turn l ≡ some l' → Step l l'
  sweeps : (l : Lifecycle) → Step l (begin_sweep l).0
  ends : (l : Lifecycle) → 0 < l.active_operations → Step l (end_operation l)
  closes : (l : Lifecycle) → Step l (close l).0

pub data Reach (l : Lifecycle) : Lifecycle → Type 0 where
  here : Reach l l
  next : {m n : Lifecycle} → Reach l m → Step m n → Reach l n

pub record IsSound (l : Lifecycle) : Type 0 where
  pub idle_when_closed : (l.closed ≡ false) ⊎ (l.active_operations ≡ 0)
  pub pending_has_owner :
      (l.close_requested ≡ false) ⊎ ((l.closed ≡ true) ⊎ (0 < l.active_operations))
  pub closed_once : l.db_closes ≡ (if l.closed then 1 else 0)

Step-IsSound : {l m : Lifecycle} → Step l m → IsSound l → IsSound m
unfolding begin_turn begin_sweep end_operation close
Step-IsSound (begins l e) v = ground arith
Step-IsSound (sweeps l) v = ground arith
Step-IsSound (ends l h) v = ground arith
Step-IsSound (closes l) v = ground arith

-- Whatever the interleaving of operations and closes from a state where this holds, no operation
-- is in flight on a closed connection, a close that was deferred has an operation left that will
-- carry it out, and the connection is closed once at most.
pub Reach-IsSound : {l m : Lifecycle} → IsSound l → Reach l m → IsSound m
Reach-IsSound v here = v
Reach-IsSound v (next r s) = Step-IsSound s (Reach-IsSound v r)

-- The operations in flight end one after the other.
unfoldable pub end_all : ℕ → Lifecycle → Lifecycle
end_all ℕ.zero l = l
end_all (suc n) l = end_all n (end_operation l)

end_all-closed :
    (n : ℕ) (l : Lifecycle)
    → l.active_operations ≡ n
    → 0 < n
    → l.close_requested ≡ true
    → l.closed ≡ false
    → (end_all n l).closed ≡ true
unfolding end_all end_operation
end_all-closed ℕ.zero l a h r c = absurd (omega arith)
end_all-closed (suc ℕ.zero) l a h r c = ground arith
end_all-closed (suc (suc n)) l a h r c =
    end_all-closed (suc n) (end_operation l) (ground arith) (omega arith) (ground arith)
      (ground arith)

-- A close that finds operations in flight is deferred, and from then on a turn operation is refused
-- and a sweep does not begin and changes nothing; once the operations in flight have ended the
-- connection is closed.
pub close_deferred :
    (l : Lifecycle)
    → l.closed ≡ false
    → 0 < l.active_operations
    → ((close l).1 ≡ false)
      × (begin_turn (close l).0 ≡ none)
      × (begin_sweep (close l).0 ≡ ((close l).0, false))
      × ((close l).0.closed ≡ false)
      × ((end_all l.active_operations (close l).0).closed ≡ true)
unfolding close begin_turn begin_sweep
close_deferred l c a = (
  ground arith,
  ground arith,
  ground arith,
  ground arith,
  end_all-closed l.active_operations (close l).0 (ground arith) a (ground arith) (ground arith),
)
