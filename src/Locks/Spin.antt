-- ===== src/Locks/Spin.antt =====
-- Core/lock/LockObject.h: a lock that is a flag, taken by spinning (`SpinLock`) or if it is free
-- (`ScopedLock`). Each access to the flag is one step.
pub mod Exclusion
mod Tests
use bugat.Common.{ℕ, ◌≡◌, Bool, true, false, not, List, ◌∷◌, ◌++◌, replicate, if◌then◌else◌}

-- `TryLock`: `!_flag.test_and_set()`, with the flag after it.
abbrev pub try_lock : Bool → Bool × Bool
try_lock flag = (not flag, true)

-- `Unlock`, with the flag after it.
abbrev pub unlock : Bool → Bool
unlock flag = false

-- `~ScopedLock`
abbrev pub leave_scope : Bool → Bool → Bool
leave_scope result flag = if result then unlock flag else flag

-- Outside; in the loop of the constructor of `SpinLock`; under a `SpinLock`; and under a
-- `ScopedLock`, with its `result`.
pub data Pc : Type 0 where
  idle : Pc
  spinning : Pc
  locked : Pc
  scoped : Bool → Pc

pub data Move (flag : Bool) : Pc → Bool → Pc → Type 0 where
  begin : Move flag idle flag spinning
  spin : (try_lock flag).0 ≡ false → Move flag spinning (try_lock flag).1 spinning
  acquire : (try_lock flag).0 ≡ true → Move flag spinning (try_lock flag).1 locked
  release : Move flag locked (unlock flag) idle
  enter_scope : Move flag idle (try_lock flag).1 (scoped (try_lock flag).0)
  end_scope : {result : Bool} → Move flag (scoped result) (leave_scope result flag) idle

pub record System : Type 0 where
  pub flag : Bool
  pub threads : List Pc

pub data Step (s : System) : System → Type 0 where
  pick :
      (left : List Pc) {p : Pc} (right : List Pc) {flag : Bool} {p' : Pc}
      → s.threads ≡ left ++ p ∷ right
      → Move s.flag p flag p'
      → Step s (record { flag = flag; threads = left ++ p' ∷ right })

abbrev pub init : ℕ → System
init n = record { flag = false; threads = replicate n Pc.idle }

pub data Reach (s : System) : System → Type 0 where
  here : Reach s s
  later : {t u : System} → Reach s t → Step t u → Reach s u
