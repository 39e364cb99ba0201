-- ===== src/Locks/Spin/Exclusion.antt =====
-- Who may hold the lock of Core/lock/LockObject.h.
use bugat.Common.{ℕ, ◌+◌, ◌≡◌, refl, ap, Bool, true, false, if◌then◌else◌, arith}
use bugat.Common.Threads.{total, total-split, total-replicate}
use bugat.Locks.Spin.{
  Pc, idle, locked, scoped, Move, begin, spin, acquire, release, enter_scope, end_scope, System,
  Step, pick, init, Reach, here, later,
}

abbrev pub holds : Pc → ℕ
holds locked = 1
holds (scoped true) = 1
holds _ = 0

abbrev pub holders : Bool → ℕ
holders flag = if flag then 1 else 0

Move-holders :
    {flag flag' : Bool} {p p' : Pc} (k : ℕ)
    → Move flag p flag' p'
    → holds p + k ≡ holders flag
    → holds p' + k ≡ holders flag'
Move-holders k begin h = ground arith
Move-holders k (spin g) h = ground arith
Move-holders k (acquire g) h = ground arith
Move-holders k release h = ground arith
Move-holders k enter_scope h = ground arith
Move-holders k (end_scope {result = true}) h = ground arith
Move-holders k (end_scope {result = false}) h = ground arith

Step-holders :
    {s t : System}
    → Step s t
    → total holds s.threads ≡ holders s.flag
    → total holds t.threads ≡ holders t.flag
Step-holders {s} (pick left {p} right {flag} {p'} e mv) h = omega (
  arith,
  total-split holds left p' right,
  Move-holders (total holds left + total holds right) mv
      (omega (arith, h, ap (total holds) e, total-split holds left p right)),
)

-- Whatever the threads that use the lock do, one thread holds it while the flag is set, by a
-- `SpinLock` or by a `ScopedLock` that succeeded, and none while it is clear; the end of a
-- `ScopedLock` that failed releases nothing.
pub one_holder :
    (n : ℕ) {s : System} → Reach (init n) s → total holds s.threads ≡ (if s.flag then 1 else 0)
one_holder n here = total-replicate holds n idle refl
one_holder n (later r st) = Step-holders st (one_holder n r)
