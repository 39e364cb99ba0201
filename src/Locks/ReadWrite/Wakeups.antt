-- ===== src/Locks/ReadWrite/Wakeups.antt =====
-- No thread sleeps on the lock of Core/lock/RWLockObject.h without another that will wake it.
use bugat.Common.{ℕ, ◌+◌, ◌<◌, arith}
use bugat.Common.Threads.{total}
use bugat.Locks.ReadWrite.Counts.{reader, writer, awake_writer, asleep_reader, Reach-Inv}
use bugat.Locks.ReadWrite.{System, init, Reach, asleep_writer}

-- No wake-up is lost: where a writer sleeps or a reader sleeps, some thread holds the lock, or a
-- writer that was woken is about to test its predicate.
pub no_lost_wakeup :
    (n : ℕ) {s : System}
    → Reach (init n) s
    → 0 < total asleep_writer s.threads + total asleep_reader s.threads
    → 0 < total reader s.threads + total writer s.threads + total awake_writer s.threads
no_lost_wakeup n r h = grind (arith, Reach-Inv n r)
