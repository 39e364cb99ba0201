-- ===== src/Locks/ReadWrite/Exclusion.antt =====
-- Who may hold the lock of Core/lock/RWLockObject.h together.
use bugat.Common.{ℕ, ◌≤◌, ◌≡◌, ◌⊎◌, if◌then◌else◌, arith}
use bugat.Common.Int.{pos}
use bugat.Common.Threads.{total}
use bugat.Locks.ReadWrite.Counts.{reader, writer, Reach-Inv}
use bugat.Locks.ReadWrite.{System, init, Reach}

-- Whatever the threads that use a lock do: at most one holds a `WriteObject`, and where one does
-- none holds a `ReadObject`; `_writerActive` says whether one does, and `_readerCount` is the
-- number of those that read.
pub exclusion :
    (n : ℕ) {s : System}
    → Reach (init n) s
    → (total writer s.threads ≤ 1)
      × ((total writer s.threads ≡ 0) ⊎ (total reader s.threads ≡ 0))
      × ((if s.lock.writer_active then 1 else 0) ≡ total writer s.threads)
      × (s.lock.reader_count ≡ pos (total reader s.threads))
exclusion n r = grind (arith, Reach-Inv n r)
