-- ===== src/Locks/ReadWrite.antt =====
-- Core/lock/RWLockObject.h: a lock for many readers or one writer, in which writers go first.
-- Everything between the locking of `_mtx` and its release, or the sleep on a condition variable
-- that releases it, is one step.
mod Counts
pub mod Exclusion
pub mod Wakeups
mod Tests
use bugat.Common.{
  ℕ, ◌≡◌, Bool, true, false, List, ◌∷◌, ◌++◌, [], ◌&&◌, not, ◌==◌, replicate, if◌then◌else◌,
}
use bugat.Common.Int.{ℤ, pos, pos_part, neg_part, ◌+ℤ◌, ◌-ℤ◌, ltb_ℤ}
use bugat.Common.Threads.{total}

pub record RwLock : Type 0 where
  pub reader_count : ℤ
  pub writer_count : ℤ
  pub writer_active : Bool

abbrev pub new_lock : RwLock
new_lock = record { reader_count = pos 0; writer_count = pos 0; writer_active = false }

abbrev pub is_zero : ℤ → Bool
is_zero a = (pos_part a == 0) && (neg_part a == 0)

-- The predicates of the two waits.
abbrev pub may_read : RwLock → Bool
may_read l = is_zero l.writer_count

abbrev pub may_write : RwLock → Bool
may_write l = is_zero l.reader_count && not l.writer_active

-- `++_readerCount` after the wait of `LockRead`; before and after the wait of `LockWrite`.
abbrev pub add_reader : RwLock → RwLock
add_reader l = record l { reader_count = l.reader_count +ℤ pos 1 }

abbrev pub add_writer : RwLock → RwLock
add_writer l = record l { writer_count = l.writer_count +ℤ pos 1 }

abbrev pub activate : RwLock → RwLock
activate l = record l { writer_active = true }

-- What an unlock does to the condition variables.
pub data Notice : Type 0 where
  nothing : Notice
  one_writer : Notice
  all_readers : Notice

abbrev pub unlock_read : RwLock → RwLock × Notice
unlock_read l =
    let l' : RwLock = record l { reader_count = l.reader_count -ℤ pos 1 } in
    (l', if is_zero l'.reader_count then one_writer else nothing)

abbrev pub unlock_write : RwLock → RwLock × Notice
unlock_write l =
    let l' : RwLock = record l { writer_active = false; writer_count = l.writer_count -ℤ pos 1 } in
    (l', if ltb_ℤ (pos 0) l'.writer_count then one_writer else all_readers)

-- Where a thread stands: outside, asleep on a condition variable, woken and about to test its
-- predicate again, or holding a `ReadObject` or a `WriteObject`.
pub data Pc : Type 0 where
  idle : Pc
  read_asleep : Pc
  read_awake : Pc
  reading : Pc
  write_asleep : Pc
  write_awake : Pc
  writing : Pc

-- One step of one thread, with what it notifies.
pub data Move (l : RwLock) : Pc → RwLock → Pc → Notice → Type 0 where
  lock_read : may_read l ≡ true → Move l idle (add_reader l) reading nothing
  sleep_read : may_read l ≡ false → Move l idle l read_asleep nothing
  enter_read : may_read l ≡ true → Move l read_awake (add_reader l) reading nothing
  resleep_read : may_read l ≡ false → Move l read_awake l read_asleep nothing
  lock_write : may_write l ≡ true → Move l idle (activate (add_writer l)) writing nothing
  sleep_write : may_write l ≡ false → Move l idle (add_writer l) write_asleep nothing
  enter_write : may_write l ≡ true → Move l write_awake (activate l) writing nothing
  resleep_write : may_write l ≡ false → Move l write_awake l write_asleep nothing
  free_read : Move l reading (unlock_read l).0 idle (unlock_read l).1
  free_write : Move l writing (unlock_write l).0 idle (unlock_write l).1
  -- A wait may end without a notification.
  stir_read : Move l read_asleep l read_awake nothing
  stir_write : Move l write_asleep l write_awake nothing

abbrev pub asleep_writer : Pc → ℕ
asleep_writer write_asleep = 1
asleep_writer _ = 0

abbrev pub wake_reader : Pc → Pc
wake_reader read_asleep = read_awake
wake_reader p = p

unfoldable pub wake_readers : List Pc → List Pc
wake_readers [] = []
wake_readers (p ∷ ps) = wake_reader p ∷ wake_readers ps

-- `notify_one` wakes any thread that sleeps, if there is one; `notify_all` wakes all of them.
pub data Woken (ts : List Pc) : Notice → List Pc → Type 0 where
  none_told : Woken ts nothing ts
  one_told :
      (left right : List Pc)
      → ts ≡ left ++ write_asleep ∷ right
      → Woken ts one_writer (left ++ write_awake ∷ right)
  nobody : total asleep_writer ts ≡ 0 → Woken ts one_writer ts
  all_told : Woken ts all_readers (wake_readers ts)

pub record System : Type 0 where
  pub lock : RwLock
  pub threads : List Pc

pub data Step (s : System) : System → Type 0 where
  pick :
      (left : List Pc) {p : Pc} (right : List Pc) {l : RwLock} {p' : Pc} {n : Notice} {ts : List Pc}
      → s.threads ≡ left ++ p ∷ right
      → Move s.lock p l p' n
      → Woken (left ++ p' ∷ right) n ts
      → Step s (record { lock = l; threads = ts })

abbrev pub init : ℕ → System
init n = record { lock = new_lock; threads = replicate n Pc.idle }

pub data Reach (s : System) : System → Type 0 where
  here : Reach s s
  later : {t u : System} → Reach s t → Step t u → Reach s u
