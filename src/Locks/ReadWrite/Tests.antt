-- ===== src/Locks/ReadWrite/Tests.antt =====
-- Reachable states of the lock of Core/lock/RWLockObject.h.
use bugat.Common.{◌⊎◌, if◌then◌else◌, ◌≤◌, ◌<◌, ◌≡◌, ◌+◌, refl, false, [], ◌∷◌, arith}
use bugat.Common.Int.{pos, ◌+ℤ◌, ◌-ℤ◌}
use bugat.Common.Threads.{total}
use bugat.Locks.ReadWrite.Counts.{reader, writer, awake_writer}
use bugat.Locks.ReadWrite.Exclusion.{exclusion}
use bugat.Locks.ReadWrite.Wakeups.{no_lost_wakeup}
use bugat.Locks.ReadWrite.{
  idle, read_asleep, reading, write_asleep, write_awake, Move, none_told, one_told, pick, init,
  Reach, here, later,
}

-- Thread 0 reads, so that thread 1 sleeps to write, and thread 2 sleeps behind it.
queued : Reach (init 3) (record {
  lock = record { reader_count = pos 1; writer_count = pos 1; writer_active = false };
  threads = reading ∷ write_asleep ∷ read_asleep ∷ [];
})
unfolding ◌+ℤ◌
queued =
    later
      (later (later here (pick [] (idle ∷ idle ∷ []) refl (Move.lock_read refl) none_told))
        (pick (reading ∷ []) (idle ∷ []) refl (Move.sleep_write refl) none_told))
      (pick (reading ∷ write_asleep ∷ []) [] refl (Move.sleep_read refl) none_told)

-- Thread 0 has left, and woken thread 1.
told : Reach (init 3) (record {
  lock = record { reader_count = pos 0; writer_count = pos 1; writer_active = false };
  threads = idle ∷ write_awake ∷ read_asleep ∷ [];
})
unfolding ◌-ℤ◌
told = later queued (
    pick [] (write_asleep ∷ read_asleep ∷ []) refl Move.free_read
      (one_told (idle ∷ []) (read_asleep ∷ []) refl))

exclusion_example :
    (total writer (reading ∷ write_asleep ∷ read_asleep ∷ []) ≤ 1)
    × ((total writer (reading ∷ write_asleep ∷ read_asleep ∷ []) ≡ 0)
        ⊎ (total reader (reading ∷ write_asleep ∷ read_asleep ∷ []) ≡ 0))
    × ((if false then 1 else 0) ≡ total writer (reading ∷ write_asleep ∷ read_asleep ∷ []))
    × (pos 1 ≡ pos (total reader (reading ∷ write_asleep ∷ read_asleep ∷ [])))
exclusion_example = exclusion 3 queued

no_lost_wakeup_example :
    0
    < total reader (idle ∷ write_awake ∷ read_asleep ∷ [])
      + total writer (idle ∷ write_awake ∷ read_asleep ∷ [])
      + total awake_writer (idle ∷ write_awake ∷ read_asleep ∷ [])
unfolding total
no_lost_wakeup_example = no_lost_wakeup 3 told (omega arith)
