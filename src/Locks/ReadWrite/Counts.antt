-- ===== src/Locks/ReadWrite/Counts.antt =====
-- The counts of Core/lock/RWLockObject.h are the numbers of threads in each state.
use bugat.Common.{
  ℕ, ◌+◌, ◌<◌, ◌≡◌, refl, sym, ap, ◌∙◌, replicate, List, [], ◌∷◌, ◌++◌, if◌then◌else◌, arith, subst,
}
use bugat.Common.Int.{pos, ◌+ℤ◌, ◌-ℤ◌}
use bugat.Common.Threads.{total, total-split, total-replicate}
use bugat.Locks.ReadWrite.{
  RwLock, new_lock, Notice, nothing, one_writer, all_readers, Pc, idle, read_asleep, reading,
  write_asleep, write_awake, writing, Move, lock_read, sleep_read, enter_read, resleep_read,
  lock_write, sleep_write, enter_write, resleep_write, free_read, free_write, stir_read, stir_write,
  asleep_writer, unlock_read, unlock_write, wake_readers, Woken, none_told, one_told, nobody,
  all_told, System, Step, pick, init, Reach, here, later,
}

abbrev pub reader : Pc → ℕ
reader reading = 1
reader _ = 0

abbrev pub writer : Pc → ℕ
writer writing = 1
writer _ = 0

abbrev pub awake_writer : Pc → ℕ
awake_writer write_awake = 1
awake_writer _ = 0

abbrev pub asleep_reader : Pc → ℕ
asleep_reader read_asleep = 1
asleep_reader _ = 0

-- How many threads stand where.
pub record Tally : Type 0 where
  pub readers : ℕ
  pub writers : ℕ
  pub awake_writers : ℕ
  pub asleep_writers : ℕ
  pub asleep_readers : ℕ

abbrev pub tally : List Pc → Tally
tally ts = record {
  readers = total reader ts;
  writers = total writer ts;
  awake_writers = total awake_writer ts;
  asleep_writers = total asleep_writer ts;
  asleep_readers = total asleep_reader ts;
}

-- One thread and the tally of the others.
abbrev pub with_one : Pc → Tally → Tally
with_one p c = record {
  readers = reader p + c.readers;
  writers = writer p + c.writers;
  awake_writers = awake_writer p + c.awake_writers;
  asleep_writers = asleep_writer p + c.asleep_writers;
  asleep_readers = asleep_reader p + c.asleep_readers;
}

abbrev pub others : List Pc → List Pc → Tally
others left right = record {
  readers = total reader left + total reader right;
  writers = total writer left + total writer right;
  awake_writers = total awake_writer left + total awake_writer right;
  asleep_writers = total asleep_writer left + total asleep_writer right;
  asleep_readers = total asleep_reader left + total asleep_reader right;
}

pub tally-split :
    (left : List Pc) (p : Pc) (right : List Pc)
    → tally (left ++ p ∷ right) ≡ with_one p (others left right)
tally-split left p right = ground (
  arith,
  total-split reader left p right,
  total-split writer left p right,
  total-split awake_writer left p right,
  total-split asleep_writer left p right,
  total-split asleep_reader left p right,
)

pub record Inv (l : RwLock) (c : Tally) : Type 0 where
  pub reader_count : l.reader_count ≡ pos c.readers
  pub writer_count : l.writer_count ≡ pos (c.writers + c.awake_writers + c.asleep_writers)
  pub active : c.writers ≡ (if l.writer_active then 1 else 0)
  pub apart : 0 < c.writers → c.readers ≡ 0
  -- A writer that sleeps will be woken, by who holds the lock or by a writer that is awake.
  pub writer_woken : 0 < c.asleep_writers → 0 < c.readers + c.writers + c.awake_writers
  -- A reader sleeps only while there are writers.
  pub reader_woken : 0 < c.asleep_readers → 0 < c.writers + c.awake_writers + c.asleep_writers

-- What a notice does to the tally.
pub data Told (c c' : Tally) : Notice → Type 0 where
  same : c' ≡ c → Told c c' nothing
  woke_one :
      c.asleep_writers ≡ c'.asleep_writers + 1
      → c'.awake_writers ≡ c.awake_writers + 1
      → (c'.readers ≡ c.readers) × (c'.writers ≡ c.writers) × (c'.asleep_readers ≡ c.asleep_readers)
      → Told c c' one_writer
  no_one : c.asleep_writers ≡ 0 → c' ≡ c → Told c c' one_writer
  woke_all :
      c'.asleep_readers ≡ 0
      → (c'.readers ≡ c.readers)
        × (c'.writers ≡ c.writers)
        × (c'.awake_writers ≡ c.awake_writers)
        × (c'.asleep_writers ≡ c.asleep_writers)
      → Told c c' all_readers

free_read-Inv :
    {l : RwLock} {n : Notice} (c : Tally) {c' : Tally}
    → (unlock_read l).1 ≡ n
    → Told (with_one idle c) c' n
    → Inv l (with_one reading c)
    → Inv (unlock_read l).0 c'
unfolding ◌-ℤ◌
free_read-Inv c e (same q) v = ground arith
free_read-Inv c e (woke_one w x y) v = ground arith
free_read-Inv c e (no_one w q) v = ground arith
free_read-Inv c e (woke_all w x) v = ground arith

free_write-Inv :
    {l : RwLock} {n : Notice} (c : Tally) {c' : Tally}
    → (unlock_write l).1 ≡ n
    → Told (with_one idle c) c' n
    → Inv l (with_one writing c)
    → Inv (unlock_write l).0 c'
unfolding ◌-ℤ◌
free_write-Inv c e (same q) v = ground arith
free_write-Inv c e (woke_one w x y) v = ground arith
free_write-Inv c e (no_one w q) v = ground arith
free_write-Inv c e (woke_all w x) v = ground arith

Move-Inv :
    {l l' : RwLock} {p p' : Pc} {n : Notice} (c : Tally) {c' : Tally}
    → Move l p l' p' n
    → Told (with_one p' c) c' n
    → Inv l (with_one p c)
    → Inv l' c'
unfolding ◌+ℤ◌ ◌-ℤ◌
Move-Inv c (lock_read g) (same q) v = ground arith
Move-Inv c (sleep_read g) (same q) v = ground arith
Move-Inv c (enter_read g) (same q) v = ground arith
Move-Inv c (resleep_read g) (same q) v = ground arith
Move-Inv c (lock_write g) (same q) v = ground arith
Move-Inv c (sleep_write g) (same q) v = ground arith
Move-Inv c (enter_write g) (same q) v = ground arith
Move-Inv c (resleep_write g) (same q) v = ground arith
Move-Inv c free_read t v = free_read-Inv c refl t v
Move-Inv c free_write t v = free_write-Inv c refl t v
Move-Inv c stir_read (same q) v = ground arith
Move-Inv c stir_write (same q) v = ground arith

total-wake_readers :
    (ps : List Pc)
    → (total asleep_reader (wake_readers ps) ≡ 0)
      × (total reader (wake_readers ps) ≡ total reader ps)
      × (total writer (wake_readers ps) ≡ total writer ps)
      × (total awake_writer (wake_readers ps) ≡ total awake_writer ps)
      × (total asleep_writer (wake_readers ps) ≡ total asleep_writer ps)
unfolding total wake_readers
total-wake_readers [] = omega arith
total-wake_readers (read_asleep ∷ ps) = omega (arith, total-wake_readers ps)
total-wake_readers (p ∷ ps) = omega (arith, total-wake_readers ps)

Woken-Told : {ts ts' : List Pc} {n : Notice} → Woken ts n ts' → Told (tally ts) (tally ts') n
Woken-Told none_told = same refl
Woken-Told {ts} (one_told left right e) =
    subst (λ us. Told (tally us) (tally (left ++ write_awake ∷ right)) one_writer) (sym e)
      (subst (λ c. Told c (tally (left ++ write_awake ∷ right)) one_writer)
        (sym (tally-split left write_asleep right))
        (subst (λ c. Told (with_one write_asleep (others left right)) c one_writer)
          (sym (tally-split left write_awake right))
          (woke_one (omega arith) (omega arith) (omega arith))))
Woken-Told (nobody e) = no_one e refl
Woken-Told {ts} all_told =
    woke_all (omega (arith, total-wake_readers ts)) (omega (arith, total-wake_readers ts))

Step-Inv : {s t : System} → Step s t → Inv s.lock (tally s.threads) → Inv t.lock (tally t.threads)
Step-Inv {s} (pick left {p} right {p'} {n} {ts} e mv w) v =
    Move-Inv (others left right) mv
      (subst (λ c. Told c (tally ts) n) (tally-split left p' right) (Woken-Told w))
      (subst (Inv s.lock) (ap tally e ∙ tally-split left p right) v)

Inv-init : (n : ℕ) → Inv (init n).lock (tally (init n).threads)
Inv-init n = subst (Inv new_lock) (sym nobody_yet) (record {
  reader_count = refl;
  writer_count = refl;
  active = refl;
  apart = λ _. refl;
  writer_woken = λ h. absurd (omega arith);
  reader_woken = λ h. absurd (omega arith);
})
  where
    nobody_yet : tally (replicate n idle) ≡ record {
      readers = 0;
      writers = 0;
      awake_writers = 0;
      asleep_writers = 0;
      asleep_readers = 0;
    }
    nobody_yet = ground (
      arith,
      total-replicate reader n idle refl,
      total-replicate writer n idle refl,
      total-replicate awake_writer n idle refl,
      total-replicate asleep_writer n idle refl,
      total-replicate asleep_reader n idle refl,
    )

pub Reach-Inv : (n : ℕ) {s : System} → Reach (init n) s → Inv s.lock (tally s.threads)
Reach-Inv n here = Inv-init n
Reach-Inv n (later r st) = Step-Inv st (Reach-Inv n r)
