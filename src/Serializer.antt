-- ===== src/Serializer.antt =====
-- Core/TaskSerializer.h, Core/TaskSerializer.cpp and Base/SerializeObject.cpp: an object with a
-- queue of tasks, posted to by any thread and run by the threads of a context. Threads interleave
-- at each access to shared memory; the queue of Core/lockfree/LockFreeQueue.h is a list, taken by
-- the steps at which it takes effect (the link or the unlink of a node, and the change of `_size`).
-- The nodes of that queue, and the interleavings in which it is not this list, are in Queue.
mod Invariant
pub mod Safety
pub mod Stuck
mod Tests
use bugat.Common.{
  ℕ, suc, ◌+◌, ◌-◌, ◌^◌, ◌<◌, ◌≡◌, Bool, true, false, List, [], ◌∷◌, ◌++◌, ◌&&◌, replicate, ◌==◌,
  if◌then◌else◌,
}
use bugat.Common.Int.{ℤ, pos, pos_part, neg_part, ◌+ℤ◌, ◌-ℤ◌, ltb_ℤ}

-- `TASKSERIALIZER_ERROR`
abbrev pub taskserializer_error : ℤ
taskserializer_error = pos (2 ^ 60)

abbrev pub eqb_ℤ : ℤ → ℤ → Bool
eqb_ℤ a b = (pos_part a == pos_part b) && (neg_part a == neg_part b)

-- Whether `OnPost` and `OnRun` call `_context->Post`; `context` says that `_context` is not null.
abbrev pub on_post : Bool → ℤ → Bool
on_post context remain_count =
    if eqb_ℤ remain_count taskserializer_error
    then false
    else if eqb_ℤ remain_count (pos 1)
    then context
    else false

abbrev pub on_run : Bool → ℤ → Bool
on_run context remain_count =
    if eqb_ℤ remain_count taskserializer_error
    then false
    else if ltb_ℤ (pos 0) remain_count
    then context
    else false

-- Shared memory: the object, and `ready`, the number of references to it in the queues of the
-- context. `posted`, `ran` and `lost` are a record for the theorems: the tasks in the order of
-- their links, the tasks in the order of their runs, and the runs that were never subtracted
-- because a task threw.
pub record Memory : Type 0 where
  pub que : List ℕ
  pub size : ℤ
  pub task_count : ℤ
  pub context : Bool
  pub ready : ℕ
  pub posted : List ℕ
  pub ran : List ℕ
  pub lost : ℕ

-- Where a thread stands, with the locals that are live there. `Post` goes through `linked`,
-- `sized` and `notify`, and `Run` through the others; `left` rounds of its loop remain.
pub data Pc : Type 0 where
  idle : Pc
  linked : Pc
  sized : Pc
  notify : (remain_count : ℤ) → Pc
  start : Pc
  looping : (left execute_count : ℕ) → Pc
  took : (task left execute_count : ℕ) → Pc
  holding : (task left execute_count : ℕ) → Pc
  finishing : (execute_count : ℕ) → Pc
  report : (remain_count : ℤ) → Pc

-- One step of one thread.
pub data Move (m : Memory) : Pc → Memory → Pc → Type 0 where
  -- `Post`: `_que.Push`, whose link comes before its `_size.fetch_add`.
  link :
      (task : ℕ)
      → Move m idle (record m { que = m.que ++ task ∷ []; posted = m.posted ++ task ∷ [] }) linked
  grow : Move m linked (record m { size = m.size +ℤ pos 1 }) sized
  count_up :
      Move m sized
        (record m { task_count = m.task_count +ℤ pos 1 })
        (notify (m.task_count +ℤ pos 1))
  post_again :
      {c : ℤ}
      → on_post m.context c ≡ true
      → Move m (notify c) (record m { ready = m.ready + 1 }) idle
  post_skip : {c : ℤ} → on_post m.context c ≡ false → Move m (notify c) m idle
  -- A thread of the context pops the object, and calls `Run`.
  fetch : 0 < m.ready → Move m idle (record m { ready = m.ready - 1 }) start
  get_size : Move m start m (looping (pos_part m.size) 0)
  pop :
      {left e task : ℕ} {rest : List ℕ}
      → m.que ≡ task ∷ rest
      → Move m (looping (suc left) e) (record m { que = rest }) (took task left e)
  pop_none : {left e : ℕ} → m.que ≡ [] → Move m (looping (suc left) e) m (finishing e)
  no_rounds : {left e : ℕ} → left ≡ 0 → Move m (looping left e) m (finishing e)
  shrink :
      {task left e : ℕ}
      → Move m (took task left e) (record m { size = m.size -ℤ pos 1 }) (holding task left e)
  run_task :
      {task left e : ℕ}
      → Move m (holding task left e) (record m { ran = m.ran ++ task ∷ [] }) (looping left (e + 1))
  -- The task throws: `Run` is left with nothing subtracted, and `Context::Run` goes on.
  throw_task :
      {task left e : ℕ}
      → Move m
          (holding task left e)
          (record m { ran = m.ran ++ task ∷ []; lost = m.lost + (e + 1) })
          idle
  count_down :
      {e : ℕ}
      → Move m
          (finishing e)
          (record m { task_count = m.task_count -ℤ pos e })
          (report (m.task_count -ℤ pos e))
  run_again :
      {c : ℤ}
      → on_run m.context c ≡ true
      → Move m (report c) (record m { ready = m.ready + 1 }) idle
  run_skip : {c : ℤ} → on_run m.context c ≡ false → Move m (report c) m idle

pub record System : Type 0 where
  pub mem : Memory
  pub threads : List Pc

-- Any thread moves. A `Post` from inside a task counts as a move of a thread of its own.
pub data Step (s : System) : System → Type 0 where
  pick :
      (left : List Pc) {p : Pc} (right : List Pc) {m : Memory} {p' : Pc}
      → s.threads ≡ left ++ p ∷ right
      → Move s.mem p m p'
      → Step s (record { mem = m; threads = left ++ p' ∷ right })

-- A new object in a context, and `n` threads that may touch it.
abbrev pub new_object : Memory
new_object = record {
  que = [];
  size = pos 0;
  task_count = pos 0;
  context = true;
  ready = 0;
  posted = [];
  ran = [];
  lost = 0;
}

abbrev pub init : ℕ → System
init n = record { mem = new_object; threads = replicate n Pc.idle }

pub data Reach (s : System) : System → Type 0 where
  here : Reach s s
  later : {t u : System} → Reach s t → Step t u → Reach s u
