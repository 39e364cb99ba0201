-- ===== src/Context.antt =====
-- Base/Context.cpp: the queues of a context, which rotate between the slots that threads post to,
-- the wait queue, and the threads that run them. A queue is a number; `content` says which objects
-- stand in it. A step is one access to what the threads share.
mod Slots
mod Invariant
pub mod Rotation
pub mod Contents
mod Tests
use bugat.Common.{
  ℕ, zero, suc, ◌+◌, ◌%◌, ◌^◌, ◌≡◌, Bool, true, false, Option, none, some, List, [], ◌∷◌, ◌++◌,
  get_elem?, length, ◌==◌, replicate, if◌then◌else◌,
}

-- `global_que` are the slots, `wait_que` the queue of queues, and `made` counts the queues that were
-- created. `posted` and `popped` are a record for the theorems: what was pushed to each queue and
-- what was taken from it.
pub record Memory : Type 0 where
  pub global_que : List ℕ
  pub wait_que : List ℕ
  pub global_counter : ℕ
  pub swap_counter : ℕ
  pub stop : Bool
  pub made : ℕ
  pub deleted : List ℕ
  pub content : ℕ → List ℕ
  pub posted : ℕ → List ℕ
  pub popped : ℕ → List ℕ

abbrev pub put_slot : List ℕ → ℕ → ℕ → List ℕ
put_slot [] i q = []
put_slot (x ∷ xs) zero q = q ∷ xs
put_slot (x ∷ xs) (suc i) q = x ∷ put_slot xs i q

abbrev pub put_content : (ℕ → List ℕ) → ℕ → List ℕ → ℕ → List ℕ
put_content content q xs k = if q == k then xs else content k

-- `fetch_add(1)` of a `uint32_t`, and the slot that its result selects.
abbrev pub count_next : ℕ → ℕ
count_next c = (c + 1) % 2 ^ 32

abbrev pub push_object : Memory → ℕ → ℕ → Memory
push_object m q object = record m {
  content = put_content m.content q (m.content q ++ object ∷ []);
  posted = put_content m.posted q (m.posted q ++ object ∷ []);
}

abbrev pub pop_object : Memory → ℕ → ℕ → List ℕ → Memory
pop_object m q object rest = record m {
  content = put_content m.content q rest;
  popped = put_content m.popped q (m.popped q ++ object ∷ []);
}

-- Where a thread stands, with `_localQue` and its other locals: in `Post`; at the test of the loop
-- of `Run`; at the load of a slot and at the exchange; behind it, with the queue that was in the
-- slot; behind the push to the wait queue; and in `SerializerQueue::Run`.
pub data Pc : Type 0 where
  idle : Pc
  posting : (object slot : ℕ) → Pc
  pushing : (object que : ℕ) → Pc
  looping : (local : ℕ) → Pc
  loading : (local slot : ℕ) → Pc
  exchanging : (local slot expect : ℕ) → Pc
  swapped : (local expect : ℕ) → Pc
  parked : (local : ℕ) → Pc
  running : (local : ℕ) → Pc

pub data Move (m : Memory) : Pc → Memory → Pc → Type 0 where
  -- `Post`
  draw_post :
      (object n : ℕ)
      → length m.global_que ≡ suc n
      → Move m idle
          (record m { global_counter = count_next m.global_counter })
          (posting object (m.global_counter % suc n))
  load_post :
      {object slot que : ℕ}
      → get_elem? m.global_que slot ≡ some que
      → Move m (posting object slot) m (pushing object que)
  push : {object que : ℕ} → Move m (pushing object que) (push_object m que object) idle
  -- `Run`: a new local queue, and the loop.
  enter : Move m idle (record m { made = m.made + 1 }) (looping m.made)
  draw_swap :
      {local : ℕ} (n : ℕ)
      → m.stop ≡ false
      → length m.global_que ≡ suc n
      → Move m
          (looping local)
          (record m { swap_counter = count_next m.swap_counter })
          (loading local (m.swap_counter % suc n))
  leave :
      {local : ℕ}
      → m.stop ≡ true
      → Move m (looping local) (record m { deleted = local ∷ m.deleted }) idle
  load :
      {local slot expect : ℕ}
      → get_elem? m.global_que slot ≡ some expect
      → Move m (loading local slot) m (exchanging local slot expect)
  exchange :
      {local slot expect : ℕ}
      → get_elem? m.global_que slot ≡ some expect
      → Move m
          (exchanging local slot expect)
          (record m { global_que = put_slot m.global_que slot local })
          (swapped local expect)
  reload :
      {local slot expect found : ℕ}
      → get_elem? m.global_que slot ≡ some found
      → (found == expect) ≡ false
      → Move m (exchanging local slot expect) m (exchanging local slot found)
  park :
      {local expect : ℕ}
      → Move m
          (swapped local expect)
          (record m { wait_que = m.wait_que ++ expect ∷ [] })
          (parked local)
  take_que :
      {local que : ℕ} {rest : List ℕ}
      → m.wait_que ≡ que ∷ rest
      → Move m (parked local) (record m { wait_que = rest }) (running que)
  -- `Pop` fails, and leaves `_localQue` as it is.
  take_none : {local : ℕ} → m.wait_que ≡ [] → Move m (parked local) m (looping local)
  -- `SerializerQueue::Run`
  pop :
      {local object : ℕ} {rest : List ℕ}
      → m.content local ≡ object ∷ rest
      → Move m (running local) (pop_object m local object rest) (running local)
  pop_none : {local : ℕ} → m.content local ≡ [] → Move m (running local) m (looping local)
  -- A task throws, and the exception is caught around `SerializerQueue::Run`.
  caught : {local : ℕ} → Move m (running local) m (looping local)
  -- `Stop`
  stop_all : Move m idle (record m { stop = true }) idle

pub record System : Type 0 where
  pub mem : Memory
  pub threads : List Pc

pub data Step (s : System) : System → Type 0 where
  pick :
      (left : List Pc) {p : Pc} (right : List Pc) {m : Memory} {p' : Pc}
      → s.threads ≡ left ++ p ∷ right
      → Move s.mem p m p'
      → Step s (record { mem = m; threads = left ++ p' ∷ right })

-- `Initialize`: one queue for a slot, and one for the wait queue, in turn.
abbrev pub new_slots : ℕ → ℕ → List ℕ
new_slots zero q = []
new_slots (suc n) q = q ∷ new_slots n (q + 2)

-- A context of `n + 1` slots after `Initialize`.
unfoldable pub initialize : ℕ → Memory
initialize n = record {
  global_que = new_slots (suc n) 0;
  wait_que = new_slots (suc n) 1;
  global_counter = 0;
  swap_counter = 0;
  stop = false;
  made = suc n + suc n;
  deleted = [];
  content = λ _. [];
  posted = λ _. [];
  popped = λ _. [];
}

abbrev pub init : ℕ → ℕ → System
init n threads = record { mem = initialize n; threads = replicate threads Pc.idle }

pub data Reach (s : System) : System → Type 0 where
  here : Reach s s
  later : {t u : System} → Reach s t → Step t u → Reach s u
