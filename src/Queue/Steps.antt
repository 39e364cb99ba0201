-- ===== src/Queue/Steps.antt =====
-- The steps of `Push` and `Pop` of Core/lockfree/LockFreeQueue.h, and of the free list under them.
use bugat.Common.{ℕ, ◌+◌, ◌≡◌, true, false, Option, none, some, List, [], ◌∷◌, ◌++◌, replicate}
use bugat.Common.Int.{pos, ◌+ℤ◌, ◌-ℤ◌}
use bugat.TaggedPtr.{TaggedPtr, get_next_tag, eq_ptr, eq_tagged}
use bugat.Queue.{
  Memory, null_handle, put_next, construct, new_queue, Pc, idle, alloc, alloc_top, alloc_next,
  constructing, push_start, push_tail, push_next, push_link, push_help, push_swing, push_count,
  pop_start, pop_tail, pop_head, pop_next, pop_help, pop_value, pop_swing, pop_count, free,
  free_top, free_linked,
}

-- What a pointer that was read points at; no step follows a null pointer.
abbrev pub At : TaggedPtr → ℕ → Type 0
At p n = p.ptr ≡ some n

-- One step of one thread; `max_tag` is the `MAX_TAG` of the tagged pointers. The exchanges of the weak kind may fail for no reason.
pub data Move (max_tag : ℕ) (m : Memory) : Pc → Memory → Pc → Type 0 where
  -- `Push`, and `allocate`
  call_push : (value : ℕ) → Move max_tag m idle m (alloc value)
  load_top : {value : ℕ} → Move max_tag m (alloc value) m (alloc_top value m.top)
  fresh :
      {value : ℕ} {top : TaggedPtr}
      → top.ptr ≡ none
      → Move max_tag m
          (alloc_top value top)
          (record m { made = m.made + 1 })
          (constructing value m.made)
  read_free :
      {value n : ℕ} {top : TaggedPtr}
      → At top n
      → Move max_tag m (alloc_top value top) m (alloc_next value top (m.nodes n).next.ptr)
  take_free :
      {value n : ℕ} {top : TaggedPtr} {next : Option ℕ}
      → At top n
      → eq_tagged m.top top ≡ true
      → Move max_tag m
          (alloc_next value top next)
          (record m { top = record { ptr = next; tag = get_next_tag max_tag top } })
          (constructing value n)
  take_free_fails :
      {value : ℕ} {top : TaggedPtr} {next : Option ℕ}
      → Move max_tag m (alloc_next value top next) m (alloc_top value m.top)
  construct_node :
      {value n : ℕ}
      → Move max_tag m (constructing value n) (construct m n value) (push_start value n)
  -- `InternalPush`
  load_tail : {value n : ℕ} → Move max_tag m (push_start value n) m (push_tail value n m.tail)
  load_next :
      {value n t : ℕ} {tail : TaggedPtr}
      → At tail t
      → Move max_tag m (push_tail value n tail) m (push_next value n tail (m.nodes t).next)
  tail_moved :
      {value n : ℕ} {tail next : TaggedPtr}
      → eq_tagged tail m.tail ≡ false
      → Move max_tag m (push_next value n tail next) m (push_start value n)
  at_end :
      {value n : ℕ} {tail next : TaggedPtr}
      → eq_tagged tail m.tail ≡ true
      → eq_tagged next null_handle ≡ true
      → Move max_tag m (push_next value n tail next) m (push_link value n tail next)
  behind :
      {value n : ℕ} {tail next : TaggedPtr}
      → eq_tagged tail m.tail ≡ true
      → eq_tagged next null_handle ≡ false
      → Move max_tag m (push_next value n tail next) m (push_help value n tail next)
  link :
      {value n t : ℕ} {tail next : TaggedPtr}
      → At tail t
      → eq_tagged (m.nodes t).next next ≡ true
      → Move max_tag m
          (push_link value n tail next)
          (put_next m t (record { ptr = some n; tag = tail.tag }))
          (push_swing value n tail)
  link_fails :
      {value n : ℕ} {tail next : TaggedPtr}
      → Move max_tag m (push_link value n tail next) m (push_start value n)
  swing :
      {value n : ℕ} {tail : TaggedPtr}
      → eq_tagged m.tail tail ≡ true
      → Move max_tag m
          (push_swing value n tail)
          (record m { tail = record { ptr = some n; tag = get_next_tag max_tag tail } })
          (push_count value)
  swing_fails :
      {value n : ℕ} {tail : TaggedPtr}
      → Move max_tag m (push_swing value n tail) m (push_count value)
  help :
      {value n : ℕ} {tail next : TaggedPtr}
      → eq_tagged m.tail tail ≡ true
      → Move max_tag m
          (push_help value n tail next)
          (record m { tail = record { ptr = next.ptr; tag = get_next_tag max_tag tail } })
          (push_start value n)
  help_fails :
      {value n : ℕ} {tail next : TaggedPtr}
      → Move max_tag m (push_help value n tail next) m (push_start value n)
  grow :
      {value : ℕ}
      → Move max_tag m
          (push_count value)
          (record m { size = m.size +ℤ pos 1; pushed = m.pushed ++ value ∷ [] })
          idle
  -- `Pop`
  call_pop : Move max_tag m idle m pop_start
  load_pop_tail : Move max_tag m pop_start m (pop_tail m.tail)
  load_pop_head : {tail : TaggedPtr} → Move max_tag m (pop_tail tail) m (pop_head tail m.head)
  load_pop_next :
      {tail head : TaggedPtr} {h : ℕ}
      → At head h
      → Move max_tag m (pop_head tail head) m (pop_next tail head (m.nodes h).next)
  head_moved :
      {tail head next : TaggedPtr}
      → eq_tagged head m.head ≡ false
      → Move max_tag m (pop_next tail head next) m pop_start
  empty :
      {tail head next : TaggedPtr}
      → eq_tagged head m.head ≡ true
      → eq_ptr head.ptr tail.ptr ≡ true
      → eq_tagged next null_handle ≡ true
      → Move max_tag m (pop_next tail head next) m idle
  tail_behind :
      {tail head next : TaggedPtr}
      → eq_tagged head m.head ≡ true
      → eq_ptr head.ptr tail.ptr ≡ true
      → eq_tagged next null_handle ≡ false
      → Move max_tag m (pop_next tail head next) m (pop_help tail next)
  found :
      {tail head next : TaggedPtr}
      → eq_tagged head m.head ≡ true
      → eq_ptr head.ptr tail.ptr ≡ false
      → eq_tagged next null_handle ≡ false
      → Move max_tag m (pop_next tail head next) m (pop_value head next)
  no_next :
      {tail head next : TaggedPtr}
      → eq_tagged head m.head ≡ true
      → eq_ptr head.ptr tail.ptr ≡ false
      → eq_tagged next null_handle ≡ true
      → Move max_tag m (pop_next tail head next) m pop_start
  help_pop :
      {tail next : TaggedPtr}
      → eq_tagged m.tail tail ≡ true
      → Move max_tag m
          (pop_help tail next)
          (record m { tail = record { ptr = next.ptr; tag = get_next_tag max_tag tail } })
          pop_start
  help_pop_fails : {tail next : TaggedPtr} → Move max_tag m (pop_help tail next) m pop_start
  read_value :
      {head next : TaggedPtr} {n : ℕ}
      → At next n
      → Move max_tag m (pop_value head next) m (pop_swing head next (m.nodes n).value)
  unlink :
      {head next : TaggedPtr} {value : ℕ}
      → eq_tagged m.head head ≡ true
      → Move max_tag m
          (pop_swing head next value)
          (record m { head = record { ptr = next.ptr; tag = get_next_tag max_tag head } })
          (pop_count head value)
  unlink_fails :
      {head next : TaggedPtr} {value : ℕ} → Move max_tag m (pop_swing head next value) m pop_start
  shrink :
      {head : TaggedPtr} {value h : ℕ}
      → At head h
      → Move max_tag m (pop_count head value) (record m { size = m.size -ℤ pos 1 }) (free h value)
  -- `deallocate`
  load_free_top : {n value : ℕ} → Move max_tag m (free n value) m (free_top n value m.top)
  link_free :
      {n value : ℕ} {top : TaggedPtr}
      → Move max_tag m
          (free_top n value top)
          (put_next m n (record { ptr = top.ptr; tag = 0 }))
          (free_linked n value top)
  give_back :
      {n value : ℕ} {top : TaggedPtr}
      → eq_tagged m.top top ≡ true
      → Move max_tag m
          (free_linked n value top)
          (record m {
            top = record { ptr = some n; tag = top.tag };
            popped = m.popped ++ value ∷ [];
          })
          idle
  give_back_fails :
      {n value : ℕ} {top : TaggedPtr}
      → Move max_tag m (free_linked n value top) m (free_top n value m.top)

pub record System : Type 0 where
  pub mem : Memory
  pub threads : List Pc

pub data Step (max_tag : ℕ) (s : System) : System → Type 0 where
  pick :
      (left : List Pc) {p : Pc} (right : List Pc) {m : Memory} {p' : Pc}
      → s.threads ≡ left ++ p ∷ right
      → Move max_tag s.mem p m p'
      → Step max_tag s (record { mem = m; threads = left ++ p' ∷ right })

abbrev pub init : ℕ → System
init n = record { mem = new_queue; threads = replicate n Pc.idle }

pub data Reach (max_tag : ℕ) (s : System) : System → Type 0 where
  here : Reach max_tag s s
  later : {t u : System} → Reach max_tag s t → Step max_tag t u → Reach max_tag s u
