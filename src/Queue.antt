-- ===== src/Queue.antt =====
-- Core/lockfree/LockFreeQueue.h over Core/lockfree/free_list.hpp: a linked queue of nodes that are
-- reused. A node is a number; a freed node keeps its link in the place of `_next`, as it is the
-- first member of both structures. A step is one access to what the threads share.
pub mod Steps
pub mod Alone
pub mod Lost
mod Tests
use bugat.Common.{
  ℕ, ◌+◌, ◌≡◌, Bool, true, false, Option, none, some, List, [], ◌∷◌, ◌++◌, ◌&&◌, ◌==◌, replicate,
  if◌then◌else◌,
}
use bugat.Common.Int.{ℤ, pos, ◌+ℤ◌, ◌-ℤ◌}
use bugat.TaggedPtr.{TaggedPtr, get_next_tag, eq_ptr, eq_tagged}

-- `nullHandle`
abbrev pub null_handle : TaggedPtr
null_handle = record { ptr = none; tag = 0 }

pub record Node : Type 0 where
  pub next : TaggedPtr
  pub value : ℕ

-- `top` is the `_top` of the free list. `made` counts the nodes that the allocator gave. `pushed`
-- and `popped` are a record for the theorems: the values whose `Push` and whose `Pop` returned.
pub record Memory : Type 0 where
  pub nodes : ℕ → Node
  pub made : ℕ
  pub top : TaggedPtr
  pub head : TaggedPtr
  pub tail : TaggedPtr
  pub size : ℤ
  pub pushed : List ℕ
  pub popped : List ℕ

abbrev pub put_node : (ℕ → Node) → ℕ → Node → ℕ → Node
put_node nodes n node k = if n == k then node else nodes k

abbrev pub put_next : Memory → ℕ → TaggedPtr → Memory
put_next m n next = record m { nodes = put_node m.nodes n (record (m.nodes n) { next = next }) }

-- The constructor `Node(value, nullHandle)`, in place.
abbrev pub construct : Memory → ℕ → ℕ → Memory
construct m n value = record m {
  nodes = put_node m.nodes n (record { next = null_handle; value = value });
}

-- Where a thread stands, with its live locals: in `Push`, first in the allocation of its node; and
-- in `Pop`, last in the release of the old head.
pub data Pc : Type 0 where
  idle : Pc
  alloc : (value : ℕ) → Pc
  alloc_top : (value : ℕ) (top : TaggedPtr) → Pc
  alloc_next : (value : ℕ) (top : TaggedPtr) (next : Option ℕ) → Pc
  constructing : (value node : ℕ) → Pc
  push_start : (value node : ℕ) → Pc
  push_tail : (value node : ℕ) (tail : TaggedPtr) → Pc
  push_next : (value node : ℕ) (tail next : TaggedPtr) → Pc
  push_link : (value node : ℕ) (tail next : TaggedPtr) → Pc
  push_help : (value node : ℕ) (tail next : TaggedPtr) → Pc
  push_swing : (value node : ℕ) (tail : TaggedPtr) → Pc
  push_count : (value : ℕ) → Pc
  pop_start : Pc
  pop_tail : (tail : TaggedPtr) → Pc
  pop_head : (tail head : TaggedPtr) → Pc
  pop_next : (tail head next : TaggedPtr) → Pc
  pop_help : (tail next : TaggedPtr) → Pc
  pop_value : (head next : TaggedPtr) → Pc
  pop_swing : (head next : TaggedPtr) (value : ℕ) → Pc
  pop_count : (head : TaggedPtr) (value : ℕ) → Pc
  free : (node value : ℕ) → Pc
  free_top : (node value : ℕ) (top : TaggedPtr) → Pc
  free_linked : (node value : ℕ) (top : TaggedPtr) → Pc

-- The constructor of the queue: one node, which is head and tail.
abbrev pub new_queue : Memory
new_queue = record {
  nodes = λ _. record { next = null_handle; value = 0 };
  made = 1;
  top = null_handle;
  head = record { ptr = some 0; tag = 0 };
  tail = record { ptr = some 0; tag = 0 };
  size = pos 0;
  pushed = [];
  popped = [];
}
