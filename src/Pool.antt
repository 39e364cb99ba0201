-- ===== src/Pool.antt =====
-- Core/memory/MemoryPool.h: blocks of `size` bytes in chunks of `count`, with the free ones linked
-- through their first words. A pointer is an address, and null is 0; `words` is the memory at the
-- addresses where blocks start.
mod Chains
pub mod Blocks
pub mod Buckets
mod Growth
pub mod Runs
mod Tests
use bugat.Common.{
  ℕ, zero, suc, ◌+◌, ◌-◌, ◌*◌, Bool, List, [], ◌∷◌, ◌++◌, ◌&&◌, leb, ltb, ◌==◌, if◌then◌else◌,
}

pub record MemoryPool : Type 0 where
  pub words : ℕ → ℕ
  pub head : ℕ
  -- `_ptr` of the chunks of `_chunk_list`, in its order.
  pub chunks : List ℕ

abbrev pub put_word : (ℕ → ℕ) → ℕ → ℕ → ℕ → ℕ
put_word words a v k = if a == k then v else words k

-- `memset(ptr, 0x00, len)`
abbrev pub clear_words : (ℕ → ℕ) → ℕ → ℕ → ℕ → ℕ
clear_words words ptr len k = if leb ptr k && ltb k (ptr + len) then 0 else words k

-- `sizeof(Chunk)`
abbrev pub chunk_size : ℕ
chunk_size = 16

-- The loop of `Alloc`, for the blocks that are left: the memory, and `_head`.
unfoldable pub link_blocks : ℕ → ℕ → ℕ → (ℕ → ℕ) → (ℕ → ℕ) × ℕ
link_blocks size zero head words = (words, head)
link_blocks size (suc left) head words =
    link_blocks size left (head + size) (put_word words (head + size) head)

-- `Alloc`, where `malloc` has returned `c`.
unfoldable pub alloc : ℕ → ℕ → ℕ → MemoryPool → MemoryPool
alloc size count c m =
    let start = c + chunk_size in
    let (words, head) =
      link_blocks size (count - 1) start (clear_words m.words c (size * count + chunk_size)) in
    record { words = words; head = head; chunks = m.chunks ++ start ∷ [] }

-- `_head = *_head`, with the old head as the result.
abbrev pub take_head : MemoryPool → MemoryPool × ℕ
take_head m = (record m { head = m.words m.head }, m.head)

unfoldable pub get : ℕ → ℕ → ℕ → MemoryPool → MemoryPool × ℕ
get size count c m = take_head (if m.head == 0 then alloc size count c m else m)

unfoldable pub release : ℕ → MemoryPool → MemoryPool
release ptr m = record m { words = put_word m.words ptr m.head; head = ptr }

unfoldable pub new_pool : MemoryPool
new_pool = record { words = λ _. 0; head = 0; chunks = [] }

-- A pool in use: the blocks that were got and not released.
pub record Use : Type 0 where
  pub pool : MemoryPool
  pub held : List ℕ

-- One block of those that are held goes back.
abbrev pub remove : ℕ → List ℕ → List ℕ
remove a [] = []
remove a (b ∷ bs) = if b == a then bs else b ∷ remove a bs

-- What a program does: it gets a block, where `malloc` would return `c`; releases one; or writes
-- to one that it holds.
pub data Op : Type 0 where
  op_get : (c : ℕ) → Op
  op_release : (ptr : ℕ) → Op
  op_write : (ptr value : ℕ) → Op

module _ (size count : ℕ) where
  unfoldable pub apply : Op → Use → Use
  apply (op_get c) u =
      let (m, ptr) = get size count c u.pool in record { pool = m; held = ptr ∷ u.held }
  apply (op_release ptr) u = record { pool = release ptr u.pool; held = remove ptr u.held }
  apply (op_write ptr v) u = record u {
    pool = record u.pool { words = put_word u.pool.words ptr v };
  }

  unfoldable pub apply_all : List Op → Use → Use
  apply_all [] u = u
  apply_all (op ∷ ops) u = apply_all ops (apply op u)

unfoldable pub start : Use
start = record { pool = new_pool; held = [] }
