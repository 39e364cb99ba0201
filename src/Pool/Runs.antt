-- ===== src/Pool/Runs.antt =====
-- Any use of a pool of Core/memory/MemoryPool.h.
use bugat.Common.{ℕ, ◌<◌, List, [], ◌∷◌}
use bugat.Common.Count.{count}
use bugat.Pool.Blocks.{Fresh}
use bugat.Pool.{Use, Op, op_get, op_release, op_write, apply}

module _ (size many : ℕ) where
  -- A program releases and writes to blocks that it holds.
  abbrev pub Valid : Use → Op → Type 0
  Valid u (op_get c) = Fresh size many c u.pool.chunks
  Valid u (op_release ptr) = 0 < count ptr u.held
  Valid u (op_write ptr v) = 0 < count ptr u.held

  abbrev pub AllValid : Use → List Op → Type 0
  AllValid u [] = Unit
  AllValid u (op ∷ ops) = Valid u op × AllValid (apply size many op u) ops
