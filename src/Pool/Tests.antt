-- ===== src/Pool/Tests.antt =====
-- A run of a pool of Core/memory/MemoryPool.h.
use bugat.Common.{◌≤◌, ◌≡◌, refl, List, [], ◌∷◌}
use bugat.Pool.Buckets.Fits.{pool_index-fits}
use bugat.Pool.Buckets.{bucket_size, digits}
use bugat.Pool.{
  Op, op_get, op_release, op_write, apply, apply_all, start, new_pool, get, release, alloc,
  link_blocks,
}

-- Two chunks of two blocks of 8 bytes; a block is written to, released and got again.
abbrev ops : List Op
ops =
    op_get 1000 ∷ op_write 1024 77 ∷ op_get 2000 ∷ op_get 2000 ∷ op_release 1024 ∷ op_get 3000 ∷ []

three_held : (apply_all 8 2 ops start).held ≡ 1024 ∷ 2024 ∷ 1016 ∷ []
unfolding start new_pool apply apply_all get release alloc link_blocks
three_held = refl

-- Sizes 9 and 16 share the pool of blocks of 16 bytes.
pool_index-fits_example : 9 ≤ bucket_size 16
unfolding digits
pool_index-fits_example = pool_index-fits 9 16 refl
