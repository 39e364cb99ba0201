-- ===== src/Pool/Buckets.antt =====
-- The choice of a pool by size in Core/memory/MemoryPool.h: types whose sizes round up to the same
-- power of two share a pool of their thread.
pub mod Fits
use bugat.Common.{ℕ, zero, suc, ◌+◌, ◌-◌, ◌/◌, ◌^◌, leb, ltb, ◌==◌, if◌then◌else◌}

-- `std::bit_width`: the number of binary digits.
unfoldable pub digits : ℕ → ℕ → ℕ
digits zero n = 0
digits (suc fuel) n = let rest = digits fuel (n / 2) in if n == 0 then 0 else suc rest

abbrev pub bit_width : ℕ → ℕ
bit_width n = digits n n

-- `std::bit_ceil`: the least power of two that is not below.
abbrev pub bit_ceil : ℕ → ℕ
bit_ceil n = if leb n 1 then 1 else 2 ^ bit_width (n - 1)

abbrev pub max : ℕ → ℕ → ℕ
max a b = if ltb a b then b else a

-- `GetSizeIndexBitwise`
abbrev pub get_size_index : ℕ → ℕ
get_size_index size = bit_width (max size 8 - 1) - 2

-- `BucketSize_v`, of `sizeof(T)`.
abbrev pub bucket_size : ℕ → ℕ
bucket_size size = bit_ceil (max size 8)

-- `TLSMemoryPool::IDX`
abbrev pub pool_index : ℕ → ℕ
pool_index size = get_size_index (bucket_size size)
