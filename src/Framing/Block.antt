-- ===== src/Framing/Block.antt =====
-- Base/DataBlock.h: a buffer that is filled at `tail` and consumed from `head`.
-- The template argument `Size` is the explicit argument `n`. A pointer into the buffer is its
-- offset; `head` and `tail` are `int` patterns, as every size is.
use bugat.Common.{
  ℕ, ◌+◌, ◌*◌, Bool, true, false, Option, none, some, List, ◌++◌, ◌||◌, not, length, take, drop,
  replicate, if◌then◌else◌,
}
use bugat.Framing.Wire.{slt, add32, sub32}

pub record DataBlock : Type 0 where
  pub buf : List ℕ
  pub head : ℕ
  pub tail : ℕ

-- `MaxSize`
abbrev pub max_size : ℕ → ℕ
max_size n = n * 5

unfoldable pub new_block : ℕ → DataBlock
new_block n = record { buf = replicate (max_size n) 0; head = 0; tail = 0 }

-- `GetRemainBuf` is the offset `tail`, and `GetData` the offset `head`.
abbrev pub get_remain_buf : DataBlock → ℕ
get_remain_buf b = b.tail

abbrev pub get_remain_size : ℕ → DataBlock → ℕ
get_remain_size n b = sub32 (max_size n) b.tail

unfoldable pub get_buf : ℕ → ℕ → Option ℕ
get_buf n at = if slt at 0 || not (slt at (max_size n)) then none else some at

abbrev pub get_data : DataBlock → ℕ
get_data b = b.head

abbrev pub get_data_size : DataBlock → ℕ
get_data_size b = sub32 b.tail b.head

unfoldable pub consume : DataBlock → ℕ → DataBlock × Bool
consume b size =
    if slt (get_data_size b) size then (b, false) else (record b { head = add32 b.head size }, true)

unfoldable pub update : ℕ → DataBlock → ℕ → DataBlock × Bool
update n b size =
    if slt (max_size n) (add32 b.tail size)
    then (b, false)
    else (record b { tail = add32 b.tail size }, true)

-- What somebody writes through a pointer into the buffer: the socket, or `memcpy_s`.
unfoldable pub write : ℕ → List ℕ → List ℕ → List ℕ
write at bytes buf = take at buf ++ (bytes ++ drop (at + length bytes) buf)
