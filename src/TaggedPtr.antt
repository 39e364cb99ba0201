-- ===== src/TaggedPtr.antt =====
-- Core/lockfree/tagged_ptr.hpp: a pointer with a tag, compared and exchanged together; as two
-- words in tagged_ptr_dcas.hpp, and packed into one in tagged_ptr_compress.hpp. A pointer is null
-- or the number of what it points at.
pub mod Compress
use bugat.Common.{
  ℕ, ◌+◌, ◌-◌, ◌%◌, ◌^◌, Bool, true, false, Option, none, some, ◌&&◌, ◌==◌, if◌then◌else◌,
}

pub record TaggedPtr : Type 0 where
  pub ptr : Option ℕ
  pub tag : ℕ

-- `MAX_TAG` of both.
abbrev pub max_tag_dcas : ℕ
max_tag_dcas = 2 ^ 63

abbrev pub max_tag_compress : ℕ
max_tag_compress = 2 ^ 16 - 1

abbrev pub get_next_tag : ℕ → TaggedPtr → ℕ
get_next_tag max_tag p = (p.tag + 1) % max_tag

abbrev pub eq_ptr : Option ℕ → Option ℕ → Bool
eq_ptr none none = true
eq_ptr none (some b) = false
eq_ptr (some a) none = false
eq_ptr (some a) (some b) = a == b

-- `operator==`
abbrev pub eq_tagged : TaggedPtr → TaggedPtr → Bool
eq_tagged p q = eq_ptr p.ptr q.ptr && (p.tag == q.tag)
