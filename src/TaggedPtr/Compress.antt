-- ===== src/TaggedPtr/Compress.antt =====
-- Core/lockfree/tagged_ptr_compress.hpp: a pointer of 48 bits and a tag of 16 bits in one word.
-- A pointer that is not null is its address.
mod Tests
use bugat.Common.{
  ℕ, ◌+◌, ◌-◌, ◌*◌, ◌/◌, ◌%◌, ◌^◌, ◌≤◌, ◌<◌, ◌≡◌, ◌≢◌, ap, ◌∙◌, Bool, true, false, Option, none,
  some, ◌&&◌, ◌==◌, if◌then◌else◌, arith,
}
use bugat.TaggedPtr.{TaggedPtr, eq_ptr, eq_tagged, max_tag_compress}

abbrev pub address : Option ℕ → ℕ
address none = 0
address (some a) = a

-- `pack_ptr`: the highest 16 bits of the address are replaced by the tag.
abbrev pub pack_ptr : ℕ → ℕ → ℕ
pack_ptr ptr tag = ptr % 2 ^ 48 + tag * 2 ^ 48

abbrev pub extract_tag : ℕ → ℕ
extract_tag word = word / 2 ^ 48 % 2 ^ 16

-- `get_ptr`: the bits under `ptr_mask`.
abbrev pub get_ptr : ℕ → ℕ
get_ptr word = word % 2 ^ 48

-- `get_next_tag`, of a `tag_t` of 16 bits.
abbrev pub next_tag : ℕ → ℕ
next_tag word = (extract_tag word + 1) % max_tag_compress % 2 ^ 16

abbrev pub pack : TaggedPtr → ℕ
pack p = pack_ptr (address p.ptr) p.tag

-- A pointer that fits: null, or an address of at most 48 bits other than 0; and a tag of 16 bits.
abbrev pub Fits : TaggedPtr → Type 0
Fits p = (address p.ptr < 2 ^ 48) × (eq_ptr p.ptr (some 0) ≡ false) × (p.tag < 2 ^ 16)

same_words :
    (a b s t : ℕ)
    → a < 2 ^ 48
    → b < 2 ^ 48
    → s < 2 ^ 16
    → t < 2 ^ 16
    → (pack_ptr a s == pack_ptr b t) ≡ ((a == b) && (s == t))
same_words a b s t ha hb hs ht = ground arith

-- Two addresses are the same where the pointers are.
same_address :
    (p q : Option ℕ)
    → eq_ptr p (some 0) ≡ false
    → eq_ptr q (some 0) ≡ false
    → (address p == address q) ≡ eq_ptr p q
same_address none none h k = ground arith
same_address none (some b) h k = ground arith
same_address (some a) none h k = ground arith
same_address (some a) (some b) h k = ground arith

-- The packed word stands for the pair: pointers and tags that fit are read back from it, words are
-- equal just where the pairs are, and the next tag fits again and differs from the tag, so that
-- an exchange that takes the next tag always changes the word.
pub pack-faithful :
    (p q : TaggedPtr)
    → Fits p
    → Fits q
    → (get_ptr (pack p) ≡ address p.ptr)
      × (extract_tag (pack p) ≡ p.tag)
      × ((pack p == pack q) ≡ eq_tagged p q)
      × (next_tag (pack p) < 2 ^ 16)
      × (next_tag (pack p) ≢ p.tag)
pack-faithful p q h k = (
  omega arith,
  omega arith,
  same_words (address p.ptr) (address q.ptr) p.tag q.tag (omega arith) (omega arith) (omega arith)
        (omega arith)
      ∙ ap (λ b. b && (p.tag == q.tag)) (same_address p.ptr q.ptr h.1 k.1),
  omega arith,
  λ e. omega arith,
)
