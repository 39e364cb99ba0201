-- ===== src/Pool/Chains.antt =====
-- The free blocks of Core/memory/MemoryPool.h as a list.
use bugat.Common.{ℕ, zero, suc, ◌+◌, ◌*◌, ◌≤◌, ◌<◌, ◌≡◌, refl, sym, subst, List, [], ◌∷◌, arith}
use bugat.Common.Count.{count}
use bugat.Pool.{put_word, link_blocks}

-- The blocks linked from `head` on.
abbrev pub Chain : (ℕ → ℕ) → ℕ → List ℕ → Type 0
Chain words head [] = head ≡ 0
Chain words head (a ∷ bs) = (head ≡ a) × (0 < a) × Chain words (words a) bs

-- A write elsewhere leaves a chain.
pub Chain-put_word :
    (words : ℕ → ℕ) (a v head : ℕ) (bs : List ℕ)
    → count a bs ≡ 0
    → Chain words head bs
    → Chain (put_word words a v) head bs
unfolding count
Chain-put_word words a v head [] none_there c = c
Chain-put_word words a v head (b ∷ bs) none_there c = (
  c.0,
  c.1,
  subst (λ w. Chain (put_word words a v) w bs) (sym stays)
      (Chain-put_word words a v (words b) bs (omega arith) c.2),
)
  where
    stays : put_word words a v b ≡ words b
    stays = ground arith

-- The blocks that the loop of `Alloc` links in front of a chain.
abbrev pub grown : ℕ → ℕ → ℕ → List ℕ → List ℕ
grown size zero head bs = bs
grown size (suc left) head bs = grown size left (head + size) ((head + size) ∷ bs)

abbrev pub last : ℕ → ℕ → ℕ → ℕ
last size zero head = head
last size (suc left) head = last size left (head + size)

pub last-mul : (size left head : ℕ) → last size left head + size ≡ head + size * (left + 1)
last-mul size zero head = omega arith
last-mul size (suc left) head = omega (arith, last-mul size left (head + size))

-- What the list of blocks up to `head` is: distinct, and none above it.
pub record UpTo (low head : ℕ) (bs : List ℕ) : Type 0 where
  pub distinct : (a : ℕ) → count a bs ≤ 1
  pub above : (a : ℕ) → head < a → count a bs ≡ 0
  pub below : (a : ℕ) → a < low → count a bs ≡ 0

UpTo-cons :
    (size low head : ℕ) (bs : List ℕ)
    → 0 < size
    → low ≤ head
    → UpTo low head bs
    → UpTo low (head + size) ((head + size) ∷ bs)
unfolding count
UpTo-cons size low head bs positive le u = record {
  distinct = λ a. ground (arith, u.distinct a, u.above a);
  above = λ a h. ground (arith, u.above a);
  below = λ a h. ground (arith, u.below a);
}

pub UpTo-grown :
    (size left low head : ℕ) (bs : List ℕ)
    → 0 < size
    → low ≤ head
    → UpTo low head bs
    → UpTo low (last size left head) (grown size left head bs)
UpTo-grown size zero low head bs positive le u = u
UpTo-grown size (suc left) low head bs positive le u =
    UpTo-grown size left low (head + size) ((head + size) ∷ bs) positive (omega arith)
      (UpTo-cons size low head bs positive le u)

pub link_blocks-Chain :
    (size left low head : ℕ) (words : ℕ → ℕ) (bs : List ℕ)
    → 0 < size
    → low ≤ head
    → UpTo low head (head ∷ bs)
    → Chain words head (head ∷ bs)
    → Chain
        (link_blocks size left head words).0
        (link_blocks size left head words).1
        (grown size left head (head ∷ bs))
unfolding link_blocks count
link_blocks-Chain size zero low head words bs positive le u c = c
link_blocks-Chain size (suc left) low head words bs positive le u c =
    link_blocks-Chain size left low (head + size) linked (head ∷ bs) positive (omega arith)
      (UpTo-cons size low head (head ∷ bs) positive le u)
      (
        refl,
        omega arith,
        subst (λ w. Chain linked w (head ∷ bs)) (sym reads)
            (Chain-put_word words (head + size) head head (head ∷ bs)
              (u.above (head + size) (omega arith)) c),
      )
  where
    linked : ℕ → ℕ
    linked = put_word words (head + size) head

    reads : put_word words (head + size) head (head + size) ≡ head
    reads = ground arith
