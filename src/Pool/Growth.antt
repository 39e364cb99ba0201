-- ===== src/Pool/Growth.antt =====
-- The new chunk of `Alloc` of Core/memory/MemoryPool.h.
use bugat.Common.{
  ℕ, zero, suc, ◌+◌, ◌-◌, ◌*◌, ◌≤◌, ◌<◌, ◌≡◌, refl, ap, ◌∙◌, List, [], ◌∷◌, ◌++◌, ◌==◌, if_cases,
  ==_iff, arith,
}
use bugat.Common.Count.{count, count-append}
use bugat.Pool.Chains.{Chain, last, last-mul, UpTo, UpTo-grown, link_blocks-Chain}
use bugat.Pool.Blocks.{chunk_blocks, all_blocks, Fresh, Good, take-Good}
use bugat.Pool.{clear_words, chunk_size, link_blocks, alloc, take_head, get, Use}

one-UpTo : (first : ℕ) → UpTo first first (first ∷ [])
unfolding count
one-UpTo first = record {
  distinct = λ a. ground arith;
  above = λ a h. ground arith;
  below = λ a h. ground arith;
}

-- Where `_head` is null, no block is free.
Chain-nil :
    (words : ℕ → ℕ) {head : ℕ} (a : ℕ) (bs : List ℕ)
    → head ≡ 0
    → Chain words head bs
    → count a bs ≡ 0
unfolding count
Chain-nil words a [] e c = refl
Chain-nil words a (b ∷ bs) e c = absurd (omega arith)

low_high :
    {low head : ℕ} {bs : List ℕ} (a : ℕ)
    → UpTo low head bs
    → 0 < count a bs
    → (low ≤ a) × (a ≤ head)
low_high a u h = ground (arith, u.above a, u.below a)

last-le : (size left head : ℕ) → head ≤ last size left head
last-le size zero head = omega arith
last-le size (suc left) head = omega (arith, last-le size left (head + size))

link_blocks-head :
    (size left head : ℕ) (words : ℕ → ℕ)
    → (link_blocks size left head words).1 ≡ last size left head
unfolding link_blocks
link_blocks-head size zero head words = refl
link_blocks-head size (suc left) head words = link_blocks-head size left (head + size) _

module _ (size many : ℕ) (positive : 0 < size) (some_blocks : 0 < many) where
  last-end : (first : ℕ) → last size (many - 1) first + size ≡ first + size * many
  last-end first =
      let e : many - 1 + 1 ≡ many = omega arith in
      last-mul size (many - 1) first ∙ ap (λ k. first + size * k) e

  chunk-UpTo : (first : ℕ) → UpTo first (last size (many - 1) first) (chunk_blocks size many first)
  unfolding count
  chunk-UpTo first =
      UpTo-grown size (many - 1) first first (first ∷ []) positive (omega arith) (one-UpTo first)

  -- A block of a new chunk is in no other.
  apart_elsewhere :
      (c a : ℕ) (bs : List ℕ)
      → Fresh size many c bs
      → 0 < count a (chunk_blocks size many (c + chunk_size))
      → count a (all_blocks size many bs) ≡ 0
  unfolding count
  apart_elsewhere c a [] f h = refl
  apart_elsewhere c a (b ∷ bs) f h =
      let within = low_high a (chunk-UpTo (c + chunk_size)) h in
      let other = chunk-UpTo b in
      ground (
        arith,
        f.0,
        last-end (c + chunk_size),
        last-end b,
        other.above a,
        other.below a,
        count-append a (chunk_blocks size many b) (all_blocks size many bs),
        apart_elsewhere c a bs f.1 h,
      )

  count-all_blocks :
      (a c : ℕ) (bs : List ℕ)
      → count a (all_blocks size many (bs ++ c ∷ []))
        ≡ count a (all_blocks size many bs) + count a (chunk_blocks size many c)
  unfolding count
  count-all_blocks a c [] = omega (arith, count-append a (chunk_blocks size many c) [])
  count-all_blocks a c (b ∷ bs) = omega (
    arith,
    count-append a (chunk_blocks size many b) (all_blocks size many (bs ++ c ∷ [])),
    count-append a (chunk_blocks size many b) (all_blocks size many bs),
    count-all_blocks a c bs,
  )

  one_linked :
      (c : ℕ) (words : ℕ → ℕ)
      → Chain
          (clear_words words c (size * many + chunk_size))
          (c + chunk_size)
          ((c + chunk_size) ∷ [])
  one_linked c words = (
    refl,
    omega arith,
    ground (arith, last-end (c + chunk_size), last-le size (many - 1) (c + chunk_size)),
  )

  alloc-Good :
      (u : Use) (c : ℕ)
      → u.pool.head ≡ 0
      → Fresh size many c u.pool.chunks
      → Good size many u
      → Good size many (record u { pool = alloc size many c u.pool })
  unfolding alloc
  alloc-Good u c none_free f g = record {
    free = chunk_blocks size many (c + chunk_size);
    chain =
        link_blocks-Chain size (many - 1) (c + chunk_size) (c + chunk_size) _ [] positive
          (omega arith) (one-UpTo (c + chunk_size)) (one_linked c u.pool.words);
    placed = λ a.
        omega
          (arith, count-all_blocks a (c + chunk_size) u.pool.chunks, g.placed a, nothing_free a);
    distinct = λ a.
        let new = chunk-UpTo (c + chunk_size) in
        ground (
          arith,
          count-all_blocks a (c + chunk_size) u.pool.chunks,
          g.distinct a,
          new.distinct a,
          apart_elsewhere c a u.pool.chunks f,
        );
    not_null = omega (
      arith,
      count-all_blocks 0 (c + chunk_size) u.pool.chunks,
      g.not_null,
      (chunk-UpTo (c + chunk_size)).below 0 (omega arith),
    );
  }
    where
      nothing_free : (a : ℕ) → count a g.free ≡ 0
      nothing_free a = Chain-nil u.pool.words a g.free none_free g.chain

  alloc-head : (u : Use) (c : ℕ) → 0 < (alloc size many c u.pool).head
  unfolding alloc
  alloc-head u c = omega (
    arith,
    link_blocks-head size (many - 1) (c + chunk_size)
        (clear_words u.pool.words c (size * many + chunk_size)),
    last-le size (many - 1) (c + chunk_size),
  )

  pub get-Good :
      (u : Use) (c : ℕ)
      → Fresh size many c u.pool.chunks
      → Good size many u
      → Good size many
          (record { pool = (get size many c u.pool).0; held = (get size many c u.pool).1 ∷ u.held })
  unfolding get
  get-Good u c f g =
      if_cases
        (λ m. Good size many (record { pool = (take_head m).0; held = (take_head m).1 ∷ u.held }))
        (u.pool.head == 0) (alloc size many c u.pool) u.pool
        (λ e.
          take-Good size many (record u { pool = alloc size many c u.pool }) (alloc-head u c)
            (alloc-Good u c ((==_iff u.pool.head 0).0 e) f g))
        λ e. take-Good size many u (ground arith) g
