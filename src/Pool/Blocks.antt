-- ===== src/Pool/Blocks.antt =====
-- Who has the blocks of Core/memory/MemoryPool.h.
use bugat.Common.{
  ℕ, zero, suc, ◌+◌, ◌-◌, ◌*◌, ◌≤◌, ◌<◌, ◌≡◌, ◌⊎◌, refl, sym, ap, subst, List, [], ◌∷◌, ◌++◌, ◌==◌,
  if_cases, ==_iff, arith,
}
use bugat.Common.Count.{is, count}
use bugat.Pool.Chains.{Chain, Chain-put_word, grown}
use bugat.Pool.{put_word, chunk_size, take_head, release, Use, remove}

count-remove :
    (a ptr : ℕ) (bs : List ℕ) → 0 < count ptr bs → count a (remove ptr bs) + is a ptr ≡ count a bs
unfolding count
count-remove a ptr [] h = absurd (omega arith)
count-remove a ptr (b ∷ bs) h =
    if_cases (λ cs. count a cs + is a ptr ≡ is a b + count a bs) (b == ptr) bs (b ∷ remove ptr bs)
      (λ e. omega (arith, ap (is a) ((==_iff b ptr).0 e)))
      λ e. let rest = count-remove a ptr bs in ground arith

module _ (size count_ : ℕ) where
  -- The blocks of a chunk, the last first, and those of all chunks.
  abbrev pub chunk_blocks : ℕ → List ℕ
  chunk_blocks first = grown size (count_ - 1) first (first ∷ [])

  abbrev pub all_blocks : List ℕ → List ℕ
  all_blocks [] = []
  all_blocks (c ∷ cs) = chunk_blocks c ++ all_blocks cs

  -- What `malloc` promises of its result: it is apart from every chunk.
  abbrev pub Fresh : ℕ → List ℕ → Type 0
  Fresh c [] = Unit
  Fresh c (b ∷ bs) =
      ((b + size * count_ ≤ c) ⊎ (c + chunk_size + size * count_ + chunk_size ≤ b)) × Fresh c bs

  -- The free blocks and those in use are the blocks of the chunks, each once, and not null.
  pub record Good (u : Use) : Type 0 where
    pub free : List ℕ
    pub chain : Chain u.pool.words u.pool.head free
    pub placed : (a : ℕ) → count a free + count a u.held ≡ count a (all_blocks u.pool.chunks)
    pub distinct : (a : ℕ) → count a (all_blocks u.pool.chunks) ≤ 1
    pub not_null : count 0 (all_blocks u.pool.chunks) ≡ 0

  pub take-Good :
      (u : Use)
      → 0 < u.pool.head
      → Good u
      → Good (record { pool = (take_head u.pool).0; held = (take_head u.pool).1 ∷ u.held })
  unfolding count
  take-Good u h g = from g.free g.chain g.placed
    where
      from :
          (free : List ℕ)
          → Chain u.pool.words u.pool.head free
          → ((a : ℕ) → count a free + count a u.held ≡ count a (all_blocks u.pool.chunks))
          → Good (record { pool = (take_head u.pool).0; held = (take_head u.pool).1 ∷ u.held })
      from [] c p = absurd (omega arith)
      from (b ∷ free) c p = record {
        free = free;
        chain = subst (λ w. Chain u.pool.words (u.pool.words w) free) (sym c.0) c.2;
        placed = λ a. omega (arith, p a, ap (is a) c.0);
        distinct = g.distinct;
        not_null = g.not_null;
      }

  free_not_held :
      (u : Use) (g : Good u) (a : ℕ) → 0 < count a u.held → (count a g.free ≡ 0) × (0 < a)
  free_not_held u g zero h = absurd (omega (arith, g.placed 0, g.not_null))
  free_not_held u g (suc n) h = (omega (arith, g.placed (suc n), g.distinct (suc n)), omega arith)

  pub write-Good :
      (u : Use) (ptr v : ℕ)
      → 0 < count ptr u.held
      → Good u
      → Good (record u { pool = record u.pool { words = put_word u.pool.words ptr v } })
  write-Good u ptr v h g = record {
    free = g.free;
    chain =
        Chain-put_word u.pool.words ptr v u.pool.head g.free (free_not_held u g ptr h).0 g.chain;
    placed = g.placed;
    distinct = g.distinct;
    not_null = g.not_null;
  }

  pub release-Good :
      (u : Use) (ptr : ℕ)
      → 0 < count ptr u.held
      → Good u
      → Good (record { pool = release ptr u.pool; held = remove ptr u.held })
  unfolding release count
  release-Good u ptr h g = record {
    free = ptr ∷ g.free;
    chain = (
      refl,
      (free_not_held u g ptr h).1,
      subst (λ w. Chain (put_word u.pool.words ptr u.pool.head) w g.free) (sym reads)
          (Chain-put_word u.pool.words ptr u.pool.head u.pool.head g.free
            (free_not_held u g ptr h).0 g.chain),
    );
    placed = λ a. omega (arith, g.placed a, count-remove a ptr u.held h);
    distinct = g.distinct;
    not_null = g.not_null;
  }
    where
      reads : put_word u.pool.words ptr u.pool.head ptr ≡ u.pool.head
      reads = ground arith
