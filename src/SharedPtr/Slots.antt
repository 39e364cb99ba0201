-- ===== src/SharedPtr/Slots.antt =====
-- How many of the pointer variables of Core/memory/TSharedPtr.h point at an object.
use bugat.Common.{
  ℕ, zero, suc, ◌+◌, ◌≤◌, ◌<◌, ◌≡◌, refl, ap, Option, none, some, List, [], ◌∷◌, ◌++◌, arith,
  length, ◌==◌, if◌then◌else◌,
}
use bugat.SharedPtr.{ptr_at, put_ptr}

-- 1 for a pointer at `o`, otherwise 0.
abbrev pub points : ℕ → Option ℕ → ℕ
points o none = 0
points o (some a) = if a == o then 1 else 0

pub refs : ℕ → List (Option ℕ) → ℕ
refs o [] = 0
refs o (p ∷ ps) = points o p + refs o ps

pub refs-nil : (o : ℕ) → refs o [] ≡ 0
unfolding refs
refs-nil o = refl

pub refs-append :
    (o : ℕ) (ps : List (Option ℕ)) (p : Option ℕ) → refs o (ps ++ p ∷ []) ≡ refs o ps + points o p
unfolding refs
refs-append o [] p = omega arith
refs-append o (q ∷ ps) p = omega (arith, refs-append o ps p)

pub refs-put_ptr :
    (o : ℕ) (ps : List (Option ℕ)) (i : ℕ) (q : Option ℕ)
    → i < length ps
    → refs o (put_ptr ps i q) + points o (ptr_at ps i) ≡ refs o ps + points o q
unfolding refs
refs-put_ptr o [] i q h = absurd (omega arith)
refs-put_ptr o (p ∷ ps) zero q h = omega arith
refs-put_ptr o (p ∷ ps) (suc i) q h = omega (arith, refs-put_ptr o ps i q (omega arith))

points-le : (o : ℕ) (p : Option ℕ) → points o p ≤ 1
points-le o none = omega arith
points-le o (some a) = ground arith

pub refs-le : (o : ℕ) (ps : List (Option ℕ)) → refs o ps ≤ length ps
unfolding refs
refs-le o [] = omega arith
refs-le o (p ∷ ps) = omega (arith, refs-le o ps, points-le o p)

-- A variable that points at `o` is one of those that do.
pub refs-ptr_at : (o : ℕ) (ps : List (Option ℕ)) (i : ℕ) → points o (ptr_at ps i) ≤ refs o ps
unfolding refs
refs-ptr_at o [] i = omega arith
refs-ptr_at o (p ∷ ps) zero = omega arith
refs-ptr_at o (p ∷ ps) (suc i) = omega (arith, refs-ptr_at o ps i)

pub length-put_ptr :
    (ps : List (Option ℕ)) (i : ℕ) (q : Option ℕ) → length (put_ptr ps i q) ≡ length ps
length-put_ptr [] i q = refl
length-put_ptr (p ∷ ps) zero q = refl
length-put_ptr (p ∷ ps) (suc i) q = ap suc (length-put_ptr ps i q)

-- A write at one place leaves the others.
pub ptr_at-put_ptr :
    (ps : List (Option ℕ)) (i j : ℕ) (q : Option ℕ)
    → (i ≡ j → ⊥)
    → ptr_at (put_ptr ps i q) j ≡ ptr_at ps j
ptr_at-put_ptr [] i j q h = refl
ptr_at-put_ptr (p ∷ ps) zero zero q h = absurd (h refl)
ptr_at-put_ptr (p ∷ ps) zero (suc j) q h = refl
ptr_at-put_ptr (p ∷ ps) (suc i) zero q h = refl
ptr_at-put_ptr (p ∷ ps) (suc i) (suc j) q h = ptr_at-put_ptr ps i j q (λ e. h (ap suc e))

-- In range, what is written is what stands there.
pub ptr_at-put_ptr_self :
    (ps : List (Option ℕ)) (i : ℕ) (q : Option ℕ) → i < length ps → ptr_at (put_ptr ps i q) i ≡ q
ptr_at-put_ptr_self [] i q h = absurd (omega arith)
ptr_at-put_ptr_self (p ∷ ps) zero q h = refl
ptr_at-put_ptr_self (p ∷ ps) (suc i) q h = ptr_at-put_ptr_self ps i q (omega arith)
