-- ===== src/Pool/Buckets/Fits.antt =====
-- The blocks that a type gets in Core/memory/MemoryPool.h are large enough for it.
use bugat.Common.{
  ℕ, zero, suc, ◌-◌, ◌/◌, ◌^◌, ◌≤◌, ◌<◌, ◌≡◌, refl, sym, ap, subst, ◌∙◌, ◌*◌, false, if_cases,
  ==_iff, leb, ◌==◌, if◌then◌else◌, arith,
}
use native.Mathlib.Nat.{pow-succ'}
use bugat.Pool.Buckets.{digits, bit_width, max, get_size_index, bucket_size, pool_index}

two-pow : (k : ℕ) → (2 ^ suc k ≡ 2 * 2 ^ k) × (0 < 2 ^ k)
two-pow zero = omega arith
two-pow (suc k) = (pow-succ' 2 (suc k), omega (arith, pow-succ' 2 k, (two-pow k).1))

-- A number is below two to the number of its digits.
digits-lt : (fuel n : ℕ) → n ≤ fuel → n < 2 ^ digits fuel n
unfolding digits
digits-lt zero n h = omega arith
digits-lt (suc fuel) n h =
    if_cases (λ d. n < 2 ^ d) (n == 0) 0 (suc (digits fuel (n / 2)))
      (λ e. omega (arith, (==_iff n 0).0 e))
      λ e.
        let positive : 0 < n = ground arith in
        omega (arith, positive, two-pow (digits fuel (n / 2)), digits-lt fuel (n / 2) (omega arith))

-- The number before a power of two has as many digits as the power says.
digits-pow : (fuel k : ℕ) → 2 ^ k - 1 ≤ fuel → digits fuel (2 ^ k - 1) ≡ k
unfolding digits
digits-pow zero zero h = refl
digits-pow zero (suc k) h = absurd (omega (arith, two-pow k))
digits-pow (suc fuel) zero h = refl
digits-pow (suc fuel) (suc k) h =
    if_cases (λ d. d ≡ suc k) (2 ^ suc k - 1 == 0) 0 (suc (digits fuel ((2 ^ suc k - 1) / 2)))
      (λ e. absurd (omega (arith, two-pow k, (==_iff (2 ^ suc k - 1) 0).0 e)))
      λ e.
        let half : (2 ^ suc k - 1) / 2 ≡ 2 ^ k - 1 = omega (arith, two-pow k) in
        ap suc (ap (digits fuel) half ∙ digits-pow fuel k (omega (arith, two-pow k)))

max-le : (a b : ℕ) → (a ≤ max a b) × (b ≤ max a b)
max-le a b = ground arith

max-same : (a b : ℕ) → b ≤ a → max a b ≡ a
max-same a b h = ground arith

-- A power of two from 8 on, and its index.
index-pow : (k : ℕ) → 8 ≤ 2 ^ k → get_size_index (2 ^ k) ≡ k - 2
index-pow k h =
    ap (λ n. bit_width (n - 1) - 2) (max-same (2 ^ k) 8 h)
    ∙ ap (λ n. n - 2) (digits-pow (2 ^ k - 1) k (omega arith))

-- Three digits at least: no power below the third reaches 8.
three_le : (k : ℕ) → 8 ≤ 2 ^ k → 3 ≤ k
three_le zero h = absurd (omega arith)
three_le (suc zero) h = absurd (omega arith)
three_le (suc (suc zero)) h = absurd (omega arith)
three_le (suc (suc (suc k))) h = omega arith

bucket-pow : (size : ℕ) → (k : ℕ) × (bucket_size size ≡ 2 ^ k) × (8 ≤ 2 ^ k) × (size ≤ 2 ^ k)
bucket-pow size =
    let n = max size 8 in
    let enough = digits-lt (n - 1) (n - 1) (omega arith) in
    let larger = max-le size 8 in
    let small : leb n 1 ≡ false = ground arith in
    (
      bit_width (n - 1),
      ap (λ b. if b then 1 else 2 ^ bit_width (n - 1)) small,
      omega arith,
      omega arith,
    )

-- An object of one size fits into the blocks of the pool of every size with the same index.
pub pool_index-fits : (a b : ℕ) → pool_index a ≡ pool_index b → a ≤ bucket_size b
pool_index-fits a b h =
    let (k, is_a, big_a, fits) = bucket-pow a in
    let (l, is_b, big_b, fits_b) = bucket-pow b in
    let same : k - 2 ≡ l - 2 =
      sym (index-pow k big_a)
      ∙ sym (ap get_size_index is_a)
      ∙ h
      ∙ ap get_size_index is_b
      ∙ index-pow l big_b in
    let equal : k ≡ l = omega (arith, same, three_le k big_a, three_le l big_b) in
    subst (λ n. a ≤ n) (ap (λ j. 2 ^ j) equal ∙ sym is_b) fits
