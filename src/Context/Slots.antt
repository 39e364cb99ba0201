-- ===== src/Context/Slots.antt =====
-- How often a queue of Base/Context.cpp stands in a list of queues.
use bugat.Common.{
  ℕ, zero, suc, ◌+◌, ◌<◌, ◌≡◌, refl, ap, Option, none, some, List, [], ◌∷◌, get_elem?, arith,
  length, ltb, leb, ◌&&◌, if◌then◌else◌,
}
use bugat.Common.Count.{is, count}
use bugat.Context.{put_slot, new_slots}

some_eq : {a b : ℕ} → some a ≡ some b → a ≡ b
some_eq e = cc

none≢some : {a : ℕ} → ◌≡◌ {A = Option ℕ} none (some a) → ⊥
none≢some e = cc

pub count-put_slot :
    (q : ℕ) (xs : List ℕ) (i old new : ℕ)
    → get_elem? xs i ≡ some old
    → count q (put_slot xs i new) + is q old ≡ count q xs + is q new
unfolding count
count-put_slot q [] i old new e = absurd (none≢some e)
count-put_slot q (x ∷ xs) zero old new e = omega (arith, ap (is q) (some_eq e))
count-put_slot q (x ∷ xs) (suc i) old new e = omega (arith, count-put_slot q xs i old new e)

-- A slot in range holds a queue.
pub get_elem?-lt : (xs : List ℕ) (i : ℕ) → i < length xs → (q : ℕ) × (get_elem? xs i ≡ some q)
get_elem?-lt [] i h = absurd (omega arith)
get_elem?-lt (x ∷ xs) zero h = (x, refl)
get_elem?-lt (x ∷ xs) (suc i) h = get_elem?-lt xs i (omega arith)

pub length-put_slot : (xs : List ℕ) (i q : ℕ) → length (put_slot xs i q) ≡ length xs
length-put_slot [] i q = refl
length-put_slot (x ∷ xs) zero q = refl
length-put_slot (x ∷ xs) (suc i) q = ap suc (length-put_slot xs i q)

pub length-new_slots : (n q : ℕ) → length (new_slots n q) ≡ n
length-new_slots zero q = refl
length-new_slots (suc n) q = ap suc (length-new_slots n (q + 2))

-- The slots from `a` and the wait queue from `a + 1` hold every number from `a` on once.
pub count-new_slots :
    (n q a : ℕ)
    → count q (new_slots n a) + count q (new_slots n (a + 1))
      ≡ (if leb a q && ltb q (a + (n + n)) then 1 else 0)
unfolding count
count-new_slots zero q a = ground arith
count-new_slots (suc n) q a = ground (arith, count-new_slots n q (a + 2))
