-- ===== src/Context/Invariant.antt =====
-- What every step of Base/Context.cpp keeps.
use bugat.Common.{
  ℕ, suc, ◌+◌, ◌≡◌, refl, sym, ap, ◌∙◌, [], ◌∷◌, length, length-append, ltb, if◌then◌else◌, arith,
}
use bugat.Common.Threads.{total, total-split, total-replicate}
use bugat.Common.Count.{is, count, count-append}
use bugat.Context.Slots.{count-put_slot, length-put_slot, length-new_slots, count-new_slots}
use bugat.Context.{
  Memory, Pc, idle, posting, looping, loading, exchanging, swapped, parked, running, Move,
  draw_post, load_post, push, enter, draw_swap, leave, load, exchange, reload, park, take_que,
  take_none, pop, pop_none, caught, stop_all, System, Step, pick, initialize, init, Reach, here,
  later,
}

-- Whether a thread alone has the queue `q`.
abbrev pub owns : ℕ → Pc → ℕ
owns q (looping local) = is q local
owns q (loading local slot) = is q local
owns q (exchanging local slot expect) = is q local
owns q (swapped local expect) = is q expect
owns q (running local) = is q local
owns q _ = 0

abbrev pub in_park : Pc → ℕ
in_park (parked local) = 1
in_park _ = 0

-- Whether a thread has drawn a slot that does not exist, of `n + 1`.
abbrev pub stray : ℕ → Pc → ℕ
stray n (posting object slot) = if ltb slot (suc n) then 0 else 1
stray n (loading local slot) = if ltb slot (suc n) then 0 else 1
stray n (exchanging local slot expect) = if ltb slot (suc n) then 0 else 1
stray n _ = 0

-- With the numbers of threads that have `q`, that stand at the wait queue, and that stray.
pub record Inv (n q : ℕ) (m : Memory) (owners parkers strays : ℕ) : Type 0 where
  pub slots : length m.global_que ≡ suc n
  pub waits : length m.wait_que ≡ suc n + parkers
  pub no_stray : strays ≡ 0
  pub placed :
      count q m.global_que + count q m.wait_que + count q m.deleted + owners
      ≡ (if ltb q m.made then 1 else 0)

Move-Inv :
    (n q : ℕ) {m m' : Memory} {p p' : Pc} (o k l : ℕ)
    → Move m p m' p'
    → Inv n q m (owns q p + o) (in_park p + k) (stray n p + l)
    → Inv n q m' (owns q p' + o) (in_park p' + k) (stray n p' + l)
unfolding count
Move-Inv n q o k l (draw_post object j e) v = ground arith
Move-Inv n q o k l (load_post g) v = ground arith
Move-Inv n q o k l push v = ground arith
Move-Inv n q o k l enter v = ground arith
Move-Inv n q o k l (draw_swap j g e) v = ground arith
Move-Inv n q o k l (leave g) v = ground arith
Move-Inv n q o k l (load g) v = ground arith
Move-Inv n q {m} o k l (exchange {local} {slot} {expect} g) v = ground (
  arith,
  count-put_slot q m.global_que slot expect local g,
  length-put_slot m.global_que slot local,
)
Move-Inv n q o k l (reload g h) v = ground arith
Move-Inv n q {m} o k l (park {expect}) v =
    ground (arith, count-append q m.wait_que (expect ∷ []), length-append m.wait_que (expect ∷ []))
Move-Inv n q o k l (take_que g) v = ground (arith, ap (count q) g, ap length g)
Move-Inv n q o k l (take_none g) v = ground (arith, ap length g)
Move-Inv n q o k l (pop g) v = ground arith
Move-Inv n q o k l (pop_none g) v = ground arith
Move-Inv n q o k l caught v = ground arith
Move-Inv n q o k l stop_all v = ground arith

recount :
    {n q : ℕ} {m : Memory} {o k l o' k' l' : ℕ}
    → o ≡ o'
    → k ≡ k'
    → l ≡ l'
    → Inv n q m o k l
    → Inv n q m o' k' l'
recount a b c v = ground arith

abbrev pub Holds : ℕ → ℕ → System → Type 0
Holds n q s =
    Inv n q s.mem (total (owns q) s.threads) (total in_park s.threads) (total (stray n) s.threads)

Step-Holds : (n q : ℕ) {s t : System} → Step s t → Holds n q s → Holds n q t
Step-Holds n q (pick left {p} right {p'} e mv) h =
    recount (sym (total-split (owns q) left p' right)) (sym (total-split in_park left p' right))
      (sym (total-split (stray n) left p' right))
      (Move-Inv n q (total (owns q) left + total (owns q) right)
        (total in_park left + total in_park right) (total (stray n) left + total (stray n) right) mv
        (recount (ap (total (owns q)) e ∙ total-split (owns q) left p right)
          (ap (total in_park) e ∙ total-split in_park left p right)
          (ap (total (stray n)) e ∙ total-split (stray n) left p right) h))

initialize-Inv : (n q : ℕ) → Inv n q (initialize n) 0 0 0
unfolding initialize count
initialize-Inv n q = record {
  slots = length-new_slots (suc n) 0;
  waits = omega (arith, length-new_slots (suc n) 1);
  no_stray = refl;
  placed = ground (arith, count-new_slots (suc n) q 0);
}

pub Reach-Holds : (n k q : ℕ) {s : System} → Reach (init n k) s → Holds n q s
Reach-Holds n k q here =
    recount (sym (total-replicate (owns q) k idle refl)) (sym (total-replicate in_park k idle refl))
      (sym (total-replicate (stray n) k idle refl)) (initialize-Inv n q)
Reach-Holds n k q (later r st) = Step-Holds n q st (Reach-Holds n k q r)
