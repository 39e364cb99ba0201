-- ===== src/Serializer/Invariant.antt =====
-- What every step of the serializer protocol of Core/TaskSerializer.cpp keeps.
use bugat.Common.{
  ℕ, ◌+◌, ◌^◌, ◌≤◌, ◌<◌, ◌≡◌, refl, ap, true, List, [], ◌∷◌, ◌++◌, if◌then◌else◌, arith, length,
  length-append, subst,
}
use bugat.Common.Int.{pos_part, neg_part, ◌+ℤ◌, ◌-ℤ◌}
use bugat.Common.Threads.{total, total-split, total-replicate}
use bugat.Serializer.{
  Memory, Pc, idle, linked, sized, notify, start, looping, took, holding, finishing, report, Move,
  link, grow, count_up, post_again, post_skip, fetch, get_size, pop, pop_none, no_rounds, shrink,
  run_task, throw_task, count_down, run_again, run_skip, on_post, on_run, System, Step, pick, init,
  Reach, here, later,
}

-- A task linked and not yet counted.
abbrev pub uncounted : Pc → ℕ
uncounted linked = 1
uncounted sized = 1
uncounted _ = 0

-- Tasks popped and not yet subtracted.
abbrev pub unsubtracted : Pc → ℕ
unsubtracted (looping left e) = e
unsubtracted (took task left e) = e + 1
unsubtracted (holding task left e) = e + 1
unsubtracted (finishing e) = e
unsubtracted _ = 0

-- Inside `Run`.
abbrev pub running : Pc → ℕ
running start = 1
running (looping left e) = 1
running (took task left e) = 1
running (holding task left e) = 1
running (finishing e) = 1
running _ = 0

-- The turn to run the object, held by a thread that runs it or is about to post it.
abbrev pub turn : Pc → ℕ
turn (notify c) = if on_post true c then 1 else 0
turn (report c) = if on_run true c then 1 else 0
turn p = running p

abbrev pub held : List Pc → List ℕ
held [] = []
held (took task left e ∷ ps) = task ∷ held ps
held (holding task left e ∷ ps) = task ∷ held ps
held (_ ∷ ps) = held ps

pub record Inv (m : Memory) (ts : List Pc) : Type 0 where
  pub in_context : m.context ≡ true
  pub balance :
      pos_part m.task_count + total uncounted ts
      ≡ length m.que + total unsubtracted ts + m.lost + neg_part m.task_count
  pub counted : pos_part m.task_count + total uncounted ts ≤ length m.posted
  pub one_turn : m.ready + total turn ts ≤ 1
  pub no_turn : pos_part m.task_count ≡ 0 → m.ready + total turn ts ≡ 0
  pub some_turn : m.lost ≡ 0 → 0 < pos_part m.task_count → m.ready + total turn ts ≡ 1

module _ (m : Memory) (left right : List Pc) where
  -- A thread that moves from `p` to `p'` among the others.
  record Facts (p p' : Pc) : Type 0 where
    un :
        total uncounted (left ++ p ∷ right)
        ≡ uncounted p + (total uncounted left + total uncounted right)
    un' :
        total uncounted (left ++ p' ∷ right)
        ≡ uncounted p' + (total uncounted left + total uncounted right)
    sub :
        total unsubtracted (left ++ p ∷ right)
        ≡ unsubtracted p + (total unsubtracted left + total unsubtracted right)
    sub' :
        total unsubtracted (left ++ p' ∷ right)
        ≡ unsubtracted p' + (total unsubtracted left + total unsubtracted right)
    tu : total turn (left ++ p ∷ right) ≡ turn p + (total turn left + total turn right)
    tu' : total turn (left ++ p' ∷ right) ≡ turn p' + (total turn left + total turn right)

  facts : (p p' : Pc) → Facts p p'
  facts p p' = record {
    un = total-split uncounted left p right;
    un' = total-split uncounted left p' right;
    sub = total-split unsubtracted left p right;
    sub' = total-split unsubtracted left p' right;
    tu = total-split turn left p right;
    tu' = total-split turn left p' right;
  }

  Move-Inv :
      {p p' : Pc} {m' : Memory}
      → Move m p m' p'
      → Facts p p'
      → length m.posted < 2 ^ 60
      → Inv m (left ++ p ∷ right)
      → Inv m' (left ++ p' ∷ right)
  unfolding ◌+ℤ◌ ◌-ℤ◌
  Move-Inv (link task) f b v =
      ground (arith, length-append m.que (task ∷ []), length-append m.posted (task ∷ []))
  Move-Inv grow f b v = ground arith
  Move-Inv count_up f b v = ground arith
  Move-Inv (post_again g) f b v = ground arith
  Move-Inv (post_skip g) f b v = ground arith
  Move-Inv (fetch g) f b v = ground arith
  Move-Inv get_size f b v = ground arith
  Move-Inv (pop g) f b v = ground (arith, ap length g)
  Move-Inv (pop_none g) f b v = ground arith
  Move-Inv (no_rounds g) f b v = ground arith
  Move-Inv shrink f b v = ground arith
  Move-Inv run_task f b v = ground arith
  Move-Inv throw_task f b v = ground arith
  Move-Inv count_down f b v = ground arith
  Move-Inv (run_again g) f b v = ground arith
  Move-Inv (run_skip g) f b v = ground arith

pub Inv-init : (n : ℕ) → Inv (init n).mem (init n).threads
Inv-init n = record {
  in_context = refl;
  balance =
      omega
        (arith, total-replicate uncounted n idle refl, total-replicate unsubtracted n idle refl);
  counted = omega (arith, total-replicate uncounted n idle refl);
  one_turn = omega (arith, total-replicate turn n idle refl);
  no_turn = λ _. omega (arith, total-replicate turn n idle refl);
  some_turn = λ _ h. absurd (omega arith);
}

-- Posting only adds to the record of what was posted.
Move-posted : {m m' : Memory} {p p' : Pc} → Move m p m' p' → length m.posted ≤ length m'.posted
Move-posted {m} (link task) = omega (arith, length-append m.posted (task ∷ []))
Move-posted grow = omega arith
Move-posted _ = omega arith

pub Step-posted : {s t : System} → Step s t → length s.mem.posted ≤ length t.mem.posted
Step-posted (pick left right e mv) = Move-posted mv

pub Step-Inv :
    {s t : System}
    → Step s t
    → length s.mem.posted < 2 ^ 60
    → Inv s.mem s.threads
    → Inv t.mem t.threads
Step-Inv {s} (pick left {p} right {m} {p'} e mv) small v =
    Move-Inv s.mem left right mv (facts s.mem left right p p') small (subst (Inv s.mem) e v)

pub Reach-Inv :
    (n : ℕ) {s : System} → Reach (init n) s → length s.mem.posted < 2 ^ 60 → Inv s.mem s.threads
Reach-Inv n here small = Inv-init n
Reach-Inv n (later {t} r st) small =
    let before : length t.mem.posted < 2 ^ 60 = omega (arith, Step-posted st) in
    Step-Inv st before (Reach-Inv n r before)
