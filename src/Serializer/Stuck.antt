-- ===== src/Serializer/Stuck.antt =====
-- What becomes of an object of Core/TaskSerializer.cpp whose task has thrown, where the exception
-- is caught above `Run`, as `Context::Run` of Base/Context.cpp does in debug builds.
use bugat.Common.{ℕ, ◌+◌, ◌^◌, ◌<◌, ◌≡◌, refl, ◌∙◌, true, List, [], ◌∷◌, ◌++◌, arith, length, subst}
use bugat.Common.Int.{pos_part, ◌+ℤ◌, ◌-ℤ◌}
use bugat.Common.Threads.{total, total-split}
use bugat.Serializer.Invariant.{Inv, Reach-Inv, turn}
use bugat.Serializer.{
  Memory, Pc, idle, holding, Move, link, grow, count_up, post_again, post_skip, fetch, get_size,
  pop, pop_none, no_rounds, shrink, run_task, throw_task, count_down, run_again, run_skip, System,
  pick, init, Reach, here, later,
}

-- Tasks are counted, and nobody has the turn to run them.
pub record Dead (m : Memory) (ts : List Pc) : Type 0 where
  pub in_context : m.context ≡ true
  pub counted : 0 < pos_part m.task_count
  pub nobody : m.ready + total turn ts ≡ 0

-- Threads of an object that nobody runs only post to it.
Move-Dead :
    (m : Memory) (left right : List Pc) {p p' : Pc} {m' : Memory}
    → Move m p m' p'
    → total turn (left ++ p ∷ right) ≡ turn p + (total turn left + total turn right)
    → total turn (left ++ p' ∷ right) ≡ turn p' + (total turn left + total turn right)
    → Dead m (left ++ p ∷ right)
    → Dead m' (left ++ p' ∷ right) × (m'.ran ≡ m.ran)
unfolding ◌+ℤ◌ ◌-ℤ◌
Move-Dead m left right (link task) f f' d = ground arith
Move-Dead m left right grow f f' d = ground arith
Move-Dead m left right count_up f f' d = ground arith
Move-Dead m left right (post_again g) f f' d = ground arith
Move-Dead m left right (post_skip g) f f' d = ground arith
Move-Dead m left right (fetch g) f f' d = ground arith
Move-Dead m left right get_size f f' d = ground arith
Move-Dead m left right (pop g) f f' d = ground arith
Move-Dead m left right (pop_none g) f f' d = ground arith
Move-Dead m left right (no_rounds g) f f' d = ground arith
Move-Dead m left right shrink f f' d = ground arith
Move-Dead m left right run_task f f' d = ground arith
Move-Dead m left right throw_task f f' d = ground arith
Move-Dead m left right count_down f f' d = ground arith
Move-Dead m left right (run_again g) f f' d = ground arith
Move-Dead m left right (run_skip g) f f' d = ground arith

Reach-Dead :
    {s t : System}
    → Reach s t
    → Dead s.mem s.threads
    → Dead t.mem t.threads × (t.mem.ran ≡ s.mem.ran)
Reach-Dead here d = (d, refl)
Reach-Dead (later {t} r (pick left {p} right {m} {p'} e mv)) d =
    let (d', same) = Reach-Dead r d in
    let (d'', again) =
      Move-Dead t.mem left right mv (total-split turn left p right) (total-split turn left p' right)
        (subst (Dead t.mem) e d') in
    (d'', again ∙ same)

-- The state after thread `holding task k e` has thrown.
abbrev pub thrown : Memory → List Pc → ℕ → ℕ → List Pc → System
thrown m left task e right = record {
  mem = record m { ran = m.ran ++ task ∷ []; lost = m.lost + (e + 1) };
  threads = left ++ Pc.idle ∷ right;
}

-- Once a task has thrown, no task of the object ever runs again, whatever is posted to it later
-- and whatever the threads do: the tasks that ran stay those that ran, the last being the one that
-- threw.
pub throw_stops :
    (n : ℕ) {s t : System}
    → Reach (init n) s
    → length s.mem.posted < 2 ^ 60
    → (left : List Pc) (task k e : ℕ) (right : List Pc)
    → s.threads ≡ left ++ holding task k e ∷ right
    → Reach (thrown s.mem left task e right) t
    → (t.mem.ran ≡ s.mem.ran ++ task ∷ []) × (0 < pos_part t.mem.task_count) × (t.mem.ready ≡ 0)
throw_stops n {s} {t} r small left task k e right at after =
    (all.1, all.0.counted, omega (arith, all.0.nobody))
  where
    v : Inv s.mem (left ++ holding task k e ∷ right)
    v = subst (Inv s.mem) at (Reach-Inv n r small)

    f : total turn (left ++ holding task k e ∷ right) ≡ 1 + (total turn left + total turn right)
    f = total-split turn left (holding task k e) right

    f' : total turn (left ++ idle ∷ right) ≡ total turn left + total turn right
    f' = omega (arith, total-split turn left idle right)

    counted : 0 < pos_part s.mem.task_count
    counted = grind (arith, v, f)

    all : Dead t.mem t.threads × (t.mem.ran ≡ s.mem.ran ++ task ∷ [])
    all = Reach-Dead after (record {
      in_context = v.in_context;
      counted = counted;
      nobody = omega (arith, v.one_turn, f, f');
    })
