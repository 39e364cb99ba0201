-- ===== src/Context/Rotation.antt =====
-- Where the queues of Base/Context.cpp are while threads rotate them.
use bugat.Common.{ℕ, ◌+◌, ◌<◌, ◌≡◌, arith}
use bugat.Common.Threads.{total}
use bugat.Common.Count.{count}
use bugat.Context.Invariant.{owns, Reach-Holds}
use bugat.Context.{System, init, Reach}

pub one_place :
    (n k q : ℕ) {s : System}
    → Reach (init n k) s
    → q < s.mem.made
    → count q s.mem.global_que
        + count q s.mem.wait_que
        + count q s.mem.deleted
        + total (owns q) s.threads
      ≡ 1
one_place n k q r h = grind (arith, Reach-Holds n k q r)
