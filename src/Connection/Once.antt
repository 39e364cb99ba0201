-- ===== src/Connection/Once.antt =====
-- What `Start` and `Close` of Base/Connection.cpp do at most once.
use bugat.Common.{ℕ, ◌+◌, ◌≤◌, ◌≡◌, Bool, if◌then◌else◌, arith}
use bugat.Common.Threads.{total, total_mono}
use bugat.Connection.Invariant.{closer, starter, before_spawn, Reach-Holds}
use bugat.Connection.{Pc, spawning, is_disconnected, System, init, Reach}

before_spawn-le : (p : Pc) → before_spawn p ≤ starter p
before_spawn-le spawning = omega arith
before_spawn-le _ = omega arith

-- Whatever threads call `Start` and `Close`, and how often: once the connection is disconnected,
-- exactly one call of `Close` has fired `OnClose` or is on its way to, and before that none. The
-- socket is closed at most once, the two loops are spawned at most once, and `OnConnect` is
-- fired at most once and for no more than the loops that were spawned.
pub close_once :
    (n : ℕ) (socket : Bool) {s : System}
    → Reach (init n socket) s
    → (s.con.on_closes + total closer s.threads ≡ (if is_disconnected s.con.state then 1 else 0))
      × (s.con.socket_closes ≤ 1)
      × (s.con.spawned ≤ 1)
      × (s.con.on_connects ≤ s.con.spawned)
close_once n socket {s} r =
    let h = Reach-Holds n socket r in
    let k = total_mono before_spawn starter before_spawn-le s.threads in ground (arith, h.inv)
