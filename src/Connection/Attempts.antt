-- ===== src/Connection/Attempts.antt =====
-- How often a thread goes round the loop of `Close` of Base/Connection.cpp.
use bugat.Common.{ℕ, ◌≤◌, ◌≡◌, ap, Bool, true, false, ◌⊎◌, List, ◌∷◌, ◌++◌, arith}
use bugat.Common.Threads.{total, total-split}
use bugat.Connection.Invariant.{wrong, Reach-Holds}
use bugat.Connection.{
  ConnectionState, disconnected, Pc, testing, is_disconnected, System, init, Reach,
}

-- A thread of a reachable state is right.
thread_right :
    (n : ℕ) (socket : Bool) {s : System} (left : List Pc) (p : Pc) (right : List Pc)
    → Reach (init n socket) s
    → s.threads ≡ left ++ p ∷ right
    → wrong s.con.state p ≡ 0
thread_right n socket {s} left p right r e = omega (
  arith,
  (Reach-Holds n socket r).right_loops,
  ap (total (wrong s.con.state)) e,
  total-split (wrong s.con.state) left p right,
)

-- The loop of `Close` ends, whatever other threads do: a call whose exchange failed has failed
-- at most three times, the third time because the connection is disconnected; and where `expect`
-- says so, so that the call gives up, the connection is disconnected.
pub close_attempts :
    (n : ℕ) (socket : Bool) {s : System} (left right : List Pc) (expect : ConnectionState)
    (fails : ℕ)
    → Reach (init n socket) s
    → s.threads ≡ left ++ testing expect fails ∷ right
    → (fails ≤ 3)
      × ((fails ≤ 2) ⊎ (is_disconnected expect ≡ true))
      × ((is_disconnected expect ≡ false) ⊎ (s.con.state ≡ disconnected))
close_attempts n socket left right expect fails r e =
    let h = thread_right n socket left (testing expect fails) right r e in ground arith
