-- ===== src/Server/Tests.antt =====
-- Two accept loops of Base/Server.cpp on one port, one of which meets an error.
use bugat.Common.{◌≡◌, refl, true, false, List, [], ◌∷◌}
use bugat.Server.Loops.{Answered, server_accepts}
use bugat.Server.{
  on_accept, start_connection, idle_server, spawn_accepts, ServerOp, op_accept, op_complete,
  op_task, apply, apply_all,
}

abbrev ops : List ServerOp
ops =
    op_accept 9000 2
    ∷ op_task
    ∷ op_task
    ∷ op_complete 1 false
    ∷ op_complete 0 true
    ∷ op_task
    ∷ op_task
    ∷ op_complete 1 false
    ∷ op_task
    ∷ []

two_served :
    (apply_all ops idle_server).log
    ≡ on_accept (record { factory = 0; socket = 1 })
      ∷ start_connection (record { factory = 0; socket = 1 })
      ∷ on_accept (record { factory = 0; socket = 2 })
      ∷ start_connection (record { factory = 0; socket = 2 })
      ∷ []
unfolding apply apply_all spawn_accepts
two_served = refl

-- The loop that met the error is not there again.
one_ended : (apply_all ops idle_server).ended ≡ 0 ∷ []
unfolding apply apply_all spawn_accepts
one_ended = refl

server_accepts_example : Answered (apply_all ops idle_server)
server_accepts_example = server_accepts ops
