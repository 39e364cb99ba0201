-- ===== src/Events/Tests.antt =====
-- A run of an event of Core/Event.h.
use bugat.Common.{◌≡◌, List, [], ◌∷◌, arith}
use bugat.Events.Order.{invoke-run}
use bugat.Events.{new_event, invoke, Call, call_subscribe, call_unsubscribe, run}

-- Id 4 is unsubscribed before it exists, and id 2 while it does.
abbrev calls : List Call
calls =
    call_subscribe 10
    ∷ call_subscribe 20
    ∷ call_unsubscribe 4
    ∷ call_subscribe 30
    ∷ call_unsubscribe 2
    ∷ call_subscribe 40
    ∷ []

invoke-run_example : invoke (run calls new_event) ≡ 10 ∷ 30 ∷ 40 ∷ []
invoke-run_example = invoke-run calls (omega arith)
