-- ===== src/Events.antt =====
-- Core/Event.h: handlers that are called in the order of their subscriptions. A handler is a
-- number, and an id is the pattern of its `int`.
pub mod Order
mod Tests
use bugat.Common.{ℕ, ◌+◌, ◌%◌, ◌^◌, Bool, true, false, List, [], ◌∷◌, ◌++◌, ◌==◌, if◌then◌else◌}

pub record Subscription : Type 0 where
  pub id : ℕ
  pub handler : ℕ

pub record Event : Type 0 where
  pub next_id : ℕ
  pub handlers : List Subscription

abbrev pub new_event : Event
new_event = record { next_id = 0; handlers = [] }

-- `Subscribe`, with the id that it returns.
unfoldable pub subscribe : ℕ → Event → Event × ℕ
subscribe handler e =
    let id = (e.next_id + 1) % 2 ^ 32 in
    (
      record { next_id = id; handlers = e.handlers ++ record { id = id; handler = handler } ∷ [] },
      id,
    )

-- The loop of `Unsubscribe`, which erases the first entry that has the id.
unfoldable pub erase_first : ℕ → List Subscription → List Subscription
erase_first id [] = []
erase_first id (s ∷ ss) = let rest = erase_first id ss in if s.id == id then ss else s ∷ rest

unfoldable pub unsubscribe : ℕ → Event → Event
unsubscribe id e = record e { handlers = erase_first id e.handlers }

-- `Invoke`: the handlers that it calls, in order.
unfoldable pub invoke_all : List Subscription → List ℕ
invoke_all [] = []
invoke_all (s ∷ ss) = s.handler ∷ invoke_all ss

abbrev pub invoke : Event → List ℕ
invoke e = invoke_all e.handlers

pub data Call : Type 0 where
  call_subscribe : (handler : ℕ) → Call
  call_unsubscribe : (id : ℕ) → Call

unfoldable pub run : List Call → Event → Event
run [] e = e
run (call_subscribe handler ∷ calls) e = run calls (subscribe handler e).0
run (call_unsubscribe id ∷ calls) e = run calls (unsubscribe id e)
