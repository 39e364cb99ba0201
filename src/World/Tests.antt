-- ===== src/World/Tests.antt =====
-- Two sessions of the game server: one that answers, and one whose connection is closed at once.
use bugat.Common.{ℕ, ◌+◌, ◌≡◌, ◌⊎◌, refl, true, none, some, List, [], ◌∷◌, ltb, if◌then◌else◌}
use bugat.GameData.Table.{find}
use bugat.World.Answers.{Replied}
use bugat.World.Members.{member, manager-member}
use bugat.World.Replies.{replies_in_order}
use bugat.World.{
  Packet, Fb, connects, runs, reads, Op, accepts, event, World, start, happens, apply, apply_all,
}

-- Bodies below 100 can be read.
abbrev fb : Fb
fb = record { get_move = λ b. if ltb b 100 then some b else none; move_answer = λ p. p + 1000 }

abbrev packet : ℕ → ℕ → Packet
packet k b = record { kind = k; body = b }

abbrev ops : List Op
ops =
    accepts
    ∷ event 0 connects
    ∷ event 0 (reads (packet 3 7))
    ∷ event 0 (reads (packet 5 8))
    ∷ event 0 runs
    ∷ event 0 (reads (packet 3 200))
    ∷ event 0 (reads (packet 3 9))
    ∷ event 0 runs
    ∷ event 0 runs
    ∷ event 0 runs
    ∷ []

answered_both : ((apply_all fb ops start).sessions 0).sent ≡ packet 4 1007 ∷ packet 4 1009 ∷ []
unfolding apply apply_all happens find
answered_both = refl

one_error : (apply_all fb ops start).errors ≡ 1
unfolding apply apply_all happens find
one_error = refl

replies_in_order_example : Replied fb ((apply_all fb ops start).sessions 0)
replies_in_order_example = replies_in_order fb ops 0

manager-member_example :
    (((apply_all fb ops start).sessions 0).late ≡ true)
    ⊎ ((apply_all fb ops start).manager 0 ≡ member 0 ((apply_all fb ops start).sessions 0))
manager-member_example = manager-member fb ops 0

abbrev one_accepted : World
one_accepted = apply fb accepts start
