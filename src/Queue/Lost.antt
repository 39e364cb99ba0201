-- ===== src/Queue/Lost.antt =====
-- A push to the queue of Core/lockfree/LockFreeQueue.h that is lost. The link of a node is not
-- compared with a tag: the node that a thread has found at the end may be popped and freed before
-- it links to it, and the last free node has a null link, as the last node of the queue has.
use bugat.Common.{ℕ, ◌+◌, ◌%◌, ◌≡◌, refl, some, [], ◌∷◌}
use bugat.Common.Int.{pos, ◌+ℤ◌, ◌-ℤ◌}
use bugat.TaggedPtr.{TaggedPtr}
use bugat.Queue.Steps.{At, Move, System, pick, init, Reach, here, later}
use bugat.Queue.{Memory, null_handle, construct, put_next, Pc, idle, push_link, new_queue}

module _ (max_tag v w : ℕ) where
  abbrev zero_end : TaggedPtr
  zero_end = record { ptr = some 0; tag = 0 }

  abbrev one_made : Memory
  one_made = construct (record new_queue { made = 2 }) 1 v

  -- Thread 0 has found node 0 at the end, and is about to link its node 1.
  about_to_link :
      Reach max_tag
        (init 2)
        (record { mem = one_made; threads = push_link v 1 zero_end null_handle ∷ idle ∷ [] })
  about_to_link =
      later
        (later
          (later
            (later
              (later
                (later (later here (pick [] (idle ∷ []) refl (Move.call_push v)))
                  (pick [] (idle ∷ []) refl Move.load_top))
                (pick [] (idle ∷ []) refl (Move.fresh refl)))
              (pick [] (idle ∷ []) refl Move.construct_node))
            (pick [] (idle ∷ []) refl Move.load_tail))
          (pick [] (idle ∷ []) refl (Move.load_next refl)))
        (pick [] (idle ∷ []) refl (Move.at_end refl refl))

  abbrev stalled : Pc
  stalled = push_link v 1 zero_end null_handle

  abbrev two_tag : TaggedPtr
  two_tag = record { ptr = some 2; tag = (0 + 1) % max_tag }

  -- Thread 1 has pushed `w` behind node 0.
  abbrev pushed_two : Memory
  pushed_two =
      record (put_next (construct (record one_made { made = 3 }) 2 w) 0
        (record { ptr = some 2; tag = 0 })) { tail = two_tag; size = pos 1; pushed = w ∷ [] }

  other_pushed : Reach max_tag (init 2) (record { mem = pushed_two; threads = stalled ∷ idle ∷ [] })
  unfolding ◌+ℤ◌
  other_pushed =
      later
        (later
          (later
            (later
              (later
                (later
                  (later
                    (later
                      (later (later about_to_link (pick (stalled ∷ []) [] refl (Move.call_push w)))
                        (pick (stalled ∷ []) [] refl Move.load_top))
                      (pick (stalled ∷ []) [] refl (Move.fresh refl)))
                    (pick (stalled ∷ []) [] refl Move.construct_node))
                  (pick (stalled ∷ []) [] refl Move.load_tail))
                (pick (stalled ∷ []) [] refl (Move.load_next refl)))
              (pick (stalled ∷ []) [] refl (Move.at_end refl refl)))
            (pick (stalled ∷ []) [] refl (Move.link refl refl)))
          (pick (stalled ∷ []) [] refl (Move.swing refl)))
        (pick (stalled ∷ []) [] refl Move.grow)

  -- Thread 1 has popped it, and node 0 is free.
  abbrev popped_two : Memory
  popped_two = record (put_next pushed_two 0 null_handle) {
    head = two_tag;
    top = zero_end;
    size = pos 0;
    popped = w ∷ [];
  }

  other_popped : Reach max_tag (init 2) (record { mem = popped_two; threads = stalled ∷ idle ∷ [] })
  unfolding ◌-ℤ◌
  other_popped =
      later
        (later
          (later
            (later
              (later
                (later
                  (later
                    (later
                      (later
                        (later (later other_pushed (pick (stalled ∷ []) [] refl Move.call_pop))
                          (pick (stalled ∷ []) [] refl Move.load_pop_tail))
                        (pick (stalled ∷ []) [] refl Move.load_pop_head))
                      (pick (stalled ∷ []) [] refl (Move.load_pop_next refl)))
                    (pick (stalled ∷ []) [] refl (Move.found refl refl refl)))
                  (pick (stalled ∷ []) [] refl (Move.read_value refl)))
                (pick (stalled ∷ []) [] refl (Move.unlink refl)))
              (pick (stalled ∷ []) [] refl (Move.shrink refl)))
            (pick (stalled ∷ []) [] refl Move.load_free_top))
          (pick (stalled ∷ []) [] refl Move.link_free))
        (pick (stalled ∷ []) [] refl (Move.give_back refl))

  abbrev lost : Memory
  lost = record (put_next popped_two 0 (record { ptr = some 1; tag = 0 })) {
    size = pos 1;
    pushed = w ∷ v ∷ [];
  }

  all_returned : Reach max_tag (init 2) (record { mem = lost; threads = idle ∷ idle ∷ [] })
  unfolding ◌+ℤ◌
  all_returned =
      later
        (later (later other_popped (pick [] (idle ∷ []) refl (Move.link refl refl)))
          (pick [] (idle ∷ []) refl Move.swing_fails))
        (pick [] (idle ∷ []) refl Move.grow)

-- A value that is pushed can be lost: two threads can come to a state in which all their calls
-- have returned, `v` and `w` were pushed and only `w` was popped, and the size is 1; but head and
-- tail are one node without a next one, so that `Pop` finds the queue empty.
pub push_can_be_lost :
    (max_tag v w : ℕ)
    → (s : System) × Reach max_tag (init 2) s
      × (s.threads ≡ idle ∷ idle ∷ [])
      × (s.mem.pushed ≡ w ∷ v ∷ [])
      × (s.mem.popped ≡ w ∷ [])
      × (s.mem.size ≡ pos 1)
      × (s.mem.head ≡ s.mem.tail)
      × ((h : ℕ) × At s.mem.head h × ((s.mem.nodes h).next ≡ null_handle))
push_can_be_lost max_tag v w = (
  record { mem = lost max_tag v w; threads = idle ∷ idle ∷ [] },
  all_returned max_tag v w,
  refl,
  refl,
  refl,
  refl,
  refl,
  (2, refl, refl),
)
