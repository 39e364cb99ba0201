-- ===== src/Queue/Tests.antt =====
-- Runs of Core/lockfree/LockFreeQueue.h: a lost push, and a thread that uses the queue alone.
use bugat.Common.{ℕ, ◌≡◌, refl, true, ◌&&◌, ◌↔◌, some, List, ◌∷◌, [], ◌++◌}
use bugat.Common.Int.{pos, ◌+ℤ◌}
use bugat.TaggedPtr.{TaggedPtr, eq_ptr, eq_tagged, max_tag_compress}
use bugat.Queue.Alone.{Holds, first_in_first_out, empty_iff_popped}
use bugat.Queue.Lost.{push_can_be_lost}
use bugat.Queue.Steps.{At, Move, System, pick, init, Reach, here, later}
use bugat.Queue.{Memory, null_handle, Pc, idle, pop_next, put_next, construct, new_queue}

push_can_be_lost_example :
    (s : System) × Reach max_tag_compress (init 2) s
    × (s.threads ≡ idle ∷ idle ∷ [])
    × (s.mem.pushed ≡ 8 ∷ 7 ∷ [])
    × (s.mem.popped ≡ 8 ∷ [])
    × (s.mem.size ≡ pos 1)
    × (s.mem.head ≡ s.mem.tail)
    × ((h : ℕ) × At s.mem.head h × ((s.mem.nodes h).next ≡ null_handle))
push_can_be_lost_example = push_can_be_lost max_tag_compress 7 8

-- One thread pushes, and `_tail` stays behind because its exchange fails.
abbrev end_zero : TaggedPtr
end_zero = record { ptr = some 0; tag = 0 }

abbrev to_one : TaggedPtr
to_one = record { ptr = some 1; tag = 0 }

abbrev one_pushed : Memory
one_pushed = record (put_next (construct (record new_queue { made = 2 }) 1 7) 0 to_one) {
  size = pos 1;
  pushed = 7 ∷ [];
}

push_alone : Reach max_tag_compress (init 1) (record { mem = one_pushed; threads = idle ∷ [] })
unfolding ◌+ℤ◌
push_alone =
    later
      (later
        (later
          (later
            (later
              (later
                (later
                  (later
                    (later (later here (pick [] [] refl (Move.call_push 7)))
                      (pick [] [] refl Move.load_top))
                    (pick [] [] refl (Move.fresh refl)))
                  (pick [] [] refl Move.construct_node))
                (pick [] [] refl Move.load_tail))
              (pick [] [] refl (Move.load_next refl)))
            (pick [] [] refl (Move.at_end refl refl)))
          (pick [] [] refl (Move.link refl refl)))
        (pick [] [] refl Move.swing_fails))
      (pick [] [] refl Move.grow)

first_in_first_out_example :
    (vs : List ℕ) × (one_pushed.pushed ≡ one_pushed.popped ++ vs) × Holds one_pushed vs
first_in_first_out_example =
    first_in_first_out max_tag_compress (record { mem = one_pushed; threads = idle ∷ [] })
      push_alone refl

abbrev popping : Pc
popping = pop_next end_zero end_zero to_one

pop_alone : Reach max_tag_compress (init 1) (record { mem = one_pushed; threads = popping ∷ [] })
pop_alone =
    later
      (later
        (later (later push_alone (pick [] [] refl Move.call_pop))
          (pick [] [] refl Move.load_pop_tail))
        (pick [] [] refl Move.load_pop_head))
      (pick [] [] refl (Move.load_pop_next refl))

empty_iff_popped_example :
    ((eq_ptr end_zero.ptr end_zero.ptr && eq_tagged to_one null_handle) ≡ true)
    ↔ (one_pushed.pushed ≡ one_pushed.popped)
empty_iff_popped_example =
    empty_iff_popped max_tag_compress (record { mem = one_pushed; threads = popping ∷ [] }) end_zero
      end_zero to_one pop_alone refl
