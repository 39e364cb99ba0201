-- ===== src/Framing/Message/Holds.antt =====
-- What a block of Base/DataBlock.h holds: what was consumed, what waits, and free room.
use bugat.Common.{
  ℕ, ◌+◌, ◌^◌, ◌≤◌, ◌<◌, ◌≡◌, refl, sym, ap, subst, ◌∙◌, List, [], ◌++◌, append_assoc, arith,
  length, drop, length-append, length-replicate, length-drop, take-append_self, drop-append_add,
}
use bugat.Framing.Block.{DataBlock, max_size, new_block, get_data_size, consume, update, write}

pub record Holds (n : ℕ) (b : DataBlock) (past waiting room : List ℕ) : Type 0 where
  pub cells : b.buf ≡ past ++ (waiting ++ room)
  pub at_head : b.head ≡ length past
  pub at_tail : b.tail ≡ length past + length waiting
  pub whole : length past + length waiting + length room ≡ max_size n

pub new_block-Holds : (n : ℕ) → Holds n (new_block n) [] [] (new_block n).buf
unfolding new_block
new_block-Holds n = record {
  cells = refl;
  at_head = refl;
  at_tail = omega arith;
  whole = omega (arith, length-replicate {A = ℕ} (max_size n) 0);
}

-- Bytes written behind `pre` stand between it and the rest of the room.
pub write-append :
    (pre room bytes : List ℕ)
    → write (length pre) bytes (pre ++ room) ≡ pre ++ (bytes ++ drop (length bytes) room)
unfolding write
write-append pre room bytes =
    ap (λ l. l ++ (bytes ++ drop (length pre + length bytes) (pre ++ room)))
      (take-append_self pre room)
    ∙ ap (λ l. pre ++ (bytes ++ l)) (drop-append_add pre room (length bytes))

update-eq :
    (n : ℕ) (b : DataBlock) (k : ℕ)
    → max_size n < 2 ^ 31
    → b.tail + k ≤ max_size n
    → (update n b k).0 ≡ record b { tail = b.tail + k }
unfolding update
update-eq n b k small fits = ground arith

consume-eq :
    (b : DataBlock) (k : ℕ)
    → b.tail < 2 ^ 31
    → b.head + k ≤ b.tail
    → (consume b k).0 ≡ record b { head = b.head + k }
unfolding consume
consume-eq b k small fits = ground arith

module _ {n : ℕ} {b : DataBlock} {past waiting room : List ℕ} (small : max_size n < 2 ^ 31)
    (h : Holds n b past waiting room) where
  pub data_size_lem : get_data_size b ≡ length waiting
  data_size_lem = omega (arith, h.at_head, h.at_tail, h.whole)

  -- A read of the socket, and the `Update` after it.
  pub fill-Holds :
      (bytes : List ℕ)
      → length bytes ≤ length room
      → Holds n
          (update n (record b { buf = write b.tail bytes b.buf }) (length bytes)).0
          past
          (waiting ++ bytes)
          (drop (length bytes) room)
  unfolding update
  fill-Holds bytes fits =
      subst (λ c. Holds n c past (waiting ++ bytes) (drop (length bytes) room))
        (sym (update-eq n _ (length bytes) small (omega (arith, h.at_tail, h.whole))))
        (record {
          cells = cells;
          at_head = h.at_head;
          at_tail = omega (arith, h.at_tail, length-append waiting bytes);
          whole =
              omega (arith, h.whole, length-append waiting bytes, length-drop (length bytes) room);
        })
    where
      tail_lem : b.tail ≡ length (past ++ waiting)
      tail_lem = h.at_tail ∙ sym (length-append past waiting)

      cells : write b.tail bytes b.buf ≡ past ++ ((waiting ++ bytes) ++ drop (length bytes) room)
      cells =
          ap (λ t. write t bytes b.buf) tail_lem
          ∙ ap (write (length (past ++ waiting)) bytes)
              (h.cells ∙ sym (append_assoc past waiting room))
          ∙ write-append (past ++ waiting) room bytes
          ∙ append_assoc past waiting _
          ∙ ap (◌++◌ past) (sym (append_assoc waiting bytes _))

  -- A `Consume` of the first `k` waiting bytes.
  pub consume-Holds :
      (first rest : List ℕ) (k : ℕ)
      → waiting ≡ first ++ rest
      → k ≡ length first
      → Holds n (consume b k).0 (past ++ first) rest room
  unfolding consume
  consume-Holds first rest k e ek =
      subst (λ c. Holds n c (past ++ first) rest room)
        (sym (
          consume-eq b k (omega (arith, h.at_tail, h.whole))
            (omega (arith, h.at_head, h.at_tail, len))))
        (record {
          cells = h.cells ∙ ap (λ w. past ++ (w ++ room)) e ∙ simp append_assoc;
          at_head = omega (arith, h.at_head, ek, length-append past first);
          at_tail = omega (arith, h.at_tail, len, length-append past first);
          whole = omega (arith, h.whole, len, length-append past first);
        })
    where
      len : length waiting ≡ length first + length rest
      len = ap length e ∙ length-append first rest
