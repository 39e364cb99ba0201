-- ===== src/Queue/Alone/Ends.antt =====
-- The writes to both ends of the queue of Core/lockfree/LockFreeQueue.h and to its size, where one
-- thread uses it.
use bugat.Common.{
  ℕ, ◌+◌, ◌-◌, false, ◌≤◌, ◌≡◌, sym, ap, ap₂, subst, ◌∙◌, none, some, List, [], ◌∷◌, ◌++◌,
  append_assoc, append-nil, length, length-append, arith,
}
use bugat.Common.Count.{is, count, count-append_one, below}
use bugat.Common.Int.{pos, ◌+ℤ◌, ◌-ℤ◌}
use bugat.TaggedPtr.{TaggedPtr, eq_ptr}
use bugat.Queue.Alone.Chain.{
  Linked, values, put_node-Free, values-put_next, values-append_one, next_on, link-Linked,
}
use bugat.Queue.{Memory, null_handle, put_next}
use bugat.Queue.Alone.Writes.{Good, same_node}

-- The node goes behind the last one.
pub link-Good :
    (m : Memory) (n t value : ℕ) (p : TaggedPtr)
    → m.tail.ptr ≡ some t
    → (m.nodes t).next.ptr ≡ none
    → p.ptr ≡ some n
    → m.nodes n ≡ record { next = null_handle; value = value }
    → Good m (n ∷ []) [] [] 0 0
    → Good (put_next m t p) [] (value ∷ []) [] 1 0
unfolding count
link-Good m n t value p at_t end_t at_n new g =
    let same : g.last ≡ t = same_node (sym g.tail ∙ at_t) in
    let nodes = (put_next m t p).nodes in
    let on : 1 ≤ count t (g.first ∷ g.others) =
      subst (λ k. 1 ≤ count k (g.first ∷ g.others)) same g.on_chain in
    record {
      first = g.first;
      others = g.others ++ n ∷ [];
      free = g.free;
      last = g.last;
      counted = g.counted;
      head = g.head;
      tail = g.tail;
      on_chain = omega (arith, g.on_chain, count-append_one g.last g.others n);
      linked =
          link-Linked m.nodes t g.first n g.others p on (λ k. ground (arith, g.once k))
            (ground (arith, g.once n)) g.linked end_t at_n (ap (λ y. y.next) new);
      is_free =
          put_node-Free m.nodes t (record (m.nodes t) { next = p }) m.top.ptr g.free
            (ground (arith, g.once t, on)) g.is_free;
      once = λ k. omega (arith, g.once k, count-append_one k g.others n);
      fifo =
          ap (λ vs. vs ++ value ∷ []) (sym (append-nil m.pushed) ∙ g.fifo)
          ∙ (append_assoc m.popped (values m.nodes g.others) (value ∷ [])
              ∙ ap (λ vs. m.popped ++ vs)
                  (sym (
                    values-put_next m.nodes t p (g.others ++ n ∷ [])
                    ∙ (values-append_one m.nodes g.others n
                        ∙ ap (λ y. values m.nodes g.others ++ y.value ∷ []) new))));
      size = g.size;
      length = omega (arith, g.length, length-append g.others (n ∷ []));
    }

-- `_tail` goes to the next node.
pub tail-Good :
    (m : Memory) (held add out : List ℕ) (up down t n : ℕ) (p : TaggedPtr)
    → m.tail.ptr ≡ some t
    → (m.nodes t).next.ptr ≡ some n
    → p.ptr ≡ some n
    → Good m held add out up down
    → Good (record m { tail = p }) held add out up down
tail-Good m held add out up down t n p at_t at_next at_n g =
    let same : t ≡ g.last = same_node (sym at_t ∙ g.tail) in
    record {
      first = g.first;
      others = g.others;
      free = g.free;
      last = n;
      counted = g.counted;
      head = g.head;
      tail = at_n;
      on_chain =
          next_on m.nodes g.last g.first n g.others g.on_chain g.linked
            (ap (λ k. (m.nodes k).next.ptr) (sym same) ∙ at_next);
      linked = g.linked;
      is_free = g.is_free;
      once = g.once;
      fifo = g.fifo;
      size = g.size;
      length = g.length;
    }

-- The first node behind the head becomes the head.
pub unlink-Good :
    (m : Memory) (h n : ℕ) (p : TaggedPtr)
    → m.head.ptr ≡ some h
    → (m.nodes h).next.ptr ≡ some n
    → eq_ptr m.head.ptr m.tail.ptr ≡ false
    → p.ptr ≡ some n
    → Good m [] [] [] 0 0
    → Good (record m { head = p }) (h ∷ []) [] ((m.nodes n).value ∷ []) 0 1
unfolding count
unlink-Good m h n p at_h at_next differ at_n g =
    unlinked g.others g.on_chain g.linked g.once g.fifo g.length
  where
    apart : is g.last g.first ≡ 0
    apart =
        let told : eq_ptr (some g.first) (some g.last) ≡ false =
          sym (ap₂ eq_ptr g.head g.tail) ∙ differ in
        ground (arith, told)

    same : h ≡ g.first
    same = same_node (sym at_h ∙ g.head)

    unlinked :
        (ns : List ℕ)
        → 1 ≤ count g.last (g.first ∷ ns)
        → Linked m.nodes g.first ns
        → ((k : ℕ) → count k (g.first ∷ ns) + count k g.free + 0 ≤ below k m.made)
        → m.pushed ++ [] ≡ m.popped ++ values m.nodes ns
        → g.counted + 0 ≡ length ns + 0
        → Good (record m { head = p }) (h ∷ []) [] ((m.nodes n).value ∷ []) 0 1
    unlinked [] on l once fifo len = absurd (omega (arith, on, apart))
    unlinked (f ∷ ns) on (e, l) once fifo len =
        let next : f ≡ n =
          same_node (sym e ∙ (ap (λ k. (m.nodes k).next.ptr) (sym same) ∙ at_next)) in
        record {
          first = f;
          others = ns;
          free = g.free;
          last = g.last;
          counted = g.counted;
          head = at_n ∙ ap some (sym next);
          tail = g.tail;
          on_chain = omega (arith, on, apart);
          linked = l;
          is_free = g.is_free;
          once = λ k. omega (arith, once k, ap (is k) same);
          fifo = fifo ∙ ap (λ k. m.popped ++ ((m.nodes k).value ∷ values m.nodes ns)) next;
          size = g.size;
          length = omega (arith, len);
        }

less : (n : ℕ) → 1 ≤ n → pos n -ℤ pos 1 ≡ pos (n - 1)
unfolding ◌-ℤ◌
less n h = ground (arith, h)

more : (n : ℕ) → pos n +ℤ pos 1 ≡ pos (n + 1)
unfolding ◌+ℤ◌
more n = ground arith

-- `_size` changes.
pub grow-Good :
    (m : Memory) (value : ℕ)
    → Good m [] (value ∷ []) [] 1 0
    → Good (record m { size = m.size +ℤ pos 1; pushed = m.pushed ++ value ∷ [] }) [] [] [] 0 0
grow-Good m value g = record {
  first = g.first;
  others = g.others;
  free = g.free;
  last = g.last;
  counted = g.counted + 1;
  head = g.head;
  tail = g.tail;
  on_chain = g.on_chain;
  linked = g.linked;
  is_free = g.is_free;
  once = g.once;
  fifo = append-nil (m.pushed ++ value ∷ []) ∙ g.fifo;
  size = ap (λ z. z +ℤ pos 1) g.size ∙ more g.counted;
  length = omega (arith, g.length);
}

pub shrink-Good :
    (m : Memory) (h value : ℕ)
    → Good m (h ∷ []) [] (value ∷ []) 0 1
    → Good (record m { size = m.size -ℤ pos 1 }) (h ∷ []) [] (value ∷ []) 0 0
shrink-Good m h value g = record {
  first = g.first;
  others = g.others;
  free = g.free;
  last = g.last;
  counted = g.counted - 1;
  head = g.head;
  tail = g.tail;
  on_chain = g.on_chain;
  linked = g.linked;
  is_free = g.is_free;
  once = g.once;
  fifo = g.fifo;
  size = ap (λ z. z -ℤ pos 1) g.size ∙ less g.counted (omega (arith, g.length));
  length = omega (arith, g.length);
}
