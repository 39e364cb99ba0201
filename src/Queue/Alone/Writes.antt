-- ===== src/Queue/Alone/Writes.antt =====
-- What holds of the memory of Core/lockfree/LockFreeQueue.h while one thread uses it, and the
-- writes that keep it.
use bugat.Common.{
  ℕ, ◌+◌, ◌≤◌, ◌≡◌, sym, ap, subst, ◌∙◌, Option, some, List, [], ◌∷◌, ◌++◌, append_assoc, length,
  arith,
}
use bugat.Common.Count.{is, count, below, below_next}
use bugat.Common.Int.{pos}
use bugat.TaggedPtr.{TaggedPtr}
use bugat.Queue.Alone.Chain.{Linked, Free, values, put_node-Linked, put_node-Free, put_node-values}
use bugat.Queue.{Memory, Node, put_node}

-- `held` are the nodes that the thread took out, `add` the value that it has linked and not yet
-- counted, and `out` the one that it has unlinked and not yet returned.
pub record Good (m : Memory) (held add out : List ℕ) (up down : ℕ) : Type 0 where
  pub first : ℕ
  pub others : List ℕ
  pub free : List ℕ
  pub last : ℕ
  pub counted : ℕ
  pub head : m.head.ptr ≡ some first
  pub tail : m.tail.ptr ≡ some last
  pub on_chain : 1 ≤ count last (first ∷ others)
  pub linked : Linked m.nodes first others
  pub is_free : Free m.nodes m.top.ptr free
  pub once : (k : ℕ) → count k (first ∷ others) + count k free + count k held ≤ below k m.made
  pub fifo : m.pushed ++ add ≡ m.popped ++ (out ++ values m.nodes others)
  pub size : m.size ≡ pos counted
  pub length : counted + up ≡ length others + down

pub same_node : {a b : ℕ} → ◌≡◌ {A = Option ℕ} (some a) (some b) → a ≡ b
same_node e = ground (arith, e)

-- `allocate`: a new node, or the first of the free list.
pub fresh-Good :
    (m : Memory)
    → Good m [] [] [] 0 0
    → Good (record m { made = m.made + 1 }) (m.made ∷ []) [] [] 0 0
unfolding count
fresh-Good m g = record {
  first = g.first;
  others = g.others;
  free = g.free;
  last = g.last;
  counted = g.counted;
  head = g.head;
  tail = g.tail;
  on_chain = g.on_chain;
  linked = g.linked;
  is_free = g.is_free;
  once = λ k. omega (arith, g.once k, below_next k m.made);
  fifo = g.fifo;
  size = g.size;
  length = g.length;
}

pub take_free-Good :
    (m : Memory) (n : ℕ) (p : TaggedPtr)
    → m.top.ptr ≡ some n
    → p.ptr ≡ (m.nodes n).next.ptr
    → Good m [] [] [] 0 0
    → Good (record m { top = p }) (n ∷ []) [] [] 0 0
unfolding count
take_free-Good m n p at_n at_next g = taken g.free g.is_free g.once
  where
    taken :
        (fs : List ℕ)
        → Free m.nodes m.top.ptr fs
        → ((k : ℕ) → count k (g.first ∷ g.others) + count k fs + 0 ≤ below k m.made)
        → Good (record m { top = p }) (n ∷ []) [] [] 0 0
    taken [] l once = absurd (cc (l, at_n))
    taken (f ∷ fs) (e, l) once =
        let same : f ≡ n = same_node (sym e ∙ at_n) in
        record {
          first = g.first;
          others = g.others;
          free = fs;
          last = g.last;
          counted = g.counted;
          head = g.head;
          tail = g.tail;
          on_chain = g.on_chain;
          linked = g.linked;
          is_free =
              subst (λ q. Free m.nodes q fs) (ap (λ k. (m.nodes k).next.ptr) same ∙ sym at_next) l;
          once = λ k. omega (arith, once k, ap (is k) same);
          fifo = g.fifo;
          size = g.size;
          length = g.length;
        }

-- A node that the thread holds is written, and may then become the first free one.
pub write-Good :
    (m : Memory) (n : ℕ) (x : Node) (add out : List ℕ)
    → Good m (n ∷ []) add out 0 0
    → Good (record m { nodes = put_node m.nodes n x }) (n ∷ []) add out 0 0
unfolding count
write-Good m n x add out g =
    let apart : count n (g.first ∷ g.others) + count n g.free ≡ 0 = ground (arith, g.once n) in
    record {
      first = g.first;
      others = g.others;
      free = g.free;
      last = g.last;
      counted = g.counted;
      head = g.head;
      tail = g.tail;
      on_chain = g.on_chain;
      linked = put_node-Linked m.nodes n x g.first g.others (omega (arith, apart)) g.linked;
      is_free = put_node-Free m.nodes n x m.top.ptr g.free (omega (arith, apart)) g.is_free;
      once = g.once;
      fifo =
          g.fifo
          ∙ ap (λ vs. m.popped ++ (out ++ vs))
              (sym (put_node-values m.nodes n x g.others (omega (arith, apart))));
      size = g.size;
      length = g.length;
    }

pub give_back-Good :
    (m : Memory) (n value : ℕ) (p : TaggedPtr)
    → p.ptr ≡ some n
    → (m.nodes n).next.ptr ≡ m.top.ptr
    → Good m (n ∷ []) [] (value ∷ []) 0 0
    → Good (record m { top = p; popped = m.popped ++ value ∷ [] }) [] [] [] 0 0
unfolding count
give_back-Good m n value p at_n at_top g = record {
  first = g.first;
  others = g.others;
  free = n ∷ g.free;
  last = g.last;
  counted = g.counted;
  head = g.head;
  tail = g.tail;
  on_chain = g.on_chain;
  linked = g.linked;
  is_free = (at_n, subst (λ q. Free m.nodes q g.free) (sym at_top) g.is_free);
  once = λ k. omega (arith, g.once k);
  fifo = g.fifo ∙ sym (append_assoc m.popped (value ∷ []) (values m.nodes g.others));
  size = g.size;
  length = g.length;
}
