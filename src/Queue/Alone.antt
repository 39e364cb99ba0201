-- ===== src/Queue/Alone.antt =====
-- The queue of Core/lockfree/LockFreeQueue.h where one thread uses it.
mod Chain
mod Writes
mod Ends
mod Moves
use bugat.Common.{
  ℕ, ◌≡◌, refl, sym, ap, ap₂, subst, ◌≤◌, ◌&&◌, ◌↔◌, some, length-append, ◌+◌, ◌∙◌, true, List, [],
  ◌∷◌, ◌++◌, append-nil, length, arith,
}
use bugat.Common.Count.{is, count, below}
use bugat.Common.Int.{pos}
use bugat.TaggedPtr.{TaggedPtr, eq_ptr, eq_tagged}
use bugat.Queue.Alone.Chain.{Linked, Free, values, null_ptr}
use bugat.Queue.Alone.Writes.{Good, same_node}
use bugat.Queue.Alone.Moves.{Rest, Stands, move-Stands}
use bugat.Queue.Steps.{At, Move, System, Step, pick, init, Reach, here, later}
use bugat.Queue.{null_handle, Node, Memory, Pc, idle, pop_next, new_queue}

-- The one thread of the system, and what holds where it stands.
abbrev One : System → Type 0
One s = (p : Pc) × (s.threads ≡ p ∷ []) × Stands p s.mem

only_thread :
    (left : List Pc) (p q : Pc) (right : List Pc)
    → left ++ p ∷ right ≡ q ∷ []
    → (left ≡ []) × (p ≡ q) × (right ≡ [])
only_thread [] p q right e = (refl, cc e, cc e)
only_thread (x ∷ []) p q right e = absurd (cc e)
only_thread (x ∷ y ∷ left) p q right e = absurd (cc e)

stands_there : (s : System) (p : Pc) → s.threads ≡ p ∷ [] → One s → Stands p s.mem
stands_there s p e (q, one, h) =
    let (_, same, _) = only_thread [] p q [] (sym e ∙ one) in
    subst (λ x. Stands x s.mem) (sym same) h

Step-One : {max_tag : ℕ} {s t : System} → Step max_tag s t → One s → One t
Step-One {max_tag} {s} (pick left {p} right {m} {p'} e mv) (q, one, h) =
    let (no_left, same, no_right) = only_thread left p q right (sym e ∙ one) in
    (
      p',
      ap₂ (λ xs ys. xs ++ p' ∷ ys) no_left no_right,
      move-Stands mv (subst (λ x. Stands x s.mem) (sym same) h),
    )

init-One : One (init 1)
unfolding count
init-One = (
  idle,
  refl,
  record {
    first = 0;
    others = [];
    free = [];
    last = 0;
    counted = 0;
    head = refl;
    tail = refl;
    on_chain = omega arith;
    linked = refl;
    is_free = refl;
    once = λ k. ground arith;
    fifo = refl;
    size = refl;
    length = refl;
  },
)

Reach-One : {max_tag : ℕ} {s : System} → Reach max_tag (init 1) s → One s
Reach-One here = init-One
Reach-One (later r step) = Step-One step (Reach-One r)

-- What the queue holds at rest: the nodes behind the head have its values, and no node is twice
-- in it and the free list.
pub record Holds (m : Memory) (vs : List ℕ) : Type 0 where
  pub first : ℕ
  pub others : List ℕ
  pub free : List ℕ
  pub head : m.head.ptr ≡ some first
  pub linked : Linked m.nodes first others
  pub contents : values m.nodes others ≡ vs
  pub is_free : Free m.nodes m.top.ptr free
  pub once : (k : ℕ) → count k (first ∷ others) + count k free ≤ below k m.made
  pub size : m.size ≡ pos (length vs)

values-length : (nodes : ℕ → Node) (ns : List ℕ) → length (values nodes ns) ≡ length ns
values-length nodes [] = refl
values-length nodes (n ∷ ns) = omega (arith, values-length nodes ns)

empty_chain :
    (m : Memory) (tail head next : TaggedPtr) (g : Rest m)
    → tail ≡ m.tail
    → head ≡ m.head
    → next ≡ (m.nodes g.first).next
    → ((eq_ptr head.ptr tail.ptr && eq_tagged next null_handle) ≡ true) ↔ (m.pushed ≡ m.popped)
unfolding count
empty_chain m tail head next g same_tail same_head at_next =
    ends g.others g.linked g.on_chain (sym (append-nil m.pushed) ∙ g.fifo)
  where
    ends :
        (ns : List ℕ)
        → Linked m.nodes g.first ns
        → 1 ≤ count g.last (g.first ∷ ns)
        → m.pushed ≡ m.popped ++ values m.nodes ns
        → ((eq_ptr head.ptr tail.ptr && eq_tagged next null_handle) ≡ true) ↔ (m.pushed ≡ m.popped)
    ends [] l on fifo =
        let one_node : eq_ptr head.ptr tail.ptr ≡ true =
          ap₂ eq_ptr (ap (λ q. q.ptr) same_head ∙ g.head) (ap (λ q. q.ptr) same_tail ∙ g.tail)
          ∙ ground (arith, on) in
        let no_next : eq_tagged next null_handle ≡ true =
          ap (λ q. eq_tagged q null_handle) (at_next ∙ l) in
        (λ _. fifo ∙ append-nil m.popped, λ _. ap₂ ◌&&◌ one_node no_next)
    ends (n ∷ ns) (l, _) on fifo = (
      λ h.
          let end : eq_tagged next null_handle ≡ true = ground (arith, h) in
          absurd (cc (ap (λ q. q.ptr) at_next, l, null_ptr next end)),
      λ h. absurd (
          omega
            (arith, ap length (sym h ∙ fifo), length-append m.popped (values m.nodes (n ∷ ns)))),
    )

-- A queue that one thread uses is first in, first out, however often the exchanges of the weak
-- kind fail for no reason: whenever no call is under way, the values whose `Push` returned are
-- those whose `Pop` returned and then those that the queue holds, in order; its size is their
-- number, and no node is twice in the queue and the free list.
pub first_in_first_out :
    (max_tag : ℕ) (s : System)
    → Reach max_tag (init 1) s
    → s.threads ≡ idle ∷ []
    → (vs : List ℕ) × (s.mem.pushed ≡ s.mem.popped ++ vs) × Holds s.mem vs
first_in_first_out max_tag s r e =
    let g : Rest s.mem = stands_there s idle e (Reach-One r) in
    (
      values s.mem.nodes g.others,
      sym (append-nil s.mem.pushed) ∙ g.fifo,
      record {
        first = g.first;
        others = g.others;
        free = g.free;
        head = g.head;
        linked = g.linked;
        contents = refl;
        is_free = g.is_free;
        once = λ k. omega (arith, g.once k);
        size = g.size ∙ ap pos (omega (arith, g.length, values-length s.mem.nodes g.others));
      },
    )

-- In a queue that one thread uses, the test by which `Pop` finds it empty and returns false, when
-- it has read the tail, the head and its link, is true exactly when every value whose `Push`
-- returned has been returned by a `Pop`.
pub empty_iff_popped :
    (max_tag : ℕ) (s : System) (tail head next : TaggedPtr)
    → Reach max_tag (init 1) s
    → s.threads ≡ pop_next tail head next ∷ []
    → ((eq_ptr head.ptr tail.ptr && eq_tagged next null_handle) ≡ true)
      ↔ (s.mem.pushed ≡ s.mem.popped)
empty_iff_popped max_tag s tail head next r e =
    let (g, same_tail, (same_head, at_next)) =
      stands_there s (pop_next tail head next) e (Reach-One r) in
    empty_chain s.mem tail head next g same_tail same_head
      (at_next g.first (ap (λ q. q.ptr) same_head ∙ g.head))
