-- ===== src/Queue/Alone/Moves.antt =====
-- The steps of Core/lockfree/LockFreeQueue.h in a queue that one thread uses.
use bugat.Common.{
  ℕ, ◌≡◌, refl, sym, ap, ap₂, subst, ◌∙◌, true, false, Option, none, some, List, [], ◌∷◌, arith,
}
use bugat.Common.Int.{pos, ◌-ℤ◌}
use bugat.TaggedPtr.{TaggedPtr, get_next_tag, eq_ptr, eq_tagged}
use bugat.Queue.Alone.Chain.{has_next, null_ptr, put_node-same}
use bugat.Queue.Alone.Ends.{link-Good, tail-Good, unlink-Good, grow-Good, shrink-Good}
use bugat.Queue.Alone.Writes.{
  Good, same_node, fresh-Good, take_free-Good, write-Good, give_back-Good,
}
use bugat.Queue.Steps.{
  At, Move, call_push, load_top, fresh, read_free, take_free, take_free_fails, construct_node,
  load_tail, load_next, tail_moved, at_end, behind, link, link_fails, swing, swing_fails, help,
  help_fails, grow, call_pop, load_pop_tail, load_pop_head, load_pop_next, head_moved, empty,
  tail_behind, found, no_next, help_pop, help_pop_fails, read_value, unlink, unlink_fails, shrink,
  load_free_top, link_free, give_back, give_back_fails,
}
use bugat.Queue.{
  Memory, put_next, null_handle, Pc, idle, alloc, alloc_top, alloc_next, constructing, push_start,
  push_tail, push_next, push_link, push_help, push_swing, push_count, pop_start, pop_tail, pop_head,
  pop_next, pop_help, pop_value, pop_swing, pop_count, free, free_top, free_linked,
}

abbrev pub Rest : Memory → Type 0
Rest m = Good m [] [] [] 0 0

-- A new node with its value, which the thread holds.
abbrev pub Ready : ℕ → ℕ → Memory → Type 0
Ready v n m = Good m (n ∷ []) [] [] 0 0 × (m.nodes n ≡ record { next = null_handle; value = v })

-- What was read is what is there.
abbrev pub Next : TaggedPtr → TaggedPtr → Memory → Type 0
Next p next m = (k : ℕ) → At p k → next ≡ (m.nodes k).next

abbrev pub Stands : Pc → Memory → Type 0
Stands idle m = Rest m
Stands (alloc v) m = Rest m
Stands (alloc_top v top) m = Rest m × (top ≡ m.top)
Stands (alloc_next v top next) m =
    Rest m × (top ≡ m.top) × ((k : ℕ) → At top k → next ≡ (m.nodes k).next.ptr)
Stands (constructing v n) m = Good m (n ∷ []) [] [] 0 0
Stands (push_start v n) m = Ready v n m
Stands (push_tail v n tail) m = Ready v n m × (tail ≡ m.tail)
Stands (push_next v n tail next) m = Ready v n m × (tail ≡ m.tail) × Next tail next m
Stands (push_link v n tail next) m =
    Ready v n m × (tail ≡ m.tail) × (Next tail next m × (eq_tagged next null_handle ≡ true))
Stands (push_help v n tail next) m =
    Ready v n m × (tail ≡ m.tail) × (Next tail next m × (eq_tagged next null_handle ≡ false))
Stands (push_swing v n tail) m =
    Good m [] (v ∷ []) [] 1 0
    × (tail ≡ m.tail)
    × ((k : ℕ) → At tail k → (m.nodes k).next.ptr ≡ some n)
Stands (push_count v) m = Good m [] (v ∷ []) [] 1 0
Stands pop_start m = Rest m
Stands (pop_tail tail) m = Rest m × (tail ≡ m.tail)
Stands (pop_head tail head) m = Rest m × (tail ≡ m.tail) × (head ≡ m.head)
Stands (pop_next tail head next) m = Rest m × (tail ≡ m.tail) × ((head ≡ m.head) × Next head next m)
Stands (pop_help tail next) m =
    Rest m × (tail ≡ m.tail) × (Next tail next m × (eq_tagged next null_handle ≡ false))
Stands (pop_value head next) m =
    Rest m × (head ≡ m.head) × (Next head next m × (eq_ptr m.head.ptr m.tail.ptr ≡ false))
Stands (pop_swing head next v) m =
    Rest m
    × (head ≡ m.head)
    × (Next head next m
        × (eq_ptr m.head.ptr m.tail.ptr ≡ false)
        × ((k : ℕ) × At next k × (v ≡ (m.nodes k).value)))
Stands (pop_count head v) m = (h : ℕ) × At head h × Good m (h ∷ []) [] (v ∷ []) 0 1
Stands (free n v) m = Good m (n ∷ []) [] (v ∷ []) 0 0
Stands (free_top n v top) m = Good m (n ∷ []) [] (v ∷ []) 0 0 × (top ≡ m.top)
Stands (free_linked n v top) m =
    Good m (n ∷ []) [] (v ∷ []) 0 0 × (top ≡ m.top) × ((m.nodes n).next.ptr ≡ top.ptr)

-- `_tail` goes on to the next node, which is there.
helped :
    (m : Memory) (held : List ℕ) (tail next p : TaggedPtr)
    → tail ≡ m.tail
    → Next tail next m
    → eq_tagged next null_handle ≡ false
    → p.ptr ≡ next.ptr
    → Good m held [] [] 0 0
    → Good (record m { tail = p }) held [] [] 0 0
helped m held tail next p same at_next more at_p g =
    let told = at_next g.last (ap (λ q. q.ptr) same ∙ g.tail) in
    let (n, there) =
      has_next m.nodes g.last g.first g.others g.on_chain g.linked
        (ap (λ q. eq_tagged q null_handle) (sym told) ∙ more) in
    tail-Good m held [] [] 0 0 g.last n p g.tail there (at_p ∙ (ap (λ q. q.ptr) told ∙ there)) g

same_pointee : (p q : Option ℕ) (k : ℕ) → eq_ptr p q ≡ true → q ≡ some k → p ≡ some k
same_pointee none none k same at_k = at_k
same_pointee none (some b) k same at_k = absurd (ground (arith, same))
same_pointee (some a) none k same at_k = absurd (cc at_k)
same_pointee (some a) (some b) k same at_k =
    let equal : a ≡ b = ground (arith, same) in ap some equal ∙ at_k

linked :
    (v n t : ℕ) (tail next p : TaggedPtr) (m : Memory)
    → At tail t
    → p.ptr ≡ some n
    → Stands (push_link v n tail next) m
    → Stands (push_swing v n tail) (put_next m t p)
linked v n t tail next p m at_t at_n ((g, new), same, (at_next, end)) = (
  link-Good m n t v p (ap (λ q. q.ptr) (sym same) ∙ at_t)
      (ap (λ q. q.ptr) (sym (at_next t at_t)) ∙ null_ptr next end) at_n new g,
  same,
  λ k at_k.
      subst (λ j. ((put_next m t p).nodes j).next.ptr ≡ some n) (same_node (sym at_t ∙ at_k))
        (ap (λ y. y.next.ptr) (put_node-same m.nodes t (record (m.nodes t) { next = p })) ∙ at_n),
)

unlinked :
    (v : ℕ) (head next p : TaggedPtr) (m : Memory)
    → p.ptr ≡ next.ptr
    → Stands (pop_swing head next v) m
    → Stands (pop_count head v) (record m { head = p })
unlinked v head next p m at_p (g, same, (at_next, differ, (n, at_n, read))) =
    let at_h = ap (λ q. q.ptr) same ∙ g.head in
    (
      g.first,
      at_h,
      subst (λ w. Good (record m { head = p }) (g.first ∷ []) [] (w ∷ []) 0 1) (sym read)
          (unlink-Good m g.first n p g.head (ap (λ q. q.ptr) (sym (at_next g.first at_h)) ∙ at_n)
            differ (at_p ∙ at_n) g),
    )

-- The steps of `Push` and `Pop` keep what holds where the thread stands.
pub move-Stands :
    {max_tag : ℕ} {m m' : Memory} {p p' : Pc} → Move max_tag m p m' p' → Stands p m → Stands p' m'
move-Stands (call_push v) h = h
move-Stands load_top h = (h, refl)
move-Stands {m = m} (fresh at_top) (g, same) = fresh-Good m g
move-Stands {m = m} (read_free at_top) (g, same) =
    (g, same, λ k at_k. ap (λ j. (m.nodes j).next.ptr) (same_node (sym at_top ∙ at_k)))
move-Stands {max_tag} {m} (take_free {value} {n} {top} {next} at_top e) (g, same, at_next) =
    take_free-Good m n (record { ptr = next; tag = get_next_tag max_tag top })
      (ap (λ q. q.ptr) (sym same) ∙ at_top) (at_next n at_top) g
move-Stands take_free_fails (g, same, at_next) = (g, refl)
move-Stands {m = m} (construct_node {value} {n}) g = (
  write-Good m n (record { next = null_handle; value = value }) [] [] g,
  put_node-same m.nodes n (record { next = null_handle; value = value }),
)
move-Stands load_tail h = (h, refl)
move-Stands {m = m} (load_next at_t) (h, same) =
    (h, same, λ k at_k. ap (λ j. (m.nodes j).next) (same_node (sym at_t ∙ at_k)))
move-Stands (tail_moved e) (h, same, at_next) = h
move-Stands (at_end e end) (h, same, at_next) = (h, same, (at_next, end))
move-Stands (behind e more) (h, same, at_next) = (h, same, (at_next, more))
move-Stands {m = m} (link {value} {n} {t} {tail} {next} at_t e) h =
    linked value n t tail next (record { ptr = some n; tag = tail.tag }) m at_t refl h
move-Stands link_fails (h, same, rest) = h
move-Stands {max_tag} {m} (swing {value} {n} {tail} e) (g, same, at_n) =
    let at_last = ap (λ q. q.ptr) same ∙ g.tail in
    tail-Good m [] (value ∷ []) [] 1 0 g.last n
      (record { ptr = some n; tag = get_next_tag max_tag tail }) g.tail (at_n g.last at_last) refl g
move-Stands swing_fails (g, same, at_n) = g
move-Stands {max_tag} {m} (help {value} {n} {tail} {next} e) ((g, new), same, (at_next, more)) = (
  helped m (n ∷ []) tail next (record { ptr = next.ptr; tag = get_next_tag max_tag tail }) same
      at_next more refl g,
  new,
)
move-Stands help_fails (h, same, rest) = h
move-Stands {m = m} (grow {value}) g = grow-Good m value g
move-Stands call_pop h = h
move-Stands load_pop_tail h = (h, refl)
move-Stands load_pop_head (g, same) = (g, same, refl)
move-Stands {m = m} (load_pop_next at_h) (g, same, head) =
    (g, same, (head, λ k at_k. ap (λ j. (m.nodes j).next) (same_node (sym at_h ∙ at_k))))
move-Stands (head_moved e) (g, same, rest) = g
move-Stands (empty e same_ptr end) (g, same, rest) = g
move-Stands (tail_behind {tail} {head} {next} e same_ptr more) (g, same, (head_same, at_next)) =
    (g, same, (λ k at_k. at_next k (same_pointee head.ptr tail.ptr k same_ptr at_k), more))
move-Stands (found {tail} {head} {next} e differ more) (g, same, (head_same, at_next)) =
    (g, head_same, (at_next, ap₂ (λ q r. eq_ptr q.ptr r.ptr) (sym head_same) (sym same) ∙ differ))
move-Stands (no_next e differ end) (g, same, rest) = g
move-Stands {max_tag} {m} (help_pop {tail} {next} e) (g, same, (at_next, more)) =
    helped m [] tail next (record { ptr = next.ptr; tag = get_next_tag max_tag tail }) same at_next
      more refl g
move-Stands help_pop_fails (g, same, rest) = g
move-Stands (read_value {head} {next} {n} at_n) (g, same, (at_next, differ)) =
    (g, same, (at_next, differ, (n, at_n, refl)))
move-Stands {max_tag} {m} (unlink {head} {next} {value} e) h =
    unlinked value head next (record { ptr = next.ptr; tag = get_next_tag max_tag head }) m refl h
move-Stands unlink_fails (g, same, rest) = g
move-Stands {m = m} (shrink {head} {value} {h} at_h) (k, at_k, g) =
    subst (λ j. Good (record m { size = m.size -ℤ pos 1 }) (j ∷ []) [] (value ∷ []) 0 0)
      (same_node (sym at_k ∙ at_h)) (shrink-Good m k value g)
move-Stands load_free_top g = (g, refl)
move-Stands {m = m} (link_free {n} {value} {top}) (g, same) =
    let x = record (m.nodes n) { next = record { ptr = top.ptr; tag = 0 } } in
    (write-Good m n x [] (value ∷ []) g, same, ap (λ y. y.next.ptr) (put_node-same m.nodes n x))
move-Stands {m = m} (give_back {n} {value} {top} e) (g, same, at_top) =
    give_back-Good m n value (record { ptr = some n; tag = top.tag }) refl
      (at_top ∙ ap (λ q. q.ptr) same) g
move-Stands give_back_fails (g, same, at_top) = (g, refl)
