-- ===== src/Queue/Alone/Chain.antt =====
-- The nodes of Core/lockfree/LockFreeQueue.h from the head on, and the free ones, under the writes
-- of one thread.
use bugat.Common.{
  ℕ, ◌≤◌, ◌≡◌, refl, sym, ap, ap₂, subst, ◌∙◌, ℕ_discrete, true, false, Option, none, some, List,
  [], ◌∷◌, ◌++◌, arith,
}
use bugat.Common.Count.{is, count}
use bugat.TaggedPtr.{TaggedPtr, eq_tagged}
use bugat.Queue.{null_handle, Node, put_node}

-- The nodes behind `h`, up to the one whose `_next` is null.
abbrev pub Linked : (ℕ → Node) → ℕ → List ℕ → Type 0
Linked nodes h [] = (nodes h).next ≡ null_handle
Linked nodes h (n ∷ ns) = ((nodes h).next.ptr ≡ some n) × Linked nodes n ns

abbrev pub Free : (ℕ → Node) → Option ℕ → List ℕ → Type 0
Free nodes p [] = p ≡ none
Free nodes p (f ∷ fs) = (p ≡ some f) × Free nodes (nodes f).next.ptr fs

abbrev pub values : (ℕ → Node) → List ℕ → List ℕ
values nodes [] = []
values nodes (n ∷ ns) = (nodes n).value ∷ values nodes ns

pub put_node-same : (nodes : ℕ → Node) (n : ℕ) (x : Node) → put_node nodes n x n ≡ x
put_node-same nodes n x = ground arith

pub put_node-other :
    (nodes : ℕ → Node) (n k : ℕ) (x : Node) → is n k ≡ 0 → put_node nodes n x k ≡ nodes k
put_node-other nodes n k x h = ground (arith, h)

pub put_node-Linked :
    (nodes : ℕ → Node) (n : ℕ) (x : Node) (h : ℕ) (ns : List ℕ)
    → count n (h ∷ ns) ≡ 0
    → Linked nodes h ns
    → Linked (put_node nodes n x) h ns
unfolding count
put_node-Linked nodes n x h [] c l =
    ap (λ y. y.next) (put_node-other nodes n h x (omega (arith, c))) ∙ l
put_node-Linked nodes n x h (m ∷ ns) c (e, l) = (
  ap (λ y. y.next.ptr) (put_node-other nodes n h x (omega (arith, c))) ∙ e,
  put_node-Linked nodes n x m ns (omega (arith, c)) l,
)

pub put_node-Free :
    (nodes : ℕ → Node) (n : ℕ) (x : Node) (p : Option ℕ) (fs : List ℕ)
    → count n fs ≡ 0
    → Free nodes p fs
    → Free (put_node nodes n x) p fs
unfolding count
put_node-Free nodes n x p [] c l = l
put_node-Free nodes n x p (f ∷ fs) c (e, l) = (
  e,
  subst (λ y. Free (put_node nodes n x) y.next.ptr fs)
      (sym (put_node-other nodes n f x (omega (arith, c))))
      (put_node-Free nodes n x (nodes f).next.ptr fs (omega (arith, c)) l),
)

pub put_node-values :
    (nodes : ℕ → Node) (n : ℕ) (x : Node) (ns : List ℕ)
    → count n ns ≡ 0
    → values (put_node nodes n x) ns ≡ values nodes ns
unfolding count
put_node-values nodes n x [] c = refl
put_node-values nodes n x (m ∷ ns) c =
    ap₂ (λ y vs. y.value ∷ vs) (put_node-other nodes n m x (omega (arith, c)))
      (put_node-values nodes n x ns (omega (arith, c)))

-- A new link leaves the values.
linked_value :
    (nodes : ℕ → Node) (n k : ℕ) (p : TaggedPtr)
    → (put_node nodes n (record (nodes n) { next = p }) k).value ≡ (nodes k).value
linked_value nodes n k p = elim (ℕ_discrete k n) [
  | yes e ↦
      ap (λ q. (put_node nodes n (record (nodes n) { next = p }) q).value) e
      ∙ (ap (λ y. y.value) (put_node-same nodes n (record (nodes n) { next = p }))
          ∙ ap (λ q. (nodes q).value) (sym e))
  | no away ↦
      ap (λ y. y.value)
        (put_node-other nodes n k (record (nodes n) { next = p }) (ground (arith, away)))
]

pub values-put_next :
    (nodes : ℕ → Node) (n : ℕ) (p : TaggedPtr) (ns : List ℕ)
    → values (put_node nodes n (record (nodes n) { next = p })) ns ≡ values nodes ns
values-put_next nodes n p [] = refl
values-put_next nodes n p (m ∷ ns) =
    ap₂ ◌∷◌ (linked_value nodes n m p) (values-put_next nodes n p ns)

pub values-append_one :
    (nodes : ℕ → Node) (ns : List ℕ) (n : ℕ)
    → values nodes (ns ++ n ∷ []) ≡ values nodes ns ++ (nodes n).value ∷ []
values-append_one nodes [] n = refl
values-append_one nodes (m ∷ ns) n = ap (◌∷◌ (nodes m).value) (values-append_one nodes ns n)

pub null_ptr : (p : TaggedPtr) → eq_tagged p null_handle ≡ true → p.ptr ≡ none
null_ptr p h = ground (arith, h)

-- A node of the chain has a next one in it, if its link is not null.
pub has_next :
    (nodes : ℕ → Node) (t h : ℕ) (ns : List ℕ)
    → 1 ≤ count t (h ∷ ns)
    → Linked nodes h ns
    → eq_tagged (nodes t).next null_handle ≡ false
    → (n : ℕ) × ((nodes t).next.ptr ≡ some n)
unfolding count
has_next nodes t h [] on l some_next =
    let same : t ≡ h = ground (arith, on) in
    absurd (
      cc (
        ap (λ k. eq_tagged (nodes k).next null_handle) same,
        ap (λ p. eq_tagged p null_handle) l,
        some_next,
      ))
has_next nodes t h (m ∷ ns) on (e, l) some_next = elim (ℕ_discrete t h) [
  | yes same ↦ (m, ap (λ k. (nodes k).next.ptr) same ∙ e)
  | no away ↦ has_next nodes t m ns (ground (arith, on, away)) l some_next
]

pub next_on :
    (nodes : ℕ → Node) (t h n : ℕ) (ns : List ℕ)
    → 1 ≤ count t (h ∷ ns)
    → Linked nodes h ns
    → (nodes t).next.ptr ≡ some n
    → 1 ≤ count n (h ∷ ns)
unfolding count
next_on nodes t h n [] on l at_n =
    let same : t ≡ h = ground (arith, on) in
    absurd (cc (ap (λ k. (nodes k).next.ptr) same, ap (λ p. p.ptr) l, at_n))
next_on nodes t h n (m ∷ ns) on (e, l) at_n = elim (ℕ_discrete t h) [
  | yes same ↦
      let found : some n ≡ some m = sym at_n ∙ (ap (λ k. (nodes k).next.ptr) same ∙ e) in
      ground (arith, found)
  | no away ↦ omega (arith, next_on nodes t m n ns (ground (arith, on, away)) l at_n)
]

-- The node without a next one gets one.
pub link-Linked :
    (nodes : ℕ → Node) (t h n : ℕ) (ns : List ℕ) (p : TaggedPtr)
    → 1 ≤ count t (h ∷ ns)
    → ((k : ℕ) → count k (h ∷ ns) ≤ 1)
    → count n (h ∷ ns) ≡ 0
    → Linked nodes h ns
    → (nodes t).next.ptr ≡ none
    → p.ptr ≡ some n
    → (nodes n).next ≡ null_handle
    → Linked (put_node nodes t (record (nodes t) { next = p })) h (ns ++ n ∷ [])
unfolding count
link-Linked nodes t h n [] p on once new l end_t at_n end_n =
    let same : t ≡ h = ground (arith, on) in
    let x : Node = record (nodes t) { next = p } in
    (
      ap (λ k. (put_node nodes t x k).next.ptr) (sym same)
          ∙ (ap (λ y. y.next.ptr) (put_node-same nodes t x) ∙ at_n),
      ap (λ y. y.next) (put_node-other nodes t n x (ground (arith, new, same))) ∙ end_n,
    )
link-Linked nodes t h n (m ∷ ns) p on once new (e, l) end_t at_n end_n =
    let x : Node = record (nodes t) { next = p } in
    elim (ℕ_discrete t h) [
      | yes same ↦ absurd (cc (ap (λ k. (nodes k).next.ptr) same, e, end_t))
      | no away ↦ (
        ap (λ y. y.next.ptr) (put_node-other nodes t h x (ground (arith, away))) ∙ e,
        link-Linked nodes t m n ns p (ground (arith, on, away)) (λ k. omega (arith, once k))
            (omega (arith, new)) l end_t at_n end_n,
      )
    ]
