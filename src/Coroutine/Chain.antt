-- ===== src/Coroutine/Chain.antt =====
-- The frames of Base/AwaitTask.h that wait for one another, and what belongs to one coroutine.
use bugat.Common.{
  ℕ, ◌+◌, ◌<◌, ◌≡◌, ◌≢◌, refl, sym, subst, ap, ◌∙◌, ℕ_discrete, none, some, List, [], ◌∷◌, ◌++◌,
  ◌==◌, if◌then◌else◌, arith, if_cases, cons-head, cons-tail,
}
use bugat.Coroutine.Meaning.{trace, value, cost}
use bugat.Coroutine.{
  Body, Phase, suspended, waiting, Callback, call, call_void, Frame, Post, Entry, Taken, nothing,
  taken, keep, take_post,
}

-- A frame that waits: the executor that it awaits on, the frame, and its rest.
pub record Link : Type 0 where
  pub base : ℕ
  pub frame : ℕ
  pub next : ℕ → Body

-- How the frame waits: for a value, or for none, with which the rest does not change.
pub data AwaitedAs (l : Link) : Callback → Phase → Type 0 where
  for_value : AwaitedAs l (call l.base l.frame) (waiting l.next none)
  for_nothing :
      (rest : Body)
      → ((v : ℕ) → l.next v ≡ rest)
      → AwaitedAs l (call_void l.base l.frame) (suspended rest)

pub record LinkHolds (fs : ℕ → Frame) (r f : ℕ) (l : Link) : Type 0 where
  pub back : Callback
  pub called : (fs f).callfunc ≡ some back
  pub older : l.frame < f
  pub same_root : (fs l.frame).root ≡ r
  pub awaited : AwaitedAs l back (fs l.frame).phase

-- `f` is awaited by the first link, that by the second and so on.
abbrev pub Linked : (ℕ → Frame) → ℕ → ℕ → List Link → Type 0
Linked fs r f [] = (fs f).callfunc ≡ none
Linked fs r f (l ∷ ls) = LinkHolds fs r f l × Linked fs r l.frame ls

-- What the waiting frames do with the value.
abbrev pub rest : List Link → ℕ → List (ℕ × ℕ)
rest [] v = []
rest (l ∷ ls) v = trace l.base (l.next v) ++ rest ls (value (l.next v))

abbrev pub rest_cost : List Link → ℕ → ℕ
rest_cost [] v = 0
rest_cost (l ∷ ls) v = 1 + cost (l.next v) + rest_cost ls (value (l.next v))

-- The posts and the log of one coroutine.
abbrev pub pending : ℕ → List Post → List Post
pending r [] = []
pending r (p ∷ ps) = let more = pending r ps in if p.who == r then p ∷ more else more

abbrev pub noted : ℕ → List Entry → List (ℕ × ℕ)
noted r [] = []
noted r (x ∷ xs) = let more = noted r xs in if x.who == r then (x.on, x.what) ∷ more else more

pub pending-append : (r : ℕ) (p q : List Post) → pending r (p ++ q) ≡ pending r p ++ pending r q
pending-append r [] q = refl
pending-append r (x ∷ p) q = ground (arith, pending-append r p q)

pub noted-append : (r : ℕ) (p q : List Entry) → noted r (p ++ q) ≡ noted r p ++ noted r q
noted-append r [] q = refl
noted-append r (x ∷ p) q = ground (arith, noted-append r p q)

pub noted-append_mine :
    (r : ℕ) (xs : List Entry) (x : Entry)
    → x.who ≡ r
    → noted r (xs ++ x ∷ []) ≡ noted r xs ++ (x.on, x.what) ∷ []
noted-append_mine r xs x e = ground (arith, noted-append r xs (x ∷ []))

-- The links hold as long as the frames of the coroutine that are older than `f` stay.
pub Linked-stays :
    (fs gs : ℕ → Frame) (r f : ℕ) (ls : List Link)
    → (gs f).callfunc ≡ (fs f).callfunc
    → ((i : ℕ) → i < f → (fs i).root ≡ r → gs i ≡ fs i)
    → Linked fs r f ls
    → Linked gs r f ls
Linked-stays fs gs r f [] same old h = same ∙ h
Linked-stays fs gs r f (l ∷ ls) same old h =
    let eq = old l.frame h.0.older h.0.same_root in
    (
      record {
        back = h.0.back;
        called = same ∙ h.0.called;
        older = h.0.older;
        same_root = ap (λ x. x.root) eq ∙ h.0.same_root;
        awaited = subst (λ x. AwaitedAs l h.0.back x.phase) (sym eq) h.0.awaited;
      },
      Linked-stays fs gs r l.frame ls (ap (λ x. x.callfunc) eq)
          (λ i lt. old i (omega (arith, h.0.older))) h.1,
    )

-- The post that an executor takes is one of its coroutine, and the posts of the others stay.
pub record Takes (p : Post) (others qs : List Post) : Type 0 where
  pub inside : pending p.who qs ≢ []
  pub only : (x : Post) → pending p.who qs ≡ x ∷ [] → (x ≡ p) × (pending p.who others ≡ [])
  pub apart : (r : ℕ) → r ≢ p.who → pending r others ≡ pending r qs

pub pending-mine :
    (r : ℕ) (q : Post) (qs : List Post) → q.who ≡ r → pending r (q ∷ qs) ≡ q ∷ pending r qs
pending-mine r q qs e = ground arith

pub pending-other :
    (r : ℕ) (q : Post) (qs : List Post) → q.who ≢ r → pending r (q ∷ qs) ≡ pending r qs
pending-other r q qs away = ground arith

-- An executor without a task has no post.
abbrev pub TakesFrom : List Post → Taken → Type 0
TakesFrom qs nothing = Unit
TakesFrom qs (taken p others) = Takes p others qs

head_Takes : (q : Post) (qs : List Post) → Takes q qs (q ∷ qs)
head_Takes q qs = record {
  inside = λ e. cc (e, pending-mine q.who q qs refl);
  only = λ x e.
      let both = sym (pending-mine q.who q qs refl) ∙ e in (sym (cons-head both), cons-tail both);
  apart = λ r away. sym (pending-other r q qs (λ eq. away (sym eq)));
}

-- No other post of the coroutine can stand before the one that is taken.
keep_only :
    (q p x : Post) (others qs : List Post)
    → Takes p others qs
    → pending p.who (q ∷ qs) ≡ x ∷ []
    → (x ≡ p) × (pending p.who (q ∷ others) ≡ [])
keep_only q p x others qs h e = elim (ℕ_discrete q.who p.who) [
  | yes same ↦ absurd (h.inside (cons-tail (sym (pending-mine p.who q qs same) ∙ e)))
  | no apart ↦
      let (eq, left) = h.only x (sym (pending-other p.who q qs apart) ∙ e) in
      (eq, pending-other p.who q others apart ∙ left)
]

keep_inside : (q p : Post) (others qs : List Post) → Takes p others qs → pending p.who (q ∷ qs) ≢ []
keep_inside q p others qs h e = elim (ℕ_discrete q.who p.who) [
  | yes same ↦ cc (e, pending-mine p.who q qs same)
  | no apart ↦ h.inside (sym (pending-other p.who q qs apart) ∙ e)
]

keep_apart :
    (q p : Post) (others qs : List Post)
    → Takes p others qs
    → (r : ℕ) → r ≢ p.who
    → pending r (q ∷ others) ≡ pending r (q ∷ qs)
keep_apart q p others qs h r away = ap (λ ps. if q.who == r then q ∷ ps else ps) (h.apart r away)

keep_Takes :
    (q : Post) (qs : List Post) (t : Taken) → TakesFrom qs t → TakesFrom (q ∷ qs) (keep q t)
keep_Takes q qs nothing h = tt
keep_Takes q qs (taken p others) h = record {
  inside = keep_inside q p others qs h;
  only = λ x e. keep_only q p x others qs h e;
  apart = keep_apart q p others qs h;
}

pub take_post-Takes : (e : ℕ) (qs : List Post) → TakesFrom qs (take_post e qs)
take_post-Takes e [] = tt
take_post-Takes e (q ∷ qs) =
    if_cases (TakesFrom (q ∷ qs)) (q.on == e) (taken q qs) (keep q (take_post e qs))
      (λ _. head_Takes q qs) (λ _. keep_Takes q qs (take_post e qs) (take_post-Takes e qs))
