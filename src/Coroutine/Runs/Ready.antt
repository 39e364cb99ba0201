-- ===== src/Coroutine/Runs/Ready.antt =====
-- Where a coroutine of Base/AwaitTask.h stands: running, posted, or over.
use bugat.Common.{ℕ, ◌+◌, ◌<◌, ◌≡◌, some, List, [], ◌∷◌, ◌++◌, length}
use bugat.Common.Count.{count}
use bugat.Coroutine.Meaning.{trace, value, cost}
use bugat.Coroutine.Apart.{Apart}
use bugat.Coroutine.Chain.{Link, Linked, rest, rest_cost, pending, noted}
use bugat.Coroutine.{Body, Phase, suspended, waiting, running, World}

-- The coroutine `r` is about to do `b` in its frame `f` on `e`, for the frames of `ls`; in the
-- end its log is `t`, and `c` tasks have resumed it.
pub record At (r : ℕ) (t : List (ℕ × ℕ)) (c e f : ℕ) (b : Body) (ls : List Link) (w : World)
    : Type 0 where
  pub bound : f < w.made
  pub root : (w.frames f).root ≡ r
  pub linked : Linked w.frames r f ls
  pub log : noted r w.log ++ (trace e b ++ rest ls (value b)) ≡ t
  pub steps : count r w.resumed + cost b + rest_cost ls (value b) ≡ c
  pub balance : count r w.created ≡ count r w.destroyed + 1 + length ls

pub record Ready (r : ℕ) (t : List (ℕ × ℕ)) (c e f : ℕ) (b : Body) (ls : List Link) (w : World)
    : Type 0 where
  pub at : At r t c e f b ls w
  pub phase : (w.frames f).phase ≡ running
  pub posts : pending r w.posts ≡ []

-- Both phases that a resumption finds a body in.
pub data Wakes (b : Body) : Phase → Type 0 where
  fresh : Wakes b (suspended b)
  answered : (k : ℕ → Body) (v : ℕ) → k v ≡ b → Wakes b (waiting k (some v))

pub record Posted (r : ℕ) (t : List (ℕ × ℕ)) (c e f : ℕ) (b : Body) (ls : List Link) (w : World)
    : Type 0 where
  pub d : ℕ
  pub more : d + 1 ≡ c
  pub at : At r t d e f b ls w
  pub wakes : Wakes b (w.frames f).phase
  pub posts : pending r w.posts ≡ record { on = e; handle = f; who = r } ∷ []

-- All is done, and every frame is destroyed.
pub record Over (r : ℕ) (t : List (ℕ × ℕ)) (c : ℕ) (w : World) : Type 0 where
  pub posts : pending r w.posts ≡ []
  pub log : noted r w.log ≡ t
  pub steps : count r w.resumed ≡ c
  pub balance : count r w.created ≡ count r w.destroyed

pub data Outcome (r : ℕ) (t : List (ℕ × ℕ)) (c : ℕ) (w : World) : Type 0 where
  over : Over r t c w → Outcome r t c w
  posted : (e f : ℕ) (b : Body) (ls : List Link) → Posted r t c e f b ls w → Outcome r t c w

-- What a resumption gives: the coroutine is over or posted again, the others are as they were, and
-- nothing was faulty.
pub record Result (r : ℕ) (t : List (ℕ × ℕ)) (c : ℕ) (w v : World) : Type 0 where
  pub outcome : Outcome r t c v
  pub apart : Apart r w v
  pub sound : v.faults ≡ 0
