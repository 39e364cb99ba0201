-- ===== src/Coroutine/Runs.antt =====
-- All coroutines of Base/AwaitTask.h together, under spawning and the turns of the executors.
pub mod Ready
pub mod Cases
mod Calls
mod Awaits
mod Roots
use bugat.Common.{
  ℕ, ◌+◌, ◌<◌, ◌≡◌, ◌≢◌, ◌⊎◌, inl, inr, refl, sym, ap, ap₂, subst, ◌∙◌, ℕ_discrete, Option, none,
  some, List, [], ◌∷◌, ◌++◌, append-nil, length, get_elem?, arith,
}
use bugat.Common.Count.{is, count, count-append_one}
use bugat.Coroutine.Meaning.{trace, value, cost}
use bugat.Coroutine.Apart.{Apart, Apart-trans, put_frame-same, make_frame-Apart, post-Apart}
use bugat.Coroutine.Chain.{
  Link, Linked, Linked-stays, rest, rest_cost, pending, noted, Takes, TakesFrom, take_post-Takes,
}
use bugat.Coroutine.Runs.Ready.{At, Posted, Wakes, fresh, Over, Outcome, over, posted, Result}
use bugat.Coroutine.Runs.Cases.{post_only}
use bugat.Coroutine.Runs.Roots.{resume-Result}
use bugat.Coroutine.{
  Body, suspended, Frame, Post, Spawned, World, start, post, make_frame, resume, spawn, Taken,
  nothing, taken, take_post, resume_post, turn, Op, op_spawn, op_turn, apply, apply_all,
}

-- Nothing belongs to a coroutine that has not been spawned.
pub record Fresh (r : ℕ) (w : World) : Type 0 where
  pub posts : pending r w.posts ≡ []
  pub log : noted r w.log ≡ []
  pub resumed : count r w.resumed ≡ 0
  pub created : count r w.created ≡ 0
  pub destroyed : count r w.destroyed ≡ 0

abbrev pub Status : Option Spawned → ℕ → World → Type 0
Status none r w = Fresh r w
Status (some s) r w = Outcome r (trace s.home s.body) (1 + cost s.body) w

pub record Sound (w : World) : Type 0 where
  pub sound : w.faults ≡ 0
  pub status : (r : ℕ) → Status (get_elem? w.spawned r) r w

-- What another coroutine does leaves the status.
Posted-stays :
    (r q c e f : ℕ) (t : List (ℕ × ℕ)) (b : Body) (ls : List Link) (w v : World)
    → r ≢ q
    → Apart q w v
    → Posted r t c e f b ls w
    → Posted r t c e f b ls v
Posted-stays r q c e f t b ls w v away a h =
    let frame = a.frames f h.at.bound (λ y. away (sym h.at.root ∙ y)) in
    record {
      d = h.d;
      more = h.more;
      at = record {
        bound = omega (arith, h.at.bound, a.made);
        root = ap (λ x. x.root) frame ∙ h.at.root;
        linked =
            Linked-stays w.frames v.frames r f ls (ap (λ x. x.callfunc) frame)
              (λ i lt mine. a.frames i (omega (arith, h.at.bound)) (λ y. away (sym mine ∙ y)))
              h.at.linked;
        log = ap (λ xs. xs ++ (trace e b ++ rest ls (value b))) (a.log r away) ∙ h.at.log;
        steps = omega (arith, h.at.steps, a.resumed r away);
        balance = omega (arith, h.at.balance, a.created r away, a.destroyed r away);
      };
      wakes = subst (λ x. Wakes b x.phase) (sym frame) h.wakes;
      posts = a.posts r away ∙ h.posts;
    }

pub Status-stays :
    (o : Option Spawned) (r q : ℕ) (w v : World) → r ≢ q → Apart q w v → Status o r w → Status o r v
Status-stays none r q w v away a h = record {
  posts = a.posts r away ∙ h.posts;
  log = a.log r away ∙ h.log;
  resumed = a.resumed r away ∙ h.resumed;
  created = a.created r away ∙ h.created;
  destroyed = a.destroyed r away ∙ h.destroyed;
}
Status-stays (some s) r q w v away a (over h) = over (record {
  posts = a.posts r away ∙ h.posts;
  log = a.log r away ∙ h.log;
  steps = a.resumed r away ∙ h.steps;
  balance = omega (arith, h.balance, a.created r away, a.destroyed r away);
})
Status-stays (some s) r q w v away a (posted e f b ls h) =
    posted e f b ls (Posted-stays r q (1 + cost s.body) e f (trace s.home s.body) b ls w v away a h)

-- The world with the task taken out of its queue.
abbrev taken_world : Post → List Post → World → World
taken_world p others w = record w { posts = others; resumed = w.resumed ++ p.who ∷ [] }

taken-Apart :
    (p : Post) (others : List Post) (w : World)
    → Takes p others w.posts
    → Apart p.who w (taken_world p others w)
taken-Apart p others w h = record {
  frames = λ i lt away. refl;
  roots = λ i lt. refl;
  made = omega arith;
  posts = λ q away. h.apart q away;
  log = λ q away. refl;
  resumed = λ q away. ground (arith, count-append_one q w.resumed p.who);
  created = λ q away. refl;
  destroyed = λ q away. refl;
  spawned = refl;
}

taken_At :
    (c e f : ℕ) (t : List (ℕ × ℕ)) (b : Body) (ls : List Link) (p : Post) (others : List Post)
    (w : World)
    → (h : Posted p.who t c e f b ls w) → At p.who t c e f b ls (taken_world p others w)
taken_At c e f t b ls p others w h = record {
  bound = h.at.bound;
  root = h.at.root;
  linked = h.at.linked;
  log = h.at.log;
  steps = ground (arith, h.at.steps, h.more, count-append_one p.who w.resumed p.who);
  balance = h.at.balance;
}

-- The task that an executor takes is one that is due.
due-Result :
    (s : Spawned) (p : Post) (others : List Post) (w : World)
    → w.faults ≡ 0
    → Takes p others w.posts
    → Outcome p.who (trace s.home s.body) (1 + cost s.body) w
    → Result p.who
        (trace s.home s.body)
        (1 + cost s.body)
        (taken_world p others w)
        (resume p.on p.handle (taken_world p others w))
due-Result s p others w sound h (over o) = absurd (h.inside o.posts)
due-Result s p others w sound h (posted e f b ls o) =
    let u = taken_world p others w in
    let t = trace s.home s.body in
    let (same, left) = h.only (record { on = e; handle = f; who = p.who }) o.posts in
    subst (Result p.who t (1 + cost s.body) u)
      (ap₂ (λ x y. resume x y u) (ap (λ x. x.on) same) (ap (λ x. x.handle) same))
      (resume-Result p.who (1 + cost s.body) e f t b ls u sound
        (taken_At (1 + cost s.body) e f t b ls p others w o) o.wakes left)

resume-Status :
    (o : Option Spawned) (p : Post) (others : List Post) (w : World)
    → w.faults ≡ 0
    → Takes p others w.posts
    → Status o p.who w
    → let v = resume p.on p.handle (taken_world p others w) in
      Status o p.who v × Apart p.who w v × (v.faults ≡ 0)
resume-Status none p others w sound h st = absurd (h.inside st.posts)
resume-Status (some s) p others w sound h st =
    let u = taken_world p others w in
    let v = resume p.on p.handle u in
    let res = due-Result s p others w sound h st in
    (res.outcome, Apart-trans p.who w u v (taken-Apart p others w h) res.apart, res.sound)

resume_post-Sound :
    (t : Taken) (w : World) → TakesFrom w.posts t → Sound w → Sound (resume_post t w)
resume_post-Sound nothing w h i = i
resume_post-Sound (taken p others) w h i =
    let v = resume p.on p.handle (taken_world p others w) in
    let (mine, a, sound) =
      resume-Status (get_elem? w.spawned p.who) p others w i.sound h (i.status p.who) in
    record {
      sound = sound;
      status = λ r.
          subst (λ ss. Status (get_elem? ss r) r v) (sym a.spawned)
            (elim (ℕ_discrete r p.who) [
              | yes same ↦ subst (λ k. Status (get_elem? w.spawned k) k v) (sym same) mine
              | no away ↦ Status-stays (get_elem? w.spawned r) r p.who w v away a (i.status r)
            ]);
    }

pub turn-Sound : (e : ℕ) (w : World) → Sound w → Sound (turn e w)
turn-Sound e w i = resume_post-Sound (take_post e w.posts) w (take_post-Takes e w.posts) i
