-- ===== src/Coroutine/Answers.antt =====
-- What the coroutines of Base/AwaitTask.h come to, however the executors take turns.
use bugat.Common.{
  ℕ, ◌+◌, ◌<◌, ◌≡◌, ◌⊎◌, inl, inr, refl, sym, ap, subst, ◌∙◌, ℕ_discrete, Option, none, some, List,
  [], ◌∷◌, ◌++◌, append-nil, length, get_elem?, get_elem?-length, get_elem?-append_new,
  get_elem?-append_old, arith,
}
use bugat.Common.Count.{count, count-append_one}
use bugat.Coroutine.Meaning.{trace, value, cost}
use bugat.Coroutine.Apart.{Apart, Apart-trans, put_frame-same, make_frame-Apart, post-Apart}
use bugat.Coroutine.Chain.{pending, noted, rest}
use bugat.Coroutine.Runs.Ready.{Wakes, fresh, Over, Outcome, over, posted}
use bugat.Coroutine.Runs.Cases.{post_only}
use bugat.Coroutine.Runs.{Fresh, Status, Sound, Status-stays, turn-Sound}
use bugat.Coroutine.{
  Body, suspended, Post, Spawned, World, start, make_frame, spawn, Op, op_spawn, op_turn, apply,
  apply_all,
}

-- The world that knows of the new coroutine, and that with its frame.
abbrev told : ℕ → Body → World → World
told e b w = record w { spawned = w.spawned ++ record { home = e; body = b } ∷ [] }

abbrev framed : ℕ → Body → World → World
framed e b w = make_frame (some e) (length w.spawned) b (told e b w)

framed_frame :
    (e : ℕ) (b : Body) (w : World)
    → (framed e b w).frames w.made
      ≡ record { executor = some e; callfunc = none; phase = suspended b; root = length w.spawned }
framed_frame e b w =
    put_frame-same w.made
      (record { executor = some e; callfunc = none; phase = suspended b; root = length w.spawned })
      w.frames

-- A coroutine that has just been spawned has all its work before it.
spawned-Outcome :
    (e : ℕ) (b : Body) (w : World)
    → Fresh (length w.spawned) w
    → Outcome (length w.spawned) (trace e b) (1 + cost b) (spawn e b w)
spawned-Outcome e b w h =
    let r = length w.spawned in
    let frame = framed_frame e b w in
    posted e w.made b [] (record {
      d = cost b;
      more = omega arith;
      at = record {
        bound = omega arith;
        root = ap (λ x. x.root) frame;
        linked = ap (λ x. x.callfunc) frame;
        log = ap (λ xs. xs ++ (trace e b ++ [])) h.log ∙ append-nil (trace e b);
        steps = omega (arith, h.resumed);
        balance = ground (arith, h.created, h.destroyed, count-append_one r w.created r);
      };
      wakes = subst (λ x. Wakes b x.phase) (sym frame) fresh;
      posts = post_only r e w.made (framed e b w) (ap (λ x. x.root) frame) h.posts;
    })

spawned-Apart : (e : ℕ) (b : Body) (w : World) → Apart (length w.spawned) (told e b w) (spawn e b w)
spawned-Apart e b w =
    Apart-trans (length w.spawned) (told e b w) (framed e b w) (spawn e b w)
      (make_frame-Apart (some e) (length w.spawned) b (told e b w))
      (post-Apart (length w.spawned) e w.made (framed e b w)
        (ap (λ x. x.root) (framed_frame e b w)))

told-Status :
    (o : Option Spawned) (r e : ℕ) (b : Body) (w : World) → Status o r w → Status o r (told e b w)
told-Status none r e b w h = record {
  posts = h.posts;
  log = h.log;
  resumed = h.resumed;
  created = h.created;
  destroyed = h.destroyed;
}
told-Status (some s) r e b w (over h) =
    over (record { posts = h.posts; log = h.log; steps = h.steps; balance = h.balance })
told-Status (some s) r e b w (posted x f c ls h) = posted x f c ls (record {
  d = h.d;
  more = h.more;
  at = record {
    bound = h.at.bound;
    root = h.at.root;
    linked = h.at.linked;
    log = h.at.log;
    steps = h.at.steps;
    balance = h.at.balance;
  };
  wakes = h.wakes;
  posts = h.posts;
})

spawn-Status :
    (e : ℕ) (b : Body) (w : World) (r : ℕ)
    → Sound w
    → Status (get_elem? (spawn e b w).spawned r) r (spawn e b w)
spawn-Status e b w r i =
    let n = length w.spawned in
    let s : Spawned = record { home = e; body = b } in
    let v = spawn e b w in
    elim (ℕ_discrete r n) [
      | yes same ↦
          let new = subst (λ o. Status o n w) (get_elem?-length w.spawned) (i.status n) in
          subst (λ k. Status (get_elem? (w.spawned ++ s ∷ []) k) k v) (sym same)
            (subst (λ o. Status o n v) (sym (get_elem?-append_new w.spawned s))
              (spawned-Outcome e b w new))
      | no away ↦
          let old = told-Status (get_elem? w.spawned r) r e b w (i.status r) in
          subst (λ o. Status o r v) (sym (get_elem?-append_old w.spawned s r away))
            (Status-stays (get_elem? w.spawned r) r n (told e b w) v away (spawned-Apart e b w) old)
    ]

apply-Sound : (op : Op) (w : World) → Sound w → Sound (apply op w)
unfolding apply
apply-Sound (op_spawn e b) w i = record { sound = i.sound; status = λ r. spawn-Status e b w r i }
apply-Sound (op_turn e) w i = turn-Sound e w i

all_along : (ops : List Op) (w : World) → Sound w → Sound (apply_all ops w)
unfolding apply_all
all_along [] w i = i
all_along (op ∷ ops) w i = all_along ops (apply op w) (apply-Sound op w i)

start-Sound : Sound start
unfolding count
start-Sound = record {
  sound = refl;
  status =
      λ r. record { posts = refl; log = refl; resumed = refl; created = refl; destroyed = refl };
}

-- Of a spawned coroutine `r` that means the call of `s`: it is over, with all its work in the
-- order of the call and every frame destroyed, or one task is there that will resume it, and not
-- all the resumptions have been.
pub record Goes (r : ℕ) (s : Spawned) (w : World) : Type 0 where
  pub due : Post
  pub posts : pending r w.posts ≡ due ∷ []
  pub more : List (ℕ × ℕ)
  pub log : noted r w.log ++ more ≡ trace s.home s.body
  pub steps : count r w.resumed < 1 + cost s.body

goes :
    (r : ℕ) (s : Spawned) (w : World)
    → Outcome r (trace s.home s.body) (1 + cost s.body) w
    → Over r (trace s.home s.body) (1 + cost s.body) w ⊎ Goes r s w
goes r s w (over h) = inl h
goes r s w (posted e f b ls h) = inr (record {
  due = record { on = e; handle = f; who = r };
  posts = h.posts;
  more = trace e b ++ rest ls (value b);
  log = h.at.log;
  steps = omega (arith, h.at.steps, h.more);
})

-- Whatever coroutines are spawned and whichever way the executors take turns: no frame is
-- resumed or destroyed while it runs or behind its end, and no result is read that is not there;
-- and every spawned coroutine is over or has exactly one task that will resume it. When it is
-- over its work has been done in the order, on the executors and with the values of plain calls
-- in the place of every `co_await`, and all its frames are destroyed; before that the work done
-- is a first part of this, and fewer tasks than the body asks for have resumed it.
pub awaits_are_calls :
    (ops : List Op) (r : ℕ) (s : Spawned)
    → get_elem? (apply_all ops start).spawned r ≡ some s
    → ((apply_all ops start).faults ≡ 0)
      × (Over r (trace s.home s.body) (1 + cost s.body) (apply_all ops start)
          ⊎ Goes r s (apply_all ops start))
awaits_are_calls ops r s e =
    let w = apply_all ops start in
    let i = all_along ops start start-Sound in
    (i.sound, goes r s w (subst (λ o. Status o r w) e (i.status r)))
