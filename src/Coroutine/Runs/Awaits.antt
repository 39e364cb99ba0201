-- ===== src/Coroutine/Runs/Awaits.antt =====
-- `co_await` of Base/AwaitTask.h up to the start of the callee.
use bugat.Common.{
  ℕ, ◌+◌, ◌<◌, ◌≡◌, refl, sym, ap, ap₂, subst, ◌∙◌, Option, none, some, List, [], ◌∷◌, ◌++◌,
  append_assoc, arith,
}
use bugat.Common.Count.{count-append_one}
use bugat.Coroutine.Meaning.{trace, value, cost, runs_on, start_cost}
use bugat.Coroutine.Apart.{
  Apart, Apart-trans, put_frame-same, put_frame-other, put_frame-Apart, post-Apart,
  make_frame-Apart,
}
use bugat.Coroutine.Chain.{Link, AwaitedAs, Linked-stays, rest, rest_cost, noted, pending}
use bugat.Coroutine.Runs.Ready.{At, Ready, Wakes, fresh, posted, Result}
use bugat.Coroutine.Runs.Cases.{frame_at, post_only}
use bugat.Coroutine.Runs.Calls.{two_other, two_second}
use bugat.Coroutine.{
  Body, Callback, Phase, suspended, running, Frame, World, set_phase, post, make_frame, co_await,
}

abbrev pub new_link : ℕ → ℕ → (ℕ → Body) → Link
new_link e f k = record { base = e; frame = f; next = k }

-- The frame of the callee, once it knows its caller.
abbrev callee : Option ℕ → Callback → Body → ℕ → Frame
callee x back b r = record { executor = x; callfunc = some back; phase = suspended b; root = r }

abbrev made_frame : Option ℕ → Body → ℕ → Frame
made_frame x b r = record { executor = x; callfunc = none; phase = suspended b; root = r }

abbrev calling : Callback → Frame → Frame
calling back y = record y { callfunc = some back }

abbrev halting : Phase → Frame → Frame
halting p y = record y { phase = p }

module _ (back : Callback) (p : Phase) (f : ℕ) (x : Option ℕ) (b : Body) (w : World)
    (old : f < w.made) where
  -- The world behind the call, and with the caller waiting.
  abbrev born : World
  born = make_frame x (w.frames f).root b w

  abbrev halted : World
  halted = set_phase f p born

  born_frame : born.frames f ≡ w.frames f
  born_frame =
      put_frame-other w.made f (made_frame x b (w.frames f).root) w.frames (omega (arith, old))

  halted_callee : halted.frames w.made ≡ made_frame x b (w.frames f).root
  halted_callee =
      two_second f w.made (frame_at f p born) (made_frame x b (w.frames f).root) w.frames
        (omega (arith, old))

  pub callee_frame : (co_await back p f x b w).frames w.made ≡ callee x back b (w.frames f).root
  callee_frame =
      put_frame-same w.made (calling back (halted.frames w.made)) halted.frames
      ∙ ap (calling back) halted_callee

  pub caller_frame : (co_await back p f x b w).frames f ≡ frame_at f p w
  caller_frame =
      put_frame-other w.made f (calling back (halted.frames w.made)) halted.frames
        (omega (arith, old))
      ∙ (put_frame-same f (frame_at f p born) born.frames ∙ ap (halting p) born_frame)

  pub old_frame : (i : ℕ) → i < f → (co_await back p f x b w).frames i ≡ w.frames i
  old_frame i lt =
      two_other w.made f i (calling back (halted.frames w.made)) (frame_at f p born) born.frames
        (omega (arith, old)) (omega arith)
      ∙ put_frame-other w.made i (made_frame x b (w.frames f).root) w.frames (omega (arith, old))

  pub co_await-Apart : (r : ℕ) → (w.frames f).root ≡ r → Apart r w (co_await back p f x b w)
  co_await-Apart r root =
      Apart-trans r w born (co_await back p f x b w)
        (subst (λ q. Apart q w born) root (make_frame-Apart x (w.frames f).root b w))
        (Apart-trans r born halted (co_await back p f x b w)
          (put_frame-Apart r f (frame_at f p born) born (λ _. ap (λ y. y.root) born_frame ∙ root)
            refl)
          (put_frame-Apart r w.made (calling back (halted.frames w.made)) halted
            (λ _. ap (λ y. y.root) halted_callee ∙ root) refl))

  -- The callee is about to do its body for the caller, which goes on with `k` of its value.
  pub co_await-At :
      (e : ℕ) (k : ℕ → Body)
      → AwaitedAs (new_link e f k) back p
      → (body : Body) (r c : ℕ) (t : List (ℕ × ℕ)) (ls : List Link) → At r t c e f body ls w
      → (trace e body ≡ trace (runs_on e x) b ++ trace e (k (value b)))
      → (value body ≡ value (k (value b)))
      → (d : ℕ) → d + start_cost x ≡ c
      → (cost body ≡ start_cost x + cost b + (1 + cost (k (value b))))
      → At r t d (runs_on e x) w.made b (new_link e f k ∷ ls) (co_await back p f x b w)
  co_await-At e k how body r c t ls h tr va d less co = record {
    bound = omega arith;
    root = ap (λ y. y.root) callee_frame ∙ h.root;
    linked = (
      record {
        back = back;
        called = ap (λ y. y.callfunc) callee_frame;
        older = old;
        same_root = ap (λ y. y.root) caller_frame ∙ h.root;
        awaited = subst (λ y. AwaitedAs (new_link e f k) back y.phase) (sym caller_frame) how;
      },
      Linked-stays w.frames (co_await back p f x b w).frames r f ls
          (ap (λ y. y.callfunc) caller_frame) (λ i lt _. old_frame i lt) h.linked,
    );
    log =
        ap (λ q. noted r w.log ++ q)
          (sym (
            append_assoc (trace (runs_on e x) b) (trace e (k (value b)))
              (rest ls (value (k (value b))))))
        ∙ (sym (ap₂ (λ q v. noted r w.log ++ (q ++ rest ls v)) tr va) ∙ h.log);
    steps = omega (arith, h.steps, less, co, ap (rest_cost ls) va);
    balance = ground (arith, h.balance, count-append_one r w.created (w.frames f).root, h.root);
  }

post_At :
    (r c e f x g : ℕ) (t : List (ℕ × ℕ)) (b : Body) (ls : List Link) (w : World)
    → At r t c e f b ls w
    → At r t c e f b ls (post x g w)
post_At r c e f x g t b ls w h = record {
  bound = h.bound;
  root = h.root;
  linked = h.linked;
  log = h.log;
  steps = h.steps;
  balance = h.balance;
}

-- A callee with an executor is posted to it.
pub posted-Result :
    (back : Callback) (p : Phase) (r c x e f : ℕ) (t : List (ℕ × ℕ)) (b : Body) (k : ℕ → Body)
    (ls : List Link) (w : World)
    → w.faults ≡ 0
    → (w.frames f).root ≡ r
    → pending r w.posts ≡ []
    → (old : f < w.made) (d : ℕ) → d + 1 ≡ c
    → At r t d x w.made b (new_link e f k ∷ ls) (co_await back p f (some x) b w)
    → Result r t c w (post x w.made (co_await back p f (some x) b w))
posted-Result back p r c x e f t b k ls w sound root idle old d fewer at =
    let u = co_await back p f (some x) b w in
    record {
      outcome = posted x w.made b (new_link e f k ∷ ls) (record {
        d = d;
        more = fewer;
        at = post_At r d x w.made x w.made t b (new_link e f k ∷ ls) u at;
        wakes = subst (λ y. Wakes b y.phase) (sym (callee_frame back p f (some x) b w old)) fresh;
        posts = post_only r x w.made u at.root idle;
      });
      apart =
          Apart-trans r w u (post x w.made u) (co_await-Apart back p f (some x) b w old r root)
            (post-Apart r x w.made u at.root);
      sound = sound;
    }

-- The frame that starts to run.
pub starts-At :
    (r c e g : ℕ) (t : List (ℕ × ℕ)) (b : Body) (ls : List Link) (w : World)
    → At r t c e g b ls w
    → At r t c e g b ls (set_phase g running w)
starts-At r c e g t b ls w h =
    let frame = put_frame-same g (frame_at g running w) w.frames in
    record {
      bound = h.bound;
      root = ap (λ y. y.root) frame ∙ h.root;
      linked =
          Linked-stays w.frames (set_phase g running w).frames r g ls (ap (λ y. y.callfunc) frame)
            (λ i lt _. put_frame-other g i (frame_at g running w) w.frames (omega arith)) h.linked;
      log = h.log;
      steps = h.steps;
      balance = h.balance;
    }

pub starts-Ready :
    (r c e g : ℕ) (t : List (ℕ × ℕ)) (b : Body) (ls : List Link) (w : World)
    → At r t c e g b ls w
    → pending r w.posts ≡ []
    → Ready r t c e g b ls (set_phase g running w)
starts-Ready r c e g t b ls w h idle = record {
  at = starts-At r c e g t b ls w h;
  phase = ap (λ y. y.phase) (put_frame-same g (frame_at g running w) w.frames);
  posts = idle;
}

pub starts-Apart : (r g : ℕ) (w : World) → (w.frames g).root ≡ r → Apart r w (set_phase g running w)
starts-Apart r g w root = put_frame-Apart r g (frame_at g running w) w (λ _. root) refl
