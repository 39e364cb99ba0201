-- ===== src/Coroutine/Runs/Roots.antt =====
-- A resumption in Base/AwaitTask.h, from the frame that is resumed up to its suspension.
use bugat.Common.{
  ◌-◌, ◌+◌, ◌<◌, ◌∙◌, ℕ, ◌≡◌, refl, sym, ap, subst, none, some, List, [], ◌∷◌, arith,
}
use bugat.Coroutine.Apart.{Apart, Apart-trans, note-Apart}
use bugat.Coroutine.Meaning.{trace, value, cost}
use bugat.Coroutine.Chain.{for_value, for_nothing, Link, pending}
use bugat.Coroutine.Runs.Ready.{At, Ready, Wakes, fresh, answered, Result}
use bugat.Coroutine.Runs.Cases.{note-Ready, yields-Result, last-Result}
use bugat.Coroutine.Runs.Calls.{answer-Result}
use bugat.Coroutine.Runs.Awaits.{
  new_link, callee_frame, co_await-At, co_await-Apart, posted-Result, starts-Ready, starts-Apart,
}
use bugat.Coroutine.{
  Body, Callback, returns, notes, yields, awaits, awaits_void, Phase, suspended, waiting, running,
  call, call_void, World, set_phase, note, co_await, final_suspend, run, resume_phase, resume,
}

after_Apart :
    (r c : ℕ) (t : List (ℕ × ℕ)) (u w v : World) → Apart r u w → Result r t c w v → Result r t c u v
after_Apart r c t u w v apart h = record {
  outcome = h.outcome;
  apart = Apart-trans r u w v apart h.apart;
  sound = h.sound;
}

-- A callee without an executor runs inside its caller.
inside-Result :
    (back : Callback) (p : Phase) (r c e f : ℕ) (t : List (ℕ × ℕ)) (b : Body) (w v : World)
    → (w.frames f).root ≡ r
    → (old : f < w.made) → Result r t c (set_phase w.made running (co_await back p f none b w)) v
    → Result r t c w v
inside-Result back p r c e f t b w v root old h =
    let u = co_await back p f none b w in
    after_Apart r c t w (set_phase w.made running u) v
      (Apart-trans r w u (set_phase w.made running u) (co_await-Apart back p f none b w old r root)
        (starts-Apart r w.made u (ap (λ y. y.root) (callee_frame back p f none b w old) ∙ root)))
      h

returns-Result :
    (r c v e f : ℕ) (t : List (ℕ × ℕ)) (ls : List Link) (w : World)
    → w.faults ≡ 0
    → Ready r t c e f (returns v) ls w
    → Result r t c w (final_suspend f v w)
returns-Result r c v e f t [] w sound h = last-Result r c v e f t w sound h
returns-Result r c v e f t (l ∷ ls) w sound h = answer-Result r c v e f t l ls w sound h

pub run-Result :
    (b : Body) (r c e f : ℕ) (t : List (ℕ × ℕ)) (ls : List Link) (w : World)
    → w.faults ≡ 0
    → Ready r t c e f b ls w
    → Result r t c w (run e f b w)
unfolding run trace value cost
run-Result (returns v) r c e f t ls w sound h = returns-Result r c v e f t ls w sound h
run-Result (notes n b) r c e f t ls w sound h =
    after_Apart r c t w (note e f n w) (run e f b (note e f n w)) (note-Apart r e f n w h.at.root)
      (run-Result b r c e f t ls (note e f n w) sound (note-Ready r c e f n t b ls w h))
run-Result (yields s b) r c e f t ls w sound h = yields-Result r c s e f t b ls w sound h
run-Result (awaits (some x) b k) r c e f t ls w sound h =
    let fewer : c - 1 + 1 ≡ c = omega (arith, h.at.steps) in
    let at =
      co_await-At (call e f) (waiting k none) f (some x) b w h.at.bound e k for_value
        (awaits (some x) b k) r c t ls h.at refl refl (c - 1) fewer (omega arith) in
    posted-Result (call e f) (waiting k none) r c x e f t b k ls w sound h.at.root h.posts
      h.at.bound (c - 1) fewer at
run-Result (awaits none b k) r c e f t ls w sound h =
    let g = w.made in
    let u = co_await (call e f) (waiting k none) f none b w in
    let at =
      co_await-At (call e f) (waiting k none) f none b w h.at.bound e k for_value (awaits none b k)
        r c t ls h.at refl refl c (omega arith) (omega arith) in
    inside-Result (call e f) (waiting k none) r c e f t b w (run e g b (set_phase g running u))
      h.at.root h.at.bound
      (run-Result b r c e g t (new_link e f k ∷ ls) (set_phase g running u) sound
        (starts-Ready r c e g t b (new_link e f k ∷ ls) u at h.posts))
run-Result (awaits_void (some x) b rest) r c e f t ls w sound h =
    let fewer : c - 1 + 1 ≡ c = omega (arith, h.at.steps) in
    let at =
      co_await-At (call_void e f) (suspended rest) f (some x) b w h.at.bound e (λ _. rest)
        (for_nothing rest (λ _. refl)) (awaits_void (some x) b rest) r c t ls h.at refl refl (c - 1)
        fewer (omega arith) in
    posted-Result (call_void e f) (suspended rest) r c x e f t b (λ _. rest) ls w sound h.at.root
      h.posts h.at.bound (c - 1) fewer at
run-Result (awaits_void none b rest) r c e f t ls w sound h =
    let g = w.made in
    let u = co_await (call_void e f) (suspended rest) f none b w in
    let at =
      co_await-At (call_void e f) (suspended rest) f none b w h.at.bound e (λ _. rest)
        (for_nothing rest (λ _. refl)) (awaits_void none b rest) r c t ls h.at refl refl c
        (omega arith) (omega arith) in
    inside-Result (call_void e f) (suspended rest) r c e f t b w (run e g b (set_phase g running u))
      h.at.root h.at.bound
      (run-Result b r c e g t (new_link e f (λ _. rest) ∷ ls) (set_phase g running u) sound
        (starts-Ready r c e g t b (new_link e f (λ _. rest) ∷ ls) u at h.posts))

-- Whichever way the frame waits, its body runs on.
woken :
    (p : Phase) (b : Body) (e f : ℕ) (w : World)
    → Wakes b p
    → resume_phase p e f w ≡ run e f b (set_phase f running w)
woken _ b e f w fresh = refl
woken _ b e f w (answered k v same) = ap (λ c. run e f c (set_phase f running w)) same

-- The task of an executor that resumes the frame which is due.
pub resume-Result :
    (r c e f : ℕ) (t : List (ℕ × ℕ)) (b : Body) (ls : List Link) (w : World)
    → w.faults ≡ 0
    → At r t c e f b ls w
    → Wakes b (w.frames f).phase
    → pending r w.posts ≡ []
    → Result r t c w (resume e f w)
resume-Result r c e f t b ls w sound at wakes idle =
    subst (Result r t c w) (sym (woken (w.frames f).phase b e f w wakes)) (
      after_Apart r c t w (set_phase f running w) (run e f b (set_phase f running w))
        (starts-Apart r f w at.root)
        (run-Result b r c e f t ls (set_phase f running w) sound
          (starts-Ready r c e f t b ls w at idle)))
