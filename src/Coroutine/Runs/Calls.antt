-- ===== src/Coroutine/Runs/Calls.antt =====
-- `co_await` of Base/AwaitTask.h: the call of a coroutine, and its answer.
use bugat.Common.{ℕ, ◌+◌, ◌≡◌, ◌≢◌, refl, sym, ap, subst, ◌∙◌, List, ◌∷◌, arith}
use bugat.Common.Count.{count}
use bugat.Coroutine.Meaning.{trace, value, cost}
use bugat.Coroutine.Apart.{
  Apart, Apart-trans, put_frame-same, put_frame-other, put_frame-Apart, post-Apart,
}
use bugat.Coroutine.Chain.{Link, LinkHolds, Linked-stays, rest_cost}
use bugat.Coroutine.Runs.Ready.{Ready, Posted, posted, Result, Wakes}
use bugat.Coroutine.Runs.Cases.{
  frame_at, finished-Apart, finished_count, post_only, answered_world, Answer, answer,
}
use bugat.Coroutine.{returns, gone, Frame, World, put_frame, post, final_suspend}

-- Changes of two frames.
pub two_other :
    (f g i : ℕ) (x y : Frame) (fs : ℕ → Frame)
    → i ≢ f
    → i ≢ g
    → put_frame f x (put_frame g y fs) i ≡ fs i
two_other f g i x y fs away far =
    put_frame-other f i x (put_frame g y fs) away ∙ put_frame-other g i y fs far

pub two_second :
    (f g : ℕ) (x y : Frame) (fs : ℕ → Frame) → g ≢ f → put_frame f x (put_frame g y fs) g ≡ y
two_second f g x y fs away = put_frame-other f g x (put_frame g y fs) away ∙ put_frame-same g y fs

answered_frame :
    (r f : ℕ) (y : Frame) (l : Link) (w : World)
    → LinkHolds w.frames r f l
    → (answered_world f y l w).frames l.frame ≡ y
answered_frame r f y l w h =
    let s = record w { frames = put_frame l.frame y w.frames } in
    two_second f l.frame (frame_at f gone s) y w.frames (omega (arith, h.older))

answered-Apart :
    (r f : ℕ) (y : Frame) (l : Link) (w : World)
    → LinkHolds w.frames r f l
    → y.root ≡ (w.frames l.frame).root
    → (w.frames f).root ≡ r
    → Apart r w (answered_world f y l w)
answered-Apart r f y l w h same root =
    let s = record w { frames = put_frame l.frame y w.frames } in
    let u = post l.base l.frame s in
    Apart-trans r w s (answered_world f y l w)
      (put_frame-Apart r l.frame y w (λ _. h.same_root) same)
      (Apart-trans r s u (answered_world f y l w)
        (post-Apart r l.base l.frame s
          (ap (λ z. z.root) (put_frame-same l.frame y w.frames) ∙ (same ∙ h.same_root)))
        (finished-Apart r f u (
          ap (λ z. z.root) (put_frame-other l.frame f y w.frames (omega (arith, h.older))) ∙ root)))

answer-Posted :
    (r c v e f : ℕ) (t : List (ℕ × ℕ)) (l : Link) (ls : List Link) (w : World)
    → Ready r t c e f (returns v) (l ∷ ls) w
    → (a : Answer v f l w)
    → Posted r t c l.base l.frame (l.next v) ls (answered_world f a.frame l w)
unfolding trace value cost
answer-Posted r c v e f t l ls w h a =
    let y = a.frame in
    let s = record w { frames = put_frame l.frame y w.frames } in
    let u = post l.base l.frame s in
    let frame = answered_frame r f y l w h.at.linked.0 in
    let here = put_frame-same l.frame y w.frames in
    record {
      d = count r w.resumed + cost (l.next v) + rest_cost ls (value (l.next v));
      more = omega (arith, h.at.steps);
      at = record {
        bound = omega (arith, h.at.bound, h.at.linked.0.older);
        root = ap (λ z. z.root) frame ∙ (a.root ∙ h.at.linked.0.same_root);
        linked =
            Linked-stays w.frames (answered_world f y l w).frames r l.frame ls
              (ap (λ z. z.callfunc) frame ∙ a.callfunc)
              (λ i lt _.
                two_other f l.frame i (frame_at f gone s) y w.frames
                  (omega (arith, h.at.linked.0.older)) (omega arith))
              h.at.linked.1;
        log = h.at.log;
        steps = refl;
        balance = omega (
          arith,
          h.at.balance,
          finished_count r f u (
              ap (λ z. z.root)
                (put_frame-other l.frame f y w.frames (omega (arith, h.at.linked.0.older)))
              ∙ h.at.root),
        );
      };
      wakes = subst (λ z. Wakes (l.next v) z.phase) (sym frame) a.wakes;
      posts =
          post_only r l.base l.frame s (ap (λ z. z.root) here ∙ (a.root ∙ h.at.linked.0.same_root))
            h.posts;
    }

-- `co_return` of a coroutine that another awaits.
pub answer-Result :
    (r c v e f : ℕ) (t : List (ℕ × ℕ)) (l : Link) (ls : List Link) (w : World)
    → w.faults ≡ 0
    → Ready r t c e f (returns v) (l ∷ ls) w
    → Result r t c w (final_suspend f v w)
answer-Result r c v e f t l ls w sound h =
    let a = answer r v f l w h.at.linked.0 h.phase in
    subst (Result r t c w) (sym a.ends) (record {
      outcome = posted l.base l.frame (l.next v) ls (answer-Posted r c v e f t l ls w h a);
      apart = answered-Apart r f a.frame l w h.at.linked.0 a.root h.at.root;
      sound = sound;
    })
