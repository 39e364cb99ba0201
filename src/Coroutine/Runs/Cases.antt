-- ===== src/Coroutine/Runs/Cases.antt =====
-- What the ways to suspend in Base/AwaitTask.h do with a coroutine that runs.
use bugat.Common.{
  ℕ, ◌+◌, ◌≡◌, refl, sym, ap, subst, ◌∙◌, some, List, [], ◌∷◌, ◌++◌, append_assoc, append-nil,
  arith,
}
use bugat.Common.Count.{count, count-append_one}
use bugat.Coroutine.Meaning.{trace, value, cost}
use bugat.Coroutine.Apart.{
  Apart, Apart-trans, put_frame-same, put_frame-other, put_frame_self, put_frame-Apart, post-Apart,
  destroyed-Apart,
}
use bugat.Coroutine.Chain.{
  Link, AwaitedAs, for_value, for_nothing, LinkHolds, Linked-stays, rest, rest_cost, pending, noted,
  pending-append, noted-append_mine,
}
use bugat.Coroutine.Runs.Ready.{Ready, Wakes, fresh, answered, over, posted, Result}
use bugat.Coroutine.{
  Body, returns, notes, yields, Phase, suspended, waiting, running, gone, Callback, Frame, World,
  put_frame, set_phase, post, note, destroy, destroy_phase, write_phase, final_with, final_suspend,
  await_always, call_back,
}

abbrev pub frame_at : ℕ → Phase → World → Frame
frame_at f p w = record (w.frames f) { phase = p }

same_frame :
    (f : ℕ) (b : Body) (w : World)
    → (set_phase f (suspended b) w).frames f ≡ frame_at f (suspended b) w
same_frame f b w = put_frame-same f (frame_at f (suspended b) w) w.frames

-- The post of a coroutine that had none.
pub post_only :
    (r e f : ℕ) (w : World)
    → (w.frames f).root ≡ r
    → pending r w.posts ≡ []
    → pending r (post e f w).posts ≡ record { on = e; handle = f; who = r } ∷ []
post_only r e f w root none_yet = ground (
  arith,
  none_yet,
  pending-append r w.posts (record { on = e; handle = f; who = (w.frames f).root } ∷ []),
)

-- The work before the rest goes into the log.
note_log :
    (r e f n : ℕ) (w : World) (more : List (ℕ × ℕ))
    → (w.frames f).root ≡ r
    → noted r (note e f n w).log ++ more ≡ noted r w.log ++ ((e, n) ∷ more)
note_log r e f n w more root =
    ap (λ xs. xs ++ more)
      (noted-append_mine r w.log (record { who = (w.frames f).root; on = e; what = n }) root)
    ∙ append_assoc (noted r w.log) ((e, n) ∷ []) more

pub note-Ready :
    (r c e f n : ℕ) (t : List (ℕ × ℕ)) (b : Body) (ls : List Link) (w : World)
    → Ready r t c e f (notes n b) ls w
    → Ready r t c e f b ls (note e f n w)
unfolding trace value cost
note-Ready r c e f n t b ls w h = record {
  at = record {
    bound = h.at.bound;
    root = h.at.root;
    linked = h.at.linked;
    log = note_log r e f n w (trace e b ++ rest ls (value b)) h.at.root ∙ h.at.log;
    steps = h.at.steps;
    balance = h.at.balance;
  };
  phase = h.phase;
  posts = h.posts;
}

-- `co_await AwaitAlways(serializer)`
pub yields-Result :
    (r c s e f : ℕ) (t : List (ℕ × ℕ)) (b : Body) (ls : List Link) (w : World)
    → w.faults ≡ 0
    → Ready r t c e f (yields s b) ls w
    → Result r t c w (await_always s f b w)
unfolding trace value cost
yields-Result r c s e f t b ls w sound h = record {
  outcome = posted s f b ls (record {
    d = count r w.resumed + cost b + rest_cost ls (value b);
    more = omega (arith, h.at.steps);
    at = record {
      bound = h.at.bound;
      root = ap (λ x. x.root) (same_frame f b w) ∙ h.at.root;
      linked =
          Linked-stays w.frames (set_phase f (suspended b) w).frames r f ls
            (ap (λ x. x.callfunc) (same_frame f b w))
            (λ i lt _. put_frame-other f i (frame_at f (suspended b) w) w.frames (omega arith))
            h.at.linked;
      log = h.at.log;
      steps = refl;
      balance = h.at.balance;
    };
    wakes = subst (λ x. Wakes b x.phase) (sym (same_frame f b w)) fresh;
    posts =
        post_only r s f (set_phase f (suspended b) w)
          (ap (λ x. x.root) (same_frame f b w) ∙ h.at.root) h.posts;
  });
  apart =
      Apart-trans r w (set_phase f (suspended b) w) (await_always s f b w)
        (put_frame-Apart r f (frame_at f (suspended b) w) w (λ _. h.at.root) refl)
        (post-Apart r s f (set_phase f (suspended b) w)
          (ap (λ x. x.root) (same_frame f b w) ∙ h.at.root));
  sound = sound;
}

abbrev pub finished : ℕ → World → World
finished f w = record (set_phase f gone w) { destroyed = w.destroyed ++ (w.frames f).root ∷ [] }

pub finished-Apart : (r f : ℕ) (w : World) → (w.frames f).root ≡ r → Apart r w (finished f w)
finished-Apart r f w root =
    Apart-trans r w (set_phase f gone w) (finished f w)
      (put_frame-Apart r f (frame_at f gone w) w (λ _. root) refl)
      (subst
        (λ q.
          Apart r (set_phase f gone w)
            (record (set_phase f gone w) { destroyed = w.destroyed ++ q ∷ [] }))
        (sym root) (destroyed-Apart r (set_phase f gone w)))

destroy-running : (f : ℕ) (w : World) → (w.frames f).phase ≡ running → destroy f w ≡ finished f w
destroy-running f w h = ap (λ p. destroy_phase p f w) h

-- One frame more is destroyed.
pub finished_count :
    (r f : ℕ) (w : World)
    → (w.frames f).root ≡ r
    → count r (finished f w).destroyed ≡ count r w.destroyed + 1
finished_count r f w root = ground (arith, count-append_one r w.destroyed (w.frames f).root)

-- `co_return` of a coroutine that no other awaits.
pub last-Result :
    (r c v e f : ℕ) (t : List (ℕ × ℕ)) (w : World)
    → w.faults ≡ 0
    → Ready r t c e f (returns v) [] w
    → Result r t c w (final_suspend f v w)
unfolding trace value cost
last-Result r c v e f t w sound h =
    let ends : final_suspend f v w ≡ finished f w =
      let alone : final_suspend f v w ≡ destroy f w = ap (final_with f v w) h.at.linked in
      alone ∙ destroy-running f w h.phase in
    subst (Result r t c w) (sym ends) (record {
      outcome = over (record {
        posts = h.posts;
        log = sym (append-nil (noted r w.log)) ∙ h.at.log;
        steps = omega (arith, h.at.steps);
        balance = omega (arith, h.at.balance, finished_count r f w h.at.root);
      });
      apart = finished-Apart r f w h.at.root;
      sound = sound;
    })

-- The caller is posted, with its answer if it waits for one, and the frame of the callee is
-- destroyed. `y` is the frame of the caller then.
abbrev pub answered_world : ℕ → Frame → Link → World → World
answered_world f y l w =
    finished f (post l.base l.frame (record w { frames = put_frame l.frame y w.frames }))

pub record Answer (v f : ℕ) (l : Link) (w : World) : Type 0 where
  pub frame : Frame
  pub ends : final_suspend f v w ≡ answered_world f frame l w
  pub root : frame.root ≡ (w.frames l.frame).root
  pub callfunc : frame.callfunc ≡ (w.frames l.frame).callfunc
  pub wakes : Wakes (l.next v) frame.phase

-- A callback that leaves the frame of the caller as `y`.
answer_with :
    (r v f : ℕ) (l : Link) (w : World) (h : LinkHolds w.frames r f l) (y : Frame)
    → (w.frames f).phase ≡ running
    → call_back v h.back w
      ≡ post l.base l.frame (record w { frames = put_frame l.frame y w.frames })
    → final_suspend f v w ≡ answered_world f y l w
answer_with r v f l w h y run writes =
    let u = post l.base l.frame (record w { frames = put_frame l.frame y w.frames }) in
    let calls : final_suspend f v w ≡ destroy f (call_back v h.back w) =
      ap (final_with f v w) h.called in
    let still : (u.frames f).phase ≡ running =
      ap (λ x. x.phase) (put_frame-other l.frame f y w.frames (omega (arith, h.older))) ∙ run in
    calls ∙ (ap (destroy f) writes ∙ destroy-running f u still)

answer_as :
    (v f : ℕ) (l : Link) (w : World) (back : Callback) (p : Phase)
    → AwaitedAs l back p
    → (w.frames l.frame).phase ≡ p
    → ((y : Frame)
        → call_back v back w
          ≡ post l.base l.frame (record w { frames = put_frame l.frame y w.frames })
        → final_suspend f v w ≡ answered_world f y l w)
    → Answer v f l w
answer_as v f l w _ _ for_value at_p ends =
    let y = frame_at l.frame (waiting l.next (some v)) w in
    record {
      frame = y;
      ends = ends y (ap (λ q. post l.base l.frame (write_phase q l.frame v w)) at_p);
      root = refl;
      callfunc = refl;
      wakes = answered l.next v refl;
    }
answer_as v f l w _ _ (for_nothing rest same) at_p ends =
    let y = w.frames l.frame in
    record {
      frame = y;
      ends = ends y (
          ap (λ fs. post l.base l.frame (record w { frames = fs }))
            (put_frame_self l.frame w.frames));
      root = refl;
      callfunc = refl;
      wakes =
          subst (λ q. Wakes (l.next v) q) (sym at_p)
            (subst (λ b. Wakes b (suspended rest)) (sym (same v)) fresh);
    }

pub answer :
    (r v f : ℕ) (l : Link) (w : World)
    → LinkHolds w.frames r f l
    → (w.frames f).phase ≡ running
    → Answer v f l w
answer r v f l w h run =
    answer_as v f l w h.back (w.frames l.frame).phase h.awaited refl
      (λ y writes. answer_with r v f l w h y run writes)
