-- ===== src/Coroutine/Apart.antt =====
-- What a coroutine of Base/AwaitTask.h leaves as it is: all that belongs to another one.
use bugat.Common.{
  ℕ_discrete, ap, ℕ, ◌≤◌, ◌<◌, ◌≡◌, ◌≢◌, refl, sym, ◌∙◌, Option, [], ◌∷◌, ◌++◌, append-nil, arith,
}
use mathlib.Core.Path.{fun_ext}
use bugat.Common.Count.{count, count-append_one}
use bugat.Coroutine.Chain.{pending, noted, pending-append, noted-append}
use bugat.Coroutine.{Body, Frame, World, put_frame, post, note, make_frame}

-- From `w` to `v` only what belongs to the coroutine `r` has changed, and no frame its coroutine.
pub record Apart (r : ℕ) (w v : World) : Type 0 where
  pub frames : (i : ℕ) → i < w.made → (w.frames i).root ≢ r → v.frames i ≡ w.frames i
  pub roots : (i : ℕ) → i < w.made → (v.frames i).root ≡ (w.frames i).root
  pub made : w.made ≤ v.made
  pub posts : (q : ℕ) → q ≢ r → pending q v.posts ≡ pending q w.posts
  pub log : (q : ℕ) → q ≢ r → noted q v.log ≡ noted q w.log
  pub resumed : (q : ℕ) → q ≢ r → count q v.resumed ≡ count q w.resumed
  pub created : (q : ℕ) → q ≢ r → count q v.created ≡ count q w.created
  pub destroyed : (q : ℕ) → q ≢ r → count q v.destroyed ≡ count q w.destroyed
  pub spawned : v.spawned ≡ w.spawned

pub Apart-trans : (r : ℕ) (u v w : World) → Apart r u v → Apart r v w → Apart r u w
Apart-trans r u v w a b = record {
  frames = λ i lt away.
      b.frames i (omega (arith, a.made)) (λ e. away (sym (a.roots i lt) ∙ e)) ∙ a.frames i lt away;
  roots = λ i lt. b.roots i (omega (arith, a.made)) ∙ a.roots i lt;
  made = omega (arith, a.made, b.made);
  posts = λ q away. b.posts q away ∙ a.posts q away;
  log = λ q away. b.log q away ∙ a.log q away;
  resumed = λ q away. b.resumed q away ∙ a.resumed q away;
  created = λ q away. b.created q away ∙ a.created q away;
  destroyed = λ q away. b.destroyed q away ∙ a.destroyed q away;
  spawned = b.spawned ∙ a.spawned;
}

pub put_frame-same : (f : ℕ) (x : Frame) (fs : ℕ → Frame) → put_frame f x fs f ≡ x
put_frame-same f x fs = ground arith

pub put_frame-other : (f i : ℕ) (x : Frame) (fs : ℕ → Frame) → i ≢ f → put_frame f x fs i ≡ fs i
put_frame-other f i x fs away = ground arith

-- A frame is put where it is.
pub put_frame_self : (f : ℕ) (fs : ℕ → Frame) → fs ≡ put_frame f (fs f) fs
put_frame_self f fs = fun_ext (λ i. elim (ℕ_discrete i f) [
  | yes same ↦ ap fs same ∙ sym (ap (put_frame f (fs f) fs) same ∙ put_frame-same f (fs f) fs)
  | no away ↦ sym (put_frame-other f i (fs f) fs away)
])

-- A change of one frame of the coroutine.
pub put_frame-Apart :
    (r f : ℕ) (x : Frame) (w : World)
    → (f < w.made → (w.frames f).root ≡ r)
    → x.root ≡ (w.frames f).root
    → Apart r w (record w { frames = put_frame f x w.frames })
put_frame-Apart r f x w mine same = record {
  frames = λ i lt away. ground arith;
  roots = λ i lt. ground arith;
  made = omega arith;
  posts = λ q away. refl;
  log = λ q away. refl;
  resumed = λ q away. refl;
  created = λ q away. refl;
  destroyed = λ q away. refl;
  spawned = refl;
}

pub post-Apart : (r e f : ℕ) (w : World) → (w.frames f).root ≡ r → Apart r w (post e f w)
post-Apart r e f w root = record {
  frames = λ i lt away. refl;
  roots = λ i lt. refl;
  made = omega arith;
  posts = λ q away. ground (
    arith,
    pending-append q w.posts (record { on = e; handle = f; who = (w.frames f).root } ∷ []),
    append-nil (pending q w.posts),
  );
  log = λ q away. refl;
  resumed = λ q away. refl;
  created = λ q away. refl;
  destroyed = λ q away. refl;
  spawned = refl;
}

pub note-Apart : (r e f n : ℕ) (w : World) → (w.frames f).root ≡ r → Apart r w (note e f n w)
note-Apart r e f n w root = record {
  frames = λ i lt away. refl;
  roots = λ i lt. refl;
  made = omega arith;
  posts = λ q away. refl;
  log = λ q away. ground (
    arith,
    noted-append q w.log (record { who = (w.frames f).root; on = e; what = n } ∷ []),
    append-nil (noted q w.log),
  );
  resumed = λ q away. refl;
  created = λ q away. refl;
  destroyed = λ q away. refl;
  spawned = refl;
}

pub make_frame-Apart :
    (x : Option ℕ) (r : ℕ) (b : Body) (w : World) → Apart r w (make_frame x r b w)
make_frame-Apart x r b w = record {
  frames = λ i lt away. ground arith;
  roots = λ i lt. ground arith;
  made = omega arith;
  posts = λ q away. refl;
  log = λ q away. refl;
  resumed = λ q away. refl;
  created = λ q away. ground (arith, count-append_one q w.created r);
  destroyed = λ q away. refl;
  spawned = refl;
}

pub destroyed-Apart :
    (r : ℕ) (w : World) → Apart r w (record w { destroyed = w.destroyed ++ r ∷ [] })
destroyed-Apart r w = record {
  frames = λ i lt away. refl;
  roots = λ i lt. refl;
  made = omega arith;
  posts = λ q away. refl;
  log = λ q away. refl;
  resumed = λ q away. refl;
  created = λ q away. refl;
  destroyed = λ q away. ground (arith, count-append_one q w.destroyed r);
  spawned = refl;
}
