-- ===== src/Coroutine.antt =====
-- The coroutines of Base/AwaitTask.h and the `Spawn_` functions of Base/Macro.h: frames that run on
-- executors, hand their value to the frame that awaits them and destroy themselves.
-- A frame, an executor and a value are numbers. A function of the program is the body of its
-- coroutine, which the programmer writes. A resumed frame runs alone until it suspends: what it
-- posts to another thread is the last thing it does.
pub mod Meaning
mod Chain
mod Apart
mod Runs
pub mod Answers
mod Tests
use bugat.Common.{ℕ, ◌+◌, Option, none, some, List, [], ◌∷◌, ◌++◌, length, ◌==◌, if◌then◌else◌}

-- What a coroutine does: work that the log shows, `co_await AwaitAlways(serializer)`, `co_await` of
-- another coroutine with its executor, if it has one, and its body, for its value or, of
-- `AwaitTask<void>`, for none, and `co_return`.
pub data Body : Type 0 where
  returns : ℕ → Body
  notes : ℕ → Body → Body
  yields : ℕ → Body → Body
  awaits : Option ℕ → Body → (ℕ → Body) → Body
  awaits_void : Option ℕ → Body → Body → Body

-- Where a frame stands: before its first line or behind an `AwaitAlways`, in an `Await`, whose
-- `_result` may be there, on some stack, or destroyed.
pub data Phase : Type 0 where
  suspended : Body → Phase
  waiting : (ℕ → Body) → Option ℕ → Phase
  running gone : Phase

-- What `_callfunc` captured: the executor and the frame of the caller.
pub data Callback : Type 0 where
  call : ℕ → ℕ → Callback
  call_void : ℕ → ℕ → Callback

-- `promise_type`, with the frame around it. `root` is a record for the theorems: the spawned
-- coroutine that the frame works for.
pub record Frame : Type 0 where
  pub executor : Option ℕ
  pub callfunc : Option Callback
  pub phase : Phase
  pub root : ℕ

-- A task that resumes a frame, in the queue of an executor.
pub record Post : Type 0 where
  pub on : ℕ
  pub handle : ℕ
  pub who : ℕ

pub record Entry : Type 0 where
  pub who : ℕ
  pub on : ℕ
  pub what : ℕ

pub record Spawned : Type 0 where
  pub home : ℕ
  pub body : Body

-- `faults` counts resumptions and destructions of a frame that is running or destroyed, and reads
-- of a result that is not there. The lists behind `posts` are a record for the theorems.
pub record World : Type 0 where
  pub frames : ℕ → Frame
  pub made : ℕ
  pub posts : List Post
  pub log : List Entry
  pub resumed : List ℕ
  pub created : List ℕ
  pub destroyed : List ℕ
  pub spawned : List Spawned
  pub faults : ℕ

abbrev pub no_frame : Frame
no_frame = record { executor = none; callfunc = none; phase = gone; root = 0 }

abbrev pub start : World
start = record {
  frames = λ _. no_frame;
  made = 0;
  posts = [];
  log = [];
  resumed = [];
  created = [];
  destroyed = [];
  spawned = [];
  faults = 0;
}

abbrev pub put_frame : ℕ → Frame → (ℕ → Frame) → ℕ → Frame
put_frame f x fs i = if i == f then x else fs i

abbrev pub set_phase : ℕ → Phase → World → World
set_phase f p w = record w { frames = put_frame f (record (w.frames f) { phase = p }) w.frames }

-- `Post` of an executor with a task that resumes the frame.
abbrev pub post : ℕ → ℕ → World → World
post e f w = record w {
  posts = w.posts ++ record { on = e; handle = f; who = (w.frames f).root } ∷ [];
}

abbrev pub note : ℕ → ℕ → ℕ → World → World
note e f n w = record w { log = w.log ++ record { who = (w.frames f).root; on = e; what = n } ∷ [] }

-- The call of a coroutine: `promise_type`, `get_return_object` and `initial_suspend`.
abbrev pub make_frame : Option ℕ → ℕ → Body → World → World
make_frame x r b w = record w {
  frames =
      put_frame w.made (record { executor = x; callfunc = none; phase = suspended b; root = r })
        w.frames;
  made = w.made + 1;
  created = w.created ++ r ∷ [];
}

abbrev pub fault : World → World
fault w = record w { faults = w.faults + 1 }

-- `FinalDestroyer::await_suspend`
abbrev pub destroy_phase : Phase → ℕ → World → World
destroy_phase gone f w = fault w
destroy_phase (suspended b) f w = fault w
destroy_phase (waiting k r) f w = fault w
destroy_phase running f w = record (set_phase f gone w) {
  destroyed = w.destroyed ++ (w.frames f).root ∷ [];
}

abbrev pub destroy : ℕ → World → World
destroy f w = destroy_phase (w.frames f).phase f w

-- `_result = value`, in the frame of the caller
abbrev pub write_phase : Phase → ℕ → ℕ → World → World
write_phase (waiting k r) h v w = set_phase h (waiting k (some v)) w
write_phase (suspended b) h v w = fault w
write_phase running h v w = fault w
write_phase gone h v w = fault w

-- The function that `await_suspend` of `AwaitTask<void>` puts into `_callfunc`, and then both
abbrev pub void_call_back : ℕ → ℕ → World → World
void_call_back c h w = post c h w

abbrev pub call_back : ℕ → Callback → World → World
call_back v (call c h) w = post c h (write_phase (w.frames h).phase h v w)
call_back v (call_void c h) w = void_call_back c h w

-- `return_value` and `final_suspend`
abbrev pub final_with : ℕ → ℕ → World → Option Callback → World
final_with f v w none = destroy f w
final_with f v w (some back) = destroy f (call_back v back w)

abbrev pub final_suspend : ℕ → ℕ → World → World
final_suspend f v w = final_with f v w (w.frames f).callfunc

-- `await_suspend` up to the start of the callee `g`, which is told who awaits it.
abbrev pub await_at : Callback → Phase → ℕ → ℕ → World → World
await_at back p f g w =
    let v = set_phase f p w in
    record v { frames = put_frame g (record (v.frames g) { callfunc = some back }) v.frames }

-- `co_await` of a coroutine that is called with it: `operator co_await` and `await_suspend`
abbrev pub co_await : Callback → Phase → ℕ → Option ℕ → Body → World → World
co_await back p f x b w = await_at back p f w.made (make_frame x (w.frames f).root b w)

abbrev pub await_value : ℕ → ℕ → Option ℕ → Body → (ℕ → Body) → World → World
await_value e f x b k w = co_await (call e f) (waiting k none) f x b w

abbrev pub await_void : ℕ → ℕ → Option ℕ → Body → Body → World → World
await_void e f x b rest w = co_await (call_void e f) (suspended rest) f x b w

-- `AwaitAlways::await_suspend`
abbrev pub await_always : ℕ → ℕ → Body → World → World
await_always s f b w = post s f (set_phase f (suspended b) w)

-- The frame `f` runs on the executor `e` until it suspends. `_executor` tells whether the callee
-- is posted to its executor or resumed at once, on that of the caller.
unfoldable pub run : ℕ → ℕ → Body → World → World
run e f (returns v) w = final_suspend f v w
run e f (notes n b) w = run e f b (note e f n w)
run e f (yields s b) w = await_always s f b w
run e f (awaits (some x) b k) w = post x w.made (await_value e f (some x) b k w)
run e f (awaits none b k) w = run e w.made b (set_phase w.made running (await_value e f none b k w))
run e f (awaits_void (some x) b rest) w = post x w.made (await_void e f (some x) b rest w)
run e f (awaits_void none b rest) w =
    run e w.made b (set_phase w.made running (await_void e f none b rest w))

abbrev pub resume_phase : Phase → ℕ → ℕ → World → World
resume_phase (suspended b) e f w = run e f b (set_phase f running w)
resume_phase (waiting k (some v)) e f w = run e f (k v) (set_phase f running w)
resume_phase (waiting k none) e f w = fault w
resume_phase running e f w = fault w
resume_phase gone e f w = fault w

-- `resume`, and `h.resume()` of the tasks; `await_resume` hands out the result.
abbrev pub resume : ℕ → ℕ → World → World
resume e f w = resume_phase (w.frames f).phase e f w

-- `Spawn_`: the coroutine of an object is made and posted to the object.
abbrev pub spawn : ℕ → Body → World → World
spawn e b w = post e w.made (
    make_frame (some e) (length w.spawned) b
      (record w { spawned = w.spawned ++ record { home = e; body = b } ∷ [] }))

-- The first task in the queue of an executor, and the others.
pub data Taken : Type 0 where
  nothing : Taken
  taken : Post → List Post → Taken

abbrev pub keep : Post → Taken → Taken
keep q nothing = nothing
keep q (taken p rest) = taken p (q ∷ rest)

abbrev pub take_post : ℕ → List Post → Taken
take_post e [] = nothing
take_post e (q ∷ qs) = let rest = take_post e qs in if q.on == e then taken q qs else keep q rest

abbrev pub resume_post : Taken → World → World
resume_post nothing w = w
resume_post (taken p rest) w =
    resume p.on p.handle (record w { posts = rest; resumed = w.resumed ++ p.who ∷ [] })

-- An executor runs its first task.
abbrev pub turn : ℕ → World → World
turn e w = resume_post (take_post e w.posts) w

pub data Op : Type 0 where
  op_spawn : ℕ → Body → Op
  op_turn : ℕ → Op

unfoldable pub apply : Op → World → World
apply (op_spawn e b) w = spawn e b w
apply (op_turn e) w = turn e w

unfoldable pub apply_all : List Op → World → World
apply_all [] w = w
apply_all (op ∷ ops) w = apply_all ops (apply op w)
