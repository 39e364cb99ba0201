-- ===== src/Server.antt =====
-- The accept loops of Base/Server.cpp: coroutines that run as tasks of the server, each with at
-- most one socket in an accept of the operating system. A loop, an entry of `_acceptInfos` and a
-- socket are numbers. A connection is told by the entry whose factory made it and by the socket
-- that it was given.
mod Standing
pub mod Loops
mod Tests
use bugat.Common.{
  ℕ, zero, suc, ◌+◌, Bool, true, false, List, [], ◌∷◌, ◌++◌, length, ◌==◌, if◌then◌else◌,
}

-- `AwaitAccept`, of the loop that waits in it.
pub record AwaitAccept : Type 0 where
  pub accept_loop : ℕ
  pub info : ℕ
  pub socket : ℕ

pub record NewConnection : Type 0 where
  pub factory : ℕ
  pub socket : ℕ

-- What `Post` is called with: the start of a loop, or one that goes on with its `_result`, which
-- is `true` for an error.
pub data ServerTask : Type 0 where
  begin : ℕ → ℕ → ServerTask
  woken : AwaitAccept → Bool → ServerTask

pub data ServerEvent : Type 0 where
  on_accept : NewConnection → ServerEvent
  start_connection : NewConnection → ServerEvent

-- `ended` has the loops that have returned. `accepted` and `failed` are a record for the
-- theorems: the results of the operating system in their order.
pub record Server : Type 0 where
  pub infos : List ℕ
  pub posts : List ServerTask
  pub pending : List AwaitAccept
  pub loops : ℕ
  pub sockets : ℕ
  pub log : List ServerEvent
  pub ended : List ℕ
  pub accepted : List NewConnection
  pub failed : List ℕ

abbrev pub idle_server : Server
idle_server = record {
  infos = [];
  posts = [];
  pending = [];
  loops = 0;
  sockets = 0;
  log = [];
  ended = [];
  accepted = [];
  failed = [];
}

abbrev pub post_server : ServerTask → Server → Server
post_server p s = record s { posts = s.posts ++ p ∷ [] }

-- The top of the loop: a new socket, and `AwaitAccept::await_suspend`.
abbrev pub await_accept : ℕ → ℕ → Server → Server
await_accept l i s = record s {
  pending = s.pending ++ record { accept_loop = l; info = i; socket = s.sockets } ∷ [];
  sockets = s.sockets + 1;
}

-- `GetFactory().Create(socket)`
abbrev pub create_connection : AwaitAccept → NewConnection
create_connection a = record { factory = a.info; socket = a.socket }

abbrev pub serve : NewConnection → List ServerEvent
serve c = on_accept c ∷ start_connection c ∷ []

-- The loop behind `co_await`.
abbrev pub accept_result : AwaitAccept → Bool → Server → Server
accept_result a true s = record s { ended = s.ended ++ a.accept_loop ∷ [] }
accept_result a false s =
    await_accept a.accept_loop a.info (record s { log = s.log ++ serve (create_connection a) })

abbrev pub run_posted : ServerTask → Server → Server
run_posted (begin l i) s = await_accept l i s
run_posted (woken a error) s = accept_result a error s

-- The serializer of the server runs its first task.
abbrev pub run_posts : List ServerTask → Server → Server
run_posts [] s = s
run_posts (p ∷ ps) s = run_posted p (record s { posts = ps })

-- `Spawn_Accept`
abbrev pub spawn_accept : ℕ → Server → Server
spawn_accept i s = post_server (begin s.loops i) (record s { loops = s.loops + 1 })

-- `acceptTaskCount` loops for one entry
unfoldable pub spawn_accepts : ℕ → ℕ → Server → Server
spawn_accepts zero i s = s
spawn_accepts (suc n) i s = spawn_accepts n i (spawn_accept i s)

-- `Server::Accept`, on a port
abbrev pub server_accept : ℕ → ℕ → Server → Server
server_accept port n s =
    spawn_accepts n (length s.infos) (record s { infos = s.infos ++ port ∷ [] })

-- The accept of a loop, out of those that the operating system has, and the others.
pub data Completed : Type 0 where
  unknown : Completed
  known : AwaitAccept → List AwaitAccept → Completed

abbrev pub leave : AwaitAccept → Completed → Completed
leave a unknown = unknown
leave a (known b rest) = known b (a ∷ rest)

abbrev pub take_accept : ℕ → List AwaitAccept → Completed
take_accept l [] = unknown
take_accept l (a ∷ others) =
    let rest = take_accept l others in if a.accept_loop == l then known a others else leave a rest

abbrev pub note_result : AwaitAccept → Bool → Server → Server
note_result a true s = record s { failed = s.failed ++ a.accept_loop ∷ [] }
note_result a false s = record s { accepted = s.accepted ++ create_connection a ∷ [] }

-- The function that `AsyncAccept` is given.
abbrev pub complete_with : Bool → Completed → Server → Server
complete_with error unknown s = s
complete_with error (known a rest) s =
    post_server (woken a error) (note_result a error (record s { pending = rest }))

-- The operating system completes the accept of a loop, if it has one.
abbrev pub complete_accept : ℕ → Bool → Server → Server
complete_accept l error s = complete_with error (take_accept l s.pending) s

pub data ServerOp : Type 0 where
  op_accept : ℕ → ℕ → ServerOp
  op_complete : ℕ → Bool → ServerOp
  op_task : ServerOp

unfoldable pub apply : ServerOp → Server → Server
apply (op_accept port n) s = server_accept port n s
apply (op_complete l error) s = complete_accept l error s
apply op_task s = run_posts s.posts s

unfoldable pub apply_all : List ServerOp → Server → Server
apply_all [] s = s
apply_all (op ∷ ops) s = apply_all ops (apply op s)
