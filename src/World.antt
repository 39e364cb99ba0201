-- ===== src/World.antt =====
-- The sessions of the game server: GameServer/WorldServer.cpp, GameSession.cpp, GameHandler.cpp and
-- SessionManger.h, with Base/Session.cpp, Base/Handle.h and the accept loop of Base/Server.cpp.
-- A session and its connection have one number. The tasks of a session run one at a time, on
-- whichever thread; the events of its connection come in between. What flatbuffers reads in a
-- packet and writes into an answer is the parameter `Fb`.
mod View
mod Answers
pub mod Replies
pub mod Members
mod Tests
use bugat.Common.{
  ℕ, ◌+◌, Bool, true, false, Option, none, some, List, [], ◌∷◌, ◌++◌, ◌==◌, ltb, if◌then◌else◌,
}
use bugat.GameData.Table.{find}
use bugat.Objects.Manager.{Map, ask_map}
use bugat.Objects.{Request, add, del}

pub record Packet : Type 0 where
  pub kind : ℕ
  pub body : ℕ

-- `get_move` is `Get<Req_CS_Move>` and the position in it, `move_answer` the `Res_SC_Move` with it.
pub record Fb : Type 0 where
  pub get_move : ℕ → Option ℕ
  pub move_answer : ℕ → ℕ

-- A task in the queue of a session: of `HandleMsg`, or of `Close`.
pub data Task : Type 0 where
  handle_msg : Packet → Task
  close : Task

-- `holds` says whether `_connection` is not null. Of the connection there are its state, as far as
-- it matters, whether a `Close` that won has yet to fire `OnClose`, and the packets it was given.
-- The last four are a record for the theorems: the packets read, how often `OnClose` of the
-- session was fired, whether the connection fired `OnConnect`, and whether it did behind that.
pub record Session : Type 0 where
  pub holds : Bool
  pub tasks : List Task
  pub disconnected : Bool
  pub closing : Bool
  pub sent : List Packet
  pub read : List Packet
  pub closes : ℕ
  pub joined : Bool
  pub late : Bool

-- `errors` counts the lines "Packet Error" in the log.
pub record World : Type 0 where
  pub sessions : ℕ → Session
  pub accepted : ℕ
  pub manager : Map
  pub errors : ℕ

abbrev pub new_session : Session
new_session = record {
  holds = true;
  tasks = [];
  disconnected = false;
  closing = false;
  sent = [];
  read = [];
  closes = 0;
  joined = false;
  late = false;
}

abbrev pub start : World
start = record { sessions = λ _. new_session; accepted = 0; manager = λ _. none; errors = 0 }

abbrev pub put_session : ℕ → Session → World → World
put_session n s w = record w { sessions = λ i. if i == n then s else w.sessions i }

-- A round of `Server::Accept` with `OnAccept`: `SetConnection` and the subscriptions.
abbrev pub on_accept : World → World
on_accept w = record (put_session w.accepted new_session w) { accepted = w.accepted + 1 }

-- What an event does: to its session, to the manager and to the log.
pub record Effect : Type 0 where
  pub session : Session
  pub request : Option Request
  pub errors : ℕ

abbrev pub only : Session → Effect
only s = record { session = s; request = none; errors = 0 }

abbrev pub post_task : Task → Session → Session
post_task t s = record s { tasks = s.tasks ++ t ∷ [] }

-- `OnConnect` of the connection, which fires once: the session goes to the manager.
abbrev pub on_connect : ℕ → Session → Effect
on_connect n s = if s.joined then only s else record {
  session = record s { joined = true; late = ltb 0 s.closes };
  request = some (add n n);
  errors = 0;
}

-- `OnRead`, with `HandleMsg`
abbrev pub on_read : Packet → Session → Session
on_read p s = record (post_task (handle_msg p) s) { read = s.read ++ p ∷ [] }

-- `Connection::Close` in a loop of the connection: first the exchange, if it wins, and then
-- `OnClose`, which calls `Session::Close`.
abbrev pub win_close : Session → Session
win_close s = if s.disconnected then s else record s { disconnected = true; closing = true }

abbrev pub fire_close : Session → Session
fire_close s = if s.closing then post_task close (record s { closing = false }) else s

-- `Session::Send`
abbrev pub send : Packet → Session → Session
send p s = if s.holds then if s.disconnected then s else record s { sent = s.sent ++ p ∷ [] } else s

abbrev pub req_cs_move : ℕ
req_cs_move = 3

abbrev pub res_sc_move : ℕ
res_sc_move = 4

-- The kinds of handlers that are registered.
pub data Handler : Type 0 where
  move_handler : Handler

-- `GameHandler::Init`
abbrev pub handles : List (ℕ × Handler)
handles = (req_cs_move, move_handler) ∷ []

-- The task of `Session::Close`, with `OnClose` of the session.
abbrev pub close_connection : Session → Session
close_connection s =
    if s.disconnected then s else post_task close (record s { disconnected = true })

abbrev pub let_go : Session → Session
let_go s = if s.holds then record (close_connection s) { holds = false } else s

abbrev pub close_session : ℕ → Session → Effect
close_session n s = record {
  session = record (let_go s) { closes = s.closes + 1 };
  request = some (del n);
  errors = 0;
}

-- An event of a connection, the call of `Close` of a session, or a turn of its tasks.
pub data Event : Type 0 where
  connects wins_close fires_close closes runs : Event
  reads : Packet → Event

pub data Op : Type 0 where
  accepts : Op
  event : ℕ → Event → Op

abbrev pub ask_manager : Option Request → Map → Map
ask_manager none m = m
ask_manager (some r) m = (ask_map r m).0

abbrev pub affect : ℕ → Effect → World → World
affect n e w = record (put_session n e.session w) {
  manager = ask_manager e.request w.manager;
  errors = w.errors + e.errors;
}

module _ (fb : Fb) where
  -- `Req_CS_Move`, once the packet has been read
  abbrev pub handle_move : ℕ → Session → Session
  handle_move pos s = send (record { kind = res_sc_move; body = fb.move_answer pos }) s

  -- `_Handle` of `DECL_FB_HANDLE`
  abbrev pub handle_read : Option ℕ → Session → Effect
  handle_read none s = record (only s) { errors = 1 }
  handle_read (some pos) s = only (handle_move pos s)

  abbrev pub call_handler : Option Handler → Packet → Session → Effect
  call_handler none p s = only s
  call_handler (some move_handler) p s = handle_read (fb.get_move p.body) s

  -- `GameHandler::Handle`
  abbrev pub handle : Packet → Session → Effect
  handle p s = call_handler (find p.kind handles) p s

  abbrev pub run_task : ℕ → Task → Session → Effect
  run_task n (handle_msg p) s = handle p s
  run_task n close s = close_session n s

  abbrev pub run_first : ℕ → List Task → Session → Effect
  run_first n [] s = only s
  run_first n (t ∷ ts) s = run_task n t (record s { tasks = ts })

  unfoldable pub happens : ℕ → Event → Session → Effect
  happens n connects s = on_connect n s
  happens n (reads p) s = only (on_read p s)
  happens n wins_close s = only (win_close s)
  happens n fires_close s = only (fire_close s)
  happens n closes s = only (post_task close s)
  happens n runs s = run_first n s.tasks s

  -- Only of a connection that was accepted are there events.
  unfoldable pub apply : Op → World → World
  apply accepts w = on_accept w
  apply (event n e) w = if ltb n w.accepted then affect n (happens n e (w.sessions n)) w else w

  unfoldable pub apply_all : List Op → World → World
  apply_all [] w = w
  apply_all (op ∷ ops) w = apply_all ops (apply op w)
