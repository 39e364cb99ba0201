-- ===== src/World/Members.antt =====
-- Which sessions the manager of GameServer/WorldServer.cpp has.
use bugat.Common.{
  ℕ, ◌≡◌, ◌⊎◌, inl, inr, refl, sym, ap₂, ◌∙◌, true, false, ◌&&◌, Option, none, some, List, [], ◌∷◌,
  ltb, ◌==◌, if◌then◌else◌, if_cases, Bool-cases, arith,
}
use bugat.GameData.Table.{find}
use bugat.Objects.Manager.{Map}
use bugat.Objects.{add}
use bugat.World.View.{everywhere}
use bugat.World.{
  Packet, Fb, Task, handle_msg, close, Session, World, start, send, only, win_close, fire_close,
  post_task, let_go, close_session, on_connect, on_read, res_sc_move, Handler, move_handler,
  handles, Event, connects, wins_close, fires_close, closes, runs, reads, Op, event, ask_manager,
  handle_move, handle_read, call_handler, run_task, run_first, happens, apply_all,
}

-- What an event that is not of the manager leaves of a session.
record Same (s t : Session) : Type 0 where
  joined : t.joined ≡ s.joined
  late : t.late ≡ s.late
  closes : t.closes ≡ s.closes

same : (s : Session) → Same s s
same s = record { joined = refl; late = refl; closes = refl }

send-Same : (p : Packet) (s : Session) → Same s (send p s)
send-Same p s = record { joined = ground arith; late = ground arith; closes = ground arith }

win_close-Same : (s : Session) → Same s (win_close s)
win_close-Same s = record { joined = ground arith; late = ground arith; closes = ground arith }

fire_close-Same : (s : Session) → Same s (fire_close s)
fire_close-Same s = record { joined = ground arith; late = ground arith; closes = ground arith }

let_go-Same : (s : Session) → Same s (let_go s)
let_go-Same s = record { joined = ground arith; late = ground arith; closes = ground arith }

-- The manager has a session from `OnConnect` of its connection on until it is closed, unless that
-- comes behind the close.
abbrev pub member : ℕ → Session → Option ℕ
member n s = if s.joined && (s.closes == 0) then some n else none

pub record Member (n : ℕ) (s : Session) (o : Option ℕ) : Type 0 where
  pub first_join : (s.late ≡ false) ⊎ (s.joined ≡ true)
  pub entry : (s.late ≡ true) ⊎ (o ≡ member n s)

member_cong :
    (n : ℕ) (s t : Session) → t.joined ≡ s.joined → t.closes ≡ s.closes → member n t ≡ member n s
member_cong n s t j c = ap₂ (λ b k. if b && (k == 0) then some n else none) j c

Same-Member : (n : ℕ) (s t : Session) (o : Option ℕ) → Same s t → Member n s o → Member n t o
Same-Member n s t o h m = record {
  first_join = elim m.first_join [ inl e ↦ inl (h.late ∙ e) | inr e ↦ inr (h.joined ∙ e) ];
  entry = elim m.entry [
    | inl e ↦ inl (h.late ∙ e)
    | inr e ↦ inr (e ∙ sym (member_cong n s t h.joined h.closes))
  ];
}

abbrev joining : Session → Session
joining s = record s { joined = true; late = ltb 0 s.closes }

-- The session was not there before.
not_yet : (n : ℕ) (s : Session) (o : Option ℕ) → s.joined ≡ false → Member n s o → o ≡ none
not_yet n s o j m = elim m.entry [
  | inl late ↦ elim m.first_join [ inl e ↦ absurd (cc (e, late)) | inr e ↦ absurd (cc (e, j)) ]
  | inr e ↦ e ∙ ground arith
]

join-entry :
    (n : ℕ) (s : Session) (map : Map)
    → map n ≡ none
    → ((joining s).late ≡ true) ⊎ (ask_manager (some (add n n)) map n ≡ member n (joining s))
join-entry n s map e = elim (Bool-cases (ltb 0 s.closes)) [
  | inl late ↦ inl late
  | inr first ↦ inr (ground (arith, first, e))
]

connect-Member :
    (n : ℕ) (s : Session) (map : Map)
    → Member n s (map n)
    → Member n (on_connect n s).session (ask_manager (on_connect n s).request map n)
connect-Member n s map m =
    if_cases (λ e. Member n e.session (ask_manager e.request map n)) s.joined (only s)
      (record { session = joining s; request = some (add n n); errors = 0 }) (λ _. m)
      (λ j. record { first_join = inr refl; entry = join-entry n s map (not_yet n s (map n) j m) })

close-Member :
    (n : ℕ) (s : Session) (map : Map)
    → Member n s (map n)
    → Member n (close_session n s).session (ask_manager (close_session n s).request map n)
close-Member n s map m = record {
  first_join = elim m.first_join [
    | inl e ↦ inl ((let_go-Same s).late ∙ e)
    | inr e ↦ inr ((let_go-Same s).joined ∙ e)
  ];
  entry = inr (ground arith);
}

module _ (fb : Fb) where
  handle_read-Same : (o : Option ℕ) (s : Session) → Same s (handle_read fb o s).session
  handle_read-Same none s = same s
  handle_read-Same (some pos) s =
      send-Same (record { kind = res_sc_move; body = fb.move_answer pos }) s

  read-Member :
      (n : ℕ) (o : Option ℕ) (s : Session) (map : Map)
      → Member n s (map n)
      → Member n (handle_read fb o s).session (ask_manager (handle_read fb o s).request map n)
  read-Member n none s map m = m
  read-Member n (some pos) s map m =
      Same-Member n s (handle_move fb pos s) (map n) (handle_read-Same (some pos) s) m

  handler-Member :
      (n : ℕ) (o : Option Handler) (p : Packet) (s : Session) (map : Map)
      → Member n s (map n)
      → Member n (call_handler fb o p s).session (ask_manager (call_handler fb o p s).request map n)
  handler-Member n none p s map m = m
  handler-Member n (some move_handler) p s map m = read-Member n (fb.get_move p.body) s map m

  run_task-Member :
      (n : ℕ) (t : Task) (s : Session) (map : Map)
      → Member n s (map n)
      → Member n (run_task fb n t s).session (ask_manager (run_task fb n t s).request map n)
  run_task-Member n (handle_msg p) s map m = handler-Member n (find p.kind handles) p s map m
  run_task-Member n close s map m = close-Member n s map m

  run_first-Member :
      (n : ℕ) (ts : List Task) (s : Session) (map : Map)
      → Member n s (map n)
      → Member n (run_first fb n ts s).session (ask_manager (run_first fb n ts s).request map n)
  run_first-Member n [] s map m = m
  run_first-Member n (t ∷ ts) s map m =
      let s' = record s { tasks = ts } in
      run_task-Member n t s' map
        (Same-Member n s s' (map n) (record { joined = refl; late = refl; closes = refl }) m)

  happens-Member :
      (n : ℕ) (e : Event) (s : Session) (map : Map)
      → Member n s (map n)
      → Member n (happens fb n e s).session (ask_manager (happens fb n e s).request map n)
  unfolding happens
  happens-Member n connects s map m = connect-Member n s map m
  happens-Member n (reads p) s map m =
      Same-Member n s (on_read p s) (map n) (record { joined = refl; late = refl; closes = refl }) m
  happens-Member n wins_close s map m = Same-Member n s (win_close s) (map n) (win_close-Same s) m
  happens-Member n fires_close s map m =
      Same-Member n s (fire_close s) (map n) (fire_close-Same s) m
  happens-Member n closes s map m =
      Same-Member n s (post_task close s) (map n)
        (record { joined = refl; late = refl; closes = refl }) m
  happens-Member n runs s map m = run_first-Member n s.tasks s map m

-- Whatever the sessions do, a session is in the manager exactly from the connect of its connection
-- to its first close, unless the connect comes behind the close.
pub manager-member :
    (fb : Fb) (ops : List Op) (n : ℕ)
    → let w = apply_all fb ops start in
      ((w.sessions n).late ≡ true) ⊎ (w.manager n ≡ member n (w.sessions n))
manager-member fb ops n =
    (everywhere fb Member (λ k. record { first_join = inl refl; entry = inr refl })
      (happens-Member fb) ops n).entry

-- The four events that a connection closed at once may have in this order.
abbrev pub closed_at_once : ℕ → List Op
closed_at_once n = event n wins_close ∷ event n fires_close ∷ event n runs ∷ event n connects ∷ []
