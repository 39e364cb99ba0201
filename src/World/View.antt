-- ===== src/World/View.antt =====
-- The sessions of GameServer/WorldServer.cpp one by one: an event is one of a single session.
use bugat.Common.{
  ℕ, suc, ◌≤◌, ◌≡◌, ◌≢◌, refl, sym, ap, subst, ◌∙◌, ℕ_discrete, true, Option, none, some, List, [],
  ◌∷◌, ltb, if_cases, arith,
}
use bugat.GameData.Table.{find}
use bugat.Objects.Manager.{Map}
use bugat.Objects.{Request, add, del}
use bugat.World.{
  Packet, Fb, Task, handle_msg, close, Session, World, new_session, start, put_session, on_accept,
  Effect, only, Handler, move_handler, handles, Event, connects, wins_close, fires_close, closes,
  runs, reads, Op, accepts, event, ask_manager, affect, handle_read, call_handler, run_task,
  run_first, happens, apply, apply_all,
}

-- The request, if there is one, is about the key.
abbrev About : ℕ → Option Request → Type 0
About n none = Unit
About n (some (add k v)) = k ≡ n
About n (some (del k)) = k ≡ n
About n (some (Request.find k)) = k ≡ n

ask_manager-other :
    (n m : ℕ) (r : Option Request) (map : Map) → m ≢ n → About n r → ask_manager r map m ≡ map m
ask_manager-other n m none map away h = refl
ask_manager-other n m (some (add k v)) map away h = ground arith
ask_manager-other n m (some (del k)) map away h = ground arith
ask_manager-other n m (some (Request.find k)) map away h = refl

module _ (fb : Fb) where
  handle_read-About : (n : ℕ) (o : Option ℕ) (s : Session) → About n (handle_read fb o s).request
  handle_read-About n none s = tt
  handle_read-About n (some pos) s = tt

  call_handler-About :
      (n : ℕ) (o : Option Handler) (p : Packet) (s : Session)
      → About n (call_handler fb o p s).request
  call_handler-About n none p s = tt
  call_handler-About n (some move_handler) p s = handle_read-About n (fb.get_move p.body) s

  run_task-About : (n : ℕ) (t : Task) (s : Session) → About n (run_task fb n t s).request
  run_task-About n (handle_msg p) s = call_handler-About n (find p.kind handles) p s
  run_task-About n close s = refl

  run_first-About : (n : ℕ) (ts : List Task) (s : Session) → About n (run_first fb n ts s).request
  run_first-About n [] s = tt
  run_first-About n (t ∷ ts) s = run_task-About n t (record s { tasks = ts })

  happens-About : (n : ℕ) (e : Event) (s : Session) → About n (happens fb n e s).request
  unfolding happens
  happens-About n connects s =
      if_cases (λ e. About n e.request) s.joined (only s)
        (record {
          session = record s { joined = true; late = ltb 0 s.closes };
          request = some (add n n);
          errors = 0;
        })
        (λ _. tt) (λ _. refl)
  happens-About n (reads p) s = tt
  happens-About n wins_close s = tt
  happens-About n fires_close s = tt
  happens-About n closes s = tt
  happens-About n runs s = run_first-About n s.tasks s

  -- What holds of every session and its entry in the manager, and that the others are new.
  module _ (P : ℕ → Session → Option ℕ → Type 0) where
    pub record All (w : World) : Type 0 where
      pub each : (m : ℕ) → P m (w.sessions m) (w.manager m)
      pub fresh : (m : ℕ) → w.accepted ≤ m → w.sessions m ≡ new_session

    abbrev pub Kept : Type 0
    Kept =
        (n : ℕ) (e : Event) (s : Session) (map : Map)
        → P n s (map n)
        → P n (happens fb n e s).session (ask_manager (happens fb n e s).request map n)

    put_session-same : (n : ℕ) (s : Session) (w : World) → (put_session n s w).sessions n ≡ s
    put_session-same n s w = ground arith

    put_session-other :
        (n m : ℕ) (s : Session) (w : World) → m ≢ n → (put_session n s w).sessions m ≡ w.sessions m
    put_session-other n m s w away = ground arith

    accept-All : (w : World) → All w → All (on_accept w)
    accept-All w a = record {
      each = λ m. subst (λ s. P m s (w.manager m)) (sym (unchanged m)) (a.each m);
      fresh = λ m le. unchanged m ∙ a.fresh m (omega (arith, le));
    }
      where
        unchanged : (m : ℕ) → (on_accept w).sessions m ≡ w.sessions m
        unchanged m = elim (ℕ_discrete m w.accepted) [
          | yes same ↦
              ap (put_session w.accepted new_session w).sessions same
              ∙ (put_session-same w.accepted new_session w ∙ sym (a.fresh m (omega (arith, same))))
          | no apart ↦ put_session-other w.accepted m new_session w apart
        ]

    event-All :
        Kept
        → (n : ℕ) (e : Event) (w : World) → suc n ≤ w.accepted
        → All w
        → All (affect n (happens fb n e (w.sessions n)) w)
    event-All keep n e w old a = record {
      each = λ m. elim (ℕ_discrete m n) [
        | yes same ↦ subst (λ k. P k (v.sessions k) (v.manager k)) (sym same) here
        | no apart ↦
            subst (λ o. P m (v.sessions m) o)
              (sym (
                ask_manager-other n m f.request w.manager apart (happens-About n e (w.sessions n))))
              (subst (λ s. P m s (w.manager m)) (sym (put_session-other n m f.session w apart))
                (a.each m))
      ];
      fresh = λ m le.
          put_session-other n m f.session w (λ eq. absurd (omega (arith, le, old, eq)))
          ∙ a.fresh m le;
    }
      where
        f : Effect
        f = happens fb n e (w.sessions n)

        v : World
        v = affect n f w

        here : P n (v.sessions n) (v.manager n)
        here =
            subst (λ s. P n s (v.manager n)) (sym (put_session-same n f.session w))
              (keep n e (w.sessions n) w.manager (a.each n))

    apply-All : Kept → (op : Op) (w : World) → All w → All (apply fb op w)
    unfolding apply
    apply-All keep accepts w a = accept-All w a
    apply-All keep (event n e) w a =
        if_cases All (ltb n w.accepted) (affect n (happens fb n e (w.sessions n)) w) w
          (λ lt. event-All keep n e w (ground (arith, lt)) a) (λ _. a)

    pub apply_all-All : Kept → (ops : List Op) (w : World) → All w → All (apply_all fb ops w)
    unfolding apply_all
    apply_all-All keep [] w a = a
    apply_all-All keep (op ∷ ops) w a =
        apply_all-All keep ops (apply fb op w) (apply-All keep op w a)

    -- From the start on, for every session.
    pub everywhere :
        ((n : ℕ) → P n new_session none)
        → Kept
        → (ops : List Op) (n : ℕ)
        → P n ((apply_all fb ops start).sessions n) ((apply_all fb ops start).manager n)
    everywhere new keep ops n =
        (apply_all-All keep ops start (record { each = new; fresh = λ m le. refl })).each n
