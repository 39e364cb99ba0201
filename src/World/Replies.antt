-- ===== src/World/Replies.antt =====
-- What the sessions of GameServer/GameSession.cpp answer.
use bugat.Common.{
  ℕ, ◌≡◌, ◌⊎◌, inl, inr, refl, sym, ap, subst, ◌∙◌, true, false, Option, none, some, List, [], ◌∷◌,
  ◌++◌, append_assoc, ltb, if_cases, Bool-cases, arith,
}
use bugat.GameData.Table.{find}
use bugat.Objects.Manager.{Map}
use bugat.Objects.{add}
use bugat.World.Answers.{
  answer, answers, waiting, answer_read, answer_by, Replied, quiet-Replied, close_task,
  read-Replied,
}
use bugat.World.View.{everywhere}
use bugat.World.{
  Packet, Fb, Task, handle_msg, close, Session, start, send, only, post_task, close_connection,
  let_go, close_session, res_sc_move, Handler, move_handler, handles, Event, connects, wins_close,
  fires_close, closes, runs, reads, Op, handle_read, call_handler, run_first, happens, apply_all,
}

module _ (fb : Fb) where
  -- What is to be sent now, and then what waits.
  pub record Due (now : List Packet) (s : Session) : Type 0 where
    pub more : List Packet
    pub order : s.sent ++ more ≡ answers fb s.read
    pub rest : (more ≡ now ++ waiting fb s.tasks) ⊎ (s.disconnected ≡ true)
    pub held : (s.holds ≡ true) ⊎ (s.disconnected ≡ true)

  none-Due : (s : Session) → Due [] s → Replied fb s
  none-Due s d = record { more = d.more; order = d.order; rest = d.rest; held = d.held }

  gone-Replied :
      (now : List Packet) (s : Session) → s.disconnected ≡ true → Due now s → Replied fb s
  gone-Replied now s gone d = record {
    more = d.more;
    order = d.order;
    rest = inr gone;
    held = d.held;
  }

  send_gone : (a : Packet) (s : Session) → s.disconnected ≡ true → send a s ≡ s
  send_gone a s gone = ground arith

  send_on :
      (a : Packet) (s : Session)
      → s.holds ≡ true
      → s.disconnected ≡ false
      → send a s ≡ record s { sent = s.sent ++ a ∷ [] }
  send_on a s holds on = ground arith

  sent_now :
      (a : Packet) (s : Session)
      → s.holds ≡ true
      → s.disconnected ≡ false
      → Due (a ∷ []) s
      → Replied fb (record s { sent = s.sent ++ a ∷ [] })
  sent_now a s holds on d = elim d.rest [
    | inl e ↦ record {
      more = waiting fb s.tasks;
      order =
          append_assoc s.sent (a ∷ []) (waiting fb s.tasks)
          ∙ (ap (λ xs. s.sent ++ xs) (sym e) ∙ d.order);
      rest = inl refl;
      held = inl holds;
    }
    | inr gone ↦ absurd (cc (on, gone))
  ]

  send-Replied : (a : Packet) (s : Session) → Due (a ∷ []) s → Replied fb (send a s)
  send-Replied a s d = elim (Bool-cases s.disconnected) [
    | inl gone ↦ subst (Replied fb) (sym (send_gone a s gone)) (gone-Replied (a ∷ []) s gone d)
    | inr on ↦ elim d.held [
      | inl holds ↦ subst (Replied fb) (sym (send_on a s holds on)) (sent_now a s holds on d)
      | inr gone ↦ absurd (cc (on, gone))
    ]
  ]

  handle_read-Replied :
      (o : Option ℕ) (s : Session)
      → Due (answer_read fb o) s
      → Replied fb (handle_read fb o s).session
  handle_read-Replied none s d = none-Due s d
  handle_read-Replied (some pos) s d =
      send-Replied (record { kind = res_sc_move; body = fb.move_answer pos }) s d

  call_handler-Replied :
      (o : Option Handler) (p : Packet) (s : Session)
      → Due (answer_by fb o p) s
      → Replied fb (call_handler fb o p s).session
  call_handler-Replied none p s d = none-Due s d
  call_handler-Replied (some move_handler) p s d = handle_read-Replied (fb.get_move p.body) s d

  let_go-Replied : (s : Session) → Replied fb s → Replied fb (let_go s)
  let_go-Replied s r =
      let c = close_connection s in
      let gone : c.disconnected ≡ true = ground arith in
      let same : waiting fb c.tasks ≡ waiting fb s.tasks =
        if_cases (λ x. waiting fb x.tasks ≡ waiting fb s.tasks) s.disconnected s
          (post_task close (record s { disconnected = true })) (λ _. refl) (λ _. close_task fb s) in
      let sent : c.sent ≡ s.sent = ground arith in
      let read : c.read ≡ s.read = ground arith in
      if_cases (Replied fb) s.holds (record c { holds = false }) s
        (λ _.
          quiet-Replied fb s (record c { holds = false }) sent read same (inr gone) (inr gone) r)
        (λ _. r)

  close_session-Replied :
      (n : ℕ) (s : Session) → Replied fb s → Replied fb (close_session n s).session
  close_session-Replied n s r =
      let t = (close_session n s).session in
      let u = let_go-Replied s r in
      quiet-Replied fb (let_go s) t refl refl refl (inl refl) (inl refl) u

  run_first-Replied :
      (n : ℕ) (ts : List Task) (s : Session)
      → s.tasks ≡ ts
      → Replied fb s
      → Replied fb (run_first fb n ts s).session
  unfolding waiting answer
  run_first-Replied n [] s e r = r
  run_first-Replied n (handle_msg p ∷ ts) s e r =
      call_handler-Replied (find p.kind handles) p (record s { tasks = ts })
        (record {
          more = r.more;
          order = r.order;
          rest = elim r.rest [ inl w ↦ inl (w ∙ ap (waiting fb) e) | inr gone ↦ inr gone ];
          held = r.held;
        })
  run_first-Replied n (close ∷ ts) s e r =
      close_session-Replied n (record s { tasks = ts })
        (record {
          more = r.more;
          order = r.order;
          rest = elim r.rest [ inl w ↦ inl (w ∙ ap (waiting fb) e) | inr gone ↦ inr gone ];
          held = r.held;
        })

  happens-Replied :
      (n : ℕ) (e : Event) (s : Session) (map : Map)
      → Replied fb s
      → Replied fb (happens fb n e s).session
  unfolding happens
  happens-Replied n connects s map r =
      let t = record s { joined = true; late = ltb 0 s.closes } in
      if_cases (λ e. Replied fb e.session) s.joined (only s)
        (record { session = t; request = some (add n n); errors = 0 }) (λ _. r)
        (λ _. quiet-Replied fb s t refl refl refl (inl refl) (inl refl) r)
  happens-Replied n (reads p) s map r = read-Replied fb p s r
  happens-Replied n wins_close s map r =
      let t = record s { disconnected = true; closing = true } in
      if_cases (Replied fb) s.disconnected s t (λ _. r)
        (λ _. quiet-Replied fb s t refl refl refl (inr refl) (inr refl) r)
  happens-Replied n fires_close s map r =
      let t = post_task close (record s { closing = false }) in
      if_cases (Replied fb) s.closing t s
        (λ _. quiet-Replied fb s t refl refl (close_task fb s) (inl refl) (inl refl) r) (λ _. r)
  happens-Replied n closes s map r =
      quiet-Replied fb s (post_task close s) refl refl (close_task fb s) (inl refl) (inl refl) r
  happens-Replied n runs s map r = run_first-Replied n s.tasks s refl r

  -- In every run, what a session sent on its connection is a first part of the answers of the
  -- packets that its connection read, in their order, where a packet of another kind and one that
  -- cannot be read has none. As long as the connection is not disconnected, the rest are the
  -- answers of the tasks that the session has yet to run.
  pub replies_in_order : (ops : List Op) (n : ℕ) → Replied fb ((apply_all fb ops start).sessions n)
  unfolding answers waiting
  replies_in_order ops n =
      everywhere fb (λ k s o. Replied fb s)
        (λ k. record { more = []; order = refl; rest = inl refl; held = inl refl }) happens-Replied
        ops n
