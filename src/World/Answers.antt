-- ===== src/World/Answers.antt =====
-- The answers of the sessions of GameServer/GameSession.cpp, and what a step leaves of them.
use bugat.Common.{
  ℕ, ◌≡◌, ◌⊎◌, inl, inr, refl, sym, ap, ◌∙◌, true, Option, none, some, List, [], ◌∷◌, ◌++◌,
  append_assoc, append-nil,
}
use bugat.GameData.Table.{find}
use bugat.World.{
  Packet, Fb, Task, handle_msg, close, Session, post_task, on_read, res_sc_move, Handler,
  move_handler, handles,
}

module _ (fb : Fb) where
  -- A packet of a kind that has a handler is answered, if it can be read.
  abbrev pub answer_read : Option ℕ → List Packet
  answer_read none = []
  answer_read (some pos) = record { kind = res_sc_move; body = fb.move_answer pos } ∷ []

  abbrev pub answer_by : Option Handler → Packet → List Packet
  answer_by none p = []
  answer_by (some move_handler) p = answer_read (fb.get_move p.body)

  unfoldable pub answer : Packet → List Packet
  answer p = answer_by (find p.kind handles) p

  unfoldable pub answers : List Packet → List Packet
  answers [] = []
  answers (p ∷ ps) = answer p ++ answers ps

  -- The answers of the packets whose tasks wait.
  unfoldable pub waiting : List Task → List Packet
  waiting [] = []
  waiting (handle_msg p ∷ ts) = answer p ++ waiting ts
  waiting (close ∷ ts) = waiting ts

  answers-append : (ps qs : List Packet) → answers (ps ++ qs) ≡ answers ps ++ answers qs
  unfolding answers
  answers-append [] qs = refl
  answers-append (p ∷ ps) qs =
      ap (λ xs. answer p ++ xs) (answers-append ps qs)
      ∙ sym (append_assoc (answer p) (answers ps) (answers qs))

  waiting-append : (ts us : List Task) → waiting (ts ++ us) ≡ waiting ts ++ waiting us
  unfolding waiting
  waiting-append [] us = refl
  waiting-append (handle_msg p ∷ ts) us =
      ap (λ xs. answer p ++ xs) (waiting-append ts us)
      ∙ sym (append_assoc (answer p) (waiting ts) (waiting us))
  waiting-append (close ∷ ts) us = waiting-append ts us

  -- What was sent is a first part of the answers of what was read. While the connection stands,
  -- the rest are the answers of the tasks that wait.
  pub record Replied (s : Session) : Type 0 where
    pub more : List Packet
    pub order : s.sent ++ more ≡ answers s.read
    pub rest : (more ≡ waiting s.tasks) ⊎ (s.disconnected ≡ true)
    pub held : (s.holds ≡ true) ⊎ (s.disconnected ≡ true)

  -- A change of neither the packets nor the tasks that answer.
  pub quiet-Replied :
      (s t : Session)
      → t.sent ≡ s.sent
      → t.read ≡ s.read
      → (waiting t.tasks ≡ waiting s.tasks)
      → (t.disconnected ≡ s.disconnected) ⊎ (t.disconnected ≡ true)
      → (t.holds ≡ s.holds) ⊎ (t.disconnected ≡ true)
      → Replied s
      → Replied t
  quiet-Replied s t se re wa di ho r = record {
    more = r.more;
    order = ap (λ a. a ++ r.more) se ∙ (r.order ∙ ap answers (sym re));
    rest = elim di [
      | inl same ↦ elim r.rest [ inl e ↦ inl (e ∙ sym wa) | inr e ↦ inr (same ∙ e) ]
      | inr gone ↦ inr gone
    ];
    held = elim di [
      | inl same ↦ elim ho [
        | inl keeps ↦ elim r.held [ inl e ↦ inl (keeps ∙ e) | inr e ↦ inr (same ∙ e) ]
        | inr gone ↦ inr gone
      ]
      | inr gone ↦ inr gone
    ];
  }

  pub close_task : (s : Session) → waiting (post_task close s).tasks ≡ waiting s.tasks
  unfolding waiting
  close_task s = waiting-append s.tasks (close ∷ []) ∙ append-nil (waiting s.tasks)

  pub read-Replied : (p : Packet) (s : Session) → Replied s → Replied (on_read p s)
  unfolding answers waiting
  read-Replied p s r = record {
    more = r.more ++ answer p;
    order =
        sym (append_assoc s.sent r.more (answer p))
        ∙ (ap (λ xs. xs ++ answer p) r.order
            ∙ (ap (λ xs. answers s.read ++ xs) (sym (append-nil (answer p)))
                ∙ sym (answers-append s.read (p ∷ []))));
    rest = elim r.rest [
      | inl e ↦ inl (
          ap (λ xs. xs ++ answer p) e
          ∙ (ap (λ xs. waiting s.tasks ++ xs) (sym (append-nil (answer p)))
              ∙ sym (waiting-append s.tasks (handle_msg p ∷ []))))
      | inr e ↦ inr e
    ];
    held = r.held;
  }
