-- ===== src/Server/Loops.antt =====
-- What becomes of the loops of Base/Server.cpp and of what they accept.
use bugat.Common.{
  ℕ, zero, suc, ◌+◌, ◌≤◌, ◌≡◌, refl, sym, ap, ◌∙◌, Bool, true, false, List, [], ◌∷◌, ◌++◌,
  append_assoc, append-nil, length, arith,
}
use bugat.Common.Count.{is, count, count-append_one, below, below_next}
use bugat.Server.Standing.{
  count_waiting, count_tasks, count_given, ends_of, to_serve, to_end, served, count_waiting-append,
  count_tasks-append, count_given-append, to_serve-append, to_end-append, served-append,
  TakesAccept, none_taken, one_taken, take_accept-TakesAccept,
}
use bugat.Server.{
  AwaitAccept, ServerTask, begin, woken, Server, idle_server, await_accept, create_connection,
  serve, run_posted, run_posts, spawn_accept, spawn_accepts, server_accept, Completed, known,
  take_accept, complete_with, ServerOp, op_accept, op_complete, op_task, apply, apply_all,
}

-- Each loop is a task, waits in one accept or has ended. What is accepted is announced and started
-- in its order, each socket at most once, and exactly the loops whose accept failed end; what is
-- missing of both is in the tasks.
pub record Answered (s : Server) : Type 0 where
  pub order : s.log ++ to_serve s.posts ≡ served s.accepted
  pub ends : s.ended ++ to_end s.posts ≡ s.failed
  pub one_place :
      (l : ℕ)
      → count_tasks l s.posts + count_waiting (λ a. a.accept_loop) l s.pending + count l s.ended
        ≡ below l s.loops
  pub once :
      (k : ℕ)
      → count_waiting (λ a. a.socket) k s.pending + count_given k s.accepted ≤ below k s.sockets

behind {ℓ} : {A : Type ℓ} (xs ys zs ws : List A) → xs ++ ys ≡ ws → xs ++ (ys ++ zs) ≡ ws ++ zs
behind xs ys zs ws e = sym (append_assoc xs ys zs) ∙ ap (λ q. q ++ zs) e

-- A loop that is not in any place goes to its accept.
await_accept-Answered :
    (l i : ℕ) (s : Server)
    → s.log ++ to_serve s.posts ≡ served s.accepted
    → s.ended ++ to_end s.posts ≡ s.failed
    → ((k : ℕ)
        → is k l
            + count_tasks k s.posts
            + count_waiting (λ a. a.accept_loop) k s.pending
            + count k s.ended
          ≡ below k s.loops)
    → ((k : ℕ)
        → count_waiting (λ a. a.socket) k s.pending + count_given k s.accepted ≤ below k s.sockets)
    → Answered (await_accept l i s)
await_accept-Answered l i s order ends one once =
    let a : AwaitAccept = record { accept_loop = l; info = i; socket = s.sockets } in
    record {
      order = order;
      ends = ends;
      one_place =
          λ k. omega (arith, one k, count_waiting-append (λ b. b.accept_loop) k s.pending a);
      once = λ k. omega (
        arith,
        once k,
        below_next k s.sockets,
        count_waiting-append (λ b. b.socket) k s.pending a,
      );
    }

run_posted-Answered :
    (p : ServerTask) (ps : List ServerTask) (s : Server)
    → s.posts ≡ p ∷ ps
    → Answered s
    → Answered (run_posted p (record s { posts = ps }))
unfolding to_serve to_end count_tasks count
run_posted-Answered (begin l i) ps s e h =
    await_accept-Answered l i (record s { posts = ps })
      (ap (λ q. s.log ++ to_serve q) (sym e) ∙ h.order)
      (ap (λ q. s.ended ++ to_end q) (sym e) ∙ h.ends)
      (λ k. omega (arith, h.one_place k, ap (count_tasks k) e)) h.once
run_posted-Answered (woken a true) ps s e h = record {
  order = ap (λ q. s.log ++ to_serve q) (sym e) ∙ h.order;
  ends =
      append_assoc s.ended (a.accept_loop ∷ []) (to_end ps)
      ∙ (ap (λ q. s.ended ++ to_end q) (sym e) ∙ h.ends);
  one_place = λ k.
      omega (arith, h.one_place k, ap (count_tasks k) e, count-append_one k s.ended a.accept_loop);
  once = h.once;
}
run_posted-Answered (woken a false) ps s e h =
    let c = create_connection a in
    await_accept-Answered a.accept_loop a.info (record s { posts = ps; log = s.log ++ serve c })
      (append_assoc s.log (serve c) (to_serve ps)
        ∙ (ap (λ q. s.log ++ to_serve q) (sym e) ∙ h.order))
      (ap (λ q. s.ended ++ to_end q) (sym e) ∙ h.ends)
      (λ k. omega (arith, h.one_place k, ap (count_tasks k) e)) h.once

run_posts-Answered :
    (ps : List ServerTask) (s : Server) → s.posts ≡ ps → Answered s → Answered (run_posts ps s)
run_posts-Answered [] s e h = h
run_posts-Answered (p ∷ ps) s e h = run_posted-Answered p ps s e h

spawn_accept-Answered : (i : ℕ) (s : Server) → Answered s → Answered (spawn_accept i s)
spawn_accept-Answered i s h =
    let p = begin s.loops i in
    record {
      order =
          ap (λ q. s.log ++ q) (to_serve-append s.posts p ∙ append-nil (to_serve s.posts))
          ∙ h.order;
      ends =
          ap (λ q. s.ended ++ q) (to_end-append s.posts p ∙ append-nil (to_end s.posts)) ∙ h.ends;
      one_place =
          λ k. omega (arith, h.one_place k, below_next k s.loops, count_tasks-append k s.posts p);
      once = h.once;
    }

spawn_accepts-Answered : (n i : ℕ) (s : Server) → Answered s → Answered (spawn_accepts n i s)
unfolding spawn_accepts
spawn_accepts-Answered zero i s h = h
spawn_accepts-Answered (suc n) i s h =
    spawn_accepts-Answered n i (spawn_accept i s) (spawn_accept-Answered i s h)

server_accept-Answered : (port n : ℕ) (s : Server) → Answered s → Answered (server_accept port n s)
server_accept-Answered port n s h =
    spawn_accepts-Answered n (length s.infos) (record s { infos = s.infos ++ port ∷ [] })
      (record { order = h.order; ends = h.ends; one_place = h.one_place; once = h.once })

-- The result of an accept.
known-Answered :
    (error : Bool) (a : AwaitAccept) (rest : List AwaitAccept) (s : Server)
    → ((key : AwaitAccept → ℕ) (k : ℕ)
        → count_waiting key k s.pending ≡ is k (key a) + count_waiting key k rest)
    → Answered s
    → Answered (complete_with error (known a rest) s)
known-Answered true a rest s taken h =
    let p = woken a true in
    record {
      order =
          ap (λ q. s.log ++ q) (to_serve-append s.posts p ∙ append-nil (to_serve s.posts))
          ∙ h.order;
      ends =
          ap (λ q. s.ended ++ q) (to_end-append s.posts p)
          ∙ behind s.ended (to_end s.posts) (ends_of p) s.failed h.ends;
      one_place = λ k.
          omega
            (arith, h.one_place k, taken (λ b. b.accept_loop) k, count_tasks-append k s.posts p);
      once = λ k. omega (arith, h.once k, taken (λ b. b.socket) k);
    }
known-Answered false a rest s taken h =
    let p = woken a false in
    let c = create_connection a in
    record {
      order =
          ap (λ q. s.log ++ q) (to_serve-append s.posts p)
          ∙ (behind s.log (to_serve s.posts) (serve c) (served s.accepted) h.order
              ∙ sym (served-append s.accepted c));
      ends =
          ap (λ q. s.ended ++ q) (to_end-append s.posts p ∙ append-nil (to_end s.posts)) ∙ h.ends;
      one_place = λ k.
          omega
            (arith, h.one_place k, taken (λ b. b.accept_loop) k, count_tasks-append k s.posts p);
      once =
          λ k. omega (arith, h.once k, taken (λ b. b.socket) k, count_given-append k s.accepted c);
    }

complete_with-Answered :
    (error : Bool) (c : Completed) (s : Server)
    → TakesAccept s.pending c
    → Answered s
    → Answered (complete_with error c s)
complete_with-Answered error _ s none_taken h = h
complete_with-Answered error _ s (one_taken {a} {rest} taken) h =
    known-Answered error a rest s taken h

apply-Answered : (op : ServerOp) (s : Server) → Answered s → Answered (apply op s)
unfolding apply
apply-Answered (op_accept port n) s h = server_accept-Answered port n s h
apply-Answered (op_complete l error) s h =
    complete_with-Answered error (take_accept l s.pending) s (take_accept-TakesAccept l s.pending) h
apply-Answered op_task s h = run_posts-Answered s.posts s refl h

all-Answered : (ops : List ServerOp) (s : Server) → Answered s → Answered (apply_all ops s)
unfolding apply_all
all-Answered [] s h = h
all-Answered (op ∷ ops) s h = all-Answered ops (apply op s) (apply-Answered op s h)

idle_server-Answered : Answered idle_server
unfolding to_serve to_end served count count_tasks count_waiting count_given
idle_server-Answered = record {
  order = refl;
  ends = refl;
  one_place = λ l. ground arith;
  once = λ k. omega arith;
}

-- Whatever ports the server accepts on, in whatever order the accepts complete and the tasks of
-- the server run: every connection that has been accepted is announced by `OnAccept` and then
-- started, in the order of the accepts, and exactly the loops whose accept failed end, in that
-- order, what is missing of both being in the tasks; each loop that was spawned is in one place, a
-- task, one accept that waits or the ended ones; and a socket is in at most one accept or given to
-- at most one connection, never both.
pub server_accepts : (ops : List ServerOp) → Answered (apply_all ops idle_server)
server_accepts ops = all-Answered ops idle_server idle_server-Answered
