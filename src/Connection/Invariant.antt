-- ===== src/Connection/Invariant.antt =====
-- What every step of Base/Connection.cpp's state machine keeps.
use bugat.Common.{
  ℕ, ◌+◌, ◌≤◌, ◌≡◌, refl, sym, ap, ◌∙◌, Bool, false, leb, ◌==◌, ◌&&◌, ◌||◌, not, List, ◌∷◌, ◌++◌,
  if◌then◌else◌, arith,
}
use bugat.Common.Threads.{total, total-split, total-replicate, total_mono}
use bugat.Connection.{
  ConnectionState, disconnected, connecting, connected, Connection, Pc, idle, exchanging, testing,
  closing_socket, resetting_socket, firing_close, spawning, firing_connect, Move, call_close,
  win_close, lose_close, give_up, try_again, close_socket, no_socket, reset_socket, fire_close,
  call_start, win_start, lose_start, spawn, fire_connect, eq_state, is_disconnected, new_connection,
  System, Step, pick, init, Reach, here, later,
}

-- Behind the exchange of `Close` that won.
abbrev pub closer : Pc → ℕ
closer closing_socket = 1
closer resetting_socket = 1
closer firing_close = 1
closer _ = 0

-- The part of them that has not closed the socket.
abbrev pub before_socket : Pc → ℕ
before_socket closing_socket = 1
before_socket _ = 0

-- Behind the exchange of `Start` that won.
abbrev pub starter : Pc → ℕ
starter spawning = 1
starter firing_connect = 1
starter _ = 0

abbrev pub before_spawn : Pc → ℕ
before_spawn spawning = 1
before_spawn _ = 0

-- 1 once the state is past `connecting`, or is `disconnected`.
abbrev pub left_connecting : ConnectionState → ℕ
left_connecting connecting = 0
left_connecting _ = 1

abbrev pub ended : ConnectionState → ℕ
ended disconnected = 1
ended _ = 0

pub record Inv (c : Connection) (closers before starters unspawned : ℕ) : Type 0 where
  pub closed : c.on_closes + closers ≡ ended c.state
  pub socket_once : c.socket_closes + before ≤ ended c.state
  pub spawned_once : c.on_connects + starters ≡ c.spawned + unspawned
  pub started : c.spawned + unspawned ≤ left_connecting c.state
  pub connected_started : c.state ≡ connected → c.spawned + unspawned ≡ 1

-- What a thread in the loop of `Close` may have as `expect` after a number of failures, by the
-- states so far: it can fail three times at most, and the third time on `disconnected`.
abbrev pub may_exchange : ConnectionState → ConnectionState → ℕ → Bool
may_exchange state disconnected fails = false
may_exchange state connecting fails = fails == 1
may_exchange state connected fails =
    (fails == 0) || ((fails == 2) && not (eq_state state connecting))

abbrev pub may_test : ConnectionState → ConnectionState → ℕ → Bool
may_test state disconnected fails = is_disconnected state && leb fails 3
may_test state connecting fails = fails == 1
may_test state connected fails = (fails == 2) && not (eq_state state connecting)

abbrev pub wrong : ConnectionState → Pc → ℕ
wrong state (exchanging expect fails) = if may_exchange state expect fails then 0 else 1
wrong state (testing expect fails) = if may_test state expect fails then 0 else 1
wrong state _ = 0

Move-wrong :
    {c c' : Connection} {p p' : Pc} → Move c p c' p' → wrong c.state p ≡ 0 → wrong c'.state p' ≡ 0
Move-wrong call_close h = refl
Move-wrong (win_close g) h = refl
Move-wrong {c} (lose_close {expect} {fails} g) h = ground arith
Move-wrong (give_up g) h = refl
Move-wrong {c} (try_again {expect} {fails} g) h = ground arith
Move-wrong (close_socket g) h = refl
Move-wrong (no_socket g) h = refl
Move-wrong reset_socket h = refl
Move-wrong fire_close h = refl
Move-wrong call_start h = refl
Move-wrong (win_start g) h = refl
Move-wrong (lose_start g) h = refl
Move-wrong spawn h = refl
Move-wrong fire_connect h = refl

-- The state only goes forward.
abbrev pub place : ConnectionState → ℕ
place connecting = 0
place connected = 1
place disconnected = 2

Move-place : {c c' : Connection} {p p' : Pc} → Move c p c' p' → place c.state ≤ place c'.state
Move-place (win_close g) = ground arith
Move-place (lose_close g) = ground arith
Move-place (win_start g) = ground arith
Move-place _ = omega arith

wrong_mono : (a b : ConnectionState) → place a ≤ place b → (q : Pc) → wrong b q ≤ wrong a q
wrong_mono a b h (exchanging expect fails) = ground arith
wrong_mono a b h (testing expect fails) = ground arith
wrong_mono a b h _ = omega arith

Move-Inv :
    {c c' : Connection} {p p' : Pc} (i j k l : ℕ)
    → Move c p c' p'
    → wrong c.state p ≡ 0
    → Inv c (closer p + i) (before_socket p + j) (starter p + k) (before_spawn p + l)
    → Inv c' (closer p' + i) (before_socket p' + j) (starter p' + k) (before_spawn p' + l)
Move-Inv i j k l call_close w v = ground arith
Move-Inv i j k l (win_close g) w v = ground arith
Move-Inv i j k l (lose_close g) w v = ground arith
Move-Inv i j k l (give_up g) w v = ground arith
Move-Inv i j k l (try_again g) w v = ground arith
Move-Inv i j k l (close_socket g) w v = ground arith
Move-Inv i j k l (no_socket g) w v = ground arith
Move-Inv i j k l reset_socket w v = ground arith
Move-Inv i j k l fire_close w v = ground arith
Move-Inv i j k l call_start w v = ground arith
Move-Inv i j k l (win_start g) w v = ground arith
Move-Inv i j k l (lose_start g) w v = ground arith
Move-Inv i j k l spawn w v = ground arith
Move-Inv i j k l fire_connect w v = ground arith

recount :
    {c : Connection} {i j k l i' j' k' l' : ℕ}
    → i ≡ i'
    → j ≡ j'
    → k ≡ k'
    → l ≡ l'
    → Inv c i j k l
    → Inv c i' j' k' l'
recount a b d e v = ground arith

pub record Holds (s : System) : Type 0 where
  pub inv :
      Inv s.con
        (total closer s.threads)
        (total before_socket s.threads)
        (total starter s.threads)
        (total before_spawn s.threads)
  pub right_loops : total (wrong s.con.state) s.threads ≡ 0

module _ (s : System) (left right : List Pc) {p p' : Pc} {c : Connection} where
  Move-Holds :
      s.threads ≡ left ++ p ∷ right
      → Move s.con p c p'
      → Holds s
      → Holds (record { con = c; threads = left ++ p' ∷ right })
  Move-Holds e mv h = record {
    inv =
        recount (sym (total-split closer left p' right))
          (sym (total-split before_socket left p' right)) (sym (total-split starter left p' right))
          (sym (total-split before_spawn left p' right))
          (Move-Inv (total closer left + total closer right)
            (total before_socket left + total before_socket right)
            (total starter left + total starter right)
            (total before_spawn left + total before_spawn right) mv fine
            (recount (ap (total closer) e ∙ total-split closer left p right)
              (ap (total before_socket) e ∙ total-split before_socket left p right)
              (ap (total starter) e ∙ total-split starter left p right)
              (ap (total before_spawn) e ∙ total-split before_spawn left p right) h.inv));
    right_loops = omega (
      arith,
      total-split (wrong c.state) left p' right,
      Move-wrong mv fine,
      others_stay left,
      others_stay right,
      split,
      h.right_loops,
    );
  }
    where
      split :
          total (wrong s.con.state) s.threads
          ≡ wrong s.con.state p + (total (wrong s.con.state) left + total (wrong s.con.state) right)
      split = ap (total (wrong s.con.state)) e ∙ total-split (wrong s.con.state) left p right

      fine : wrong s.con.state p ≡ 0
      fine = omega (arith, split, h.right_loops)

      others_stay : (ps : List Pc) → total (wrong c.state) ps ≤ total (wrong s.con.state) ps
      others_stay =
          total_mono (wrong c.state) (wrong s.con.state)
            (wrong_mono s.con.state c.state (Move-place mv))

Step-Holds : {s t : System} → Step s t → Holds s → Holds t
Step-Holds {s} (pick left {p} right {c} {p'} e mv) h = Move-Holds s left right e mv h

new_connection-Inv : (socket : Bool) → Inv (new_connection socket) 0 0 0 0
new_connection-Inv socket = ground arith

pub Reach-Holds : (n : ℕ) (socket : Bool) {s : System} → Reach (init n socket) s → Holds s
Reach-Holds n socket here = record {
  inv =
      recount (sym (total-replicate closer n idle refl))
        (sym (total-replicate before_socket n idle refl))
        (sym (total-replicate starter n idle refl)) (sym (total-replicate before_spawn n idle refl))
        (new_connection-Inv socket);
  right_loops = total-replicate (wrong connecting) n idle refl;
}
Reach-Holds n socket (later r st) = Step-Holds st (Reach-Holds n socket r)
