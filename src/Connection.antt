-- ===== src/Connection.antt =====
-- The state machine of Base/Connection.cpp: `Start` and `Close`, called by any threads. A step is
-- one access to `_state`, or one of the effects that follow the access that won.
mod Invariant
pub mod Once
pub mod Attempts
mod Tests
use bugat.Common.{ℕ, suc, ◌+◌, ◌≡◌, Bool, true, false, List, ◌∷◌, ◌++◌, replicate, if◌then◌else◌}

-- `ConnectionState`
pub data ConnectionState : Type 0 where
  disconnected : ConnectionState
  connecting : ConnectionState
  connected : ConnectionState

abbrev pub eq_state : ConnectionState → ConnectionState → Bool
eq_state disconnected disconnected = true
eq_state connecting connecting = true
eq_state connected connected = true
eq_state _ _ = false

-- `compare_exchange_strong(expect, desired)`: whether it succeeds, and then `_state` and `expect`.
pub record Exchange : Type 0 where
  pub success : Bool
  pub state : ConnectionState
  pub expect : ConnectionState

abbrev pub compare_exchange : ConnectionState → ConnectionState → ConnectionState → Exchange
compare_exchange state expect desired =
    if eq_state state expect
    then record { success = true; state = desired; expect = expect }
    else record { success = false; state = state; expect = state }

-- `socket` says whether `_socket` is not null. The other numbers count the effects: how often the
-- socket was closed, the two loops spawned, and the events fired.
pub record Connection : Type 0 where
  pub state : ConnectionState
  pub socket : Bool
  pub socket_closes : ℕ
  pub spawned : ℕ
  pub on_connects : ℕ
  pub on_closes : ℕ

-- Where a thread stands: in the loop of `Close`, with `expect` and with the number of exchanges
-- that failed so far; behind the loop; and in `Start` behind the exchange.
pub data Pc : Type 0 where
  idle : Pc
  exchanging : (expect : ConnectionState) (fails : ℕ) → Pc
  testing : (expect : ConnectionState) (fails : ℕ) → Pc
  closing_socket : Pc
  resetting_socket : Pc
  firing_close : Pc
  starting : Pc
  spawning : Pc
  firing_connect : Pc

abbrev pub is_disconnected : ConnectionState → Bool
is_disconnected state = eq_state state disconnected

pub data Move (c : Connection) : Pc → Connection → Pc → Type 0 where
  call_close : Move c idle c (exchanging connected 0)
  win_close :
      {expect : ConnectionState} {fails : ℕ}
      → (compare_exchange c.state expect disconnected).success ≡ true
      → Move c
          (exchanging expect fails)
          (record c { state = (compare_exchange c.state expect disconnected).state })
          closing_socket
  lose_close :
      {expect : ConnectionState} {fails : ℕ}
      → (compare_exchange c.state expect disconnected).success ≡ false
      → Move c
          (exchanging expect fails)
          (record c { state = (compare_exchange c.state expect disconnected).state })
          (testing (compare_exchange c.state expect disconnected).expect (suc fails))
  give_up :
      {expect : ConnectionState} {fails : ℕ}
      → is_disconnected expect ≡ true
      → Move c (testing expect fails) c idle
  try_again :
      {expect : ConnectionState} {fails : ℕ}
      → is_disconnected expect ≡ false
      → Move c (testing expect fails) c (exchanging expect fails)
  close_socket :
      c.socket ≡ true
      → Move c closing_socket (record c { socket_closes = c.socket_closes + 1 }) resetting_socket
  no_socket : c.socket ≡ false → Move c closing_socket c firing_close
  reset_socket : Move c resetting_socket (record c { socket = false }) firing_close
  fire_close : Move c firing_close (record c { on_closes = c.on_closes + 1 }) idle
  call_start : Move c idle c starting
  win_start :
      (compare_exchange c.state connecting connected).success ≡ true
      → Move c starting
          (record c { state = (compare_exchange c.state connecting connected).state })
          spawning
  lose_start :
      (compare_exchange c.state connecting connected).success ≡ false → Move c starting c idle
  spawn : Move c spawning (record c { spawned = c.spawned + 1 }) firing_connect
  fire_connect : Move c firing_connect (record c { on_connects = c.on_connects + 1 }) idle

pub record System : Type 0 where
  pub con : Connection
  pub threads : List Pc

pub data Step (s : System) : System → Type 0 where
  pick :
      (left : List Pc) {p : Pc} (right : List Pc) {c : Connection} {p' : Pc}
      → s.threads ≡ left ++ p ∷ right
      → Move s.con p c p'
      → Step s (record { con = c; threads = left ++ p' ∷ right })

-- A new connection; the server sets its socket before it starts it.
abbrev pub new_connection : Bool → Connection
new_connection socket = record {
  state = connecting;
  socket = socket;
  socket_closes = 0;
  spawned = 0;
  on_connects = 0;
  on_closes = 0;
}

abbrev pub init : ℕ → Bool → System
init n socket = record { con = new_connection socket; threads = replicate n Pc.idle }

pub data Reach (s : System) : System → Type 0 where
  here : Reach s s
  later : {t u : System} → Reach s t → Step t u → Reach s u
