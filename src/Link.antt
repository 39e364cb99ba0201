-- ===== src/Link.antt =====
-- A session that sends, the loop of its connection, the network, and the receive loop of the
-- other end: Base/Session.cpp over Base/Connection.cpp.
mod Delivery
mod Tests
use bugat.Common.{Option, none, some, List, [], ◌∷◌, if◌then◌else◌}
use bugat.Framing.Message.{Message, data_bufs}
use bugat.Sending.{Sender, happen, push}

-- `Session::Send`, on the session's connection, which may be null.
pub session_send : Option Sender → Message → Option Sender
session_send none msg = none
session_send (some con) msg =
    some (if con.disconnected then con else happen con (push (data_bufs msg)))

pub send_all : Option Sender → List Message → Option Sender
send_all con [] = con
send_all con (msg ∷ msgs) = send_all (session_send con msg) msgs
