-- ===== src/Outbox.antt =====
-- How `sendText`, which the main loop of chicken/chicken.cpp calls, and the callback that writes share
-- `mWsBuffer` and `mSendLength` (chicken/device/driver/io/websocket_handler.cpp). The callback runs in
-- whichever thread serves the socket, the daemon's too, and no lock guards the two members. A step is one
-- access of `mSendLength`, one byte copied, one request, or one callback.
--
-- libwebsockets is taken to call back once for a request, when the socket is writeable, and to read the
-- text whole when it is written; a text fits the array.
pub mod Written
mod Tests
use cooboc.Base.{
  ℕ, zero, suc, ◌+◌, Bool, true, false, ◌&&◌, Option, none, some, List, [], ◌∷◌, if◌then◌else◌,
  length, set, take, replicate,
}

-- Where `sendText` stands: nowhere, with the rest of a text to be copied to a place, or before its
-- `libwebsocket_callback_on_writable`.
pub data Sender : Type 0 where
  waiting : Sender
  copying : List ℕ → ℕ → Sender
  copied : Sender

-- `sent` is the text that `sendText` was last called with, and `written` the last one written; `requested`
-- says that a callback is due.
pub record Shared : Type 0 where
  pub buffer : List ℕ
  pub send_length : ℕ
  pub requested : Bool
  pub sender : Sender
  pub sent : Option (List ℕ)
  pub written : Option (List ℕ)

-- The constructor leaves the array as it is.
pub new_shared : List ℕ → Shared
new_shared buffer = record {
  buffer = buffer;
  send_length = 0;
  requested = false;
  sender = waiting;
  sent = none;
  written = none;
}

-- The next step of `sendText` on a good connection; where it is not running, it is called with this text.
pub send_step : Shared → Sender → List ℕ → Shared
send_step s waiting text = record s {
  send_length = length text;
  sender = copying text 0;
  sent = some text;
}
send_step s (copying (b ∷ rest) i) text = record s {
  buffer = set s.buffer i b;
  sender = copying rest (i + 1);
}
send_step s (copying [] i) text = record s { sender = copied }
send_step s copied text = record s { requested = true; sender = waiting }

-- The service of the socket by either thread, which finds it writeable or not: `doSendText`, where it is
-- due.
pub service_step : Shared → Bool → Shared
service_step s writeable =
    if s.requested && writeable
    then record s { requested = false; written = some (take s.send_length s.buffer) }
    else s

pub data Turn : Type 0 where
  send_turn : List ℕ → Turn
  service_turn : Bool → Turn

pub take_turn : Shared → Turn → Shared
unfolding send_step service_step
take_turn s (send_turn text) = send_step s s.sender text
take_turn s (service_turn writeable) = service_step s writeable

pub take_turns : Shared → List Turn → Shared
unfolding take_turn
take_turns s [] = s
take_turns s (t ∷ ts) = take_turns (take_turn s t) ts
