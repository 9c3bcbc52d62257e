-- ===== src/Websocket/Connection.antt =====
-- `connectServer`, `touchServer`, `sendText` and the daemon of
-- chicken/device/driver/io/websocket_handler.cpp.
use cooboc.Base.{
  ℕ, suc, ◌+◌, ◌≤◌, ◌<◌, ◌≡◌, refl, inl, inr, true, false, none, some, List, [], ◌∷◌, ◌++◌, arith,
  length, set, length-set, ◌==◌, Bool-cases, ltb, map,
}
use cooboc.Base.Int.{pos}
use cooboc.Websocket.{
  WsHandler, Reason, client_writeable, Service, Attempt, status_disconnect, status_connected,
  set_ws_status, client_established, client_receive, until_zero, callback, callbacks, touch_server,
  connect_server, send_text, daemon_round, daemon,
}
use cooboc.Websocket.Handlers.{lookup_handler, register_handler, remove_handler, Entry, HandlerMap}
use cooboc.Websocket.Table.{IsTable}

-- The handler is good exactly while its status is `connected`.
abbrev pub IsConsistent : WsHandler → Type 0
IsConsistent w = w.is_good ≡ (w.ws_status == status_connected)

-- A service call that makes the connection and then fails.
abbrev established_then_failed : Service
established_then_failed = record { reasons = client_established ∷ []; failed = true }

-- A round in which no socket comes back.
abbrev pub refused : ℕ → Attempt
refused c = record {
  new_ctx = c;
  early = [];
  connected = false;
  service = record { reasons = []; failed = false };
}

callback-IsConsistent :
    (me : ℕ) (w : WsHandler) (r : Reason) → IsConsistent w → IsConsistent (callback me w r)
unfolding callback
callback-IsConsistent me w r h = ground arith

callbacks-IsConsistent :
    (me : ℕ) (w : WsHandler) (rs : List Reason) → IsConsistent w → IsConsistent (callbacks me w rs)
unfolding callbacks
callbacks-IsConsistent me w [] h = h
callbacks-IsConsistent me w (r ∷ rs) h =
    callbacks-IsConsistent me (callback me w r) rs (callback-IsConsistent me w r h)

-- If a handler is good exactly if its status is `connected`, this is so after `touchServer`, whatever
-- callbacks the library makes and whatever it returns.
pub touch_server-IsConsistent :
    (me : ℕ) (w : WsHandler) (s : Service) → IsConsistent w → IsConsistent (touch_server me w s)
unfolding touch_server
touch_server-IsConsistent me w s h = ground (arith, callbacks-IsConsistent me w s.reasons h)

-- Where `connectServer` finds room for its context and its service call first establishes the
-- connection and then returns less than 0, the status is `disconnect` and the handler is good.
failed_connect_stays_good :
    (me ctx : ℕ) (w : WsHandler) {m : HandlerMap}
    → register_handler w.handler_map ctx me ≡ some m
    → lookup_handler m ctx ≡ some me
    → (w' : WsHandler) × (connect_server me w ctx [] true established_then_failed ≡ some w')
      × (w'.ws_status ≡ status_disconnect)
      × (w'.is_good ≡ true)
unfolding connect_server callbacks callback set_ws_status
failed_connect_stays_good me ctx w {m = m} registered found = (
  record w {
    is_good = true;
    ws_status = status_disconnect;
    ctx = ctx;
    handler_map = remove_handler m ctx;
  },
  ground (arith),
  refl,
  refl,
)

-- Without a connection `sendText` sends nothing, changes nothing, and says so.
send_text_not_good :
    (me : ℕ) (w : WsHandler) (text : List ℕ) (s : Service)
    → w.is_good ≡ false
    → send_text me w text s ≡ (w, false)
unfolding send_text
send_text_not_good me w text s h = simp h

-- On a good connection whose handler is in the table, a service call that reports the socket
-- writeable once writes exactly the text, and `sendText` returns true.
send_text_written :
    (me : ℕ) (w : WsHandler) (text : List ℕ)
    → w.is_good ≡ true
    → lookup_handler w.handler_map w.ctx ≡ some me
    → let (w', sent) =
        send_text me w text (record { reasons = client_writeable ∷ []; failed = false }) in
      (sent ≡ true) × (w'.written ≡ w.written ++ (text ∷ []))
unfolding send_text callbacks callback
send_text_written me w text good found = ground arith

-- A message that comes to a connected handler of the table is kept up to its first 0.
pub message_received :
    (me : ℕ) (w : WsHandler) (a : Attempt) (bytes : List ℕ)
    → a.service ≡ record { reasons = client_receive bytes ∷ []; failed = false }
    → w.ws_status ≡ status_connected
    → lookup_handler w.handler_map w.ctx ≡ some me
    → daemon_round me w a ≡ some (record w { received = until_zero bytes; has_new_message = true })
unfolding daemon_round touch_server callbacks callback
message_received me w a bytes brings connected found = ground arith

-- On a good connection a text that the socket takes at once is what `sendText` changes.
pub text_sent :
    (me : ℕ) (w : WsHandler) (text : List ℕ)
    → w.is_good ≡ true
    → lookup_handler w.handler_map w.ctx ≡ some me
    → (send_text me w text (record { reasons = client_writeable ∷ []; failed = false })).0
      ≡ record w { send_buffer = text; written = w.written ++ (text ∷ []) }
unfolding send_text callbacks callback
text_sent me w text good found = ground arith

refused_with_room :
    (me : ℕ) (w : WsHandler) (n c : ℕ)
    → w.ws_status ≡ status_disconnect
    → w.handler_map.handler_length ≡ pos n
    → n < length w.handler_map.slots
    → daemon_round me w (refused c)
      ≡ some (record w {
        ctx = c;
        handler_map = record {
          slots = set w.handler_map.slots n (record { ctx = c; handler = me });
          handler_length = pos (suc n);
        };
      })
unfolding daemon_round connect_server callbacks register_handler
refused_with_room me w n c off counted room = ground arith

refused_when_full :
    (me : ℕ) (w : WsHandler) (n c : ℕ)
    → w.ws_status ≡ status_disconnect
    → w.handler_map.handler_length ≡ pos n
    → length w.handler_map.slots ≤ n
    → daemon_round me w (refused c) ≡ none
unfolding daemon_round connect_server register_handler
refused_when_full me w n c off counted full = ground arith

-- A context whose connection fails stays in the table. From a disconnected handler, more refused
-- rounds of the running daemon than the table has room for end in a write outside of it.
pub refused_rounds_overflow :
    (me : ℕ) (w : WsHandler) (n : ℕ) (cs : List ℕ)
    → w.is_running ≡ true
    → w.ws_status ≡ status_disconnect
    → IsTable w.handler_map n
    → length w.handler_map.slots < n + length cs
    → daemon me w (map refused cs) ≡ none
unfolding daemon
refused_rounds_overflow me w n [] running off table over = absurd (omega (arith, table.fits))
refused_rounds_overflow me w n (c ∷ cs) running off table over =
    elim (Bool-cases (ltb n (length w.handler_map.slots))) [
      | inl k ↦
          rw (running, refused_with_room me w n c off table.counted (ground arith))
            (refused_rounds_overflow me (registered w n c) (suc n) cs running off
              (record { counted = refl; fits = ground (arith, length-set w.handler_map.slots n e) })
              (ground (arith, length-set w.handler_map.slots n e)))
      | inr k ↦ rw (running, refused_when_full me w n c off table.counted (ground arith)) refl
    ]
  where
    e : Entry
    e = record { ctx = c; handler = me }

    registered : WsHandler → ℕ → ℕ → WsHandler
    registered w n c = record w {
      ctx = c;
      handler_map = record {
        slots = set w.handler_map.slots n (record { ctx = c; handler = me });
        handler_length = pos (suc n);
      };
    }
