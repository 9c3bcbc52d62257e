-- ===== src/Websocket/Lifecycle.antt =====
-- How the daemon of chicken/device/driver/io/websocket_handler.cpp connects and comes back after the
-- other side closed the connection.
use cooboc.Base.{
  ℕ, suc, ◌-◌, ◌<◌, ◌≡◌, refl, ap, ◌∙◌, true, false, none, some, List, [], ◌∷◌, ◌++◌, arith, length,
  All, take,
}
use cooboc.Websocket.{
  WsHandler, Attempt, status_disconnect, status_connected, set_ws_status, client_established,
  closed, callback, callbacks, touch_server, connect_server, daemon_round, daemon,
}
use cooboc.Websocket.Handlers.{
  Entry, HandlerMap, rounds, find_from, lookup_handler, register_handler, remove_handler,
}
use cooboc.Websocket.Search.{lookup_entry, erase_entry, length-shift_from}
use cooboc.Websocket.Table.{
  IsTable, lookup_handler-entries, register_handler-entries, remove_handler-entries,
}

-- A round in which a new context is made and the connection is established.
abbrev pub established : ℕ → Attempt
established c = record {
  new_ctx = c;
  early = [];
  connected = true;
  service = record { reasons = client_established ∷ []; failed = false };
}

-- A round in which the other side closes the connection.
abbrev pub closing : Attempt
closing = record {
  new_ctx = 0;
  early = [];
  connected = false;
  service = record { reasons = closed ∷ []; failed = false };
}

-- A running handler without a connection, beside the entries `es` of a table with room for one more.
pub record IsOff (es : List Entry) (w : WsHandler) : Type 0 where
  pub running : w.is_running ≡ true
  pub disconnected : w.ws_status ≡ status_disconnect
  pub not_good : w.is_good ≡ false
  pub table : IsTable w.handler_map (length es)
  pub others : take (length es) w.handler_map.slots ≡ es
  pub room : length es < length w.handler_map.slots

-- A running handler with a connection, whose entry is the last and the only one of its context.
pub record IsReady (me : ℕ) (es : List Entry) (w : WsHandler) : Type 0 where
  pub running : w.is_running ≡ true
  pub connected : w.ws_status ≡ status_connected
  pub good : w.is_good ≡ true
  pub table : IsTable w.handler_map (suc (length es))
  pub entries :
      take (suc (length es)) w.handler_map.slots ≡ es ++ (record { ctx = w.ctx; handler = me } ∷ [])
  pub fresh : lookup_entry w.ctx es ≡ none

lookup_last :
    (c me : ℕ) (es : List Entry)
    → lookup_entry c es ≡ none
    → lookup_entry c (es ++ (record { ctx = c; handler = me } ∷ [])) ≡ some me
unfolding lookup_entry
lookup_last c me [] h = ground arith
lookup_last c me (e ∷ es) h = ground (arith, lookup_last c me es)

erase_last :
    (c me : ℕ) (es : List Entry)
    → lookup_entry c es ≡ none
    → erase_entry c (es ++ (record { ctx = c; handler = me } ∷ [])) ≡ es
unfolding lookup_entry erase_entry
erase_last c me [] h = ground arith
erase_last c me (e ∷ es) h = ground (arith, erase_last c me es)

-- What the table gives for the handler's context.
pub found_ready :
    (me : ℕ) (es : List Entry) (w : WsHandler)
    → IsReady me es w
    → lookup_handler w.handler_map w.ctx ≡ some me
found_ready me es w r =
    lookup_handler-entries w.handler_map (suc (length es)) w.ctx r.table
    ∙ ap (lookup_entry w.ctx) r.entries
    ∙ lookup_last w.ctx me es r.fresh

-- The handler that `connectServer` leaves.
linked : WsHandler → ℕ → HandlerMap → WsHandler
linked w c m = record w { is_good = true; ws_status = status_connected; ctx = c; handler_map = m }

connect_round :
    (me c : ℕ) (w : WsHandler) (m : HandlerMap)
    → w.ws_status ≡ status_disconnect
    → register_handler w.handler_map c me ≡ some m
    → lookup_handler m c ≡ some me
    → daemon_round me w (established c) ≡ some (linked w c m)
unfolding daemon_round connect_server callbacks callback set_ws_status linked
connect_round me c w m off registered found = ground (arith, off, registered, found)

close_round :
    (me : ℕ) (w : WsHandler)
    → w.ws_status ≡ status_connected
    → lookup_handler w.handler_map w.ctx ≡ some me
    → daemon_round me w closing
      ≡ some (record w {
        ws_status = status_disconnect;
        is_good = false;
        handler_map = remove_handler w.handler_map w.ctx;
      })
unfolding daemon_round touch_server callbacks callback set_ws_status
close_round me w on found = ground (arith, on, found)

-- A round that establishes the connection with a context that has no entry makes a handler without a
-- connection ready.
pub connects :
    (me c : ℕ) (es : List Entry) (w : WsHandler)
    → IsOff es w
    → lookup_entry c es ≡ none
    → (w' : WsHandler) × (daemon_round me w (established c) ≡ some w')
      × IsReady me es w'
      × (w'.written ≡ w.written)
connects me c es w o fresh =
    let (m, registered, table, entries) =
      register_handler-entries w.handler_map (length es) c o.table me o.room in
    let listed =
      entries ∙ ap (λ (s : List Entry). s ++ (record { ctx = c; handler = me } ∷ [])) o.others in
    let found =
      lookup_handler-entries m (suc (length es)) c table
      ∙ ap (lookup_entry c) listed
      ∙ lookup_last c me es fresh in
    (
      linked w c m,
      connect_round me c w m o.disconnected registered found,
      unfold linked in
          record {
            running = o.running;
            connected = refl;
            good = refl;
            table = table;
            entries = listed;
            fresh = fresh;
          },
      unfold linked in refl,
    )

slots_kept : (m : HandlerMap) (c : ℕ) → length (remove_handler m c).slots ≡ length m.slots
unfolding remove_handler
slots_kept m c =
    let i = find_from (rounds m.handler_length) 0 c m.slots in
    length-shift_from (rounds m.handler_length - 1 - i) i m.slots

-- A round in which the connection is closed leaves the table as it was before the connection.
pub closes :
    (me : ℕ) (es : List Entry) (w : WsHandler)
    → IsReady me es w
    → (w' : WsHandler) × (daemon_round me w closing ≡ some w')
      × IsOff es w'
      × (w'.written ≡ w.written)
closes me es w r =
    let (table, left) =
      remove_handler-entries w.handler_map (length es) w.ctx r.table
        (ap (lookup_entry w.ctx) r.entries ∙ lookup_last w.ctx me es r.fresh) in
    (
      record w {
        ws_status = status_disconnect;
        is_good = false;
        handler_map = remove_handler w.handler_map w.ctx;
      },
      close_round me w r.connected (found_ready me es w r),
      record {
        running = r.running;
        disconnected = refl;
        not_good = refl;
        table = table;
        others = left ∙ ap (erase_entry w.ctx) r.entries ∙ erase_last w.ctx me es r.fresh;
        room = omega (arith, slots_kept w.handler_map w.ctx, r.table.fits);
      },
      refl,
    )

goes_on :
    (me : ℕ) (w w' : WsHandler) (a : Attempt) (rest : List Attempt)
    → w.is_running ≡ true
    → daemon_round me w a ≡ some w'
    → daemon me w (a ∷ rest) ≡ daemon me w' rest
unfolding daemon
goes_on me w w' a rest running e = ground (arith, running, e)

-- The connection is made and closed, with one new context after the other.
unfoldable pub cycles : List ℕ → List Attempt
cycles [] = []
cycles (c ∷ cs) = established c ∷ closing ∷ cycles cs

-- The context has no entry among the others.
abbrev pub IsFresh : List Entry → ℕ → Type 0
IsFresh es c = lookup_entry c es ≡ none

-- However often the connection of a running handler is established and closed again, each time with
-- a context that no other entry has: the daemon goes on, and leaves the table with the entries of the
-- others, in their order, and with room for the next connection.
pub reconnects :
    (me : ℕ) (es : List Entry) (cs : List ℕ) (w : WsHandler)
    → IsOff es w
    → All (IsFresh es) cs
    → (w' : WsHandler) × (daemon me w (cycles cs) ≡ some w') × IsOff es w'
unfolding daemon cycles
reconnects me es [] w o fs = (w, refl, o)
reconnects me es (c ∷ cs) w o (f, fs) =
    let (w1, e1, ready, same) = connects me c es w o f in
    let (w2, e2, off, kept) = closes me es w1 ready in
    let (w3, e3, off') = reconnects me es cs w2 off fs in
    (
      w3,
      goes_on me w w1 (established c) (closing ∷ cycles cs) o.running e1
          ∙ goes_on me w1 w2 closing (cycles cs) ready.running e2
          ∙ e3,
      off',
    )
