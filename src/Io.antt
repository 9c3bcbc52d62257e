-- ===== src/Io.antt =====
-- The ports (chicken/device/driver/io/io.cpp): one handler for each name of a serial, an I2C or a GPIO
-- port, made when it is first asked for, and a new one for each web socket. A handler is known by its kind
-- and its place in the array of its kind.
pub mod Cache
mod Tests
use cooboc.Base.{
  ℕ, suc, ◌+◌, Bool, true, false, Option, none, some, List, [], ◌∷◌, ◌++◌, length, ltb,
  if◌then◌else◌,
}
use cooboc.Base.Texts.{same_text}

abbrev max_port_num : ℕ
max_port_num = 256

abbrev pub Name : Type 0
Name = List ℕ

-- The loop over the opened handlers: the place of the first with this name, from `i` on.
pub find_port : Name → ℕ → List Name → Option ℕ
find_port name i [] = none
find_port name i (n ∷ ns) =
    let rest = find_port name (suc i) ns in if same_text name n then some i else rest

-- `getSerialHandler`, `getIicHandler` and `getGpioHandler` alike, over the names of the handlers that
-- are open; `none` is a write outside the array.
pub get_handler : List Name → Name → Option (List Name × ℕ)
unfolding find_port
get_handler opened name = elim (find_port name 0 opened) [
  | some i ↦ some (opened, i)
  | none ↦
      if ltb (length opened) max_port_num then some (opened ++ (name ∷ []), length opened) else none
]

-- `Io`: the web sockets are counted only.
pub record Io : Type 0 where
  pub serial : List Name
  pub iic : List Name
  pub gpio : List Name
  pub websockets : ℕ

new_io : Io
new_io = record { serial = []; iic = []; gpio = []; websockets = 0 }

-- `getWebsocketHandler` makes a new handler for the same address too.
get_websocket_handler : Io → Option (Io × ℕ)
get_websocket_handler io =
    if ltb io.websockets max_port_num
    then some (record io { websockets = io.websockets + 1 }, io.websockets)
    else none

-- The names that are open after a sequence of requests of one kind.
pub after_requests : List Name → List Name → Option (List Name)
unfolding get_handler
after_requests opened [] = some opened
after_requests opened (n ∷ ns) = elim (get_handler opened n) [
  | none ↦ none
  | some r ↦ after_requests r.0 ns
]
