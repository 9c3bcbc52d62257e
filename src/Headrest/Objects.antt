-- ===== src/Headrest/Objects.antt =====
-- The objects between the loop of chicken/chicken.cpp and its two drivers: `Hr` (chicken/device/hr.cpp) and
-- `HrDisplay` (chicken/device/hr_display.cpp) with `WebsocketDriver`
-- (chicken/device/driver/websocket_driver.cpp). A pointer is `none` where it is NULL, and so is what a
-- call through NULL comes to.
pub mod Rounds
use cooboc.Base.{
  ℕ, ◌≡◌, refl, ◌∙◌, inl, inr, Bool, true, false, Bool-cases, Option, none, some, List, [], ◌∷◌,
  if◌then◌else◌,
}
use cooboc.Base.Int.{ℤ}
use cooboc.Base.Texts.{same_text}
use cooboc.HrDriver.{HrDriver}
use cooboc.HrDriver
use cooboc.Websocket.{WsHandler, Service}
use cooboc.Websocket
use cooboc.Headrest.{
  App, distance_text, obey, show_distances, take_command, round, move_up_text, move_down_text,
  stop_move_text, reset_text,
}

infixl 5 ◌>>=◌
abbrev ◌>>=◌ {ℓ κ} : {A : Type ℓ} {B : Type κ} → Option A → (A → Option B) → Option B
none >>= f = none
some a >>= f = f a

pub record Hr : Type 0 where
  pub hr_driver : Option HrDriver

new_hr : Hr
new_hr = record { hr_driver = none }

-- `init` makes the driver, which is given.
init_hr : Hr → HrDriver → Hr
init_hr h d = record { hr_driver = some d }

-- `hasNewData`, `getHrPosition`, and `getDistData` with what the loop reads through its pointer.
has_new_data : Hr → Option Bool
has_new_data h = do d ← h.hr_driver; some d.has_new_data

get_hr_position : Hr → Option ℤ
get_hr_position h = do d ← h.hr_driver; some d.hr_position

get_dist_data : Hr → Option (Hr × ℕ × ℕ)
get_dist_data h = do
  d ← h.hr_driver
  let (d', dist0, dist1) = HrDriver.get_dist_data d
  some (record { hr_driver = some d' }, dist0, dist1)

-- `moveUp`, `moveDown`, `stopMove` and `resetPosition`.
command : (HrDriver → HrDriver) → Hr → Option Hr
command f h = do d ← h.hr_driver; some (record { hr_driver = some (f d) })

pub record HrDisplay : Type 0 where
  pub websocket_driver : Option WsHandler
  pub server_address : Option (List ℕ)
  pub port : ℕ

set_server : HrDisplay → List ℕ → ℕ → HrDisplay
set_server s server_address port = record s { server_address = some server_address; port = port }

new_hr_display : List ℕ → ℕ → HrDisplay
unfolding set_server
new_hr_display server_address port =
    set_server (record { websocket_driver = none; server_address = none; port = 0 }) server_address
      port

-- `init`, with the handler that `Io` gives for the address.
init_display : HrDisplay → WsHandler → HrDisplay
init_display s w = elim s.server_address [
  | none ↦ s
  | some address ↦ record s { websocket_driver = some w }
]

send_distance : ℕ → HrDisplay → ℕ → ℕ → Service → Option HrDisplay
send_distance me s d0 d1 service = do
  w ← s.websocket_driver
  some (record s {
    websocket_driver = some (Websocket.send_text me w (distance_text d0 d1) service).0;
  })

has_new_message : HrDisplay → Option Bool
has_new_message s = do w ← s.websocket_driver; some w.has_new_message

get_received_message : HrDisplay → Option (HrDisplay × List ℕ)
get_received_message s = do
  w ← s.websocket_driver
  let (w', message) = Websocket.get_received_message w
  some (record s { websocket_driver = some w' }, message)

-- `DeviceManager::getHr`, the first time, and `DeviceManager::getHrDisplay`.
pub get_hr : HrDriver → Hr
unfolding new_hr init_hr
get_hr d = init_hr new_hr d

pub get_hr_display : List ℕ → ℕ → WsHandler → HrDisplay
unfolding new_hr_display set_server init_display
get_hr_display server_address port w =
    init_display (set_server (new_hr_display server_address port) server_address port) w

when : Bool → (Hr → Option Hr) → Hr → Option Hr
when test f h = if test then f h else some h

-- The four comparisons of the loop.
obey_hr : Hr → List ℕ → Option Hr
unfolding when command
obey_hr h message = do
  h1 ← when (same_text message move_up_text) (command HrDriver.move_up) h
  h2 ← when (same_text message move_down_text) (command HrDriver.move_down) h1
  h3 ← when (same_text message stop_move_text) (command HrDriver.stop_move) h2
  when (same_text message reset_text) (command HrDriver.reset_position) h3

show_new_data : ℕ → Hr → HrDisplay → Service → Option (Hr × HrDisplay)
unfolding get_hr_position get_dist_data send_distance
show_new_data me h s service = do
  position ← get_hr_position h
  (h', d0, d1) ← get_dist_data h
  s' ← send_distance me s d0 d1 service
  some (h', s')

obey_new_message : Hr → HrDisplay → Option (Hr × HrDisplay)
unfolding get_received_message obey_hr
obey_new_message h s = do
  (s1, message) ← get_received_message s
  (s2, printed) ← get_received_message s1
  h' ← obey_hr h message
  some (h', s2)

-- A round of the loop.
object_round : ℕ → Hr → HrDisplay → Service → Option (Hr × HrDisplay)
unfolding has_new_data has_new_message show_new_data obey_new_message
object_round me h s service = do
  new_data ← has_new_data h
  (h1, s1) ← (if new_data then show_new_data me h s service else some (h, s))
  new_message ← has_new_message s1
  if new_message then obey_new_message h1 s1 else some (h1, s1)

-- The loop, from what the device manager gives.
pub object_rounds : ℕ → Hr → HrDisplay → List Service → Option (Hr × HrDisplay)
unfolding object_round
object_rounds me h s [] = some (h, s)
object_rounds me h s (service ∷ services) = do
  (h1, s1) ← object_round me h s service
  object_rounds me h1 s1 services
