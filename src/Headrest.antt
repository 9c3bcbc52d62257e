-- ===== src/Headrest.antt =====
-- The head rest's application: the endless loop of `setupDeviceForFaurecia` (chicken/chicken.cpp)
-- over `Hr` (chicken/device/hr.cpp), which passes everything on to its driver, and `HrDisplay`
-- (chicken/device/hr_display.cpp), which passes it on to a web socket.
--
-- A round reads and calls in the order of the code. The driver's reading thread and the socket's
-- daemon change the same two objects; a step is a round, a chunk of bytes read, or a round of the
-- daemon, and the steps may come in any order.
pub mod Text
pub mod Commands
pub mod Distances
pub mod Startup
pub mod Circle
pub mod Objects
mod Tests
use cooboc.Base.{
  ℕ, zero, suc, ◌+◌, ◌*◌, ◌/◌, ◌%◌, Bool, true, false, ◌&&◌, Option, none, some, List, [], ◌∷◌,
  ◌++◌, ltb, ◌==◌, if◌then◌else◌,
}
use cooboc.Base.Texts.{same_text}
use cooboc.Modem.{Tick}
use cooboc.HrDriver.{HrDriver, read_data, get_dist_data}
use cooboc.HrDriver
use cooboc.Websocket.{WsHandler, Service, Attempt, send_text, get_received_message, daemon_round}

-- `%d` of a number that is not negative: the digits of `n`, with at most so many of them. A number
-- has no more digits than its own value and one.
pub digits : ℕ → ℕ → List ℕ
digits zero n = []
digits (suc more) n =
    let front = digits more (n / 10) in
    if ltb n 10 then (48 + n) ∷ [] else front ++ ((48 + n % 10) ∷ [])

pub decimal : ℕ → List ℕ
unfolding digits
decimal n = digits (suc n) n

-- {"dist0":
abbrev pub dist0_text : List ℕ
dist0_text = b'{' ∷ b'"' ∷ b'd' ∷ b'i' ∷ b's' ∷ b't' ∷ b'0' ∷ b'"' ∷ b':' ∷ []

-- , "dist1":
abbrev pub dist1_text : List ℕ
dist1_text = b',' ∷ b' ' ∷ b'"' ∷ b'd' ∷ b'i' ∷ b's' ∷ b't' ∷ b'1' ∷ b'"' ∷ b':' ∷ []

-- `HrDisplay::sendDistance`: the text that `sprintf` forms.
pub distance_text : ℕ → ℕ → List ℕ
unfolding decimal
distance_text d0 d1 = dist0_text ++ (decimal d0 ++ (dist1_text ++ (decimal d1 ++ (b'}' ∷ []))))

abbrev pub move_up_text : List ℕ
move_up_text = b'm' ∷ b'o' ∷ b'v' ∷ b'e' ∷ b'U' ∷ b'p' ∷ []

abbrev pub move_down_text : List ℕ
move_down_text = b'm' ∷ b'o' ∷ b'v' ∷ b'e' ∷ b'D' ∷ b'o' ∷ b'w' ∷ b'n' ∷ []

abbrev pub stop_move_text : List ℕ
stop_move_text = b's' ∷ b't' ∷ b'o' ∷ b'p' ∷ b'M' ∷ b'o' ∷ b'v' ∷ b'e' ∷ []

abbrev pub reset_text : List ℕ
reset_text = b'r' ∷ b'e' ∷ b's' ∷ b'e' ∷ b't' ∷ []

-- The two objects; `me` is the number of the web socket's handler.
pub record App : Type 0 where
  pub hr : HrDriver
  pub display : WsHandler

-- The four comparisons, one after the other.
pub obey : HrDriver → List ℕ → HrDriver
unfolding same_text
obey d message =
    let d1 = if same_text message move_up_text then HrDriver.move_up d else d in
    let d2 = if same_text message move_down_text then HrDriver.move_down d1 else d1 in
    let d3 = if same_text message stop_move_text then HrDriver.stop_move d2 else d2 in
    if same_text message reset_text then HrDriver.reset_position d3 else d3

-- The first `if` of the loop. `service` is what the library does when the text is sent.
pub show_distances : ℕ → App → Service → App
unfolding distance_text
show_distances me a service =
    if a.hr.has_new_data
    then (let (hr', d0, d1) = get_dist_data a.hr in
        record { hr = hr'; display = (send_text me a.display (distance_text d0 d1) service).0 })
    else a

-- The second `if`: the message is fetched twice.
pub take_command : App → App
unfolding obey
take_command a =
    if a.display.has_new_message
    then (let (display', message) = get_received_message a.display in
        let (display'', printed) = get_received_message display' in
        record { hr = obey a.hr message; display = display'' })
    else a

pub round : ℕ → App → Service → App
unfolding show_distances take_command
round me a service = take_command (show_distances me a service)

pub data Step : Type 0 where
  round_step : Service → Step
  read_step : List Tick → Step
  daemon_step : Attempt → Step

-- `none` where the daemon writes outside its table.
pub step : ℕ → App → Step → Option App
unfolding round
step me a (round_step service) = some (round me a service)
step me a (read_step bytes) = some (record a { hr = read_data a.hr bytes })
step me a (daemon_step attempt) = elim (daemon_round me a.display attempt) [
  | none ↦ none
  | some w ↦ some (record a { display = w })
]

pub run : ℕ → App → List Step → Option App
unfolding step
run me a [] = some a
run me a (s ∷ ss) = elim (step me a s) [ none ↦ none | some a' ↦ run me a' ss ]

abbrev faurecia_text : List ℕ
faurecia_text = b'f' ∷ b'a' ∷ b'u' ∷ b'r' ∷ b'e' ∷ b'c' ∷ b'i' ∷ b'a' ∷ b'-' ∷ b'h' ∷ b'r' ∷ []

-- `main`, with the application that the configuration names: for any other it ends at once.
main : ℕ → List ℕ → App → List Step → Option App
unfolding run same_text
main me application a ss = if same_text application faurecia_text then run me a ss else some a
