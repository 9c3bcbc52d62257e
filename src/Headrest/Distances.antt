-- ===== src/Headrest/Distances.antt =====
-- From the sensors of the board (arduino/hr/hr.ino) to the text on the web socket (chicken/chicken.cpp).
use cooboc.Base.{ℕ, ◌^◌, ◌<◌, ◌≡◌, refl, ap₂, ◌∙◌, true, false, some, List, [], ◌∷◌, ◌++◌, arith}
use cooboc.Base.Int.{signed16}
use cooboc.HrDriver.{HrDriver, read_data, get_dist_data}
use cooboc.HrDriver
use cooboc.Websocket.{Service, client_writeable, get_received_message}
use cooboc.Websocket.Handlers.{lookup_handler}
use cooboc.Websocket.Connection.{text_sent}
use cooboc.Firmware.{report}
use cooboc.Link.{Clock, stamp, IsTimely, IsWaiting, report_received}
use cooboc.Headrest.{
  App, round_step, read_step, run, step, round, show_distances, take_command, obey, distance_text,
}
use cooboc.Headrest.Commands.{then_round}
use cooboc.Headrest.Text.{read_distances, read_distances-distance_text}

-- A service call in which the socket takes the text.
abbrev pub writeable : Service
writeable = record { reasons = client_writeable ∷ []; failed = false }

obey_keeps :
    (d : HrDriver) (m : List ℕ)
    → ((obey d m).has_new_data ≡ d.has_new_data) × ((obey d m).hr_position ≡ d.hr_position)
unfolding obey HrDriver.move_up HrDriver.move_down HrDriver.stop_move HrDriver.reset_position
obey_keeps d m = ground arith

take_command_keeps :
    (a : App)
    → ((take_command a).display.written ≡ a.display.written)
      × ((take_command a).hr.has_new_data ≡ a.hr.has_new_data)
      × ((take_command a).hr.hr_position ≡ a.hr.hr_position)
unfolding take_command get_received_message
take_command_keeps a = ground (arith, obey_keeps a.hr a.display.received)

hr_position-show_distances :
    (me : ℕ) (a : App) (service : Service)
    → (show_distances me a service).hr.hr_position ≡ a.hr.hr_position
unfolding show_distances get_dist_data
hr_position-show_distances me a service = ground arith

show_new_data :
    (me : ℕ) (a : App)
    → a.hr.has_new_data ≡ true
    → a.display.is_good ≡ true
    → lookup_handler a.display.handler_map a.display.ctx ≡ some me
    → ((show_distances me a writeable).display.written
        ≡ a.display.written ++ (distance_text a.hr.dist0 a.hr.dist1 ∷ []))
      × ((show_distances me a writeable).hr.has_new_data ≡ false)
unfolding show_distances get_dist_data
show_new_data me a new good found =
    ground (arith, text_sent me a.display (distance_text a.hr.dist0 a.hr.dist1) good found)

-- A report of three 16-bit values by the board that reaches a waiting driver without a pause of more than 500 ms, and then
-- a round of the application whose good connection, with its handler in the table, takes the text: one text is written, from which
-- the board's two distances are read back, the data are no longer new, and the position is the board's as a
-- signed 16-bit number.
pub distances_shown :
    (me : ℕ) (a : App) (clock : Clock) (p d1 d2 : ℕ)
    → IsWaiting a.hr
    → IsTimely clock
    → p < 2 ^ 16
    → d1 < 2 ^ 16
    → d2 < 2 ^ 16
    → a.display.is_good ≡ true
    → lookup_handler a.display.handler_map a.display.ctx ≡ some me
    → (a' : App) × (t : List ℕ) × (run me a
          (read_step (stamp clock 0 (report p d1 d2)) ∷ round_step writeable ∷ [])
        ≡ some a')
      × (a'.display.written ≡ a.display.written ++ (t ∷ []))
      × (read_distances t ≡ some (d1, d2))
      × (a'.hr.has_new_data ≡ false)
      × (a'.hr.hr_position ≡ signed16 p)
unfolding step round
distances_shown me a clock p d1 d2 w h hp ha hb good found =
    let read = record a { hr = read_data a.hr (stamp clock 0 (report p d1 d2)) } in
    let shows = (report_received a.hr clock p d1 d2 w h hp ha hb).0 in
    let (written, old) = show_new_data me read shows.new_data good found in
    let kept = take_command_keeps (show_distances me read writeable) in
    (
      round me read writeable,
      distance_text read.hr.dist0 read.hr.dist1,
      then_round me a read (read_step (stamp clock 0 (report p d1 d2))) writeable refl,
      kept.0 ∙ written,
      read_distances-distance_text read.hr.dist0 read.hr.dist1
          ∙ ap₂ (λ x y. some (x, y)) shows.dist0_lem shows.dist1_lem,
      kept.1 ∙ old,
      kept.2 ∙ hr_position-show_distances me read writeable ∙ shows.position_lem,
    )
