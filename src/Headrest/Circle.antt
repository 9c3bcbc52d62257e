-- ===== src/Headrest/Circle.antt =====
-- From the display (chicken/chicken.cpp) to the board (arduino/hr/hr.ino) and back.
use cooboc.Base.{ℕ, ◌^◌, ◌<◌, ◌≡◌, refl, ap, ◌∙◌, Bool, true, false, some, List, [], ◌∷◌, ◌++◌}
use cooboc.Base.Int.{signed16}
use cooboc.Websocket.{Service, status_connected, get_received_message}
use cooboc.Websocket.Handlers.{lookup_handler}
use cooboc.Firmware.{Moving, Sketch, Round, report, loop}
use cooboc.Firmware.Commanded.{command_byte, moved, moved-lt, loop_commanded}
use cooboc.Link.{Clock, stamp, IsTimely, IsWaiting}
use cooboc.Headrest.{
  App, read_step, round_step, daemon_step, run, round, show_distances, take_command,
}
use cooboc.Headrest.Text.{read_distances}
use cooboc.Headrest.Commands.{text, message, told_by_daemon, then_round, obey-text}
use cooboc.Headrest.Distances.{writeable, distances_shown}

-- A command has come.
told : App → Moving → App
told a c = record a { display = record (a.display) { received = text c; has_new_message = true } }

-- It was passed on to the board.
passed_on : App → Moving → App
passed_on a c = record {
  hr = record (a.hr) { sent = a.hr.sent ++ (command_byte c ∷ []) };
  display = record (a.display) { received = text c; has_new_message = false };
}

round-told :
    (me : ℕ) (a : App) (c : Moving) (service : Service)
    → a.hr.has_new_data ≡ false
    → round me (told a c) service ≡ passed_on a c
unfolding round show_distances take_command get_received_message told passed_on
round-told me a c service quiet = rw (quiet, obey-text)

-- A display's motion command goes round, all numbers having 16 bits: through the socket of a
-- connected and good display, its handler in the table, and a round of the application that
-- finds no new data, to the serial line as one byte; in the board's next round, which reads that
-- byte alone, to a movement by one, up or down, or to the bottom position or none, as the limit
-- switches read, with a report of the new position; and if that report reaches the waiting
-- driver without a pause of more than 500 ms, in another round back to the display: the driver
-- has the position as a signed 16-bit number, and the one text that is written is read back as
-- the board's two distances.
pub command_goes_round :
    (me : ℕ) (a : App) (c : Moving) (service : Service) (s : Sketch) (top bottom : Bool)
    (more : List Bool) (clock : Clock) (d1 d2 : ℕ)
    → a.display.ws_status ≡ status_connected
    → a.display.is_good ≡ true
    → lookup_handler a.display.handler_map a.display.ctx ≡ some me
    → a.hr.has_new_data ≡ false
    → IsWaiting a.hr
    → IsTimely clock
    → s.position < 2 ^ 16
    → d1 < 2 ^ 16
    → d2 < 2 ^ 16
    → (a1 a2 : App) × (r : Round) × (bytes t : List ℕ) × (run me a
          (daemon_step (message (text c)) ∷ round_step service ∷ [])
        ≡ some a1)
      × (a1.hr.sent ≡ a.hr.sent ++ (command_byte c ∷ []))
      × (loop s (command_byte c ∷ []) top (bottom ∷ more) d1 d2 ≡ some (r, bytes))
      × (r.sketch.position ≡ moved c top bottom s.position)
      × (run me a1 (read_step (stamp clock 0 bytes) ∷ round_step writeable ∷ []) ≡ some a2)
      × (a2.hr.hr_position ≡ signed16 (moved c top bottom s.position))
      × (a2.display.written ≡ a.display.written ++ (t ∷ []))
      × (read_distances t ≡ some (d1, d2))
unfolding passed_on
command_goes_round me a c service s top bottom more clock d1 d2 on good found quiet w timely hp h1
      h2 =
    let (r, ended, at) = loop_commanded s c top bottom more d1 d2 in
    let (a2, t, shown, written, back, old, position) =
      distances_shown me (passed_on a c) clock (moved c top bottom s.position) d1 d2
        (record { unlocked = w.unlocked; storage = w.storage }) timely
        (moved-lt c top bottom s.position hp) h1 h2 good found in
    (
      passed_on a c,
      a2,
      r,
      report (moved c top bottom s.position) d1 d2,
      t,
      then_round me a (told a c) (daemon_step (message (text c))) service
            (unfold told in told_by_daemon me a c on found)
          ∙ ap some (round-told me a c service quiet),
      refl,
      ended,
      at,
      shown,
      position,
      written,
      back,
    )
