-- ===== src/Headrest/Objects/Rounds.antt =====
-- The loop of chicken/chicken.cpp through `Hr` and `HrDisplay` is the loop on the two drivers.
use cooboc.Base.{ℕ, ◌≡◌, refl, Bool, true, false, some, List, [], ◌∷◌, if◌then◌else◌, map}
use cooboc.HrDriver.{HrDriver}
use cooboc.Websocket.{WsHandler, Service}
use cooboc.Headrest.{App, obey, show_distances, take_command, round, run, step, round_step}
use cooboc.Headrest.Objects.{
  Hr, HrDisplay, when, command, get_hr, get_hr_display, obey_hr, show_new_data, obey_new_message,
  has_new_data, has_new_message, get_received_message, get_dist_data, get_hr_position,
  send_distance, object_round, object_rounds,
}

-- The two objects over the two drivers.
pub hr_of : HrDriver → Hr
hr_of d = record { hr_driver = some d }

pub display_of : List ℕ → ℕ → WsHandler → HrDisplay
display_of address port w = record {
  websocket_driver = some w;
  server_address = some address;
  port = port;
}

when-command :
    (test : Bool) (f : HrDriver → HrDriver) (d : HrDriver)
    → when test (command f) (hr_of d) ≡ some (hr_of (if test then f d else d))
unfolding when command hr_of
when-command true f d = refl
when-command false f d = refl

obey_hr_lem : (d : HrDriver) (m : List ℕ) → obey_hr (hr_of d) m ≡ some (hr_of (obey d m))
unfolding obey_hr obey
obey_hr_lem d m = rw (when-command, when-command, when-command, when-command)

module _ (address : List ℕ) (port : ℕ) where
  -- What an application is over the objects.
  pub objects : App → Hr × HrDisplay
  objects a = (hr_of a.hr, display_of address port a.display)

  shown :
      (me : ℕ) (a : App) (service : Service) (new : Bool)
      → a.hr.has_new_data ≡ new
      → (if new
          then show_new_data me (hr_of a.hr) (display_of address port a.display) service
          else some (objects a))
        ≡ some (objects (show_distances me a service))
  unfolding show_new_data show_distances get_hr_position get_dist_data send_distance objects hr_of
      display_of
  shown me a service true e = rw e
  shown me a service false e = rw e

  obeyed :
      (a : App) (new : Bool)
      → a.display.has_new_message ≡ new
      → (if new
          then obey_new_message (hr_of a.hr) (display_of address port a.display)
          else some (objects a))
        ≡ some (objects (take_command a))
  unfolding obey_new_message take_command get_received_message objects display_of
  obeyed a true e = rw (e, obey_hr_lem)
  obeyed a false e = rw e

  object_round_lem :
      (me : ℕ) (a : App) (service : Service)
      → object_round me (hr_of a.hr) (display_of address port a.display) service
        ≡ some (objects (round me a service))
  unfolding object_round has_new_data has_new_message round hr_of display_of objects
  object_round_lem me a service =
      rw
        (
          shown me a service a.hr.has_new_data refl,
          obeyed (show_distances me a service) (show_distances me a service).display.has_new_message
              refl,
        )
        refl

  rounds_lem :
      (me : ℕ) (a : App) (services : List Service)
      → (a' : App) × (run me a (map round_step services) ≡ some a')
        × (object_rounds me (hr_of a.hr) (display_of address port a.display) services
            ≡ some (objects a'))
  unfolding object_rounds run step objects
  rounds_lem me a [] = (a, refl, refl)
  rounds_lem me a (service ∷ services) =
      let (a', ran, over) = rounds_lem me (round me a service) services in
      (a', ran, rw (object_round_lem me a service) over)

  -- From the objects that `getHr` and `getHrDisplay` give over any two drivers, any number of rounds of
  -- the loop goes through no NULL pointer, and ends with the objects over the two drivers to which as many
  -- rounds on the drivers themselves come.
  pub object_rounds_lem :
      (me : ℕ) (d : HrDriver) (w : WsHandler) (services : List Service)
      → (a' : App) × (run me (record { hr = d; display = w }) (map round_step services) ≡ some a')
        × (object_rounds me (get_hr d) (get_hr_display address port w) services ≡ some (objects a'))
  unfolding get_hr get_hr_display hr_of display_of
  object_rounds_lem me d w services = rounds_lem me (record { hr = d; display = w }) services
