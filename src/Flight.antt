-- ===== src/Flight.antt =====
-- The flight side put together, as `setupController` of chicken/chicken.cpp does: the status controller,
-- its two navigators, the attitude controller and the servo driver. Each has a thread of its own,
-- and a step is one round of one of them, or of the main thread, which reads new gains for ever.
--
-- What `ADI` gives is an argument of each step. The calls that a round of the status controller makes
-- on a navigator are its log, and each is carried out on the objects here.
pub mod Invariant
pub mod Manual
pub mod Automatic
pub mod Sample
pub mod Unasked
mod Tests
use cooboc.Base.{ℕ, Bool, true, false, ◌||◌, Option, none, some, List, [], ◌∷◌, ◌==◌, if◌then◌else◌}
use cooboc.Base.Int.{pos_part}
use cooboc.Float.{Float}
use cooboc.Imu.{ImuAttitude}
use cooboc.Servo.{
  Mavlink, ServoSignal, ServoDriver, set_override_servo_signal, fetch_servos, write_servos,
}
use cooboc.Status.{Status, Callback, on_takeover, on_release, navigates}
use cooboc.Status
use cooboc.Attitude.{Controller, Navigator}
use cooboc.Attitude

-- The two navigators in the table of the status controller.
abbrev pub manully_navigator : ℕ
manully_navigator = 1

abbrev pub attitude_navigator : ℕ
attitude_navigator = 2

-- The status controller after its three calls of `setNavigator`, no navigator being enabled.
setup_status : Status
unfolding Status.new_status Status.set_navigator
setup_status =
    let s0 = Status.new_status (λ id. false) in
    let s1 = Status.set_navigator s0 Status.flight_status_default attitude_navigator in
    let s2 = Status.set_navigator s1 Status.flight_status_manully manully_navigator in
    Status.set_navigator s2 Status.flight_status_attitude attitude_navigator

-- Is `onTakeover` of the attitude navigator among the calls?
unfoldable pub takes_over : List Callback → Bool
takes_over [] = false
takes_over (on_takeover id ∷ calls) = id == attitude_navigator || takes_over calls
takes_over (on_release id ∷ calls) = takes_over calls

module _ (F : Float) (L : Mavlink) where
  pub record Flight : Type 0 where
    pub status : Status
    pub navigator : Navigator F
    pub controller : Controller F
    pub servo : ServoDriver L

  -- `setupController`, over the servo driver as it is.
  pub setup_controller : ServoDriver L → Flight
  unfolding setup_status Attitude.new_navigator Attitude.new_controller
  setup_controller d = record {
    status = setup_status;
    navigator = Attitude.new_navigator F;
    controller = Attitude.new_controller F;
    servo = d;
  }

  -- One call on a navigator; those of `ManullyNavigator` do nothing.
  carry_out : ImuAttitude F → ImuAttitude F → Flight → Callback → Flight
  carry_out a current f (on_takeover id) =
      let (n, c) = Attitude.on_takeover F f.controller f.servo.raw_servo_signal a current in
      if id == attitude_navigator then record f { navigator = n; controller = c } else f
  carry_out a current f (on_release id) =
      if id == attitude_navigator
      then record f { controller = Attitude.on_release F f.controller }
      else f

  carry_out_all : ImuAttitude F → ImuAttitude F → Flight → List Callback → Flight
  unfolding carry_out
  carry_out_all a current f [] = f
  carry_out_all a current f (c ∷ cs) = carry_out_all a current (carry_out a current f c) cs

  -- `StatusController::work` on the raw signal's channel.
  pub status_work : ImuAttitude F → ImuAttitude F → Flight → Flight
  unfolding carry_out_all
  status_work a current f =
      let s =
        Status.work (record (f.status) { log = [] }) (pos_part f.servo.raw_servo_signal.status) in
      carry_out_all a current (record f { status = s }) s.log

  -- `INavigator::work` of the attitude navigator.
  attitude_navigator_work : ImuAttitude F → Flight → Flight
  attitude_navigator_work a f =
      let (n, c) = Attitude.navigate F f.navigator f.controller f.servo.raw_servo_signal a in
      if navigates f.status attitude_navigator
      then record f { navigator = n; controller = c }
      else f

  -- `INavigator::work` of the manual navigator: `ManullyNavigator::navigate` passes the pilot's signal on.
  manully_navigator_work : Flight → Flight
  manully_navigator_work f =
      if navigates f.status manully_navigator
      then record f { servo = set_override_servo_signal L f.servo f.servo.raw_servo_signal }
      else f

  write_if : ServoDriver L → Option ServoSignal → ServoDriver L
  write_if d none = d
  write_if d (some s) = set_override_servo_signal L d s

  -- `AttitudeController::work`
  controller_work : ImuAttitude F → Flight → Flight
  unfolding write_if
  controller_work a f =
      let (c, written) = Attitude.work F f.controller f.servo.raw_servo_signal a in
      record f { controller = c; servo = write_if f.servo written }

  pub data Step : Type 0 where
    status_step : ImuAttitude F → ImuAttitude F → Step
    attitude_step : ImuAttitude F → Step
    manully_step : Step
    controller_step : ImuAttitude F → Step
    fetch_step : List (List ℕ) → Step
    write_step : Step
    tunning_step : F.Double → F.Double → F.Double → Step

  pub step : Flight → Step → Flight
  unfolding status_work attitude_navigator_work manully_navigator_work controller_work
  step f (status_step a current) = status_work a current f
  step f (attitude_step a) = attitude_navigator_work a f
  step f manully_step = manully_navigator_work f
  step f (controller_step a) = controller_work a f
  step f (fetch_step chunks) = record f { servo = fetch_servos L f.servo chunks }
  step f write_step = record f { servo = write_servos L f.servo }
  step f (tunning_step p i d) = record f {
    controller = Attitude.set_controller_tunning F f.controller p i d;
  }

  pub run : Flight → List Step → Flight
  unfolding step
  run f [] = f
  run f (s ∷ ss) = run (step f s) ss
