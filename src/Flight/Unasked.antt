-- ===== src/Flight/Unasked.antt =====
-- The rounds of the threads of chicken/chicken.cpp that do not ask `ADI` for the attitude.
use cooboc.Base.{◌≡◌, refl, ap, Bool, true, false, ◌||◌, Option, List, [], ◌∷◌, ◌==◌}
use cooboc.Base.Int.{pos_part}
use cooboc.Float.{Float}
use cooboc.Imu.{ImuAttitude}
use cooboc.Servo.{Mavlink, ServoSignal}
use cooboc.Status.{Callback, on_takeover, on_release, navigates}
use cooboc.Status
use cooboc.Attitude.{Controller}
use cooboc.Attitude
use cooboc.Flight.{
  Flight, attitude_navigator, takes_over, status_step, attitude_step, controller_step,
}
use cooboc.Flight

-- Nothing of a disjunction that fails holds.
none_of : (b c : Bool) → (b || c) ≡ false → (b ≡ false) × (c ≡ false)
none_of true c h = absurd (cc)
none_of false c h = (refl, h)

module _ (F : Float) (L : Mavlink) where
  carry_out_unasked :
      (a current a' current' : ImuAttitude F) (calls : List Callback) (f : Flight F L)
      → takes_over calls ≡ false
      → Flight.carry_out_all F L a current f calls ≡ Flight.carry_out_all F L a' current' f calls
  unfolding Flight.carry_out_all Flight.carry_out takes_over
  carry_out_unasked a current a' current' [] f h = refl
  carry_out_unasked a current a' current' (on_takeover id ∷ calls) f h =
      let (other, rest) = none_of (id == attitude_navigator) (takes_over calls) h in
      simp other (carry_out_unasked a current a' current' calls f rest)
  carry_out_unasked a current a' current' (on_release id ∷ calls) f h =
      carry_out_unasked a current a' current' calls
        (Flight.carry_out F L a current f (on_release id)) h

  pub status_unasked :
      (a current a' current' : ImuAttitude F) (f : Flight F L)
      → takes_over
          (Status.work
            (record (f.status) { log = [] })
            (pos_part f.servo.raw_servo_signal.status)).log
        ≡ false
      → Flight.step F L f (status_step a current) ≡ Flight.step F L f (status_step a' current')
  unfolding Flight.step Flight.status_work
  status_unasked a current a' current' f h = carry_out_unasked a current a' current' _ _ h

  pub attitude_unasked :
      (a a' : ImuAttitude F) (f : Flight F L)
      → navigates f.status attitude_navigator ≡ false
      → Flight.step F L f (attitude_step a) ≡ Flight.step F L f (attitude_step a')
  unfolding Flight.step Flight.attitude_navigator_work
  attitude_unasked a a' f h = rw h refl

  work_unasked :
      (c : Controller F) (signal : ServoSignal) (a a' : ImuAttitude F)
      → c.is_enabled ≡ false
      → Attitude.work F c signal a ≡ Attitude.work F c signal a'
  unfolding Attitude.work
  work_unasked c signal a a' h = simp h refl

  pub controller_unasked :
      (a a' : ImuAttitude F) (f : Flight F L)
      → f.controller.is_enabled ≡ false
      → Flight.step F L f (controller_step a) ≡ Flight.step F L f (controller_step a')
  unfolding Flight.step Flight.controller_work
  controller_unasked a a' f h =
      ap
        (λ (p : Controller F × Option ServoSignal). record f {
          controller = p.0;
          servo = Flight.write_if F L f.servo p.1;
        })
        (work_unasked f.controller f.servo.raw_servo_signal a a' h)
