-- ===== src/Servo/Threads/Tests.antt =====
-- A run of the threads of chicken/device/driver/serial_servo_driver.cpp through the destructor.
use cooboc.Base.{refl, List, [], ◌∷◌, ◌++◌, arith}
use cooboc.Servo.{
  output_mode_continuos, write_servos, emit_signal, new_servo_driver, set_output_mode, fetch_servos,
}
use cooboc.Servo.Tests.{single}
use cooboc.Servo.Threads.{
  Move, destroy, read, write, set_mode, join, new_threads, steps, step, read_step, write_step,
  destroy_step, owner_call,
}
use cooboc.Servo.Threads.Progress.{read_chances, write_chances}
use cooboc.Servo.Threads.Stopping.{HasStopped, destructor_stops_threads}

-- Both threads are about to make a call when the flags are cleared.
abbrev interrupted : List Move
interrupted = set_mode output_mode_continuos ∷ read 1 [] ∷ write 1 ∷ destroy ∷ destroy ∷ []

-- They make it, wait and end; a reading of the clock in between lets none of them out.
abbrev finishing : List Move
finishing =
    write 20
    ∷ read 5 ((35 ∷ []) ∷ [])
    ∷ read 7 []
    ∷ destroy
    ∷ read 10 []
    ∷ write 40
    ∷ read 15 []
    ∷ write 60
    ∷ []

destructor_stops_threads_example :
    HasStopped single (steps single interrupted (new_threads single 0 5)) (
      steps single
        (interrupted ++ (finishing ++ (destroy ∷ destroy ∷ [])))
        (new_threads single 0 5))
unfolding steps step read_step write_step destroy_step owner_call join new_threads write_servos
    emit_signal new_servo_driver set_output_mode fetch_servos read_chances write_chances
destructor_stops_threads_example =
    destructor_stops_threads single 0 5 interrupted finishing refl (omega arith) (omega arith)
