-- ===== src/Imu/Tests.antt =====
-- The received attitude of chicken/device/virtual_imu.cpp at concrete times.
use cooboc.Base.{◌≡◌, refl, true, false, some, ◌-◌, ◌^◌}
use cooboc.Float.Sample.{whole}
use cooboc.Imu.{VirtualImu, ImuAttitude, update_attitude, is_in_service, get_attitude}
use cooboc.Imu.Service.{received_until_timeout, timeout_is_final}

abbrev received : ImuAttitude whole
received = record { pitch = 1; roll = 2; heading = 3 }

abbrev sensed : ImuAttitude whole
sensed = record { pitch = 4; roll = 5; heading = 6 }

abbrev device : VirtualImu whole
device = record { in_service = true; last_valid_data_time = 1000; attitude = received }

-- The clock comes round between the update and the question.
clock_round :
    (get_attitude whole (some (update_attitude whole device received (2 ^ 32 - 100))) sensed 400).1
    ≡ received
clock_round = received_until_timeout whole device received sensed (2 ^ 32 - 100) 400

timed_out : (is_in_service whole device 1501).1 ≡ false
unfolding is_in_service
timed_out = refl

out_for_good : (is_in_service whole (is_in_service whole device 1501).0 1200).1 ≡ false
out_for_good = timeout_is_final whole device 1501 1200 timed_out
