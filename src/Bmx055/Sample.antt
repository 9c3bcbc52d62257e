-- ===== src/Bmx055/Sample.antt =====
-- The calls of `readAcc`, `readGyro` and `readMag` (chicken/device/driver/bmx055_driver.cpp) that
-- make a sample.
use cooboc.Base.{◌≡◌, refl, sym, ap, ◌∙◌, List, [], ◌∷◌, ◌++◌}
use cooboc.Base.Int.{ℤ}
use cooboc.Iic.{Bus, Answer, read_u8, read_s8, read_s16_le}
use cooboc.Iic.Transactions.{
  Request, read_request, served, perform, perform_all, wanted_all, AllAccepted, start_bus,
}
use cooboc.Iic.Served.{perform_all-served, perform_all-append}
use cooboc.Bmx055.{Axes, AxisReads, read_acc, read_acc_axis, read_gyro, read_gyro_axis, read_mag}

-- The registers of the acceleration (device 0x18), of the turn (0x68) and of the field (0x10).
sample_calls : Axes AxisReads → Axes AxisReads → Axes Answer → List (Request × Answer)
sample_calls acc gyro mag =
    (read_request 1 0x18 2, acc.x.first)
    ∷ (read_request 1 0x18 3, acc.x.second)
    ∷ (read_request 1 0x18 4, acc.y.first)
    ∷ (read_request 1 0x18 5, acc.y.second)
    ∷ (read_request 1 0x18 6, acc.z.first)
    ∷ (read_request 1 0x18 7, acc.z.second)
    ∷ (read_request 1 0x68 3, gyro.x.first)
    ∷ (read_request 1 0x68 2, gyro.x.second)
    ∷ (read_request 1 0x68 5, gyro.y.first)
    ∷ (read_request 1 0x68 4, gyro.y.second)
    ∷ (read_request 1 0x68 7, gyro.z.first)
    ∷ (read_request 1 0x68 6, gyro.z.second)
    ∷ (read_request 2 0x10 0x42, mag.x)
    ∷ (read_request 2 0x10 0x44, mag.y)
    ∷ (read_request 2 0x10 0x46, mag.z)
    ∷ []

-- After any calls on the bus, of this driver or another, the reads of a sample make these fifteen
-- reads of registers, in this order and each to its device, if every selection of a device succeeds,
-- and whatever else is answered.
sample_calls_made :
    (history : List (Request × Answer)) (acc gyro : Axes AxisReads) (value : Axes ℤ)
    (mag : Axes Answer)
    → AllAccepted start_bus (history ++ sample_calls acc gyro mag)
    → let b1 = (read_acc (perform_all start_bus history) acc).0 in
      let b2 = (read_gyro b1 gyro).0 in
      served 0 (read_mag b2 value mag).0.effects ≡ wanted_all (history ++ sample_calls acc gyro mag)
sample_calls_made history acc gyro value mag h =
    ap (λ b. served 0 b.effects)
      (same (perform_all start_bus history)
        ∙ sym (perform_all-append start_bus history (sample_calls acc gyro mag)))
    ∙ perform_all-served (history ++ sample_calls acc gyro mag) h
  where
    same :
        (b : Bus)
        → (read_mag (read_gyro (read_acc b acc).0 gyro).0 value mag).0
          ≡ perform_all b (sample_calls acc gyro mag)
    same b =
        unfold read_acc read_acc_axis read_gyro read_gyro_axis read_mag read_u8 read_s8 read_s16_le
          perform_all perform sample_calls in
        refl
