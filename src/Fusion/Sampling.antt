-- ===== src/Fusion/Sampling.antt =====
-- What chicken/device/imu.cpp makes of the numbers of chicken/device/driver/bmx055_driver.cpp.
use cooboc.Base.{◌+◌, ◌*◌, ◌/◌, ◌≡◌, ap}
use cooboc.Base.Int.{ℤ, pos, signed16}
use cooboc.Float.{Float}
use cooboc.Filters.{fol_filter}
use cooboc.Iic.{Bus}
use cooboc.Bmx055.{Axes, AxisReads, read_acc}
use cooboc.Bmx055.Values.{signed12}
use cooboc.Bmx055.Reads.{AllRead, byte, axes_read}
use cooboc.Fusion.{
  Imu, Sample, turn_rates, update, point, fix_data, read_data, fusion_attitude, fusion_magnet,
}

module _ (F : Float) where
  open F use {Double, add, sub, mul, div, neg, of_int, decimal}

  -- The filter of an acceleration axis, of a 12-bit number in units of 1/128 g.
  smoothed : Double → Double → ℤ → Double
  smoothed q last raw =
      add (mul (sub (of_int (pos 1)) q) last) (mul q (div (of_int raw) (decimal 1280 1)))

  abbrev measured : AxisReads → ℤ
  measured r = signed12 (byte r.second * 16 + byte r.first / 16)

  -- If all registers of the acceleration and of the turn came, an update leaves the acceleration
  -- smoothed by each axis's own filter, with y turned round, and the rates of the turn from this
  -- sample alone, with their offsets and scales.
  sample_measured :
      (i : Imu F) (b : Bus) (s : Sample)
      → AllRead s.acc
      → AllRead s.gyro
      → let i' = (update F i b s).0 in
        (i'.acc
          ≡ point F
              (smoothed i.ax_filter.q i.ax_filter.last_value (measured s.acc.x))
              (neg (smoothed i.ay_filter.q i.ay_filter.last_value (measured s.acc.y)))
              (smoothed i.az_filter.q i.az_filter.last_value (measured s.acc.z)))
        × (i'.turn
            ≡ point F
                (mul
                  (mul
                    (add
                      (of_int (signed16 (byte s.gyro.x.first * 256 + byte s.gyro.x.second)))
                      (decimal 7832 3))
                    (neg (decimal 1102313212 9)))
                  (decimal 1 5))
                (mul
                  (mul
                    (of_int (signed16 (byte s.gyro.y.first * 256 + byte s.gyro.y.second)))
                    (decimal 1102313212 9))
                  (decimal 1 5))
                (mul
                  (mul
                    (add
                      (of_int (signed16 (byte s.gyro.z.first * 256 + byte s.gyro.z.second)))
                      (neg (decimal 47933333 7)))
                    (neg (decimal 1064946662 9)))
                  (decimal 1 5)))
  unfolding update read_data fix_data fusion_attitude fusion_magnet turn_rates smoothed fol_filter
  sample_measured i b s ha hg =
      let gyro_same = (axes_read (read_acc b s.acc).0 s.gyro hg).0 in
      let acc_same = (axes_read b s.acc ha).1 in
      (
        ap
            (λ (r : Axes ℤ).
              point F (smoothed i.ax_filter.q i.ax_filter.last_value r.x)
                (neg (smoothed i.ay_filter.q i.ay_filter.last_value r.y))
                (smoothed i.az_filter.q i.az_filter.last_value r.z))
            acc_same,
        ap (λ r. turn_rates F r) gyro_same,
      )
