-- ===== src/Fusion.antt =====
-- The fusion of the sensors into an attitude: `Imu` (chicken/device/imu.cpp) over an abstract
-- `double`.
mod Vectors
pub mod Gyro
pub mod Sampling
pub mod Lost
mod Tests
unfoldable pub use Vectors.*
use cooboc.Base.{ℕ, Bool, true, false, List, [], ◌∷◌, not, if◌then◌else◌}
use cooboc.Base.Int.{ℤ, pos, negsuc}
use cooboc.Float.{Float}
use cooboc.Util.{Point3D, pi, project_on_plane, dot_product, cross_product, absolute}
use cooboc.Filters.{FolFilter, new_fol_filter, fol_filter}
use cooboc.Imu.{ImuAttitude}
use cooboc.Iic.{Bus, Answer}
use cooboc.Bmx055.{Axes, AxisReads, read_acc, read_gyro, read_mag}

-- What the bus answers to the reads of one round, with what the drivers' variables hold before.
pub record Sample : Type 0 where
  pub acc : Axes AxisReads
  pub gyro : Axes AxisReads
  pub mag : Axes Answer

module _ (F : Float) where
  open F use {Double, div, neg, of_int, decimal}

  pub record Imu : Type 0 where
    pub raw_acc : Axes ℤ
    pub raw_gyro : Axes ℤ
    pub raw_mag_value : Axes ℤ
    pub acc : Point3D F
    pub turn : Point3D F
    pub est_magnet : Point3D F
    pub est : Point3D F
    pub pitch : Double
    pub roll : Double
    pub heading : Double
    pub ax_filter : FolFilter F
    pub ay_filter : FolFilter F
    pub az_filter : FolFilter F

  -- The constructor, without the driver; 0.0 and 1.0 are written with a point.
  pub new_imu : Imu
  new_imu =
      let zero' = decimal 0 1 in
      let one' = decimal 10 1 in
      record {
        raw_acc = record { x = pos 0; y = pos 0; z = pos 1 };
        raw_gyro = record { x = pos 0; y = pos 0; z = pos 0 };
        raw_mag_value = record { x = pos 0; y = pos 0; z = pos 0 };
        acc = point F zero' zero' one';
        turn = point F zero' zero' zero';
        est_magnet = point F one' zero' zero';
        est = point F zero' zero' one';
        pitch = zero';
        roll = zero';
        heading = zero';
        ax_filter = new_fol_filter F (decimal 15 2);
        ay_filter = new_fol_filter F (decimal 15 2);
        az_filter = new_fol_filter F (decimal 15 2);
      }

  -- `getAttitude`
  pub get_attitude : Imu → ImuAttitude F
  get_attitude i = record { pitch = i.pitch; roll = i.roll; heading = i.heading }

  -- What the three reads return is not used.
  pub read_data : Imu → Bus → Sample → Imu × Bus
  read_data i b s =
      let (b1, acc, acc_ok) = read_acc b s.acc in
      let (b2, gyro, gyro_ok) = read_gyro b1 s.gyro in
      let (b3, mag, mag_ok) = read_mag b2 i.raw_mag_value s.mag in
      (record i { raw_acc = acc; raw_gyro = gyro; raw_mag_value = mag }, b3)

  pub fix_data : Imu → Imu
  unfolding turn_rates
  fix_data i =
      let (fx, x) = fol_filter F i.ax_filter (div (of_int i.raw_acc.x) (decimal 1280 1)) in
      let (fy, y) = fol_filter F i.ay_filter (div (of_int i.raw_acc.y) (decimal 1280 1)) in
      let (fz, z) = fol_filter F i.az_filter (div (of_int i.raw_acc.z) (decimal 1280 1)) in
      record i {
        acc = point F x (neg y) z;
        turn = turn_rates F i.raw_gyro;
        ax_filter = fx;
        ay_filter = fy;
        az_filter = fz;
      }

  pub iterate_gyro_attitude : Imu → Point3D F
  iterate_gyro_attitude i = turned F i.est i.turn

  pub iterate_gyro_magnet : Imu → Point3D F
  iterate_gyro_magnet i = turned F i.est_magnet i.turn

  pub fusion_attitude : Imu → Imu
  unfolding normalized iterate_gyro_attitude confidence fused pitch_of roll_of
  fusion_attitude i =
      let na = normalized F i.acc in
      let ge = normalized F (iterate_gyro_attitude i) in
      let est = fused F (confidence F i.acc) na ge in
      record i { est = est; pitch = pitch_of F est; roll = roll_of F est }

  pub fusion_magnet : Imu → Imu
  unfolding normalized iterate_gyro_magnet heading_of
  fusion_magnet i =
      let est_magnet = normalized F (iterate_gyro_magnet i) in
      record i { est_magnet = est_magnet; heading = heading_of F i.est est_magnet }

  pub update : Imu → Bus → Sample → Imu × Bus
  unfolding read_data fix_data fusion_attitude fusion_magnet
  update i b s =
      let (i', b') = read_data i b s in (fusion_magnet (fusion_attitude (fix_data i')), b')

  -- The rounds of the thread that updates.
  pub updates : Imu → Bus → List Sample → Imu × Bus
  unfolding update
  updates i b [] = (i, b)
  updates i b (s ∷ ss) = let (i', b') = update i b s in updates i' b' ss
