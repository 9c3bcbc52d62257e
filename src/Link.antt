-- ===== src/Link.antt =====
-- The serial link from the sensor board to the driver: what `loop` of arduino/hr/hr.ino writes is
-- what `readData` of chicken/device/driver/hr_driver.cpp understands. The line is taken to deliver
-- every byte, in order.
mod Tests
use cooboc.Base.{
  ℕ, zero, suc, ◌+◌, ◌*◌, ◌/◌, ◌%◌, ◌^◌, ◌≤◌, ◌<◌, ◌≡◌, ◌≢◌, refl, ap, ◌∙◌, All, Bool, true, false,
  List, [], ◌∷◌, ◌++◌, arith, length,
}
use cooboc.Base.Int.{signed16}
use cooboc.Modem.{Modem, Tick, elapsed, feed, get_last_payload}
use cooboc.Modem.Frame.{xor_all, Accepts}
use cooboc.Modem.Packet.{Packet, IsPacket, ticks, packet_accepted}
use cooboc.Modem.Invariant.{length-feed}
use cooboc.Modem.Rejection.{noise_ignored}
use cooboc.HrDriver.{HrDriver, read_data, take_packet}
use cooboc.HrDriver.Packets.{
  read_data-Accepts, read_data_quiet, take_packet_fields, read_data-append, modem-take_packet,
}
use cooboc.Firmware.{report}
use cooboc.Firmware.Report.{fields, report-packet}

-- The clock readings for the bytes, in the order of their arrival.
abbrev pub Clock : Type 0
Clock = ℕ → ℕ × ℕ

abbrev pub stamp : Clock → ℕ → List ℕ → List Tick
stamp clock i [] = []
stamp clock i (b ∷ bs) =
    record { byte = b; first = (clock i).0; second = (clock i).1 } ∷ stamp clock (suc i) bs

-- No byte comes more than 500 ms after the one before it.
abbrev pub IsTimely : Clock → Type 0
IsTimely clock = (i : ℕ) → elapsed (clock i).0 (clock (suc i)).1 ≤ 500

-- A driver between two packets.
pub record IsWaiting (d : HrDriver) : Type 0 where
  pub unlocked : d.modem.is_packet_locked ≡ false
  pub storage : length d.modem.payload_buffer ≡ 1024

-- What the driver gives out.
pub record Shows (d : HrDriver) (position d1 d2 : ℕ) : Type 0 where
  pub position_lem : d.hr_position ≡ signed16 position
  pub dist0_lem : d.dist0 ≡ d1
  pub dist1_lem : d.dist1 ≡ d2
  pub new_data : d.has_new_data ≡ true

abbrev tick : Clock → ℕ → ℕ → Tick
tick clock i b = record { byte = b; first = (clock i).0; second = (clock i).1 }

-- The packet in a report, and the two bytes behind it.
packet : Clock → ℕ → ℕ → ℕ → Packet
packet clock p a b = record {
  leading = tick clock 0 b'S';
  check = tick clock 1 b'A';
  size = tick clock 2 6;
  payload = stamp clock 3 (fields p a b);
  crc = tick clock 9 (xor_all 0 (fields p a b));
}

abbrev line_end : Clock → List Tick
line_end clock = tick clock 10 13 ∷ tick clock 11 10 ∷ []

stamp-report :
    (clock : Clock) (p a b : ℕ)
    → stamp clock 0 (report p a b) ≡ ticks (packet clock p a b) ++ line_end clock
unfolding packet
stamp-report clock p a b = rw report-packet

packet-IsPacket : (clock : Clock) (p a b : ℕ) → IsTimely clock → IsPacket (packet clock p a b)
unfolding packet
packet-IsPacket clock p a b h = record {
  leading_lem = refl;
  check_lem = refl;
  size_lem = refl;
  size_fits = omega arith;
  crc_lem = refl;
  timely = (h 0, (h 1, (h 2, (h 3, (h 4, (h 5, (h 6, (h 7, (h 8, tt)))))))));
}

packet-Accepts :
    (d : HrDriver) (clock : Clock) (p a b : ℕ)
    → IsWaiting d
    → IsTimely clock
    → Accepts d.modem 9 (ticks (packet clock p a b)) (fields p a b)
unfolding packet
packet-Accepts d clock p a b w h =
    packet_accepted d.modem (packet clock p a b) w.unlocked w.storage
      (packet-IsPacket clock p a b h)

bytes_join : (x : ℕ) → x < 2 ^ 16 → (x / 256) % 256 * 256 + x % 256 ≡ x
bytes_join x h = omega arith

-- After the packet, before the end of the line.
after_packet :
    (d : HrDriver) (clock : Clock) (p a b : ℕ)
    → IsWaiting d
    → IsTimely clock
    → p < 2 ^ 16
    → a < 2 ^ 16
    → b < 2 ^ 16
    → let d' = read_data d (ticks (packet clock p a b)) in Shows d' p a b × IsWaiting d'
after_packet d clock p a b w h hp ha hb =
    let ts = ticks (packet clock p a b) in
    let accepts = packet-Accepts d clock p a b w h in
    let held = record d { modem = (feed d.modem ts).0 } in
    let shown =
      take_packet_fields held (p % 256) ((p / 256) % 256) (a % 256) ((a / 256) % 256) (b % 256)
        ((b / 256) % 256) (omega arith) (omega arith) (omega arith) (omega arith)
        accepts.payload_held in
    rw (read_data-Accepts d 9 ts (fields p a b) accepts) (
      record {
        position_lem = shown.0 ∙ ap signed16 (bytes_join p hp);
        dist0_lem = shown.1 ∙ bytes_join a ha;
        dist1_lem = shown.2 ∙ bytes_join b hb;
        new_data = shown.3;
      },
      record {
        unlocked =
            ap (λ (m : Modem). m.is_packet_locked) (modem-take_packet held) ∙ accepts.released;
        storage =
            ap (λ (m : Modem). length m.payload_buffer) (modem-take_packet held)
            ∙ length-feed d.modem ts
            ∙ w.storage;
      },
    )

-- The two bytes that end the line are read over.
after_line_end :
    (d : HrDriver) (clock : Clock) (p a b : ℕ)
    → Shows d p a b × IsWaiting d
    → let d' = read_data d (line_end clock) in Shows d' p a b × IsWaiting d'
after_line_end d clock p a b (shows, w) =
    let (quiet, unlocked, kept) = noise_ignored d.modem (line_end clock) w.unlocked (omega arith) in
    rw (read_data_quiet d (line_end clock) quiet) (
      record {
        position_lem = shows.position_lem;
        dist0_lem = shows.dist0_lem;
        dist1_lem = shows.dist1_lem;
        new_data = shows.new_data;
      },
      record { unlocked = unlocked; storage = ap length kept ∙ w.storage },
    )

-- A report of three 16-bit values by the board that arrives without a pause of more than 500 ms at a driver between two
-- packets: the driver then shows the board's position, as a signed 16-bit number, and its two
-- distances, as new data, and is again between two packets.
pub report_received :
    (d : HrDriver) (clock : Clock) (p a b : ℕ)
    → IsWaiting d
    → IsTimely clock
    → p < 2 ^ 16
    → a < 2 ^ 16
    → b < 2 ^ 16
    → let d' = read_data d (stamp clock 0 (report p a b)) in Shows d' p a b × IsWaiting d'
report_received d clock p a b w h hp ha hb =
    rw (stamp-report clock p a b, read_data-append)
      (after_line_end (read_data d (ticks (packet clock p a b))) clock p a b
        (after_packet d clock p a b w h hp ha hb))

-- One round of the board: its clock at the driver, and what it reports.
pub record Sample : Type 0 where
  pub clock : Clock
  pub position : ℕ
  pub d1 : ℕ
  pub d2 : ℕ

pub record IsSample (s : Sample) : Type 0 where
  pub timely : IsTimely s.clock
  pub position_fits : s.position < 2 ^ 16
  pub d1_fits : s.d1 < 2 ^ 16
  pub d2_fits : s.d2 < 2 ^ 16

abbrev sample_ticks : Sample → List Tick
sample_ticks s = stamp s.clock 0 (report s.position s.d1 s.d2)

pub read_samples : HrDriver → List Sample → HrDriver
read_samples d [] = d
read_samples d (s ∷ ss) = read_samples (read_data d (sample_ticks s)) ss

-- From a driver between two packets: after any number of reports, with pauses of any length between
-- them but of no more than 500 ms within each, the driver shows the position and the distances of
-- the last report, all being 16-bit values.
pub last_sample_shown :
    (d : HrDriver) (ss : List Sample) (s : Sample)
    → IsWaiting d
    → All IsSample ss
    → IsSample s
    → Shows (read_samples d (ss ++ (s ∷ []))) s.position s.d1 s.d2
unfolding read_samples
last_sample_shown d [] s w hs h =
    (report_received d s.clock s.position s.d1 s.d2 w h.timely h.position_fits h.d1_fits
      h.d2_fits).0
last_sample_shown d (r ∷ ss) s w hs h =
    last_sample_shown (read_data d (sample_ticks r)) ss s
      (report_received d r.clock r.position r.d1 r.d2 w hs.0.timely hs.0.position_fits hs.0.d1_fits
        hs.0.d2_fits).1
      hs.1 h
