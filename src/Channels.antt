-- ===== src/Channels.antt =====
-- The MAVLink channel numbers (chicken/utils/mavlink_wtf.cpp): `mavComChan` counts the calls as a
-- `uint8_t`, and the first four calls get the four channels.
pub mod Numbers
mod Tests
use cooboc.Base.{ℕ, zero, suc, ◌+◌, ◌%◌, ◌^◌, ◌==◌, if◌then◌else◌}

-- MAVLINK_COMM_0 to MAVLINK_COMM_3 are 0 to 3.
channel_of : ℕ → ℕ
channel_of mav_com_chan =
    if mav_com_chan == 1
    then 0
    else if mav_com_chan == 2
    then 1
    else if mav_com_chan == 3
    then 2
    else if mav_com_chan == 4
    then 3
    else 0

-- `getMavlinkComChannel`: the counter, and the channel.
pub get_mavlink_com_channel : ℕ → ℕ × ℕ
unfolding channel_of
get_mavlink_com_channel mav_com_chan = let c = (mav_com_chan + 1) % 2 ^ 8 in (c, channel_of c)

-- The counter after so many calls from the start of the program.
pub after_calls : ℕ → ℕ
unfolding get_mavlink_com_channel
after_calls zero = 0
after_calls (suc n) = (get_mavlink_com_channel (after_calls n)).0
