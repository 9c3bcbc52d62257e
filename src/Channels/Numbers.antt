-- ===== src/Channels/Numbers.antt =====
-- Which calls of `getMavlinkComChannel` (chicken/utils/mavlink_wtf.cpp) get which channel.
use cooboc.Base.{ℕ, zero, suc, ◌%◌, ◌^◌, ◌≡◌, refl, arith, ltb, if◌then◌else◌}
use cooboc.Channels.{get_mavlink_com_channel, after_calls}

after_calls_lem : (n : ℕ) → after_calls n ≡ n % 2 ^ 8
unfolding after_calls
after_calls_lem zero = refl
after_calls_lem (suc n) = omega (arith, after_calls_lem n)

-- After `n` calls the next one gives channel `n % 256` where that is at most 3, and channel 0 to all
-- others: the fifth device shares the first one's channel, and after 256 calls the channels come again.
pub channel_given :
    (n : ℕ)
    → (get_mavlink_com_channel (after_calls n)).1 ≡ (if ltb (n % 2 ^ 8) 4 then n % 2 ^ 8 else 0)
unfolding get_mavlink_com_channel
channel_given n = ground (arith, after_calls_lem n)
