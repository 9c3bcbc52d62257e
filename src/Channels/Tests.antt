-- ===== src/Channels/Tests.antt =====
-- Calls of `getMavlinkComChannel` (chicken/utils/mavlink_wtf.cpp).
use cooboc.Base.{◌≡◌}
use cooboc.Channels.{get_mavlink_com_channel, after_calls}
use cooboc.Channels.Numbers.{channel_given}

fifth_call : (get_mavlink_com_channel (after_calls 4)).1 ≡ 0
fifth_call = channel_given 4
