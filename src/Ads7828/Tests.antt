-- ===== src/Ads7828/Tests.antt =====
-- Runs of chicken/device/driver/ads7828_driver.cpp and chicken/device/aoa.cpp.
use cooboc.Base.{◌≡◌, true, [], ◌∷◌, arith}
use cooboc.Base.Int.{pos}
use cooboc.Float.Sample.{whole}
use cooboc.Iic.{Answer, read_u16_be}
use cooboc.Iic.Transactions.{start_bus}
use cooboc.Ads7828.{read_aoa, read_side_slip, measure_agl, centred, init}
use cooboc.Ads7828.Channel.{channels_read}

abbrev answer : Answer
answer = record { accepted = true; written = pos 1; read_count = pos 2; bytes = 8 ∷ 5 ∷ [] }

all_channels :
    (read_aoa whole start_bus init 7 answer
      ≡ ((read_u16_be start_bus 0x48 0x84 answer).0, centred whole 2053))
    × (read_side_slip whole start_bus init 7 answer
        ≡ ((read_u16_be start_bus 0x48 0xc4 answer).0, centred whole 2053))
    × (measure_agl whole start_bus init 7 answer
        ≡ ((read_u16_be start_bus 0x48 0x94 answer).0, 2053))
all_channels =
    channels_read whole start_bus 7 8 5 true (pos 1) (omega arith) (omega arith) (omega arith)
