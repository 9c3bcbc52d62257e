-- ===== src/Beeper.antt =====
-- The beeper: `GpioHandler` (chicken/device/driver/io/gpio_handler.cpp), `BeeperDriver`
-- (chicken/device/driver/beeper_driver.cpp) and `Beeper` (chicken/device/beeper.cpp). The calls of the
-- library behind them, GPIOManager, are a list; which pin a key names is given.
pub mod Noise
mod Tests
use cooboc.Base.{ℕ, zero, suc, Bool, true, false, List, [], ◌∷◌, ◌++◌, ◌==◌, if◌then◌else◌}

-- GPIO::DIRECTION and GPIO::PIN_VALUE
pub data Direction : Type 0 where
  input output : Direction

pub data PinValue : Type 0 where
  low high : PinValue

pub data GpioCall : Type 0 where
  export_pin : ℕ → GpioCall
  set_direction : ℕ → Direction → GpioCall
  set_value : ℕ → PinValue → GpioCall

pub record GpioHandler : Type 0 where
  pub gpio_pin : ℕ
  pub calls : List GpioCall

-- The constructor, with the pin of the key.
new_gpio_handler : ℕ → GpioHandler
new_gpio_handler pin = record { gpio_pin = pin; calls = export_pin pin ∷ [] }

-- GPIO_INPUT is 0, and every other status is taken for GPIO_OUTPUT.
set_pin_mode : GpioHandler → ℕ → GpioHandler
set_pin_mode h status = record h {
  calls = h.calls ++ (set_direction h.gpio_pin (if status == 0 then input else output) ∷ []);
}

-- GPIO_LOW is 0, and every other status is taken for GPIO_HIGH.
pub write : GpioHandler → ℕ → GpioHandler
write h status = record h {
  calls = h.calls ++ (set_value h.gpio_pin (if 0 == status then low else high) ∷ []);
}

-- `read`, of what `getValue` gives.
read : ℕ → Bool
read value = value == 1

-- `BeeperDriver`, which `Beeper::init` makes; "P9_42" names the pin.
pub new_beeper : ℕ → GpioHandler
unfolding new_gpio_handler set_pin_mode
new_beeper pin = set_pin_mode (new_gpio_handler pin) 1

pub make_noise : GpioHandler → GpioHandler
unfolding write
make_noise h = write h 1

pub shut_up : GpioHandler → GpioHandler
unfolding write
shut_up h = write h 0

-- So many rounds of the loop of `Beeper::test`, which has no end.
pub test : ℕ → GpioHandler → GpioHandler
unfolding make_noise shut_up
test zero h = h
test (suc rounds) h = test rounds (shut_up (make_noise h))
