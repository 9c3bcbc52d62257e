-- ===== src/Devices/Tests.antt =====
-- Requests to chicken/device_manager.cpp.
use cooboc.Base.{◌≡◌, refl, true}
use cooboc.Devices.Setup.{set_up, place}
use cooboc.Devices.{agl}

-- The sixth device that is made.
agl_set_up : set_up agl ≡ record { device_type = 6; serial = 5; inited = true }
unfolding set_up place
agl_set_up = refl
