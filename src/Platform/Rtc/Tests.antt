-- ===== src/Platform/Rtc/Tests.antt =====
-- The clock at concrete times.
use ada_os.Base.{◌≡◌, refl}
use ada_os.Platform.Rtc.{civil}

-- the last day of February 2000
leap_day : civil 11016 ≡ (2000, 2, 29)
unfolding civil
leap_day = refl
