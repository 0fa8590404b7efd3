-- ===== src/Platform/Rtc/Cmos/Tests.antt =====
-- The clock on the last day of 2022.
use ada_os.Base.{ℕ, ◌+◌, ◌/◌, ◌%◌, ◌≡◌, refl, List, [], ◌∷◌, ◌==◌, if◌then◌else◌, arith}
use ada_os.Platform.Rtc.{ms_to_date, civil, get_unix_epoch}
use ada_os.Platform.Rtc.Cmos.{get_unix_timestamp}
use ada_os.Platform.Rtc.Cmos.Reading.{
  bcd, PrintsDigits, Shows, get_unix_timestamp-Shows, get_unix_timestamp-ms_to_date,
}

-- one or two hexadecimal digits, as far as they are decimal ones
abbrev hex : ℕ → List ℕ
hex v = if v / 16 == 0 then (48 + v % 16) ∷ [] else (48 + v / 16) ∷ (48 + v % 16) ∷ []

hex-PrintsDigits : PrintsDigits hex
hex-PrintsDigits v small =
    let high : bcd v / 16 ≡ v / 10 = omega arith in
    let low : bcd v % 16 ≡ v % 10 = omega arith in rw (high, low) refl

-- 2022-12-31, 23:59:58
abbrev register : ℕ → ℕ
register i =
    if i == 0
    then 0x58
    else if i == 2
    then 0x59
    else if i == 4
    then 0x23
    else if i == 7
    then 0x31
    else if i == 8
    then 0x12
    else if i == 9
    then 0x22
    else 0x20

register-Shows : Shows register 0x32 58 59 23 31 12 2022
register-Shows = record {
  second = (omega arith, refl);
  minute = (omega arith, refl);
  hour = (omega arith, refl);
  day = (omega arith, refl);
  month = (omega arith, refl);
  year = (omega arith, refl);
  century = refl;
  has_century = (omega arith, omega arith);
}

get_unix_timestamp-ms_to_date_example : get_unix_timestamp hex register 0x32 ≡ 1672531198
unfolding ms_to_date civil
get_unix_timestamp-ms_to_date_example =
    get_unix_timestamp-ms_to_date hex register 0x32 1672531198000 hex-PrintsDigits (omega arith)
      (omega arith) register-Shows

-- the same day of 2005, of which the year is read as 205
abbrev early : ℕ → ℕ
early i = if i == 9 then 5 else register i

early-Shows : Shows early 0x32 58 59 23 31 12 2005
early-Shows = record {
  second = (omega arith, refl);
  minute = (omega arith, refl);
  hour = (omega arith, refl);
  day = (omega arith, refl);
  month = (omega arith, refl);
  year = (omega arith, refl);
  century = refl;
  has_century = (omega arith, omega arith);
}

get_unix_timestamp-Shows_example :
    get_unix_timestamp hex early 0x32 ≡ get_unix_epoch 58 59 23 31 12 205
get_unix_timestamp-Shows_example =
    get_unix_timestamp-Shows hex early 0x32 hex-PrintsDigits early-Shows
