-- ===== src/Platform/Rtc.antt =====
-- kernel/src/platform/x86_64/rtc.c: the date arithmetic; Cmos is the clock. `int64_t`, `uint32_t`
-- and `uint8_t` values keep their wrap-around where one can happen.
pub mod Dates
pub mod Cmos
mod Tests
use ada_os.Base.{
  ℕ, zero, suc, ◌+◌, ◌-◌, ◌*◌, ◌/◌, ◌%◌, ◌^◌, Bool, true, false, List, [], ◌∷◌, ltb, leb, ◌==◌,
  if◌then◌else◌,
}
use ada_os.Memory.Layout.{add64, sub64, mul64}

-- What `ms_to_iso8601` gives to `snprintf`.
pub record Date : Type 0 where
  pub year : ℕ
  pub month : ℕ
  pub day : ℕ
  pub hour : ℕ
  pub minute : ℕ
  pub second : ℕ
  pub milli : ℕ

-- The civil date of a number of days since 1970-01-01, as year, month and day. `year` is a
-- `uint32_t`.
abbrev pub shifted : ℕ → ℕ
shifted days = days + 719468

abbrev pub year_of_era : ℕ → ℕ
year_of_era doe = (doe - doe / 1460 + doe / 36524 - doe / 146096) / 365

abbrev pub day_of_year : ℕ → ℕ
day_of_year doe = let yoe = year_of_era doe in doe - (365 * yoe + yoe / 4 - yoe / 100)

abbrev pub month_shifted : ℕ → ℕ
month_shifted doy = (5 * doy + 2) / 153

pub civil : ℕ → ℕ × ℕ × ℕ
civil days =
    let era = shifted days / 146097 in
    let doe = shifted days - era * 146097 in
    let yoe = year_of_era doe in
    let doy = day_of_year doe in
    let mp = month_shifted doy in
    let day = doy - (153 * mp + 2) / 5 + 1 in
    let mon = if ltb mp 10 then mp + 3 else mp - 9 in
    ((yoe + era * 400 + (if leb mon 2 then 1 else 0)) % 2 ^ 32, mon, day)

pub ms_to_date : ℕ → Date
ms_to_date ms_epoch =
    let secs = ms_epoch / 1000 in
    let (year, month, day) = civil (secs / 86400) in
    record {
      year = year;
      month = month;
      day = day;
      hour = secs / 60 / 60 % 24;
      minute = secs / 60 % 60;
      second = secs % 60;
      milli = ms_epoch % 1000;
    }

-- `(months - 14) / 12` rounds towards zero, so it is `- borrow months` below 14 and
-- `carry months` from there on.
abbrev pub borrow : ℕ → ℕ
borrow months = (14 - months) / 12

abbrev pub carry : ℕ → ℕ
carry months = (months - 14) / 12

pub get_jdn : (days months years : ℕ) → ℕ
get_jdn days months years =
    1461 * (years + 4800 + carry months - borrow months) / 4
    + 367 * (months + 12 * borrow months - 2 - 12 * carry months) / 12
    + days
    - 3 * ((years + 4900 + carry months - borrow months) / 100) / 4
    - 32075

-- The parameters are `uint8_t`, the year a `uint16_t`.
pub get_unix_epoch : (seconds minutes hours days months years : ℕ) → ℕ
get_unix_epoch seconds minutes hours days months years =
    let jdn_diff = sub64 (get_jdn (days % 256) (months % 256) (years % 65536)) (get_jdn 1 1 1970) in
    add64 (mul64 jdn_diff 86400) (hours % 256 * 3600 + minutes % 256 * 60 + seconds % 256)
