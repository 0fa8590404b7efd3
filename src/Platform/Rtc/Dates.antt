-- ===== src/Platform/Rtc/Dates.antt =====
-- The date of a number of days, and back by the Julian day number.
use ada_os.Base.{
  ℕ, ◌+◌, ◌-◌, ◌*◌, ◌/◌, ◌%◌, ◌^◌, ◌≤◌, ◌<◌, ◌≡◌, refl, arith, if◌then◌else◌, ltb, leb, true, false,
  Bool-cases, ltb→lt, ltb→ge, inl, inr,
}
use ada_os.Memory.Layout.{sub64}
use ada_os.Platform.Rtc.{
  civil, ms_to_date, get_jdn, get_unix_epoch, shifted, year_of_era, day_of_year, month_shifted,
  borrow, carry,
}

year_of_era-lt : (doe : ℕ) → doe < 146097 → year_of_era doe < 400
year_of_era-lt doe h = omega arith

day_of_year-lt : (doe : ℕ) → doe < 146097 → day_of_year doe < 366
day_of_year-lt doe h = omega arith

month_shifted-lt : (doy : ℕ) → doy < 366 → month_shifted doy < 12
month_shifted-lt doy h = omega arith

-- The day of the era, from the year and the day in the year.
recompose :
    (doe : ℕ)
    → doe < 146097
    → 365 * year_of_era doe + year_of_era doe / 4 + day_of_year doe ≡ doe + year_of_era doe / 100
recompose doe h = omega arith

month_days : (mp : ℕ) → mp < 12 → 367 * (mp + 1) / 12 ≡ (153 * mp + 2) / 5 + 30
month_days mp h = omega arith

-- The day in the month begins at 1 and the months have 31 days at most.
month_day :
    (doy : ℕ)
    → doy < 366
    → ((153 * month_shifted doy + 2) / 5 ≤ doy) × (doy - (153 * month_shifted doy + 2) / 5 + 1 ≤ 31)
month_day doy h = omega arith

year_days :
    (yoe era : ℕ)
    → yoe < 400
    → 1461 * (yoe + era * 400 + 4800) / 4 + (36 + yoe / 100)
      ≡ 365 * yoe + yoe / 4 + 1753200 + 146097 * era + 3 * ((yoe + era * 400 + 4900) / 100) / 4
year_days yoe era h =
    let a : 1461 * (yoe + era * 400 + 4800) / 4 ≡ 365 * yoe + yoe / 4 + 1753200 + 146100 * era =
      omega arith in
    let c : (yoe + era * 400 + 4900) / 100 ≡ yoe / 100 + 4 * era + 49 = omega arith in
    let b : 3 * ((yoe + era * 400 + 4900) / 100) / 4 ≡ 36 + yoe / 100 + 3 * era =
      omega (arith, c) in
    omega (arith, a, b)

module _ (days : ℕ) (near : days < 22000000) where
  abbrev era : ℕ
  era = shifted days / 146097

  abbrev doe : ℕ
  doe = shifted days - era * 146097

  doe-lt : (doe < 146097) × (doe + era * 146097 ≡ shifted days) × (era ≤ 156)
  doe-lt = (omega arith, omega arith, omega arith)

  get_jdn-civil :
      (yoe doy mp : ℕ)
      → yoe < 400
      → doy < 366
      → mp < 12
      → (153 * mp + 2) / 5 ≤ doy
      → 365 * yoe + yoe / 4 + doy ≡ doe + yoe / 100
      → get_jdn (doy - (153 * mp + 2) / 5 + 1) (if ltb mp 10 then mp + 3 else mp - 9) (
          (yoe + era * 400 + (if leb (if ltb mp 10 then mp + 3 else mp - 9) 2 then 1 else 0))
          % 2 ^ 32)
        ≡ days + 2440588
  unfolding get_jdn
  get_jdn-civil yoe doy mp hy hd hm low e =
      let m = month_days mp hm in
      let y = year_days yoe era hy in
      let (lt, sum, few) = doe-lt in
      elim (Bool-cases (ltb mp 10)) [
        | inl early ↦
            let lt10 = ltb→lt mp 10 early in
            let late : leb (mp + 3) 2 ≡ false = ground arith in
            let b : borrow (mp + 3) ≡ 0 = omega arith in
            let c : carry (mp + 3) ≡ 0 = omega arith in
            let w : (yoe + era * 400 + 0) % 2 ^ 32 ≡ yoe + era * 400 = omega arith in
            rw (early, late, b, c, w) (omega (arith, m, y, sum, e))
        | inr late ↦
            let ge10 = ltb→ge mp 10 late in
            let first : leb (mp - 9) 2 ≡ true = ground arith in
            let b : borrow (mp - 9) ≡ 1 = omega arith in
            let c : carry (mp - 9) ≡ 0 = omega arith in
            let w : (yoe + era * 400 + 1) % 2 ^ 32 ≡ yoe + era * 400 + 1 = omega arith in
            rw (late, first, b, c, w) (omega (arith, m, y, sum, e))
      ]

-- The date of a day: months from 1 to 12, days from 1 to 31, and its Julian day number.
pub record IsDate (days : ℕ) (d : ℕ × ℕ × ℕ) : Type 0 where
  pub year : d.0 < 65536
  pub month : (1 ≤ d.1) × (d.1 ≤ 12)
  pub day : (1 ≤ d.2) × (d.2 ≤ 31)
  pub jdn : get_jdn d.2 d.1 d.0 ≡ days + 2440588

-- For a day before the year 62000 the civil date is in range, and the Julian day number of the
-- date is that of 1970-01-01 and the number of days.
pub civil-IsDate : (days : ℕ) → days < 22000000 → IsDate days (civil days)
unfolding civil
civil-IsDate days near =
    let (lt, sum, few) = doe-lt days near in
    let yoe = year_of_era (doe days near) in
    let doy = day_of_year (doe days near) in
    let hy = year_of_era-lt (doe days near) lt in
    let hd = day_of_year-lt (doe days near) lt in
    let hm = month_shifted-lt doy hd in
    let (low, short) = month_day doy hd in
    record {
      year = ground (arith, few, hy);
      month = ground (arith, hm);
      day = (omega arith, short);
      jdn =
          get_jdn-civil days near yoe doy (month_shifted doy) hy hd hm low
            (recompose (doe days near) lt);
    }

first_day : get_jdn 1 1 1970 ≡ 2440588
unfolding get_jdn
first_day = refl

-- The time of day, with its hours, minutes and seconds in range.
clock :
    (secs : ℕ)
    → (secs / 60 / 60 % 24 < 24)
      × (secs / 86400 * 86400 + (secs / 60 / 60 % 24 * 3600 + secs / 60 % 60 * 60 + secs % 60)
          ≡ secs)
clock secs = (omega arith, omega arith)

-- `get_unix_epoch` takes the fields of the date of a time in milliseconds, before the year 62000,
-- back to its seconds.
pub get_unix_epoch-ms_to_date :
    (ms_epoch : ℕ)
    → ms_epoch / 1000 / 86400 < 22000000
    → get_unix_epoch
        (ms_to_date ms_epoch).second
        (ms_to_date ms_epoch).minute
        (ms_to_date ms_epoch).hour
        (ms_to_date ms_epoch).day
        (ms_to_date ms_epoch).month
        (ms_to_date ms_epoch).year
      ≡ ms_epoch / 1000
unfolding get_unix_epoch ms_to_date
get_unix_epoch-ms_to_date ms_epoch near =
    let secs = ms_epoch / 1000 in
    let c = civil-IsDate (secs / 86400) near in
    let d : (civil (secs / 86400)).2 % 256 ≡ (civil (secs / 86400)).2 = omega (arith, c.day) in
    let m : (civil (secs / 86400)).1 % 256 ≡ (civil (secs / 86400)).1 = omega (arith, c.month) in
    let y : (civil (secs / 86400)).0 % 65536 ≡ (civil (secs / 86400)).0 = omega (arith, c.year) in
    let days : sub64 (secs / 86400 + 2440588) 2440588 ≡ secs / 86400 = omega arith in
    let (hours, sum) = clock secs in
    rw (d, m, y, c.jdn, first_day, days) (omega (arith, sum, hours, near))
