-- ===== src/Platform/Rtc/Cmos/Reading.antt =====
-- What the digits of the clock are read as.
use ada_os.Base.{
  ℕ, ◌+◌, ◌-◌, ◌*◌, ◌/◌, ◌%◌, ◌≤◌, ◌<◌, ◌≡◌, refl, ap, ◌∙◌, false, arith, List, [], ◌∷◌, ◌++◌, ◌==◌,
  if◌then◌else◌, Bool-cases, inl, inr,
}
use ada_os.Platform.Rtc.{get_unix_epoch, ms_to_date}
use ada_os.Platform.Rtc.Dates.{get_unix_epoch-ms_to_date}
use ada_os.Platform.Rtc.Cmos.{atoi, atoi_from, read_cmos_reg, sel_cmos_reg, get_unix_timestamp}

-- Two decimal digits in a byte.
abbrev pub bcd : ℕ → ℕ
bcd v = v / 10 * 16 + v % 10

-- What `%x` prints of such a byte: no leading zero.
abbrev pub PrintsDigits : (ℕ → List ℕ) → Type 0
PrintsDigits hex =
    (v : ℕ)
    → v < 100
    → hex (bcd v) ≡ (if v / 10 == 0 then (48 + v % 10) ∷ [] else (48 + v / 10) ∷ (48 + v % 10) ∷ [])

atoi_from-append :
    (res : ℕ) (xs ys : List ℕ) → atoi_from res (xs ++ ys) ≡ atoi_from (atoi_from res xs) ys
unfolding atoi_from
atoi_from-append res [] ys = refl
atoi_from-append res (x ∷ xs) ys = atoi_from-append (res * 10 + (x - 48)) xs ys

module _ (hex : ℕ → List ℕ) (prints : PrintsDigits hex) where
  -- The digits of one byte, behind what was read before.
  atoi_from-hex :
      (res v : ℕ)
      → v < 100
      → atoi_from res (hex (bcd v)) ≡ (if v / 10 == 0 then res * 10 + v else res * 100 + v)
  unfolding atoi_from
  atoi_from-hex res v small = elim (Bool-cases (v / 10 == 0)) [
    | inl one ↦ rw (prints v small, one) (ground (arith, one))
    | inr two ↦ rw (prints v small, two) (ground (arith, two))
  ]

  atoi-hex : (v : ℕ) → v < 100 → atoi (hex (bcd v)) ≡ v
  unfolding atoi
  atoi-hex v small = ground (arith, atoi_from-hex 0 v small)

  -- Two bytes one behind the other.
  atoi-two :
      (c y : ℕ)
      → c < 100
      → y < 100
      → atoi (hex (bcd c) ++ hex (bcd y)) ≡ (if y / 10 == 0 then c * 10 + y else c * 100 + y)
  unfolding atoi
  atoi-two c y hc hy =
      atoi_from-append 0 (hex (bcd c)) (hex (bcd y))
      ∙ ap (λ r. atoi_from r (hex (bcd y))) (atoi-hex c hc)
      ∙ atoi_from-hex c y hy

-- A clock whose registers show a date, in two decimal digits each, with its century in the register
-- `century_register`.
pub record Shows (register : ℕ → ℕ) (century_register : ℕ)
    (seconds minutes hours days months years : ℕ) : Type 0 where
  pub second : (seconds < 100) × (register 0 ≡ bcd seconds)
  pub minute : (minutes < 100) × (register 2 ≡ bcd minutes)
  pub hour : (hours < 100) × (register 4 ≡ bcd hours)
  pub day : (days < 100) × (register 7 ≡ bcd days)
  pub month : (months < 100) × (register 8 ≡ bcd months)
  pub year : (years < 10000) × (register 9 ≡ bcd (years % 100))
  pub century : register century_register ≡ bcd (years / 100)
  pub has_century : (0 < century_register) × (century_register < 128)

read_bcd :
    (register : ℕ → ℕ) (offset v : ℕ)
    → offset < 128
    → v < 100
    → register offset ≡ bcd v
    → read_cmos_reg register offset ≡ bcd v
unfolding read_cmos_reg sel_cmos_reg
read_bcd register offset v low small e =
    let same : offset % 128 ≡ offset = omega arith in rw same (omega (arith, e))

-- `get_unix_timestamp` of a clock that shows a date with four digits in its year is the time of that
-- date, but for the years whose last two digits are below 10: of such a year the digit 0 is lost.
-- `%x` prints a byte of two decimal digits without a leading zero.
pub get_unix_timestamp-Shows :
    (hex : ℕ → List ℕ) (register : ℕ → ℕ) (century_register : ℕ)
    {seconds minutes hours days months years : ℕ}
    → PrintsDigits hex
    → Shows register century_register seconds minutes hours days months years
    → get_unix_timestamp hex register century_register
      ≡ get_unix_epoch seconds minutes hours days months
          (if years % 100 / 10 == 0 then years / 100 * 10 + years % 100 else years)
unfolding get_unix_timestamp
get_unix_timestamp-Shows hex register century_register {seconds} {minutes} {hours} {days} {months}
      {years} prints d =
    let there : (century_register == 0) ≡ false = ground (arith, d.has_century) in
    let whole : years / 100 * 100 + years % 100 ≡ years = omega arith in
    rw
      (
        there,
        read_bcd register 0 seconds (omega arith) d.second.0 d.second.1,
        read_bcd register 2 minutes (omega arith) d.minute.0 d.minute.1,
        read_bcd register 4 hours (omega arith) d.hour.0 d.hour.1,
        read_bcd register 7 days (omega arith) d.day.0 d.day.1,
        read_bcd register 8 months (omega arith) d.month.0 d.month.1,
        read_bcd register 9 (years % 100) (omega arith) (omega arith) d.year.1,
        read_bcd register century_register (years / 100) d.has_century.1 (omega (arith, d.year.0))
            d.century,
        atoi-hex hex prints seconds d.second.0,
        atoi-hex hex prints minutes d.minute.0,
        atoi-hex hex prints hours d.hour.0,
        atoi-hex hex prints days d.day.0,
        atoi-hex hex prints months d.month.0,
        atoi-two hex prints (years / 100) (years % 100) (omega (arith, d.year.0)) (omega arith),
        whole,
      )
      refl

-- A clock that shows the date of a time in milliseconds, in a year with four digits whose last two
-- are 10 at least, is read as that time in seconds.
pub get_unix_timestamp-ms_to_date :
    (hex : ℕ → List ℕ) (register : ℕ → ℕ) (century_register ms_epoch : ℕ)
    → PrintsDigits hex
    → ms_epoch / 1000 / 86400 < 22000000
    → 10 ≤ (ms_to_date ms_epoch).year % 100
    → (let d = ms_to_date ms_epoch in
        Shows register century_register d.second d.minute d.hour d.day d.month d.year)
    → get_unix_timestamp hex register century_register ≡ ms_epoch / 1000
get_unix_timestamp-ms_to_date hex register century_register ms_epoch prints near late shown =
    let y = (ms_to_date ms_epoch).year in
    let two : (y % 100 / 10 == 0) ≡ false = ground (arith, late) in
    get_unix_timestamp-Shows hex register century_register prints shown
    ∙ rw two (get_unix_epoch-ms_to_date ms_epoch near)
