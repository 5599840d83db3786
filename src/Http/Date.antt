-- ===== src/Http/Date.antt =====
-- http/date.cpp: `Date`, on `gmtime_r` and `strftime` of the C library, in the locale "C". Seconds count
-- from 1970 on; a time before it has no model. The buffer of 64 characters is always large enough.
pub mod Calendar
pub mod Read
use lambda.Base.{
  ℕ, zero, suc, ◌+◌, ◌-◌, ◌*◌, ◌/◌, ◌%◌, Bool, true, false, not, ◌&&◌, ◌||◌, [], ◌∷◌, ◌++◌, Bytes,
  codes, ◌==◌, ltb, if◌then◌else◌, byte_at,
}
use lambda.Base.Decimal.{to_decimal}

-- The fields of `struct tm` that are printed, with the year and the day as they are printed. `tm_mon` and
-- `tm_wday` begin at 0, with January and Sunday.
pub record Tm : Type 0 where
  pub year : ℕ
  pub tm_mon : ℕ
  pub tm_mday : ℕ
  pub tm_wday : ℕ
  pub tm_hour : ℕ
  pub tm_min : ℕ
  pub tm_sec : ℕ

unfoldable pub is_leap : ℕ → Bool
is_leap y = y % 4 == 0 && (not (y % 100 == 0) || y % 400 == 0)

unfoldable pub days_in_year : ℕ → ℕ
unfolding is_leap
days_in_year y = if is_leap y then 366 else 365

-- Of the month that begins at 0 with January.
unfoldable pub days_in_month : ℕ → ℕ → ℕ
unfolding is_leap
days_in_month y m =
    if m == 1
    then (if is_leap y then 29 else 28)
    else if m == 3 || m == 5 || m == 8 || m == 10
    then 30
    else 31

-- The year from `y` on, and the day in it. A year is a day long at least, so that the days are rounds enough.
unfoldable pub find_year : ℕ → ℕ → ℕ → ℕ × ℕ
find_year zero y d = (y, d)
find_year (suc rounds) y d =
    let later = find_year rounds (y + 1) (d - days_in_year y) in
    if ltb d (days_in_year y) then (y, d) else later

-- The month from `m` on, with `left` months behind it.
unfoldable pub find_month : ℕ → ℕ → ℕ → ℕ → ℕ × ℕ
find_month zero y m d = (m, d)
find_month (suc left) y m d =
    let later = find_month left y (m + 1) (d - days_in_month y m) in
    if ltb d (days_in_month y m) then (m, d) else later

unfoldable pub gmtime : ℕ → Tm
unfolding find_year find_month
gmtime epoch =
    let days = epoch / 86400 in
    let seconds = epoch % 86400 in
    let year_day = find_year (days + 1) 1970 days in
    let month_day = find_month 11 (year_day.0) 0 (year_day.1) in
    record {
      year = year_day.0;
      tm_mon = month_day.0;
      tm_mday = month_day.1 + 1;
      tm_wday = (days + 4) % 7;
      tm_hour = seconds / 3600;
      tm_min = seconds / 60 % 60;
      tm_sec = seconds % 60;
    }

pub record Date : Type 0 where
  pub m_unix : ℕ
  pub m_tms : Tm

-- The constructor from a time. The other takes what the clock says.
unfoldable pub new_date : ℕ → Date
unfolding gmtime
new_date epoch = record { m_unix = epoch; m_tms = gmtime epoch }

abbrev pub day_names : Bytes
day_names = codes "SunMonTueWedThuFriSat"

abbrev pub month_names : Bytes
month_names = codes "JanFebMarAprMayJunJulAugSepOctNovDec"

-- The three letters of a name.
abbrev pub letters : Bytes → ℕ → Bytes → Bytes
letters names k rest =
    byte_at names (3 * k) ∷ byte_at names (3 * k + 1) ∷ byte_at names (3 * k + 2) ∷ rest

-- A number below 100 with two digits.
abbrev pub two_digits : ℕ → Bytes → Bytes
two_digits n rest = (48 + n / 10) ∷ (48 + n % 10) ∷ rest

-- "%H:%M:%S"
abbrev pub clock : Tm → Bytes → Bytes
clock tm rest =
    two_digits tm.tm_hour (b':' ∷ two_digits tm.tm_min (b':' ∷ two_digits tm.tm_sec rest))

-- "%a, %d %b %Y" and what follows.
abbrev pub day_text : Tm → Bytes → Bytes
day_text tm rest = letters day_names tm.tm_wday (
    b','
    ∷ b' '
    ∷ two_digits tm.tm_mday
        (b' ' ∷ letters month_names tm.tm_mon (b' ' ∷ (to_decimal tm.year ++ rest))))

-- "%a, %d %b %Y %H:%M:%S GMT"
unfoldable pub to_utc_string : Date → Bytes
to_utc_string d = day_text d.m_tms (b' ' ∷ clock d.m_tms (codes " GMT"))

-- "%a, %d %b %Y"
unfoldable pub date_text : Date → Bytes
date_text d = day_text d.m_tms []

-- "%H:%M:%S %d/%m/%Y"
unfoldable pub to_log_string : Date → Bytes
to_log_string d =
    let tm = d.m_tms in
    clock tm
      (b' ' ∷ two_digits tm.tm_mday (b'/' ∷ two_digits (tm.tm_mon + 1) (b'/' ∷ to_decimal tm.year)))
