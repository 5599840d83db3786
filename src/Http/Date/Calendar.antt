-- ===== src/Http/Date/Calendar.antt =====
-- `gmtime_r` against a count of days: nothing of a time is lost.
use lambda.Base.{
  ℕ, zero, suc, ◌+◌, ◌-◌, ◌*◌, ◌/◌, ◌<◌, ◌≤◌, ◌≡◌, refl, ap, arith, inl, inr, ltb, Bool-cases,
}
use lambda.Http.Date.{Tm, is_leap, days_in_year, days_in_month, find_year, find_month, gmtime}

-- The days from 1970 to a year by the Gregorian rule, of which 477 leap years came before 1970.
unfoldable pub days_before_year : ℕ → ℕ
days_before_year y = 365 * (y - 1970) + ((y - 1) / 4 + (y - 1) / 400 - (y - 1) / 100 - 477)

days_before_year-suc :
    (y : ℕ) → 1970 ≤ y → days_before_year (y + 1) ≡ days_before_year y + days_in_year y
unfolding days_before_year days_in_year is_leap
days_before_year-suc y h = ground arith

days_in_year-long : (y : ℕ) → 365 ≤ days_in_year y
unfolding days_in_year
days_in_year-long y = ground arith

find_year_lem :
    (rounds y d : ℕ)
    → 1970 ≤ y
    → d < rounds
    → (days_before_year (find_year rounds y d).0 + (find_year rounds y d).1
        ≡ days_before_year y + d)
      × ((find_year rounds y d).1 < days_in_year (find_year rounds y d).0)
      × ((find_year rounds y d).0 ≤ y + d / 365)
      × (1970 ≤ (find_year rounds y d).0)
unfolding find_year
find_year_lem zero y d h lt = absurd (omega arith)
find_year_lem (suc rounds) y d h lt = elim (Bool-cases (ltb d (days_in_year y))) [
  | inl e ↦ rw e (refl, ground (arith, e), omega arith, h)
  | inr e ↦
      let later = d - days_in_year y in
      let long = days_in_year-long y in
      let enough : days_in_year y ≤ d = ground (arith, e) in
      let (sum, within, last, first) =
        find_year_lem rounds (y + 1) later (omega arith) (omega arith) in
      rw e (omega (arith, sum, days_before_year-suc y h), within, omega (arith, last), first)
]

-- The days of a year before one of its months.
unfoldable pub days_before_month : ℕ → ℕ → ℕ
days_before_month y zero = 0
days_before_month y (suc m) = days_before_month y m + days_in_month y m

twelve_months : (y : ℕ) → days_before_month y 12 ≡ days_in_year y
unfolding days_before_month days_in_month days_in_year
twelve_months y = ground arith

days_before_month-suc :
    (y m : ℕ) → days_before_month y (m + 1) ≡ days_before_month y m + days_in_month y m
unfolding days_before_month
days_before_month-suc y m = let e : m + 1 ≡ suc m = omega arith in rw e refl

find_month_lem :
    (left y m d : ℕ)
    → m + left ≡ 11
    → days_before_month y m + d < days_before_month y 12
    → (days_before_month y (find_month left y m d).0 + (find_month left y m d).1
        ≡ days_before_month y m + d)
      × ((find_month left y m d).1 < days_in_month y (find_month left y m d).0)
      × ((find_month left y m d).0 < 12)
unfolding find_month
find_month_lem zero y m d e lt =
    let twelve : m + 1 ≡ 12 = omega arith in
    (
      refl,
      omega (arith, lt, ap (days_before_month y) twelve, days_before_month-suc y m),
      omega arith,
    )
find_month_lem (suc left) y m d e lt = elim (Bool-cases (ltb d (days_in_month y m))) [
  | inl h ↦ rw h (refl, ground (arith, h), omega arith)
  | inr h ↦
      let (sum, within, bound) =
        find_month_lem left y (m + 1) (d - days_in_month y m) (omega arith)
          (ground (arith, h, lt, days_before_month-suc y m)) in
      rw h (ground (arith, h, sum, days_before_month-suc y m), within, bound)
]

pub days_in_month_bound : (y m : ℕ) → days_in_month y m ≤ 31
unfolding days_in_month
days_in_month_bound y m = ground arith

-- The seconds that the fields stand for.
unfoldable pub seconds_of : ℕ → ℕ → ℕ → ℕ → ℕ → ℕ → ℕ
seconds_of year mon mday hour min sec =
    (days_before_year year + days_before_month year mon + (mday - 1)) * 86400
    + hour * 3600
    + min * 60
    + sec

abbrev pub tm_seconds : Tm → ℕ
tm_seconds tm = seconds_of tm.year tm.tm_mon tm.tm_mday tm.tm_hour tm.tm_min tm.tm_sec

pub record IsProper (tm : Tm) : Type 0 where
  pub mon_bound : tm.tm_mon < 12
  pub mday_pos : 0 < tm.tm_mday
  pub mday_bound : tm.tm_mday ≤ days_in_month tm.year tm.tm_mon
  pub wday_bound : tm.tm_wday < 7
  pub hour_bound : tm.tm_hour < 24
  pub min_bound : tm.tm_min < 60
  pub sec_bound : tm.tm_sec < 60

-- The fields of a time are in their ranges, the day is one of its month, and they stand for the time.
pub gmtime-IsProper :
    (epoch : ℕ)
    → IsProper (gmtime epoch)
      × (tm_seconds (gmtime epoch) ≡ epoch)
      × ((gmtime epoch).year ≤ 1970 + epoch / 31536000)
unfolding gmtime seconds_of
gmtime-IsProper epoch =
    let days = epoch / 86400 in
    let year = (find_year (days + 1) 1970 days).0 in
    let day = (find_year (days + 1) 1970 days).1 in
    let (sum, within, last, first) =
      find_year_lem (days + 1) 1970 days (omega arith) (omega arith) in
    let zero_days : days_before_year 1970 ≡ 0 = unfold days_before_year in refl in
    let none_before : days_before_month year 0 ≡ 0 = unfold days_before_month in refl in
    let month_fits : days_before_month year 0 + day < days_before_month year 12 =
      rw (twelve_months year) (omega (arith, none_before, within)) in
    let (months, in_month, mon) = find_month_lem 11 year 0 day refl month_fits in
    (
      record {
        mon_bound = mon;
        mday_pos = omega arith;
        mday_bound = omega (arith, in_month);
        wday_bound = omega arith;
        hour_bound = omega arith;
        min_bound = omega arith;
        sec_bound = omega arith;
      },
      omega (arith, sum, zero_days, months, none_before),
      omega (arith, last),
    )
