-- ===== src/Http/Date/Read.antt =====
-- The text of a date is read back as its time.
use lambda.Base.{
  ℕ, zero, suc, ◌+◌, ◌-◌, ◌*◌, ◌/◌, ◌%◌, ◌^◌, ◌<◌, ◌≤◌, true, ◌&&◌, none, some, [], ◌∷◌, ◌≡◌, ◌∙◌,
  refl, arith, inl, inr, Bytes, codes, ◌==◌, ltb, length, length-append, byte_at, take, drop,
  take-append, drop-append, all_below, all_below_sound, scan, Bool-cases,
}
use native.Mathlib.Nat.{pow-suc}
use lambda.Base.Decimal.{decimal_digits, to_decimal, strtoul}
use lambda.Base.Decimal.RoundTrip.{strtoul-to_decimal}
use lambda.Http.Date.{Tm, gmtime, Date, new_date, month_names, clock, to_utc_string}
use lambda.Http.Date.Calendar.{
  seconds_of, tm_seconds, IsProper, days_in_month_bound, gmtime-IsProper,
}

-- The number that two digits are.
abbrev pub two : ℕ → ℕ → ℕ
two a b = (a - 48) * 10 + (b - 48)

-- The month of a name, or 12.
unfoldable pub month_of : ℕ → ℕ → ℕ → ℕ
month_of a b c =
    elim (scan
      (λ m.
        a == byte_at month_names (3 * m)
        && b == byte_at month_names (3 * m + 1)
        && c == byte_at month_names (3 * m + 2))
      0 12) [ none ↦ 12 | some m ↦ m ]

-- A reader of "%a, %d %b %Y %H:%M:%S GMT", which goes by the places of the fields.
unfoldable pub read_utc : Bytes → ℕ
unfolding month_of seconds_of
read_utc text =
    let n = length text - 25 in
    let behind = drop 12 text in
    let time = drop n behind in
    seconds_of (strtoul (take n behind))
      (month_of (byte_at text 8) (byte_at text 9) (byte_at text 10))
      (two (byte_at text 5) (byte_at text 6)) (two (byte_at time 1) (byte_at time 2))
      (two (byte_at time 4) (byte_at time 5)) (two (byte_at time 7) (byte_at time 8))

two-two_digits : (n : ℕ) → n < 100 → two (48 + n / 10) (48 + n % 10) ≡ n
two-two_digits n h = omega arith

months_table :
    all_below 12 (λ m.
      month_of
        (byte_at month_names (3 * m))
        (byte_at month_names (3 * m + 1))
        (byte_at month_names (3 * m + 2))
      == m)
    ≡ true
unfolding all_below month_of scan
months_table = refl

month_of-letters :
    (m : ℕ)
    → m < 12
    → month_of
        (byte_at month_names (3 * m))
        (byte_at month_names (3 * m + 1))
        (byte_at month_names (3 * m + 2))
      ≡ m
month_of-letters m lt = ground (arith, all_below_sound 12 _ m months_table lt)

length-decimal_digits : (k fuel n : ℕ) → n < 10 ^ suc k → length (decimal_digits fuel n) ≤ suc k
unfolding decimal_digits
length-decimal_digits k zero n h = omega arith
length-decimal_digits zero (suc fuel) n h = ground arith
length-decimal_digits (suc k) (suc fuel) n h = elim (Bool-cases (ltb n 10)) [
  | inl e ↦ rw e (omega arith)
  | inr e ↦
      let front = decimal_digits fuel (n / 10) in
      let shorter = length-decimal_digits k fuel (n / 10) (omega (arith, h, pow-suc 10 (suc k))) in
      rw e (omega (arith, length-append front ((48 + n % 10) ∷ []), shorter))
]

abbrev time_text : Tm → Bytes
time_text tm = b' ' ∷ clock tm (codes " GMT")

module _ (epoch : ℕ) (tm : Tm) where
  abbrev date : Date
  date = record { m_unix = epoch; m_tms = tm }

  length-to_utc_string : length (to_utc_string date) ≡ 25 + length (to_decimal tm.year)
  unfolding to_utc_string
  length-to_utc_string = omega (arith, length-append (to_decimal tm.year) (time_text tm))

  read_utc-to_utc_string :
      IsProper tm → tm.year < 2 ^ 64 → read_utc (to_utc_string date) ≡ tm_seconds tm
  unfolding read_utc to_utc_string
  read_utc-to_utc_string h lt =
      let digits = to_decimal tm.year in
      let size : length (to_utc_string date) - 25 ≡ length digits =
        omega (arith, length-to_utc_string) in
      let year : strtoul digits ≡ tm.year = (strtoul-to_decimal tm.year lt).0 in
      let front = take-append digits (time_text tm) in
      let back = drop-append digits (time_text tm) in
      let mon = month_of-letters tm.tm_mon h.mon_bound in
      let mday =
        two-two_digits tm.tm_mday
          (omega (arith, h.mday_bound, days_in_month_bound tm.year tm.tm_mon)) in
      let hour = two-two_digits tm.tm_hour (omega (arith, h.hour_bound)) in
      let min = two-two_digits tm.tm_min (omega (arith, h.min_bound)) in
      let sec = two-two_digits tm.tm_sec (omega (arith, h.sec_bound)) in
      rw (size, front, back, year, mon, mday, hour, min, sec) refl

-- The text that `to_utc_string` gives for a time is read back as this time by a reader that counts days
-- with the Gregorian rule, and it fits into the buffer of 64 characters with its closing NUL. The time is
-- below 2^55 seconds, so that its year fits into an `int`.
pub read_utc-new_date :
    (epoch : ℕ)
    → epoch < 2 ^ 55
    → (read_utc (to_utc_string (new_date epoch)) ≡ epoch)
      × (length (to_utc_string (new_date epoch)) < 64)
unfolding new_date
read_utc-new_date epoch lt =
    let tm = gmtime epoch in
    let (proper, seconds, year) = gmtime-IsProper epoch in
    let small : tm.year < 10 ^ suc 9 = omega (arith, year) in
    let digits : length (to_decimal tm.year) ≤ suc 9 =
      unfold to_decimal in length-decimal_digits 9 (suc tm.year) tm.year small in
    (
      read_utc-to_utc_string epoch tm proper (omega (arith, small)) ∙ seconds,
      omega (arith, length-to_utc_string epoch tm, digits),
    )
