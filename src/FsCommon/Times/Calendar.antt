-- ===== src/FsCommon/Times/Calendar.antt =====
-- `dos_datetime_to_unix_ms` of crates/fs-common/src/lib.rs against a calendar that counts days.
use undelete_master.Base.{
  ℕ, zero, suc, ◌+◌, ◌-◌, ◌*◌, ◌/◌, ◌%◌, ◌≤◌, ◌<◌, ◌≡◌, refl, ◌↔◌, inl, inr, Bool, true, not, ◌&&◌,
  ◌||◌, some, ltb, leb, ◌==◌, if◌then◌else◌, Bool-cases, arith,
}
use undelete_master.FsCommon.Times.{
  year_of, month_of, day_of, hour_of, minute_of, second_of, civil_days, is_encoding,
  dos_datetime_to_unix_ms, signed_ms, plausible, filetime_to_unix_ms, epoch_diff_100ns, max_unix_ms,
}

-- The Gregorian calendar, a year and a month at a time.
abbrev is_leap : ℕ → Bool
is_leap year = year % 4 == 0 && not (year % 100 == 0) || year % 400 == 0

abbrev year_length : ℕ → ℕ
year_length year = if is_leap year then 366 else 365

abbrev month_length : ℕ → ℕ → ℕ
month_length year month =
    if month == 2
    then (if is_leap year then 29 else 28)
    else if month == 4 || month == 6 || month == 9 || month == 11
    then 30
    else 31

-- The first years from 1970 on, and the first months of a year.
abbrev years : ℕ → ℕ
years zero = 0
years (suc n) = years n + year_length (1970 + n)

abbrev months : ℕ → ℕ → ℕ
months year zero = 0
months year (suc n) = months year n + month_length year (suc n)

abbrev pub days_since_1970 : ℕ → ℕ → ℕ → ℕ
days_since_1970 year month day = years (year - 1970) + months year (month - 1) + (day - 1)

abbrev all_below : ℕ → (ℕ → Bool) → Bool
all_below zero p = true
all_below (suc n) p = p n && all_below n p

all_below_lem : (n : ℕ) (p : ℕ → Bool) → all_below n p ≡ true → (i : ℕ) → i < n → p i ≡ true
all_below_lem zero p h i l = absurd (omega arith)
all_below_lem (suc n) p h i l = elim (Bool-cases (i == n)) [
  | inl last ↦ let same : i ≡ n = ground arith in rw same (ground arith)
  | inr other ↦ all_below_lem n p (ground arith) i (ground arith)
]

-- The years that a date of FAT can name.
abbrev agree : ℕ → ℕ → Bool
agree i j =
    civil_days (1980 + i) (1 + j) 1 == days_since_1970 (1980 + i) (1 + j) 1
    && leb 3652 (days_since_1970 (1980 + i) (1 + j) 1)

all_agree : all_below 128 (λ i. all_below 12 (λ j. agree i j)) ≡ true
unfolding civil_days
all_agree = refl

first_agrees : (i j : ℕ) → i < 128 → j < 12 → agree i j ≡ true
first_agrees i j year month =
    all_below_lem 12 (λ k. agree i k)
      (all_below_lem 128 (λ n. all_below 12 (λ k. agree n k)) all_agree i year) j month

-- Every day of a month lies as far behind the first as its number says.
civil_days_day :
    (year month day : ℕ)
    → 0 < day
    → 0 < civil_days year month 1
    → civil_days year month day ≡ civil_days year month 1 + (day - 1)
unfolding civil_days
civil_days_day year month day pos some_days = ground arith

civil_days_lem :
    (i month day : ℕ)
    → i < 128
    → 0 < month
    → month ≤ 12
    → 0 < day
    → civil_days (1980 + i) month day ≡ days_since_1970 (1980 + i) month day
civil_days_lem i month day year pos few some_day =
    let at : 1 + (month - 1) ≡ month = omega arith in
    let first = first_agrees i (month - 1) year (omega arith) in
    let first' = rw at at first in
    let later = civil_days_day (1980 + i) month day some_day (ground arith) in ground arith

-- The fields of a date and a time are ones that a clock and a calendar of months can show.
abbrev pub IsShown : ℕ → ℕ → Type 0
IsShown date time =
    (1 ≤ month_of date)
    × (month_of date ≤ 12)
    × (1 ≤ day_of date)
    × (hour_of time ≤ 23)
    × (minute_of time ≤ 59)
    × (second_of time ≤ 59)

abbrev pub shown_ms : ℕ → ℕ → ℕ
shown_ms date time =
    (days_since_1970 (year_of date) (month_of date) (day_of date) * 86_400
      + hour_of time * 3600
      + minute_of time * 60
      + second_of time)
    * 1000

is_encoding-IsShown : (date time : ℕ) → is_encoding date time ≡ true → IsShown date time
unfolding is_encoding
is_encoding-IsShown date time h =
    (ground arith, ground arith, ground arith, ground arith, ground arith, ground arith)

IsShown-is_encoding : (date time : ℕ) → IsShown date time → is_encoding date time ≡ true
unfolding is_encoding
IsShown-is_encoding date time (month, few, day, hour, minute, second) = ground arith

shown-civil_days :
    (date time : ℕ)
    → IsShown date time
    → civil_days (year_of date) (month_of date) (day_of date)
      ≡ days_since_1970 (year_of date) (month_of date) (day_of date)
shown-civil_days date time (month, few, day, _, _, _) =
    civil_days_lem (date / 512 % 128) (month_of date) (day_of date) (omega arith) month few day

-- A date and a time of FAT become a number of milliseconds just when every field is in its range,
-- and then the number is that of a calendar that counts the days year by year and month by month
-- since 1970, with the days of the month counted on from its first, however long the month is.
pub dos_datetime_to_unix_ms_iff :
    (date time ms : ℕ)
    → (dos_datetime_to_unix_ms date time ≡ some ms)
      ↔ (IsShown date time × (ms ≡ shown_ms date time))
unfolding dos_datetime_to_unix_ms
dos_datetime_to_unix_ms_iff date time ms = elim (Bool-cases (is_encoding date time)) [
  | inl good ↦
      let shown = is_encoding-IsShown date time good in
      let days = shown-civil_days date time shown in
      rw (good, days) (λ e. (shown, cc), λ (_, same). rw same refl)
  | inr bad ↦ rw bad (
    λ e. absurd (cc),
    λ (shown, _). let good = IsShown-is_encoding date time shown in absurd (cc),
  )
]

-- A FILETIME becomes the whole milliseconds since 1970, up to a bound; the last millisecond before
-- 1970 becomes zero too.
pub filetime_to_unix_ms_iff :
    (filetime ms : ℕ)
    → (filetime_to_unix_ms filetime ≡ some ms) ↔ (
        (epoch_diff_100ns < filetime + 10_000)
        × (ms ≡ (filetime - epoch_diff_100ns) / 10_000)
        × (ms ≤ max_unix_ms))
unfolding filetime_to_unix_ms plausible signed_ms
filetime_to_unix_ms_iff filetime ms = elim (Bool-cases (ltb filetime epoch_diff_100ns)) [
  | inl early ↦ rw early (λ e. ground arith, λ (near, same, most). ground arith)
  | inr late ↦ rw late (λ e. ground arith, λ (near, same, most). ground arith)
]
