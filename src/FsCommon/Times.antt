-- ===== src/FsCommon/Times.antt =====
-- crates/fs-common/src/lib.rs: the times of FAT and NTFS as milliseconds since 1970.
pub mod Calendar
use undelete_master.Base.{
  ℕ, ◌+◌, ◌-◌, ◌*◌, ◌/◌, ◌%◌, Bool, true, false, not, ◌&&◌, ◌||◌, Option, none, some, ltb, leb,
  ◌==◌, if◌then◌else◌,
}

-- `EPOCH_DIFF_100NS`
abbrev pub epoch_diff_100ns : ℕ
epoch_diff_100ns = 116_444_736_000_000_000

abbrev pub max_unix_ms : ℕ
max_unix_ms = 64_060_588_800_000

-- The signed difference, divided by 10,000 towards zero: whether it is below zero, and its size.
unfoldable pub signed_ms : ℕ → Bool × ℕ
signed_ms filetime =
    if ltb filetime epoch_diff_100ns
    then (true, (epoch_diff_100ns - filetime) / 10_000)
    else (false, (filetime - epoch_diff_100ns) / 10_000)

-- `(0..=64_060_588_800_000).contains(&ms)`; minus zero is zero.
unfoldable pub plausible : Bool × ℕ → Option ℕ
plausible (true, size) = if size == 0 then some 0 else none
plausible (false, size) = if leb size max_unix_ms then some size else none

unfoldable pub filetime_to_unix_ms : ℕ → Option ℕ
filetime_to_unix_ms filetime = if filetime == 0 then none else plausible (signed_ms filetime)

abbrev pub year_of : ℕ → ℕ
year_of date = 1980 + date / 512 % 128

abbrev pub month_of : ℕ → ℕ
month_of date = date / 32 % 16

abbrev pub day_of : ℕ → ℕ
day_of date = date % 32

abbrev pub hour_of : ℕ → ℕ
hour_of time = time / 2048 % 32

abbrev pub minute_of : ℕ → ℕ
minute_of time = time / 32 % 64

abbrev pub second_of : ℕ → ℕ
second_of time = time % 32 * 2

-- Days since 1970, counted from the first of March of a year that 400 divides. The years from 1980
-- on keep every number here at zero or above.
unfoldable pub civil_days : ℕ → ℕ → ℕ → ℕ
civil_days year month day =
    let y = if leb month 2 then year - 1 else year in
    let era = y / 400 in
    let yoe = y - era * 400 in
    let mp = (month + 9) % 12 in
    let doy = (153 * mp + 2) / 5 + day - 1 in
    let doe = yoe * 365 + yoe / 4 - yoe / 100 + doy in era * 146_097 + doe - 719_468

unfoldable pub is_encoding : ℕ → ℕ → Bool
is_encoding date time = not (
    not (leb 1 (month_of date) && leb (month_of date) 12)
    || not (leb 1 (day_of date) && leb (day_of date) 31)
    || ltb 23 (hour_of time)
    || ltb 59 (minute_of time)
    || ltb 59 (second_of time))

unfoldable pub dos_datetime_to_unix_ms : ℕ → ℕ → Option ℕ
dos_datetime_to_unix_ms date time =
    if is_encoding date time
    then some (
        (civil_days (year_of date) (month_of date) (day_of date) * 86_400
          + hour_of time * 3600
          + minute_of time * 60
          + second_of time)
        * 1000)
    else none
