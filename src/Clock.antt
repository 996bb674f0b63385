-- ===== src/Clock.antt =====
-- Clock.cpp and Clock.h. A tick is a `time_t`, in seconds; `localtime_s`, `wcsftime`, `mktime` and
-- `swscanf_s` of the C library are parameters, and a reading of the system's clocks is an argument.
pub mod Millis
use iocp_chat_server.Base.{
  ℕ, ◌+◌, ◌-◌, ◌*◌, ◌/◌, ◌%◌, ◌<◌, Option, none, some, List, [], ◌∷◌, ◌++◌, get_or,
}
use iocp_chat_server.Base.Int.{ℤ, pos, ◌+ℤ◌, ◌-ℤ◌}
use iocp_chat_server.Base.Text.{Text, codes}

-- TICK_MIN, TICK_HOUR, TICK_DAY
abbrev pub tick_min : ℕ
tick_min = 60

abbrev pub tick_hour : ℕ
tick_hour = tick_min * 60

abbrev pub tick_day : ℕ
tick_day = tick_hour * 24

-- MIN_TO_TICK, HOUR_TO_TICK, DAY_TO_TICK
unfoldable pub min_to_tick : ℕ → ℕ
min_to_tick x = x * tick_min

unfoldable pub hour_to_tick : ℕ → ℕ
hour_to_tick x = x * tick_hour

unfoldable pub day_to_tick : ℕ → ℕ
day_to_tick x = x * tick_day

-- TICK_TO_MIN, TICK_TO_HOUR, TICK_TO_DAY, for ticks that are not negative
unfoldable pub tick_to_min : ℕ → ℕ
tick_to_min x = x / tick_min

unfoldable pub tick_to_hour : ℕ → ℕ
tick_to_hour x = x / tick_hour

unfoldable pub tick_to_day : ℕ → ℕ
tick_to_day x = x / tick_day

pub data DayOfTheWeek : Type 0 where
  day_sunday day_monday day_tuesday day_wednesday day_thursday day_friday day_saturday :
      DayOfTheWeek

-- `static_cast<DayOfTheWeek> (n)`, for the numbers that have a name.
unfoldable pub day_of_number : ℕ → Option DayOfTheWeek
day_of_number n =
    get_or
      (some day_sunday
        ∷ some day_monday
        ∷ some day_tuesday
        ∷ some day_wednesday
        ∷ some day_thursday
        ∷ some day_friday
        ∷ some day_saturday
        ∷ [])
      n none

pub record Tm : Type 0 where
  pub sec : ℤ
  pub min : ℤ
  pub hour : ℤ
  pub mday : ℤ
  pub mon : ℤ  -- from 0
  pub year : ℤ  -- since 1900
  pub wday : ℕ  -- days since Sunday

-- `wcsftime` gives `none` where the text and its zero do not fit. `swscanf_s` gives the numbers that it
-- stores. `mktime` takes the first six fields, with `tm_isdst` 0.
pub record CLibrary : Type 0 where
  pub localtime : ℤ → Tm
  pub wcsftime : ℕ → Text → Tm → Option Text
  pub swscanf : Text → Text → List ℤ
  pub mktime : (sec min hour mday mon year : ℤ) → ℤ

abbrev pub date_format : Text
date_format = codes "%Y-%m-%d"

abbrev pub size_128 : ℕ
size_128 = 128

-- The decimal digits of `%03d` for a number below 1000.
unfoldable pub three_digits : ℕ → Text
three_digits n = (48 + n / 100) ∷ (48 + n / 10 % 10) ∷ (48 + n % 10) ∷ []

module _ (c : CLibrary) where
  open c use {localtime, wcsftime, swscanf, mktime}

  -- `none`: the array holds no text.
  unfoldable pub tick_to_str : ℤ → Text → Option Text
  tick_to_str tick fmt = wcsftime size_128 fmt (localtime tick)

  -- The variables that `swscanf_s` does not reach are 0.
  unfoldable pub str_to_tick : Text → Text → ℤ
  str_to_tick str fmt =
      let r = swscanf str fmt in
      mktime (get_or r 5 (pos 0)) (get_or r 4 (pos 0)) (get_or r 3 (pos 0)) (get_or r 2 (pos 0))
        (get_or r 1 (pos 0) -ℤ pos 1) (get_or r 0 (pos 0) -ℤ pos 1900)

  -- `now` is `SystemTick ()`.
  unfoldable pub now_time : ℤ → Text → Option Text
  unfolding tick_to_str
  now_time now fmt = tick_to_str now fmt

  abbrev with_suffix : Option Text → Text → Option Text
  with_suffix none suffix = none
  with_suffix (some t) suffix = some (t ++ suffix)

  -- `ms` is the first reading, in milliseconds, and `now` the later one, in seconds.
  unfoldable pub now_time_with_milli_sec : (ms : ℕ) → (now : ℤ) → Text → Option Text
  unfolding three_digits with_suffix now_time
  now_time_with_milli_sec ms now fmt =
      with_suffix (now_time now fmt) (codes "." ++ three_digits (ms % 1000))

  unfoldable pub today : ℤ → Option Text
  today now = tick_to_str now date_format

  unfoldable pub tomorrow : ℤ → Option Text
  tomorrow now = tick_to_str (now +ℤ pos (day_to_tick 1)) date_format

  unfoldable pub yesterday : ℤ → Option Text
  yesterday now = tick_to_str (now -ℤ pos (day_to_tick 1)) date_format

  unfoldable pub today_of_the_week : ℤ → Option DayOfTheWeek
  unfolding day_of_number
  today_of_the_week now = day_of_number (localtime now).wday
