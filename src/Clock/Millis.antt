-- ===== src/Clock/Millis.antt =====
-- Clock.cpp: dates and times as text.
use iocp_chat_server.Base.{ℕ, ◌+◌, ◌-◌, ◌*◌, ◌%◌, ◌≡◌, ap, ◌<◌, [], ◌∷◌, length, arith, get_or}
use iocp_chat_server.Base.Int.{ℤ, pos, ◌+ℤ◌, ◌-ℤ◌, +ℤ_cancel, -ℤ_cancel}
use iocp_chat_server.Base.Text.{Text}
use iocp_chat_server.Clock.{
  CLibrary, three_digits, str_to_tick, tick_to_str, today, tomorrow, yesterday, day_to_tick,
  date_format,
}

-- The number that three digits show.
pub number_of : Text → ℕ
number_of t = 100 * (get_or t 0 0 - 48) + 10 * (get_or t 1 0 - 48) + (get_or t 2 0 - 48)

abbrev pub IsDigit : ℕ → Type 0
IsDigit d = (47 < d) × (d < 58)

-- For every number of milliseconds the three characters behind the point are digits, they show the
-- milliseconds of the second, and with their zero they fit the array of 8.
pub three_digits_lem :
    (ms : ℕ)
    → let t = three_digits (ms % 1000) in
      (number_of t ≡ ms % 1000)
      × IsDigit (get_or t 0 0)
      × IsDigit (get_or t 1 0)
      × IsDigit (get_or t 2 0)
      × (length t < 8)
unfolding number_of three_digits
three_digits_lem ms = omega arith

-- The day before tomorrow, and the day after yesterday, are today.
pub yesterday-tomorrow :
    (c : CLibrary) (now : ℤ)
    → (yesterday c (now +ℤ pos (day_to_tick 1)) ≡ today c now)
      × (tomorrow c (now -ℤ pos (day_to_tick 1)) ≡ today c now)
unfolding yesterday tomorrow today
yesterday-tomorrow c now =
    let d = pos (day_to_tick 1) in
    (
      ap (λ (t : ℤ). tick_to_str c t date_format) (+ℤ_cancel now d),
      ap (λ (t : ℤ). tick_to_str c t date_format) (-ℤ_cancel now d),
    )

-- The date and time of a tick, read back from a text with its six numbers, give the tick, if `mktime`
-- undoes `localtime_s` there.
pub str_to_tick-localtime :
    (c : CLibrary) (tick : ℤ) (str fmt : Text)
    → let t = c.localtime tick in
      c.mktime t.sec t.min t.hour t.mday t.mon t.year ≡ tick
      → c.swscanf str fmt
        ≡ (t.year +ℤ pos 1900) ∷ (t.mon +ℤ pos 1) ∷ t.mday ∷ t.hour ∷ t.min ∷ t.sec ∷ []
      → str_to_tick c str fmt ≡ tick
unfolding str_to_tick
str_to_tick-localtime c tick str fmt inverse scanned =
    let t = c.localtime tick in
    rw (str_to_tick, scanned, +ℤ_cancel t.year (pos 1900), +ℤ_cancel t.mon (pos 1)) inverse
