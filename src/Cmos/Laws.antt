-- ===== src/Cmos/Laws.antt =====
-- The conversion of src/cmos.c on registers in binary-coded decimal.
use if2230_2023_oshiete.Common.{ℕ, ◌+◌, ◌*◌, ◌/◌, ◌%◌, ◌<◌, ◌≡◌, arith}
use if2230_2023_oshiete.Cmos.{Rtc, Time, bcd_to_binary, to_24_hours, cmos_read_rtc}

-- The byte whose two digits are those of n.
abbrev pub bcd : ℕ → ℕ
bcd n = n / 10 * 16 + n % 10

-- The chip as it shows the time t in 24-hour mode, with the century c.
abbrev pub showing : Time → ℕ → Rtc
showing t c = record {
  reg_second = bcd t.second;
  reg_minute = bcd t.minute;
  reg_hour = bcd t.hour;
  reg_day = bcd t.day;
  reg_month = bcd t.month;
  reg_year = bcd t.year;
  reg_century = bcd c;
}

-- Two decimal digits in every register.
pub record IsDecimal (t : Time) : Type 0 where
  pub second_bound : t.second < 100
  pub minute_bound : t.minute < 100
  pub hour_bound : t.hour < 100
  pub day_bound : t.day < 100
  pub month_bound : t.month < 100
  pub year_bound : t.year < 100

bcd_to_binary-bcd : (n : ℕ) → n < 100 → bcd_to_binary (bcd n) % 256 ≡ n
unfolding bcd_to_binary
bcd_to_binary-bcd n h = omega arith

to_24_hours-bcd : (n : ℕ) → n < 100 → to_24_hours (bcd_to_binary (bcd n) % 256) ≡ n
unfolding to_24_hours
to_24_hours-bcd n h = ground (arith, bcd_to_binary-bcd n h)

year-bcd : (n c : ℕ) → n < 100 → bcd_to_binary (bcd n % 256 + bcd c % 256 * 256) % 65536 ≡ n
unfolding bcd_to_binary
year-bcd n c h = omega arith

-- Reading a chip in 24-hour mode that shows the time t, every field below 100, gives t: the year
-- is the last two digits, whatever the century register holds.
pub cmos_read_rtc-showing : (t : Time) (c : ℕ) → IsDecimal t → cmos_read_rtc (showing t c) ≡ t
unfolding cmos_read_rtc
cmos_read_rtc-showing t c h = λ i. record {
  second = bcd_to_binary-bcd t.second h.second_bound i;
  minute = bcd_to_binary-bcd t.minute h.minute_bound i;
  hour = to_24_hours-bcd t.hour h.hour_bound i;
  day = bcd_to_binary-bcd t.day h.day_bound i;
  month = bcd_to_binary-bcd t.month h.month_bound i;
  year = year-bcd t.year c h.year_bound i;
}
