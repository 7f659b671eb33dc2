-- ===== src/Cmos.antt =====
-- src/cmos.c and the `struct time` of src/lib-header/cmos.h. What the chip answers is an input.
pub mod Laws
use if2230_2023_oshiete.Common.{ℕ, ◌+◌, ◌*◌, ◌/◌, ◌%◌, leb, if◌then◌else◌}

-- The bytes that `in(CMOS_DATA_PORT)` gives for the registers 0x00, 0x02, 0x04, 0x07, 0x08, 0x09
-- and 0x32, in the order in which they are read.
pub record Rtc : Type 0 where
  pub reg_second : ℕ
  pub reg_minute : ℕ
  pub reg_hour : ℕ
  pub reg_day : ℕ
  pub reg_month : ℕ
  pub reg_year : ℕ
  pub reg_century : ℕ

pub record Time : Type 0 where
  pub second : ℕ
  pub minute : ℕ
  pub hour : ℕ
  pub day : ℕ
  pub month : ℕ
  pub year : ℕ

-- ((x & 0xF0) >> 4) * 10 + (x & 0x0F), before it is stored.
unfoldable pub bcd_to_binary : ℕ → ℕ
bcd_to_binary x = x / 16 % 16 * 10 + x % 16

-- (x & 0x80) != 0 on a uint8_t.
unfoldable pub high_bit : ℕ → ℕ
high_bit x = x / 128 % 2

-- The hour is converted first, and its high bit is tested afterwards.
unfoldable pub to_24_hours : ℕ → ℕ
unfolding high_bit
to_24_hours h = if leb 1 (high_bit h) then (h % 128 + 12) % 24 else h

-- `year |= in(CMOS_DATA_PORT) << 8` joins two bytes that have no bit in common.
unfoldable pub cmos_read_rtc : Rtc → Time
unfolding bcd_to_binary to_24_hours
cmos_read_rtc r = record {
  second = bcd_to_binary r.reg_second % 256;
  minute = bcd_to_binary r.reg_minute % 256;
  hour = to_24_hours (bcd_to_binary r.reg_hour % 256);
  day = bcd_to_binary r.reg_day % 256;
  month = bcd_to_binary r.reg_month % 256;
  year = bcd_to_binary (r.reg_year % 256 + r.reg_century % 256 * 256) % 65536;
}
