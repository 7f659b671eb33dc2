-- ===== src/Pic.antt =====
-- The interrupt controllers in src/interrupt.c: what the kernel sends to their ports. A log holds
-- the writes to ports, the last one first; what a port answers is a parameter.
pub mod Lines
use if2230_2023_oshiete.Common.{ℕ, ◌+◌, ◌-◌, ◌%◌, ◌^◌, leb, if◌then◌else◌, List, ◌∷◌}

abbrev pub Log : Type 0
Log = List (ℕ × ℕ)

abbrev pub pic1_command : ℕ
pic1_command = 0x20

abbrev pub pic1_data : ℕ
pic1_data = 0x21

abbrev pub pic2_command : ℕ
pic2_command = 0xA0

abbrev pub pic2_data : ℕ
pic2_data = 0xA1

abbrev pub pic_acknowledge : ℕ
pic_acknowledge = 0x20

-- out(port, value)
abbrev pub out : ℕ → ℕ → Log → Log
out port value log = (port, value % 256) ∷ log

abbrev pub io_wait : Log → Log
io_wait log = out 0x80 0 log

unfoldable pub pic_ack : ℕ → Log → Log
pic_ack irq log =
    let log = if leb 8 irq then out pic2_command pic_acknowledge log else log in
    out pic1_command pic_acknowledge log

-- A write that io_wait follows.
abbrev pub out_wait : ℕ → ℕ → Log → Log
out_wait port value log = io_wait (out port value log)

-- a1 and a2 are what the data ports answer: the masks.
unfoldable pub pic_remap : ℕ → ℕ → Log → Log
pic_remap a1 a2 log =
    let log = out_wait pic1_command 0x11 log in
    let log = out_wait pic2_command 0x11 log in
    let log = out_wait pic1_data 0x20 log in
    let log = out_wait pic2_data 0x28 log in
    let log = out_wait pic1_data 4 log in
    let log = out_wait pic2_data 2 log in
    let log = out_wait pic1_data 1 log in
    let log = out_wait pic2_data 1 log in let log = out pic1_data a1 log in out pic2_data a2 log

-- PIC_DISABLE_ALL_MASK ^ (1 << IRQ_KEYBOARD): the bit is set in the mask, so that `^` takes it out.
unfoldable pub activate_keyboard_interrupt : Log → Log
activate_keyboard_interrupt log = out pic2_data 0xFF (out pic1_data (0xFF - 2 ^ 1) log)
