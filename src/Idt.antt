-- ===== src/Idt.antt =====
-- src/idt.c and src/lib-header/idt.h: the interrupt descriptor table. The addresses of the stubs
-- (isr_stub_table, written in assembly) are a parameter; the instructions lidt and sti are left out.
pub mod Gates
use if2230_2023_oshiete.Common.{ℕ, zero, suc, ◌/◌, ◌%◌, ◌^◌, ◌==◌, ◌&&◌, leb, if◌then◌else◌}

abbrev pub isr_stub_table_limit : ℕ
isr_stub_table_limit = 64

abbrev pub gdt_kernel_code_segment_selector : ℕ
gdt_kernel_code_segment_selector = 8

pub record IdtGate : Type 0 where
  pub offset_low : ℕ
  pub segment : ℕ
  pub r_bit_1 : ℕ
  pub r_bit_2 : ℕ
  pub gate_32 : ℕ
  pub r_bit_3 : ℕ
  pub dpl : ℕ
  pub valid_bit : ℕ
  pub offset_high : ℕ

-- The table, and the fields that set_interrupt_gate gives to an entry.
unfoldable pub interrupt_gate : ℕ → ℕ → ℕ → IdtGate
interrupt_gate handler_address gdt_seg_selector privilege = record {
  offset_low = handler_address % 2 ^ 16;
  segment = gdt_seg_selector;
  r_bit_1 = 0;
  r_bit_2 = 6;
  gate_32 = 1;
  r_bit_3 = 0;
  dpl = privilege % 4;
  valid_bit = 1;
  offset_high = handler_address / 2 ^ 16 % 2 ^ 16;
}

-- The vector is a uint8_t.
unfoldable pub set_interrupt_gate : (ℕ → IdtGate) → ℕ → ℕ → ℕ → ℕ → ℕ → IdtGate
set_interrupt_gate table int_vector handler_address selector privilege i =
    if i == int_vector % 256 then interrupt_gate handler_address selector privilege else table i

unfoldable pub initialize_gate : (ℕ → ℕ) → (ℕ → IdtGate) → ℕ → ℕ → IdtGate
initialize_gate isr_stub_table table i =
    if leb 0x30 i && leb i 0x3F
    then set_interrupt_gate table i (isr_stub_table i) gdt_kernel_code_segment_selector 3
    else set_interrupt_gate table i (isr_stub_table i) gdt_kernel_code_segment_selector 0

-- The rounds left and `i`.
unfoldable pub initialize_gates : (ℕ → ℕ) → (ℕ → IdtGate) → ℕ → ℕ → ℕ → IdtGate
initialize_gates isr_stub_table table zero i = table
initialize_gates isr_stub_table table (suc k) i =
    initialize_gates isr_stub_table (initialize_gate isr_stub_table table i) k (suc i)

unfoldable pub initialize_idt : (ℕ → ℕ) → (ℕ → IdtGate) → ℕ → IdtGate
initialize_idt isr_stub_table table = initialize_gates isr_stub_table table isr_stub_table_limit 0
