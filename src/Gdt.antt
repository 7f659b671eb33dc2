-- ===== src/Gdt.antt =====
-- src/gdt.c and src/lib-header/gdt.h: the global descriptor table and the task state's descriptor.
-- The address of _interrupt_tss_entry is a parameter.
pub mod Segments
use if2230_2023_oshiete.Common.{ℕ, zero, suc, ◌/◌, ◌%◌, ◌^◌, ◌==◌, if◌then◌else◌}

pub record SegmentDescriptor : Type 0 where
  pub segment_low : ℕ
  pub base_low : ℕ
  pub base_mid : ℕ
  pub type_bit : ℕ
  pub non_system : ℕ
  pub dpl : ℕ
  pub segment_present : ℕ
  pub limit : ℕ
  pub avl : ℕ
  pub code_segment : ℕ
  pub def_op_size : ℕ
  pub granularity : ℕ
  pub base_high : ℕ

-- The four segments of the kernel's and the user's code and data, by their type and privilege.
unfoldable pub flat_segment : ℕ → ℕ → SegmentDescriptor
flat_segment kind privilege = record {
  segment_low = 0xFFFF;
  base_low = 0;
  base_mid = 0;
  type_bit = kind;
  non_system = 1;
  dpl = privilege;
  segment_present = 1;
  limit = 0xF;
  avl = 0;
  code_segment = 0;
  def_op_size = 1;
  granularity = 1;
  base_high = 0;
}

abbrev pub null_segment : SegmentDescriptor
null_segment = record {
  segment_low = 0;
  base_low = 0;
  base_mid = 0;
  type_bit = 0;
  non_system = 0;
  dpl = 0;
  segment_present = 0;
  limit = 0;
  avl = 0;
  code_segment = 0;
  def_op_size = 0;
  granularity = 0;
  base_high = 0;
}

-- sizeof(struct TSSEntry)
abbrev pub tss_entry_size : ℕ
tss_entry_size = 104

unfoldable pub tss_segment : SegmentDescriptor
tss_segment = record {
  segment_low = tss_entry_size;
  base_low = 0;
  base_mid = 0;
  type_bit = 9;
  non_system = 0;
  dpl = 0;
  segment_present = 1;
  limit = tss_entry_size / 2 ^ 16 % 16;
  avl = 0;
  code_segment = 0;
  def_op_size = 1;
  granularity = 0;
  base_high = 0;
}

unfoldable pub global_descriptor_table : ℕ → SegmentDescriptor
global_descriptor_table i =
    if i == 1
    then flat_segment 0xA 0
    else (if i == 2
        then flat_segment 2 0
        else (if i == 3
            then flat_segment 0xA 3
            else (if i == 4
                then flat_segment 2 3
                else (if i == 5 then tss_segment else null_segment))))

unfoldable pub gdt_install_tss : (ℕ → SegmentDescriptor) → ℕ → ℕ → SegmentDescriptor
gdt_install_tss table base i =
    if i == 5
    then record (table 5) {
      base_high = base / 2 ^ 24 % 256;
      base_mid = base / 2 ^ 16 % 256;
      base_low = base % 2 ^ 16;
    }
    else table i
