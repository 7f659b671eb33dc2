-- ===== src/Gdt/Segments.antt =====
-- What the processor reads in the descriptors of src/gdt.c.
use if2230_2023_oshiete.Common.{ℕ, ◌+◌, ◌*◌, ◌^◌, ◌<◌, ◌≡◌, ◌≢◌, refl, arith, ne→==}
use if2230_2023_oshiete.Gdt.{
  SegmentDescriptor, tss_segment, global_descriptor_table, gdt_install_tss,
}

-- The base and the limit, put together from their parts.
abbrev pub segment_base : SegmentDescriptor → ℕ
segment_base d = d.base_high * 2 ^ 24 + d.base_mid * 2 ^ 16 + d.base_low

abbrev pub segment_limit : SegmentDescriptor → ℕ
segment_limit d = d.limit * 2 ^ 16 + d.segment_low

-- After gdt_install_tss with an address of 32 bits, descriptor 5 of the kernel's table is a present
-- available task state of 32 bits at that address, with limit 104, and only for the kernel; every
-- other descriptor is as it was.
pub gdt_install_tss_lem :
    (base : ℕ)
    → base < 2 ^ 32
    → (segment_base (gdt_install_tss global_descriptor_table base 5) ≡ base)
      × (segment_limit (gdt_install_tss global_descriptor_table base 5) ≡ 104)
      × ((gdt_install_tss global_descriptor_table base 5).type_bit ≡ 9)
      × ((gdt_install_tss global_descriptor_table base 5).dpl ≡ 0)
      × ((i : ℕ)
          → i ≢ 5
          → gdt_install_tss global_descriptor_table base i ≡ global_descriptor_table i)
unfolding gdt_install_tss global_descriptor_table tss_segment
gdt_install_tss_lem base h = (omega arith, refl, refl, refl, λ i ne. rw (ne→== i 5 ne))
