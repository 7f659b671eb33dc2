-- ===== src/Disk.antt =====
-- src/disk.c: the two block transfers, by what they do to the medium. The drive's port protocol
-- (busy and ready polling, the 16-bit data port) is the device's side and is not modelled. The
-- ports receive bits 0 to 27 of the block address, and the count as a byte.
use if2230_2023_oshiete.Common.{ℕ, ◌*◌, ◌%◌, ◌^◌, Bytes, copy}

abbrev pub block_size : ℕ
block_size = 512

-- Where a block begins on the medium.
unfoldable pub block_at : ℕ → ℕ
block_at logical_block_address = logical_block_address % 2 ^ 28 * block_size

unfoldable pub read_blocks : Bytes → Bytes → ℕ → ℕ → ℕ → Bytes
read_blocks disk m ptr logical_block_address block_count =
    copy m ptr disk (block_at logical_block_address) (block_count % 256 * block_size)

unfoldable pub write_blocks : Bytes → Bytes → ℕ → ℕ → ℕ → Bytes
write_blocks disk m ptr logical_block_address block_count =
    copy disk (block_at logical_block_address) m ptr (block_count % 256 * block_size)
