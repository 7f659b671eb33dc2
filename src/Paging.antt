-- ===== src/Paging.antt =====
-- src/paging.c and src/lib-header/paging.h: the kernel's page directory, and the frames handed to
-- user programs. Flushing the translation cache is left out.
pub mod Frames
use if2230_2023_oshiete.Common.{ℕ, ◌+◌, ◌*◌, ◌/◌, ◌%◌, ◌^◌, ◌-◌, ◌==◌, ◌||◌, Bool, if◌then◌else◌}

abbrev pub page_entry_count : ℕ
page_entry_count = 1024

abbrev pub page_frame_size : ℕ
page_frame_size = 4 * 1024 * 1024

pub record PageDirectoryEntryFlag : Type 0 where
  pub present_bit : ℕ
  pub write_bit : ℕ
  pub user : ℕ
  pub pwt : ℕ
  pub pcd : ℕ
  pub accessed : ℕ
  pub dirty : ℕ
  pub use_pagesize_4_mb : ℕ

pub record PageDirectoryEntry : Type 0 where
  pub flag : PageDirectoryEntryFlag
  pub global_page : ℕ
  pub ignored : ℕ
  pub pat : ℕ
  pub higher_address : ℕ
  pub reserved : ℕ
  pub lower_address : ℕ

-- _paging_kernel_page_directory and page_driver_state.
pub record Paging : Type 0 where
  pub table : ℕ → PageDirectoryEntry
  pub last_available_physical_addr : ℕ

-- The flags that an initialiser does not name are 0.
abbrev pub flags : ℕ → ℕ → ℕ → ℕ → PageDirectoryEntryFlag
flags present write user large = record {
  present_bit = present;
  write_bit = write;
  user = user;
  pwt = 0;
  pcd = 0;
  accessed = 0;
  dirty = 0;
  use_pagesize_4_mb = large;
}

abbrev pub entry_of : PageDirectoryEntryFlag → PageDirectoryEntry
entry_of f = record {
  flag = f;
  global_page = 0;
  ignored = 0;
  pat = 0;
  higher_address = 0;
  reserved = 0;
  lower_address = 0;
}

-- The first frame is mapped at address 0 and at 0xC0000000.
unfoldable pub paging_kernel_page_directory : ℕ → PageDirectoryEntry
paging_kernel_page_directory i =
    if i == 0 || i == 0x300 then entry_of (flags 1 1 0 1) else entry_of (flags 0 0 0 0)

unfoldable pub initial : Paging
initial = record {
  table = paging_kernel_page_directory;
  last_available_physical_addr = page_frame_size;
}

-- (addr >> 22) & 0x3FF
unfoldable pub page_index : ℕ → ℕ
page_index addr = addr / 2 ^ 22 % 1024

unfoldable pub update_page_directory_entry : Paging → ℕ → ℕ → PageDirectoryEntryFlag → Paging
update_page_directory_entry p physical virtual f = record p {
  table = λ i.
      if i == page_index virtual
      then record (p.table i) { flag = f; lower_address = page_index physical }
      else p.table i;
}

-- The result is the byte of the return code: -1 as 255.
unfoldable pub allocate_single_user_page_frame : Paging → ℕ → ℕ × Paging
allocate_single_user_page_frame p virtual =
    let last_physical_addr = p.last_available_physical_addr in
    let p = update_page_directory_entry p last_physical_addr virtual (flags 1 1 1 1) in
    (
      255,
      record p { last_available_physical_addr = (last_physical_addr + page_frame_size) % 2 ^ 32 },
    )
