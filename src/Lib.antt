-- ===== src/Lib.antt =====
-- A model of the kernel of this repository, an operating system for the i386, and theorems on it.
--
-- The kernel keeps a FAT32 file system on an ATA disk, reads keys and writes text by interrupts, and
-- runs a shell in user mode that calls it through interrupt 0x30. Every file here models one file
-- of src/, and the modules below it hold the theorems:
--   Common       shared: tests on numbers, C loops with break and return, memories, results
--                that may be missing, and tests over ranges
--   Mem          src/stdmem.c: memset, memcpy, memcmp, memmove
--   Str          src/string.c: strlen, strcmp, strcpy, strncpy, strcat; Str.Token: strtok;
--                Str.Parse: strparse
--   Cmos         src/cmos.c: the clock
--   Disk         src/disk.c: blocks of the medium
--   Fat32        src/fat32.c and src/lib-header/fat32.h: the file system driver
--   Framebuffer  src/framebuffer.c: the screen
--   Keyboard     src/keyboard.c: the keyboard driver
--   Paging       src/paging.c: the page directory
--   Idt, Gdt     src/idt.c, src/gdt.c: the descriptor tables of the processor
--   Pic          src/interrupt.c: what is sent to the interrupt controllers
--   Syscall      src/interrupt.c: the dispatch of interrupts and the system calls
--   User         src/syscall.c: puts and read_path; User.Filename: separate_filename; User.Cd:
--                src/commands/cd.c; User.Mkdir, Cat, Ls, Touch, Rm, Mv, Cp, Whereis: the other
--                files of src/commands; User.Target: what rm, mv and cp share; User.Pwd,
--                User.Commands and User.Shell: src/user-shell.c
--
-- A memory is a function from addresses to bytes (Common.Memory), and a structure is read in place,
-- at the offsets that its packed declaration gives its fields (Fat32.Layout). The state of the
-- driver (Fat32.Driver.Fs) is the medium, driver_state, the buffer of the request, the number that
-- read_directory hands back, the readings of the clock, and the bytes that an uninitialised local
-- of write and move_dir holds. An operation takes the request and the state, and gives the answer
-- and the new state; an int8_t answer of -1 is 255. In Fat32, Driver, Init, Directory, Read, Write,
-- Delete and Move hold the definitions, in the order of the source. read_clusters and
-- write_clusters move blocks by Disk; load_fat, save_fat, load_dir and save_dir are the transfers
-- between driver_state and the medium that the operations make.
--
-- Loops (Common.Loops): the body says whether to go on, to leave the loop or to return. A `for` loop
-- has its number of rounds. A `while` loop has fuel, as does each loop along the chain of a file,
-- and running out of it is an outcome of its own: the theorems on these loops give fuel that is
-- enough, a round for each cluster of the chain and, for write, one more for the loop's test.
-- The routines of Str have fuel in the same way, and need more than the length of the string.
-- Words are natural numbers with their wrap-around written out.
--
-- A system call (Syscall) works on the kernel's parts and the user's memory: a request is read from
-- the packed structure at ebx, and buffer, code and found_cluster_number go back to the addresses
-- that the program gave, which do not overlap. While system call 4 waits, interrupts arrive, whose
-- scancodes are a list. Syscall.Line is the line editor that the call is held against. The user's
-- library and commands work on their own variables, and on the kernel by the operation that a system
-- call leads to: read for call 0, read_directory for 1, write for 2, delete for 3, puts_buff for 5,
-- read_root_directory for 6, rename_dir for 7 and move_dir for 8. Fuel of 130 and more is enough for
-- strings in rows of 128 bytes. rm, cp and whereis call themselves, up to a depth that is an argument:
-- one more than the depth of the directories below the path. The shell (User.Shell.main) takes the
-- keys of its lines as a list, and its commands (User.Commands.execute) the words of a line.
--
-- The table of words has 12 rows of 128 bytes, and the stack 512 directories: a call that would write
-- behind them has no result in the model (Str.Parse.parse_token, User.push, and the path of
-- User.Whereis). The buffers of names and paths in a command, of 3 to 50 bytes, are memories of their
-- own: what is written behind the end of one reaches no other variable, and is not covered.
--
-- Left out: the waiting and the port protocol of the disk, the ports of the cursor, processor
-- instructions such as invlpg and lidt, and bit fields that nothing reads. Not modelled: the set-up of the
-- kernel, a fixed sequence of calls, and src/fat32-no-cmos.c, an older copy of the driver for the
-- program that puts files on a disk image. The request's buffer is an object of its own: it does not overlap driver_state. The
-- tests are in Tests, Fat32.Tests, Str.Tests, Syscall.Tests, User.Tests
-- and those of the modules below User.
pub mod Common
pub mod Mem
pub mod Cmos
pub mod Disk
pub mod Fat32
pub mod Framebuffer
pub mod Keyboard
pub mod Paging
pub mod Idt
pub mod Gdt
pub mod Pic
pub mod Str
pub mod Syscall
pub mod User
mod Tests
