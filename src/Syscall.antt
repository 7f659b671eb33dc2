-- ===== src/Syscall.antt =====
-- src/interrupt.c: the interrupt handler and the system calls behind interrupt 0x30.

pub mod Line
pub mod Wait
pub mod Typed
mod Tests
use if2230_2023_oshiete.Common.{
  ℕ, zero, suc, ◌+◌, ◌-◌, ◌%◌, ◌^◌, Bytes, put8, put32, get32, leb, ltb, ◌==◌, if◌then◌else◌, List,
  [], ◌∷◌, Option, none, some, ◌>>=◌,
}
use if2230_2023_oshiete.Mem.{memcpy}
use if2230_2023_oshiete.Framebuffer.{Screen, puts_buff}
use if2230_2023_oshiete.Keyboard.{
  KeyboardDriverState, keyboard_buffer_size, keyboard_isr, keyboard_state_activate, reset_buffer,
  is_keyboard_blocking, get_keyboard_buffer,
}
use if2230_2023_oshiete.Pic.{Log, pic_ack}
use if2230_2023_oshiete.Fat32.Driver.{Fs, Request, Result}
use if2230_2023_oshiete.Fat32.Directory.{read_directory, read_root_directory}
use if2230_2023_oshiete.Fat32.Read.{read}
use if2230_2023_oshiete.Fat32.Write.{write}
use if2230_2023_oshiete.Fat32.Delete.{delete}
use if2230_2023_oshiete.Fat32.Move.{rename_dir, move_dir}

-- The registers of `struct CPURegister` that the calls use.
pub record CpuRegister : Type 0 where
  pub eax : ℕ
  pub ebx : ℕ
  pub ecx : ℕ
  pub edx : ℕ

-- The kernel's parts, the user's memory, what lies behind the local buffer of a call, and the writes
-- to the ports of the interrupt controllers.
pub record System : Type 0 where
  pub fs : Fs
  pub keyboard : KeyboardDriverState
  pub screen : Screen
  pub memory : Bytes
  pub behind : Bytes
  pub log : Log

-- What the keyboard's port answers to the interrupts: to the one handled, to those that arrive while
-- a call waits, and to those that arrive between the end of the wait and the copy of the buffer.
pub record Keys : Type 0 where
  pub scancode : ℕ
  pub arriving : List ℕ
  pub late : List ℕ

-- `*(struct FAT32DriverRequest *)p`, less `buf`, which is the word at p.
unfoldable pub request_at : Bytes → ℕ → Request
request_at m p = record {
  name = λ q. m (p + 4 + q);
  ext = λ q. m (p + 12 + q);
  parent_cluster_number = get32 m (p + 15);
  buffer_size = get32 m (p + 19);
}

-- The memory from p on, and a memory that is one from p on.
unfoldable pub view : Bytes → ℕ → Bytes
view m p q = m (p + q)

unfoldable pub put_view : Bytes → ℕ → Bytes → Bytes
put_view m p b q = if leb p q then b (q - p) else m q

-- An operation of the file system on the request at ebx, whose buffer and, with a pointer to
-- found_cluster_number, whose result lie in the user's memory.
unfoldable pub enter_fs : System → ℕ → ℕ → Fs
enter_fs sys buf edx = record (sys.fs) { buf = view sys.memory buf; found = get32 sys.memory edx }

-- The code goes to the byte at ecx.
unfoldable pub leave_fs : System → ℕ → ℕ → Result → System
leave_fs sys buf ecx (code, fs) = record sys {
  fs = fs;
  memory = put8 (put_view sys.memory buf fs.buf) ecx code;
}

-- With found_cluster_number at edx.
unfoldable pub leave_found : System → ℕ → ℕ → ℕ → Result → System
leave_found sys buf ecx edx (code, fs) = record sys {
  fs = fs;
  memory = put8 (put32 (put_view sys.memory buf fs.buf) edx fs.found) ecx code;
}

unfoldable pub on_found : System → CpuRegister → (Request → Fs → Option Result) → Option System
on_found sys cpu op = do
  let buf = get32 sys.memory cpu.ebx
  r ← op (request_at sys.memory cpu.ebx) (enter_fs sys buf cpu.edx)
  some (leave_found sys buf cpu.ecx cpu.edx r)

unfoldable pub on_request : System → CpuRegister → (Request → Fs → Option Result) → Option System
on_request sys cpu op = do
  let buf = get32 sys.memory cpu.ebx
  r ← op (request_at sys.memory cpu.ebx) (enter_fs sys buf cpu.edx)
  some (leave_fs sys buf cpu.ecx r)

-- The interrupt of the keyboard.
unfoldable pub on_key : System → ℕ → System
on_key sys scancode =
    let (keyboard, screen) = keyboard_isr sys.keyboard sys.screen scancode in
    record sys { keyboard = keyboard; screen = screen; log = pic_ack 1 sys.log }

unfoldable pub on_keys : System → List ℕ → System
on_keys sys [] = sys
on_keys sys (x ∷ xs) = on_keys (on_key sys x) xs

-- `while (is_keyboard_blocking());` with the interrupts that arrive; none if the call still waits
-- behind the last of them. An interrupt behind the one that ends the wait is one of `late`.
unfoldable pub wait : System → List ℕ → Option System
wait sys [] = if is_keyboard_blocking sys.keyboard then none else some sys
wait sys (x ∷ xs) =
    let more = wait (on_key sys x) xs in
    if is_keyboard_blocking sys.keyboard then more else some sys

-- `char buf[KEYBOARD_BUFFER_SIZE] = {'\\0'}`, and what lies behind it.
unfoldable pub local_buffer : Bytes → Bytes
local_buffer behind q = if ltb q keyboard_buffer_size then 0 else behind (q - keyboard_buffer_size)

unfoldable pub copy_line : System → CpuRegister → System
copy_line sys cpu =
    let buf = get_keyboard_buffer sys.keyboard (local_buffer sys.behind) in
    record sys { memory = memcpy sys.memory cpu.ebx buf 0 cpu.ecx }

-- eax = 4
unfoldable pub read_line : Keys → CpuRegister → System → Option System
read_line keys cpu sys = do
  let ready = record sys { keyboard = keyboard_state_activate (reset_buffer sys.keyboard) }
  woken ← wait ready keys.arriving
  some (copy_line (on_keys woken keys.late) cpu)

-- The bytes from p on.
unfoldable pub bytes_at : Bytes → ℕ → ℕ → List ℕ
bytes_at m p zero = []
bytes_at m p (suc n) = m p ∷ bytes_at m (suc p) n

-- eax = 5
unfoldable pub put_line : CpuRegister → System → System
put_line cpu sys = record sys {
  screen = puts_buff sys.screen (bytes_at sys.memory cpu.ebx cpu.ecx) cpu.edx;
}

unfoldable pub syscall : ℕ → Keys → CpuRegister → System → Option System
syscall fuel keys cpu sys =
    if cpu.eax == 0
    then on_found sys cpu (read fuel)
    else if cpu.eax == 1
    then on_found sys cpu (read_directory fuel)
    else if cpu.eax == 2
    then on_request sys cpu (write fuel)
    else if cpu.eax == 3
    then on_request sys cpu (delete fuel)
    else if cpu.eax == 4
    then read_line keys cpu sys
    else if cpu.eax == 5
    then some (put_line cpu sys)
    else if cpu.eax == 6
    then on_request sys cpu (read_root_directory fuel)
    else if cpu.eax == 7
    then on_request sys cpu (λ rq. rename_dir fuel rq (view sys.memory cpu.edx))
    else if cpu.eax == 8
    then on_request sys cpu (λ rq. move_dir fuel rq cpu.edx)
    else some sys

-- PIC1_OFFSET + IRQ_KEYBOARD is 0x21.
unfoldable pub main_interrupt_handler : ℕ → Keys → CpuRegister → ℕ → System → Option System
main_interrupt_handler fuel keys cpu int_number sys =
    if int_number == 0x21
    then some (on_key sys keys.scancode)
    else if int_number == 0x30
    then syscall fuel keys cpu sys
    else some sys

-- The two words of `struct TSSEntry` that the processor reads, at first and with the stack of the
-- kernel: ebp is the frame's base, behind which lie the old base and the return address.
pub record TssEntry : Type 0 where
  pub esp0 : ℕ
  pub ss0 : ℕ

abbrev pub interrupt_tss_entry : TssEntry
interrupt_tss_entry = record { esp0 = 0; ss0 = 0x10 }

unfoldable pub set_tss_kernel_current_stack : ℕ → TssEntry → TssEntry
set_tss_kernel_current_stack ebp tss = record tss { esp0 = (ebp + 8) % 2 ^ 32 }
