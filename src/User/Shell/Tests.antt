-- ===== src/User/Shell/Tests.antt =====
-- The shell (src/user-shell.c) on a concrete line.
use if2230_2023_oshiete.Common.{
  ◌≡◌, refl, List, [], ◌∷◌, Option, none, some, true, false, put8, put32, for_loop, while_loop,
  get16, put16, get32, copy, clear,
}
use if2230_2023_oshiete.Str.{strlen, strcmp, strcpy, strncpy, strcat}
use if2230_2023_oshiete.Str.Token.{is_delimiter, find_delimiter, cut, strtok}
use if2230_2023_oshiete.Str.Parse.{parse_token, parse_round, parse_loop, strparse}
use if2230_2023_oshiete.Mem.{memset, memcpy, memcmp, memmove}
use if2230_2023_oshiete.Disk.{block_at, read_blocks, write_blocks}
use if2230_2023_oshiete.Framebuffer.{
  framebuffer_get_cursor, framebuffer_set_cursor, widen, framebuffer_set_entry, set_cell,
  framebuffer_write, framebuffer_getchar, framebuffer_get_fg, framebuffer_get_bg, clear_row,
  clear_rows, framebuffer_clear, scroll_cell, scroll_row, scroll_rows, framebuffer_scroll_down,
  line_feed, put_char, puts_buff,
}
use if2230_2023_oshiete.Keyboard.{
  scancode_to_ascii, initial, keyboard_state_activate, keyboard_state_deactivate,
  get_keyboard_buffer, is_keyboard_blocking, clear_from, reset_buffer, back_to_text, back_position,
  backspace, shift_char, type_char, handle_key, keyboard_isr,
}
use if2230_2023_oshiete.Pic.{pic_ack, pic_remap, activate_keyboard_interrupt}
use if2230_2023_oshiete.Syscall.{
  System, Keys, request_at, view, put_view, enter_fs, leave_fs, leave_found, on_found, on_request,
  on_key, on_keys, wait, local_buffer, copy_line, read_line, bytes_at, put_line, syscall,
  main_interrupt_handler, set_tss_kernel_current_stack,
}
use if2230_2023_oshiete.Cmos.{bcd_to_binary, high_bit, to_24_hours, cmos_read_rtc}
use if2230_2023_oshiete.Fat32.Layout.{
  end_of_file, attribute, user_attribute, undelete, filesize, entry_cluster, set_entry_cluster,
  cluster_map, set_cluster_map,
}
use if2230_2023_oshiete.Fat32.Driver.{
  Fs, cluster_to_lba, write_clusters, read_clusters, load_fat, save_fat, load_dir, save_dir,
  stamp_create, stamp_access, init_directory_table,
}
use if2230_2023_oshiete.Fat32.Directory.{
  same_name, same_ext, copy_table, touch_entry, open_directory, read_directory_entry, next_table,
  read_directory_table, read_directory, copy_cluster, read_root_directory,
}
use if2230_2023_oshiete.Fat32.Read.{read_file, read_entry, read_table, read}
use if2230_2023_oshiete.User.{
  puts, pushed, push, pop, directory_request, call_read_directory, descend, walk_name, walk_part,
  last_part, after_walk, walk_parts, read_path,
}
use if2230_2023_oshiete.User.Cd.{enter_last, resolve, report, cd}
use if2230_2023_oshiete.User.Pwd.{put_name, put_names, pwd}
use if2230_2023_oshiete.User.Commands.{
  Shell, Frame, run_of, with_run, with_shown, with_moved, caller_of, on_word, run_cat, run_cd,
  run_ls, run_mkdir, run_mv, run_whereis, run_touch, run_rm, run_cp, refuse_command, execute_cp,
  execute_rm, execute_touch, execute_whereis, execute_mv, execute_mkdir, execute,
}
use if2230_2023_oshiete.User.Shell.{
  show_prompt, run_line, shell_round, shell_rounds, retcode_after, start_shell, main,
}
use if2230_2023_oshiete.Fat32.Init.{zeros}
use if2230_2023_oshiete.Fat32.Tests.{machine, medium}
use if2230_2023_oshiete.User.Whereis.{root_stack}

-- The root holds the directory "a" in cluster 5.
abbrev running : Fs
running =
    machine (put32 (put8 (put8 medium 4139 16) 4154 5) 2068 end_of_file) (put32 zeros 8 end_of_file)
      zeros

abbrev idle : System
idle = record {
  fs = running;
  keyboard = record {
    read_extended_mode = false;
    keyboard_input_on = true;
    buffer_index = 0;
    keyboard_buffer = λ i. 0;
    shift_pressed = false;
    capslock_activated = false;
  };
  screen = record { cells = λ q. 0; cursor = 0 };
  memory = zeros;
  behind = zeros;
  log = [];
}

-- The keys of "cd a", and enter.
abbrev typed : List Keys
typed = record { scancode = 0; arriving = 0x2E ∷ 0x20 ∷ 0x39 ∷ 0x1E ∷ 0x1C ∷ []; late = [] } ∷ []

abbrev frame : Frame
frame = record { unset = zeros; local = 100 }

abbrev ended_of : Option Shell → Shell
ended_of none = record { cwd = root_stack; next = none; sys = idle }
ended_of (some sh) = sh

abbrev ended : Shell
ended = ended_of (main 1 520 frame typed idle)

top_is_one : ended.cwd.top ≡ 1
unfolding for_loop while_loop put8 get16 put16 get32 put32 copy clear strlen strcmp strcpy strncpy
    strcat is_delimiter find_delimiter cut strtok parse_token parse_round parse_loop strparse memset
    memcpy memcmp memmove block_at read_blocks write_blocks framebuffer_get_cursor
    framebuffer_set_cursor widen framebuffer_set_entry set_cell framebuffer_write
    framebuffer_getchar framebuffer_get_fg framebuffer_get_bg clear_row clear_rows framebuffer_clear
    scroll_cell scroll_row scroll_rows framebuffer_scroll_down line_feed put_char puts_buff
    scancode_to_ascii initial keyboard_state_activate keyboard_state_deactivate get_keyboard_buffer
    is_keyboard_blocking clear_from reset_buffer back_to_text back_position backspace shift_char
    type_char handle_key keyboard_isr pic_ack pic_remap activate_keyboard_interrupt request_at view
    put_view enter_fs leave_fs leave_found on_found on_request on_key on_keys wait local_buffer
    copy_line read_line bytes_at put_line syscall main_interrupt_handler
    set_tss_kernel_current_stack bcd_to_binary high_bit to_24_hours cmos_read_rtc attribute
    user_attribute undelete filesize entry_cluster set_entry_cluster cluster_map set_cluster_map
    cluster_to_lba write_clusters read_clusters load_fat save_fat load_dir save_dir stamp_create
    stamp_access init_directory_table same_name same_ext copy_table touch_entry open_directory
    read_directory_entry next_table read_directory_table read_directory copy_cluster
    read_root_directory read_file read_entry read_table read puts pushed push pop directory_request
    call_read_directory descend walk_name walk_part last_part after_walk walk_parts read_path
    enter_last resolve report cd put_name put_names pwd run_of with_run with_shown with_moved
    caller_of on_word run_cat run_cd run_ls run_mkdir run_mv run_whereis run_touch run_rm run_cp
    refuse_command execute_cp execute_rm execute_touch execute_whereis execute_mv execute_mkdir
    execute show_prompt run_line shell_round shell_rounds retcode_after start_shell main
top_is_one = refl
