-- ===== src/Programs.antt =====
-- src/loader.c and src/syscall.c: a program loaded and run, and the table of calls that it finds.
pub mod Laws
mod Tests
use zareboon_os.Prelude.{
  ℕ, zero, suc, Bool, true, false, ◌||◌, Option, none, some, ◌==◌, if◌then◌else◌, ltb, List,
}
use zareboon_os.Fs.Device.{SectorDevice, Bytes}
use zareboon_os.Fs.Volume.{Fs, Run, ◌>>=◌, pure}
use zareboon_os.Fs.Entries.{FileInfo}
use zareboon_os.Fs.Read.{fs_find_file, fs_read_file}

-- PROGRAM_MAX_SIZE
abbrev pub program_max_size : ℕ
program_max_size = 0x3F000

-- How exec_program ends: with one of its notices, with true, or with the notice of an abort.
pub data Exec : Type 0 where
  not_found bad_size short_read finished aborted : Exec

-- exec_program from the count read on. The run itself is code outside the kernel: `abort` says
-- whether app_abort ended it.
unfoldable pub run_loaded : Bool → FileInfo → Bytes × ℕ → Exec × Bytes
run_loaded abort info (memory, read) =
    if read == info.file_size
    then (if abort then aborted else finished, memory)
    else (short_read, memory)

module _ (d : SectorDevice) where
  -- exec_program once the file is found. `memory` is what stands from PROGRAM_LOAD_ADDR on.
  unfoldable pub load_program : ℕ → Bool → FileInfo → Bytes → Run d (Exec × Bytes)
  unfolding fs_read_file run_loaded
  load_program fuel abort info memory s =
      let run =
        (fs_read_file d fuel info memory program_max_size >>= λ o. pure (run_loaded abort info o))
          s in
      if (info.file_size == 0) || ltb program_max_size info.file_size
      then some ((bad_size, memory), s)
      else run

  unfoldable pub exec_program : ℕ → Bool → List ℕ → Bytes → Run d (Exec × Bytes)
  unfolding fs_find_file load_program
  exec_program fuel abort filename memory = fs_find_file d fuel filename >>= λ found. elim found [
    | none ↦ pure (not_found, memory)
    | some info ↦ load_program fuel abort info memory
  ]

-- The functions that a system call may reach; the first is syscall_unsupported.
pub data Handler : Type 0 where
  unsupported clear sleep get_time display_open display_pixel display_present : Handler
  keyboard_read_char get_font display_fill display_close make_dir remove_dir : Handler
  print_char fs_create_file fs_write_file args_get : Handler

-- `syscall_table[id] = handler`
abbrev pub install : ℕ → Handler → (ℕ → Handler) → ℕ → Handler
install id handler table i = if i == id then handler else table i

-- SYS_COUNT, and the table after syscalls_init, whose loop puts syscall_unsupported everywhere.
abbrev pub sys_count : ℕ
sys_count = 17

unfoldable pub syscalls_init : ℕ → Handler
syscalls_init = install 16 args_get (
    install 14 fs_write_file (
      install 13 fs_create_file (
        install 12 print_char (
          install 11 remove_dir (
            install 10 make_dir (
              install 9 display_close (
                install 8 display_fill (
                  install 5 display_present (
                    install 4 display_pixel (
                      install 3 display_open (
                        install 7 get_font (
                          install 6 keyboard_read_char (
                            install 2 get_time
                              (install 1 sleep (install 0 clear (λ i. unsupported))))))))))))))))
