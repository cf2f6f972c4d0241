-- ===== src/Programs/Tests.antt =====
-- The system call that the editor loads a file with.
use zareboon_os.Prelude.{◌≡◌, ◌==◌, arith}
use zareboon_os.Programs.{syscalls_init}
use zareboon_os.Programs.Laws.{is_unsupported, syscalls_init-unsupported}

syscalls_init-unsupported_example : is_unsupported (syscalls_init 14) ≡ (14 == 15)
syscalls_init-unsupported_example = syscalls_init-unsupported 14 (omega arith)
