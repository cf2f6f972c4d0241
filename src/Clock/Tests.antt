-- ===== src/Clock/Tests.antt =====
-- A short sleep over the wrap of timer_ticks, and a time of day.
use zareboon_os.Prelude.{ℕ, ◌+◌, ◌%◌, ◌^◌, ◌≡◌, refl, ◌==◌, if◌then◌else◌, ◌∷◌, ◌++◌, some, arith}
use zareboon_os.Console.Format.{colored, white}
use zareboon_os.Clock.{ticks_of, sleep, print_format_time}
use zareboon_os.Clock.Sleep.{sleep_returns}
use zareboon_os.Clock.Face.{pair, print_format_time_lem}

abbrev every_reading : ℕ → ℕ
every_reading k = 1

sleep_returns_example :
    sleep 5 every_reading 50 0xFFFFFFFE ≡ some ((0xFFFFFFFE + ticks_of 50) % 2 ^ 32)
sleep_returns_example =
    sleep_returns 5 50 0xFFFFFFFE every_reading (λ e. omega (arith, e)) (omega arith)
      (λ k. omega arith) (omega arith)

abbrev registers : ℕ → ℕ
registers r = if r == 4 then 0x23 else if r == 2 then 0x59 else 0x08

print_format_time_lem_example :
    print_format_time registers
    ≡ some (colored white (pair 23 ++ (b':' ∷ pair 59) ++ (b':' ∷ pair 8)))
print_format_time_lem_example =
    print_format_time_lem 23 59 8 registers (omega arith) (omega arith) (omega arith) refl refl refl
