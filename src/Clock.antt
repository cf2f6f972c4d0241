-- ===== src/Clock.antt =====
-- src/time.c: the timer's ticks, sleep, and the time of the real-time clock.
pub mod Sleep
pub mod Face
mod Tests
use zareboon_os.Prelude.{
  ℕ, zero, suc, ◌+◌, ◌-◌, ◌*◌, ◌/◌, ◌%◌, ◌^◌, Option, none, some, ◌==◌, leb, if◌then◌else◌, List,
  [], ◌∷◌,
}
use zareboon_os.Console.Format.{Out, word, print}

abbrev pub timer_frequency : ℕ
timer_frequency = 100

-- timer_handler_c: the new timer_ticks.
abbrev pub timer_handler : ℕ → ℕ
timer_handler ticks = (ticks + 1) % 2 ^ 32

-- `n` interrupts of the timer, one after the other.
abbrev pub after_ticks : ℕ → ℕ → ℕ
after_ticks zero ticks = ticks
after_ticks (suc n) ticks = after_ticks n (timer_handler ticks)

-- The loop of sleep. Interrupts come between its readings of timer_ticks: `gaps k` of them in front
-- of reading `k`. The result is timer_ticks in the end, and `none` when the fuel runs out.
unfoldable pub sleep_loop : ℕ → (ℕ → ℕ) → ℕ → ℕ → ℕ → Option ℕ
sleep_loop zero gaps start wait ticks = none
sleep_loop (suc fuel) gaps start wait ticks =
    let current = after_ticks (gaps 0) ticks in
    let rest = sleep_loop fuel (λ k. gaps (k + 1)) start wait current in
    if leb wait ((current + 2 ^ 32 - start) % 2 ^ 32) then some current else rest

-- The ticks that sleep waits for.
abbrev pub ticks_of : ℕ → ℕ
ticks_of ms = let ticks = ms * timer_frequency % 2 ^ 32 / 1000 in if ticks == 0 then 1 else ticks

unfoldable pub sleep : ℕ → (ℕ → ℕ) → ℕ → ℕ → Option ℕ
unfolding sleep_loop
sleep fuel gaps ms ticks =
    if ms == 0 then some ticks else sleep_loop fuel gaps ticks (ticks_of ms) ticks

unfoldable pub bcd_to_bin : ℕ → ℕ
bcd_to_bin bcd = (bcd / 16 % 16 * 10 + bcd % 16) % 2 ^ 8

-- struct time_now
pub record TimeNow : Type 0 where
  pub seconds : ℕ
  pub minutes : ℕ
  pub hours : ℕ

-- The real-time clock is its registers by number.
unfoldable pub get_time : (ℕ → ℕ) → TimeNow
unfolding bcd_to_bin
get_time cmos = record {
  seconds = bcd_to_bin (cmos 0);
  minutes = bcd_to_bin (cmos 2);
  hours = bcd_to_bin (cmos 4);
}

-- "%02d:%02d:%02d"
abbrev pub time_format : List ℕ
time_format =
    b'%' ∷ b'0' ∷ b'2' ∷ b'd' ∷ b':' ∷ b'%' ∷ b'0' ∷ b'2' ∷ b'd' ∷ b':' ∷ b'%' ∷ b'0' ∷ b'2' ∷ b'd'
    ∷ []

unfoldable pub print_format_time : (ℕ → ℕ) → Option (List Out)
unfolding get_time print
print_format_time cmos =
    let now = get_time cmos in
    print time_format (word now.hours ∷ word now.minutes ∷ word now.seconds ∷ [])
