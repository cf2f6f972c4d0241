-- ===== src/Clock/Sleep.antt =====
-- sleep returns, after as many ticks as it waits for.
use zareboon_os.Prelude.{
  ℕ, zero, suc, ◌+◌, ◌-◌, ◌%◌, ◌^◌, ◌<◌, ◌≤◌, ◌≡◌, ◌≢◌, refl, ◌∙◌, some, ◌==◌, leb, arith,
  Bool-cases, inl, inr, false,
}
use zareboon_os.Clock.{after_ticks, ticks_of, sleep_loop, sleep}

-- The interrupts in front of the first `n` readings.
abbrev pub passed : ℕ → (ℕ → ℕ) → ℕ
passed zero gaps = 0
passed (suc n) gaps = gaps 0 + passed n (λ k. gaps (k + 1))

after_ticks_lem : (n ticks : ℕ) → ticks < 2 ^ 32 → after_ticks n ticks ≡ (ticks + n) % 2 ^ 32
after_ticks_lem zero ticks h = omega arith
after_ticks_lem (suc n) ticks h =
    after_ticks_lem n ((ticks + 1) % 2 ^ 32) (omega arith) ∙ omega arith

sleep_loop_lem :
    (fuel : ℕ) (gaps : ℕ → ℕ) (start wait done ticks : ℕ)
    → start < 2 ^ 32
    → ticks ≡ (start + done) % 2 ^ 32
    → done < wait
    → wait < 2 ^ 32
    → ((k : ℕ) → gaps k ≤ 1)
    → wait ≤ done + passed fuel gaps
    → sleep_loop fuel gaps start wait ticks ≡ some ((start + wait) % 2 ^ 32)
unfolding sleep_loop
sleep_loop_lem zero gaps start wait done ticks s32 at less w32 slow enough = absurd (omega arith)
sleep_loop_lem (suc fuel) gaps start wait done ticks s32 at less w32 slow enough =
    let g = slow 0 in
    let current : after_ticks (gaps 0) ticks ≡ (start + (done + gaps 0)) % 2 ^ 32 =
      after_ticks_lem (gaps 0) ticks (omega arith) ∙ omega arith in
    let elapsed : ((start + (done + gaps 0)) % 2 ^ 32 + 2 ^ 32 - start) % 2 ^ 32 ≡ done + gaps 0 =
      omega arith in
    rw (current, elapsed)
      (elim (Bool-cases (leb wait (done + gaps 0))) [
        | inl e ↦ let all : done + gaps 0 ≡ wait = ground arith in rw (e, all) refl
        | inr e ↦ rw e (
            sleep_loop_lem fuel (λ k. gaps (k + 1)) start wait (done + gaps 0) _ s32 refl
              (ground arith) w32 (λ k. slow (k + 1)) (omega arith))
      ])

-- When the timer ticks at most once between two readings, and in front of some reading has ticked as
-- often as sleep waits for, sleep returns, and exactly that many ticks have passed, also where
-- timer_ticks wraps.
pub sleep_returns :
    (fuel ms ticks : ℕ) (gaps : ℕ → ℕ)
    → ms ≢ 0
    → ticks < 2 ^ 32
    → ((k : ℕ) → gaps k ≤ 1)
    → ticks_of ms ≤ passed fuel gaps
    → sleep fuel gaps ms ticks ≡ some ((ticks + ticks_of ms) % 2 ^ 32)
unfolding sleep
sleep_returns fuel ms ticks gaps nz t32 slow enough =
    let some_ms : (ms == 0) ≡ false = ground arith in
    rw some_ms (
      sleep_loop_lem fuel gaps ticks (ticks_of ms) 0 ticks t32 (omega arith) (ground arith)
        (ground arith) slow (omega arith))
