-- ===== src/Video/Words.antt =====
-- Runs of words in memory, and rows of them in the frame buffer.
use zareboon_os.Prelude.{
  ℕ, zero, suc, ◌+◌, ◌*◌, ◌%◌, ◌^◌, ◌<◌, ◌≤◌, ◌≡◌, refl, ap, ◌∙◌, arith, inl, ◌⊎◌,
}
use zareboon_os.Fs.Device.{Bytes}
use zareboon_os.Fs.Bytes.{get32, put32, get32-put32_self}
use zareboon_os.Video.{store_words}

put32_outside : (b : Bytes) (i v j : ℕ) → (j < i) ⊎ (i + 4 ≤ j) → put32 b i v j ≡ b j
unfolding put32
put32_outside b i v j h = ground arith

pub store_words-outside :
    (n dst : ℕ) (word : ℕ → ℕ) (b : Bytes) (a : ℕ)
    → dst + 4 * n ≤ 2 ^ 32
    → (a < dst) ⊎ (dst + 4 * n ≤ a)
    → store_words n dst word b a ≡ b a
unfolding store_words
store_words-outside zero dst word b a fits out = refl
store_words-outside (suc zero) dst word b a fits out = put32_outside b dst (word 0) a (omega arith)
store_words-outside (suc (suc n)) dst word b a fits out =
    let next : (dst + 4) % 2 ^ 32 ≡ dst + 4 = omega arith in
    rw (next, store_words)
      (store_words-outside (suc n) (dst + 4) (λ i. word (i + 1)) (put32 b dst (word 0)) a
          (omega arith) (omega arith)
        ∙ put32_outside b dst (word 0) a (omega arith))

-- Words of four bytes at a distance of a multiple of four, or with no byte in common.
pub store_words-get32_ne :
    (n dst : ℕ) (word : ℕ → ℕ) (b : Bytes) (a : ℕ)
    → dst + 4 * n ≤ 2 ^ 32
    → (a + 4 ≤ dst) ⊎ (dst + 4 * n ≤ a)
    → get32 (store_words n dst word b) a ≡ get32 b a
unfolding get32
store_words-get32_ne n dst word b a fits out = omega (
  arith,
  store_words-outside n dst word b a fits (omega arith),
  store_words-outside n dst word b (a + 1) fits (omega arith),
  store_words-outside n dst word b (a + 2) fits (omega arith),
  store_words-outside n dst word b (a + 3) fits (omega arith),
)

pub store_words-get32_self :
    (n dst : ℕ) (word : ℕ → ℕ) (b : Bytes) (k : ℕ)
    → dst + 4 * n ≤ 2 ^ 32
    → k < n
    → word k < 2 ^ 32
    → get32 (store_words n dst word b) (dst + 4 * k) ≡ word k
unfolding store_words
store_words-get32_self zero dst word b k fits small w32 = absurd (omega arith)
store_words-get32_self (suc zero) dst word b k fits small w32 =
    let first : k ≡ 0 = omega arith in
    let at : dst + 4 * k ≡ dst = omega arith in
    rw at (rw first (get32-put32_self b dst (word 0) (rw (← first) w32)))
store_words-get32_self (suc (suc n)) dst word b zero fits small w32 =
    let next : (dst + 4) % 2 ^ 32 ≡ dst + 4 = omega arith in
    let at : dst + 4 * 0 ≡ dst = omega arith in
    rw (at, next, store_words)
      (store_words-get32_ne (suc n) (dst + 4) (λ i. word (i + 1)) (put32 b dst (word 0)) dst
          (omega arith) (inl (omega arith))
        ∙ get32-put32_self b dst (word 0) w32)
store_words-get32_self (suc (suc n)) dst word b (suc k) fits small w32 =
    let next : (dst + 4) % 2 ^ 32 ≡ dst + 4 = omega arith in
    let at : dst + 4 * suc k ≡ dst + 4 + 4 * k = omega arith in
    let nth : k + 1 ≡ suc k = omega arith in
    rw (at, next, store_words)
      (store_words-get32_self (suc n) (dst + 4) (λ i. word (i + 1)) (put32 b dst (word 0)) k
          (omega arith) (omega arith) (rw nth w32)
        ∙ ap word nth)
