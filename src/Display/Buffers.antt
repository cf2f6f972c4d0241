-- ===== src/Display/Buffers.antt =====
-- The loops over the words of a buffer.
use zareboon_os.Prelude.{
  ℕ, zero, suc, ◌+◌, ◌*◌, ◌^◌, ◌<◌, ◌≤◌, ◌≡◌, refl, ◌∙◌, false, ◌==◌, arith, Bool-cases, inl, inr,
  ◌⊎◌, ==_iff,
}
use zareboon_os.Display.{word_at, put_word, zero_words, fill_words, row_changed, copy_row}

-- All the words are of 32 bits.
abbrev pub Words32 : (ℕ → ℕ) → Type 0
Words32 words = (a : ℕ) → words a < 2 ^ 32

pub put_word-Words32 :
    (a v : ℕ) (words : ℕ → ℕ) → v < 2 ^ 32 → Words32 words → Words32 (put_word a v words)
put_word-Words32 a v words h w x = ground (arith, w x)

pub zero_words-Words32 :
    (left i back front : ℕ) (words : ℕ → ℕ)
    → Words32 words
    → Words32 (zero_words left i back front words)
unfolding zero_words
zero_words-Words32 zero i back front words w = w
zero_words-Words32 (suc left) i back front words w =
    zero_words-Words32 left (i + 1) back front _
      (put_word-Words32 _ 0 _ (omega arith) (put_word-Words32 _ 0 words (omega arith) w))

pub fill_words-Words32 :
    (n dst color : ℕ) (words : ℕ → ℕ)
    → color < 2 ^ 32
    → Words32 words
    → Words32 (fill_words n dst color words)
unfolding fill_words
fill_words-Words32 zero dst color words h w = w
fill_words-Words32 (suc n) dst color words h w =
    fill_words-Words32 n (word_at dst 1) color _ h (put_word-Words32 dst color words h w)

pub fill_words-outside :
    (n dst color : ℕ) (words : ℕ → ℕ) (a : ℕ)
    → dst + 4 * n ≤ 2 ^ 32
    → (a < dst) ⊎ (dst + 4 * n ≤ a)
    → fill_words n dst color words a ≡ words a
unfolding fill_words
fill_words-outside zero dst color words a fits out = refl
fill_words-outside (suc zero) dst color words a fits out = ground arith
fill_words-outside (suc (suc n)) dst color words a fits out =
    let next : word_at dst 1 ≡ dst + 4 = omega arith in
    let here : put_word dst color words a ≡ words a = ground arith in
    rw (next, fill_words)
      (fill_words-outside (suc n) (dst + 4) color (put_word dst color words) a (omega arith)
          (omega arith)
        ∙ here)

pub fill_words-inside :
    (n dst color : ℕ) (words : ℕ → ℕ) (k : ℕ)
    → dst + 4 * n ≤ 2 ^ 32
    → k < n
    → fill_words n dst color words (dst + 4 * k) ≡ color
unfolding fill_words
fill_words-inside zero dst color words k fits h = absurd (omega arith)
fill_words-inside (suc zero) dst color words k fits h = ground arith
fill_words-inside (suc (suc n)) dst color words zero fits h =
    let next : word_at dst 1 ≡ dst + 4 = omega arith in
    let here : put_word dst color words (dst + 4 * 0) ≡ color = ground arith in
    rw (next, fill_words)
      (fill_words-outside (suc n) (dst + 4) color (put_word dst color words) (dst + 4 * 0)
          (omega arith) (inl (omega arith))
        ∙ here)
fill_words-inside (suc (suc n)) dst color words (suc k) fits h =
    let next : word_at dst 1 ≡ dst + 4 = omega arith in
    let at : dst + 4 * suc k ≡ dst + 4 + 4 * k = omega arith in
    rw (at, next, fill_words)
      (fill_words-inside (suc n) (dst + 4) color (put_word dst color words) k (omega arith)
        (omega arith))

pub copy_row-Words32 :
    (left x back front : ℕ) (words : ℕ → ℕ)
    → Words32 words
    → Words32 (copy_row left x back front words)
unfolding copy_row
copy_row-Words32 zero x back front words w = w
copy_row-Words32 (suc left) x back front words w =
    copy_row-Words32 left (x + 1) back front _ (put_word-Words32 _ _ words (w _) w)

pub copy_row-outside :
    (left x back front : ℕ) (words : ℕ → ℕ) (a : ℕ)
    → front + 4 * (x + left) ≤ 2 ^ 32
    → (a < front + 4 * x) ⊎ (front + 4 * (x + left) ≤ a)
    → copy_row left x back front words a ≡ words a
unfolding copy_row
copy_row-outside zero x back front words a fits out = refl
copy_row-outside (suc left) x back front words a fits out =
    let to : word_at front x ≡ front + 4 * x = omega arith in
    let here : put_word (front + 4 * x) (words (word_at back x)) words a ≡ words a = ground arith in
    rw (to, copy_row)
      (copy_row-outside left (x + 1) back front _ a (omega arith) (omega arith) ∙ here)

pub copy_row-inside :
    (left x back front : ℕ) (words : ℕ → ℕ) (k : ℕ)
    → back + 4 * (x + left) ≤ 2 ^ 32
    → front + 4 * (x + left) ≤ 2 ^ 32
    → (back + 4 * (x + left) ≤ front) ⊎ (front + 4 * (x + left) ≤ back)
    → x ≤ k
    → k < x + left
    → copy_row left x back front words (front + 4 * k) ≡ words (back + 4 * k)
unfolding copy_row
copy_row-inside zero x back front words k fb ff apart lo hi = absurd (omega arith)
copy_row-inside (suc left) x back front words k fb ff apart lo hi =
    let to : word_at front x ≡ front + 4 * x = omega arith in
    let from : word_at back x ≡ back + 4 * x = omega arith in
    let words1 = put_word (front + 4 * x) (words (back + 4 * x)) words in
    rw (to, from, copy_row)
      (elim (Bool-cases (k == x)) [
        | inl e ↦
            let at : k ≡ x = (==_iff _ _).0 e in
            rw at (
              copy_row-outside left (x + 1) back front words1 (front + 4 * x) (omega arith)
                (inl (omega arith))
              ∙ ground arith)
        | inr e ↦
            let kept : words1 (back + 4 * k) ≡ words (back + 4 * k) = ground arith in
            copy_row-inside left (x + 1) back front words1 k (omega arith) (omega arith)
              (omega arith) (ground arith) (omega arith)
            ∙ kept
      ])

-- The search found no difference: there is none.
pub row_changed-same :
    (left x back front : ℕ) (words : ℕ → ℕ) (k : ℕ)
    → row_changed left x back front words ≡ false
    → x ≤ k
    → k < x + left
    → words (word_at back k) ≡ words (word_at front k)
unfolding row_changed
row_changed-same zero x back front words k h lo hi = absurd (omega arith)
row_changed-same (suc left) x back front words k h lo hi = elim (Bool-cases (k == x)) [
  | inl e ↦ let at : k ≡ x = (==_iff _ _).0 e in rw at (ground arith)
  | inr e ↦
      row_changed-same left (x + 1) back front words k (ground arith) (ground arith) (omega arith)
]
