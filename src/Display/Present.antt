-- ===== src/Display/Present.antt =====
-- The loop of display_present: the rows that it copies to the front buffer and to the screen.
use zareboon_os.Prelude.{
  ℕ, ◌+◌, ◌*◌, ◌%◌, ◌^◌, ◌<◌, ◌≤◌, ◌≡◌, ◌≢◌, ap, ◌∙◌, sym, Bool, ◌==◌, if◌then◌else◌, arith,
  Bool-cases, inl, inr, ◌⊎◌, ==_iff, ltb, ltb→lt,
}
use zareboon_os.Fs.Device.{Bytes}
use zareboon_os.Video.{Video, blit32}
use zareboon_os.Video.Rows.{IsFrame, shown, rows_fit}
use zareboon_os.Video.Laws.{shown-blit32, blit32-frame}
use zareboon_os.Display.{Display, word_at, copy_row}
use zareboon_os.Display.Buffers.{Words32, copy_row-Words32, copy_row-outside, copy_row-inside}
use zareboon_os.Display.Mirror.{AreBuffers, pixel_of, index_lt}

module _ (s : Display) (b : AreBuffers s.back s.front s.width s.height) (f : IsFrame s.video) where
  abbrev pub screen : Bytes → Video
  screen m = record s.video { memory = m }

  pub screen-IsFrame : (m : Bytes) → IsFrame (screen m)
  screen-IsFrame m = record {
    depth = f.depth;
    room = f.room;
    fits = f.fits;
    narrow = f.narrow;
    low = f.low;
  }

  abbrev pub back_of : (ℕ → ℕ) → ℕ → ℕ → ℕ
  back_of words = pixel_of words s.back s.width

  abbrev pub front_of : (ℕ → ℕ) → ℕ → ℕ → ℕ
  front_of words = pixel_of words s.front s.width

  -- The screen shows the front buffer.
  abbrev pub Shows : (ℕ → ℕ) → Bytes → Type 0
  Shows words m =
      (x y : ℕ)
      → x < s.width
      → y < s.height
      → x < s.video.width
      → y < s.video.height
      → shown (screen m) x y ≡ front_of words x y

  -- The rows that `here` tells went from the back buffer to the front one and to the screen.
  pub record Copied (here : ℕ → Bool) (words : ℕ → ℕ) (m : Bytes) (words' : ℕ → ℕ) (m' : Bytes)
      : Type 0 where
    pub words32 : Words32 words → Words32 words'
    pub back : (x y : ℕ) → x < s.width → y < s.height → back_of words' x y ≡ back_of words x y
    pub front :
        (x y : ℕ)
        → x < s.width
        → y < s.height
        → front_of words' x y ≡ (if here y then back_of words x y else front_of words x y)
    pub screen' :
        (x y : ℕ)
        → x < s.width
        → y < s.height
        → x < s.video.width
        → y < s.video.height
        → shown (screen m') x y ≡ (if here y then back_of words x y else shown (screen m) x y)

  -- The row that is copied.
  pub copy_row-Copied :
      (y : ℕ) (words : ℕ → ℕ) (m : Bytes)
      → y < s.height
      → Words32 words
      → Copied
          (λ y'. y' == y)
          words
          m
          (copy_row s.width 0 (s.back + 4 * (y * s.width)) (s.front + 4 * (y * s.width)) words)
          (blit32 (λ i. words (word_at s.back i)) s.width y (y + 1) (screen m)).memory
  copy_row-Copied y words m hy w =
      let row = rows_fit y s.height s.width hy in
      let src = λ (i : ℕ). words (word_at s.back i) in
      let v = screen m in
      record {
        words32 = copy_row-Words32 s.width 0 _ _ words;
        back = λ x' y' hx' hy'.
            let i = index_lt x' y' s.width s.height hx' hy' in
            copy_row-outside s.width 0 _ (s.front + 4 * (y * s.width)) words
              (s.back + 4 * (y' * s.width + x')) (omega (arith, b.front_fits, row))
              (omega (arith, b.apart, row, i));
        front = λ x' y' hx' hy'. elim (Bool-cases (y' == y)) [
          | inl e ↦
              let at : y' ≡ y = (==_iff _ _).0 e in
              let to : s.front + 4 * (y * s.width + x') ≡ s.front + 4 * (y * s.width) + 4 * x' =
                omega arith in
              let from : s.back + 4 * (y * s.width + x') ≡ s.back + 4 * (y * s.width) + 4 * x' =
                omega arith in
              rw (e, at, to, from)
                (copy_row-inside s.width 0 (s.back + 4 * (y * s.width))
                  (s.front + 4 * (y * s.width)) words x' (omega (arith, row, b.back_fits))
                  (omega (arith, row, b.front_fits)) (omega (arith, row, b.apart)) (omega arith)
                  (omega arith))
          | inr e ↦ rw e (
              copy_row-outside s.width 0 _ (s.front + 4 * (y * s.width)) words
                (s.front + 4 * (y' * s.width + x')) (omega (arith, b.front_fits, row))
                (apart_rows x' y' hx' (ground arith)))
        ];
        screen' = λ x' y' hx' hy' vx vy.
            let i = index_lt x' y' s.width s.height hx' hy' in
            let at : word_at s.back ((y' * s.width + x') % 2 ^ 32)
                ≡ s.back + 4 * (y' * s.width + x') =
              omega (arith, i, b.small, b.back_fits) in
            sym (ap (λ u. shown u x' y') (blit32-frame v (screen-IsFrame m) src s.width y (y + 1)))
            ∙ shown-blit32 v (screen-IsFrame m) src s.width y (y + 1) x' y'
                (λ i. w (word_at s.back i)) vx vy
            ∙ rw at (ground arith);
      }
    where
      apart_rows :
          (x' y' : ℕ)
          → x' < s.width
          → y' ≢ y
          → (s.front + 4 * (y' * s.width + x') < s.front + 4 * (y * s.width) + 4 * 0)
            ⊎ (s.front + 4 * (y * s.width) + 4 * (0 + s.width) ≤ s.front + 4 * (y' * s.width + x'))
      apart_rows x' y' hx' ne = elim (Bool-cases (ltb y' y)) [
        | inl l ↦ inl (omega (arith, rows_fit y' y s.width (ltb→lt _ _ l)))
        | inr l ↦ inr (omega (arith, rows_fit y y' s.width (ground arith)))
      ]
