-- ===== src/Display/Fill.antt =====
-- display_fill: the rectangle that it draws, and the invariant.
use zareboon_os.Prelude.{
  ℕ, zero, suc, ◌+◌, ◌-◌, ◌*◌, ◌%◌, ◌^◌, ◌<◌, ◌≤◌, ◌≡◌, ◌≢◌, refl, ap, ◌∙◌, Bool, not, ◌||◌, ◌&&◌,
  ◌==◌, if◌then◌else◌, arith, Bool-cases, inl, inr, ◌⊎◌, ==_iff, leb, ltb, min, ltb→lt,
}
use zareboon_os.Video.Rows.{in_range, rows_fit}
use zareboon_os.Display.{Display, word_at, fill_words, fill_rows, display_fill}
use zareboon_os.Display.Buffers.{Words32, fill_words-Words32, fill_words-outside, fill_words-inside}
use zareboon_os.Display.Mirror.{AreBuffers, pixel_of, IsMirror, index_lt}
use zareboon_os.Display.Draw.{drawn, SameBut, drawn-mark_dirty, marked-IsMirror}

-- One row of the rectangle, seen from any pixel.
row_lem :
    (base w x y n x' y' color : ℕ) (words : ℕ → ℕ)
    → x + n ≤ w
    → x' < w
    → base + 4 * (y * w + w) ≤ 2 ^ 32
    → pixel_of (fill_words n (base + 4 * (y * w + x)) color words) base w x' y'
      ≡ (if (y' == y) && in_range x n x' then color else pixel_of words base w x' y')
row_lem base w x y n x' y' color words hn hx' fits = elim (Bool-cases (y' == y)) [
  | inl e ↦
      let at : y' ≡ y = (==_iff _ _).0 e in
      elim (Bool-cases (in_range x n x')) [
        | inl i ↦
            let to : base + 4 * (y * w + x') ≡ base + 4 * (y * w + x) + 4 * (x' - x) =
              ground arith in
            rw (e, i, at, to)
              (fill_words-inside n (base + 4 * (y * w + x)) color words (x' - x) (omega arith)
                (ground arith))
        | inr i ↦
            rw (e, i, at)
              (fill_words-outside n (base + 4 * (y * w + x)) color words (base + 4 * (y * w + x'))
                (omega arith) (ground arith))
      ]
  | inr e ↦ rw e (
      fill_words-outside n (base + 4 * (y * w + x)) color words (base + 4 * (y' * w + x'))
        (omega arith) (away (ground arith)))
]
  where
    away :
        y' ≢ y
        → (base + 4 * (y' * w + x') < base + 4 * (y * w + x))
          ⊎ (base + 4 * (y * w + x) + 4 * n ≤ base + 4 * (y' * w + x'))
    away ne = elim (Bool-cases (ltb y' y)) [
      | inl l ↦ inl (omega (arith, rows_fit y' y w (ltb→lt _ _ l)))
      | inr l ↦ inr (omega (arith, rows_fit y y' w (ground arith)))
    ]

module _ (s : Display) (b : AreBuffers s.back s.front s.width s.height) where
  -- The loop over `left` rows: it changes the words alone, draws the rectangle, and changes no word
  -- outside its rows.
  record Filled (left y x n color : ℕ) (words : ℕ → ℕ) (s' : Display) : Type 0 where
    frame : s' ≡ record s { words = s'.words }
    words32 : Words32 words → Words32 s'.words
    pixels :
        (x' y' : ℕ)
        → x' < s.width
        → pixel_of s'.words s.back s.width x' y' ≡ (
            if in_range y left y' && in_range x n x'
            then color
            else pixel_of words s.back s.width x' y')
    outside : SameBut s.back s.width y (y + left) words s'.words

  fill_rows-Filled :
      (left y x n color : ℕ) (words : ℕ → ℕ)
      → color < 2 ^ 32
      → x + n ≤ s.width
      → x < s.width
      → y + left ≤ s.height
      → Filled left y x n color words (fill_rows left y x n color (record s { words = words }))
  unfolding fill_rows
  fill_rows-Filled zero y x n color words c32 hn hx hy = record {
    frame = refl;
    words32 = λ w. w;
    pixels = λ x' y' hx'. ground arith;
    outside = λ a out. refl;
  }
  fill_rows-Filled (suc left) y x n color words c32 hn hx hy =
      let i = index_lt x y s.width s.height hx (omega arith) in
      let row = rows_fit y s.height s.width (omega arith) in
      let at : word_at s.back ((y * s.width + x) % 2 ^ 32) ≡ s.back + 4 * (y * s.width + x) =
        omega (arith, i, b.small, b.back_fits) in
      let fits : s.back + 4 * (y * s.width + s.width) ≤ 2 ^ 32 = omega (arith, row, b.back_fits) in
      let words1 = fill_words n (s.back + 4 * (y * s.width + x)) color words in
      let r = fill_rows-Filled left (y + 1) x n color words1 c32 hn hx (omega arith) in
      rw at (record {
        frame = r.frame;
        words32 = λ w. r.words32 (fill_words-Words32 n _ color words c32 w);
        pixels = λ x' y' hx'.
            r.pixels x' y' hx'
            ∙ joined (in_range (y + 1) left y') (y' == y) (in_range y (suc left) y')
                (in_range x n x') (pixel_of words1 s.back s.width x' y')
                (pixel_of words s.back s.width x' y') color
                (row_lem s.back s.width x y n x' y' color words hn hx' fits) (ground arith);
        outside = λ a out.
            let step : (y + 1) * s.width ≡ y * s.width + s.width = grind arith in
            let top : (y + 1 + left) * s.width ≡ (y + suc left) * s.width =
              ap (λ k. k * s.width) (omega arith) in
            let some_rows = rows_fit y (y + suc left) s.width (omega arith) in
            r.outside a (omega (arith, step, top))
            ∙ fill_words-outside n (s.back + 4 * (y * s.width + x)) color words a (omega arith)
                (omega (arith, some_rows));
      })
    where
      joined :
          (rest here all column : Bool) (new old color : ℕ)
          → new ≡ (if here && column then color else old)
          → all ≡ (here || rest)
          → (if rest && column then color else new) ≡ (if all && column then color else old)
      joined rest here all column new old color h k = ground arith

-- display_fill keeps the invariant of an open display. It gives the pixels of the rectangle that lie
-- on the display the colour, and leaves every other pixel as it was.
pub display_fill-draws :
    (x y width height color x' y' : ℕ) (s : Display)
    → IsMirror s
    → color < 2 ^ 32
    → x' < s.width
    → y' < s.height
    → IsMirror (display_fill x y width height color s)
      × (drawn (display_fill x y width height color s) x' y'
          ≡ (if in_range y height y' && in_range x width x' then color else drawn s x' y'))
unfolding display_fill
display_fill-draws x y width height color x' y' s m c32 hx' hy' =
    elim (Bool-cases (not s.active || leb s.width x || leb s.height y)) [
      | inl e ↦ rw e (m, ground (arith, m.mirror.active))
      | inr e ↦
          let hx : x < s.width = ground arith in
          let hy : y < s.height = ground arith in
          let w = min width (s.width - x) in
          let h = min height (s.height - y) in
          rw e (elim (Bool-cases ((w == 0) || (h == 0))) [
            | inl none ↦ rw none (m, ground arith)
            | inr some ↦
                let words = (fill_rows h y x w color s).words in
                let f =
                  fill_rows-Filled s m.mirror.buffers h y x w color s.words c32 (omega arith) hx
                    (omega arith) in
                rw (some, f.frame)
                  (
                    marked-IsMirror y (y + h) words s (ground arith) (omega arith)
                        (f.words32 m.mirror.words32) f.outside m,
                    drawn-mark_dirty y (y + h) (record s { words = words }) x' y'
                        ∙ f.pixels x' y' hx'
                        ∙ rw (clipped x width s.width x' hx', clipped y height s.height y' hy')
                            refl,
                  )
          ])
    ]
  where
    clipped : (x w b x' : ℕ) → x' < b → in_range x (min w (b - x)) x' ≡ in_range x w x'
    clipped x w b x' i = ground arith
