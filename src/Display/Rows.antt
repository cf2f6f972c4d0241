-- ===== src/Display/Rows.antt =====
-- The loop of display_present over the rows of the band.
use zareboon_os.Prelude.{
  ℕ, zero, suc, ◌+◌, ◌*◌, ◌%◌, ◌^◌, ◌<◌, ◌≤◌, ◌≡◌, refl, ap, ◌∙◌, sym, Bool, false, true, not, ◌||◌,
  ◌&&◌, ◌==◌, if◌then◌else◌, arith, Bool-cases, inl, inr, ◌⊎◌, ==_iff,
}
use zareboon_os.Fs.Device.{Bytes}
use zareboon_os.Video.Rows.{IsFrame, in_range, rows_fit}
use zareboon_os.Video.Laws.{blit32-frame}
use zareboon_os.Display.{Display, word_at, row_changed, present_row, present_rows}
use zareboon_os.Display.Buffers.{Words32, row_changed-same}
use zareboon_os.Display.Mirror.{AreBuffers}
use zareboon_os.Display.Draw.{count_fits}
use zareboon_os.Display.Present.{
  Copied, Shows, screen, screen-IsFrame, back_of, front_of, copy_row-Copied,
}

either_row :
    (rest here all : Bool) (new old back back' : ℕ)
    → new ≡ (if here then back else old)
    → back' ≡ back
    → all ≡ (here || rest)
    → (if rest then back' else new) ≡ (if all then back else old)
either_row rest here all new old back back' h k e = ground arith

module _ (s : Display) (b : AreBuffers s.back s.front s.width s.height) (f : IsFrame s.video) where
  Copied-none : (y : ℕ) (words : ℕ → ℕ) (m : Bytes) → Copied s b f (in_range y 0) words m words m
  Copied-none y words m = record {
    words32 = λ w. w;
    back = λ x y' hx hy. refl;
    front = λ x y' hx hy. ground arith;
    screen' = λ x y' hx hy vx vy. ground arith;
  }

  Copied-cons :
      (y left : ℕ) (words words1 words2 : ℕ → ℕ) (m m1 m2 : Bytes)
      → Copied s b f (λ y'. y' == y) words m words1 m1
      → Copied s b f (in_range (y + 1) left) words1 m1 words2 m2
      → Copied s b f (in_range y (suc left)) words m words2 m2
  Copied-cons y left words words1 words2 m m1 m2 c r = record {
    words32 = λ w. r.words32 (c.words32 w);
    back = λ x y' hx hy. r.back x y' hx hy ∙ c.back x y' hx hy;
    front = λ x y' hx hy.
        r.front x y' hx hy
        ∙ either_row (in_range (y + 1) left y') (y' == y) (in_range y (suc left) y') _ _ _ _
            (c.front x y' hx hy) (c.back x y' hx hy) (ground arith);
    screen' = λ x y' hx hy vx vy.
        r.screen' x y' hx hy vx vy
        ∙ either_row (in_range (y + 1) left y') (y' == y) (in_range y (suc left) y') _ _ _ _
            (c.screen' x y' hx hy vx vy) (c.back x y' hx hy) (ground arith);
  }

  Copied-Shows :
      (here : ℕ → Bool) (words words1 : ℕ → ℕ) (m m1 : Bytes)
      → Copied s b f here words m words1 m1
      → Shows s b f words m
      → Shows s b f words1 m1
  Copied-Shows here words words1 m m1 c h x y hx hy vx vy =
      let same = h x y hx hy vx vy in
      c.screen' x y hx hy vx vy
      ∙ ap (λ o. if here y then back_of s b f words x y else o) same
      ∙ sym (c.front x y hx hy)

  -- A row with no difference needs no copy.
  skip-Copied :
      (y : ℕ) (words : ℕ → ℕ) (m : Bytes)
      → y < s.height
      → row_changed s.width 0 (s.back + 4 * (y * s.width)) (s.front + 4 * (y * s.width)) words
        ≡ false
      → Shows s b f words m
      → Copied s b f (λ y'. y' == y) words m words m
  skip-Copied y words m hy e h = record {
    words32 = λ w. w;
    back = λ x y' hx hy'. refl;
    front = λ x y' hx hy'. elim (Bool-cases (y' == y)) [
      | inl k ↦ let at : y' ≡ y = (==_iff _ _).0 k in rw (k, at) (sym (same x hx))
      | inr k ↦ rw k refl
    ];
    screen' = λ x y' hx hy' vx vy. elim (Bool-cases (y' == y)) [
      | inl k ↦
          let at : y' ≡ y = (==_iff _ _).0 k in
          rw (k, at) (h x y hx hy vx (rw (← at) vy) ∙ sym (same x hx))
      | inr k ↦ rw k refl
    ];
  }
    where
      same : (x : ℕ) → x < s.width → back_of s b f words x y ≡ front_of s b f words x y
      same x hx =
          let row = rows_fit y s.height s.width hy in
          let from : word_at (s.back + 4 * (y * s.width)) x ≡ s.back + 4 * (y * s.width + x) =
            omega (arith, row, b.back_fits) in
          let to : word_at (s.front + 4 * (y * s.width)) x ≡ s.front + 4 * (y * s.width + x) =
            omega (arith, row, b.front_fits) in
          rw (from, to) at (row_changed-same s.width 0 _ _ words x e (omega arith) (omega arith))

  -- The rows that `here` tells were copied, and nothing but the words and the screen changed.
  pub record Flushed (here : ℕ → Bool) (words : ℕ → ℕ) (m : Bytes) (s' : Display) : Type 0 where
    pub frame : s' ≡ record s { words = s'.words; video = screen s b f s'.video.memory }
    pub copied : Copied s b f here words m s'.words s'.video.memory

  present_row-Flushed :
      (y : ℕ) (full : Bool) (words : ℕ → ℕ) (m : Bytes)
      → (full ≡ true) ⊎ Shows s b f words m
      → Words32 words
      → y < s.height
      → Flushed
          (λ y'. y' == y)
          words
          m
          (present_row full y (record s { words = words; video = screen s b f m }))
  unfolding present_row
  present_row-Flushed y full words m h w hy =
      let row = rows_fit y s.height s.width hy in
      let back : word_at s.back (y * s.width % 2 ^ 32) ≡ s.back + 4 * (y * s.width) =
        omega (arith, row, b.back_fits, b.small, b.wide) in
      let front : word_at s.front (y * s.width % 2 ^ 32) ≡ s.front + 4 * (y * s.width) =
        omega (arith, row, b.front_fits, b.small, b.wide) in
      let rows = count_fits s.height s.width b.wide in
      let next : (y + 1) % 2 ^ 32 ≡ y + 1 = omega (arith, rows, b.small) in
      let back_row = s.back + 4 * (y * s.width) in
      let front_row = s.front + 4 * (y * s.width) in
      rw (back, front, next)
        (elim (Bool-cases (not full && not (row_changed s.width 0 back_row front_row words))) [
          | inl e ↦ rw e (record {
            frame = refl;
            copied = skip-Copied y words m hy (ground arith) (shows (ground arith));
          })
          | inr e ↦
              let drawn_row =
                blit32-frame (screen s b f m) (screen-IsFrame s b f m)
                  (λ i. words (word_at s.back i)) s.width y (y + 1) in
              rw (e, drawn_row)
                (record { frame = refl; copied = copy_row-Copied s b f y words m hy w })
        ])
    where
      shows : full ≡ false → Shows s b f words m
      shows e = elim h [ inl t ↦ absurd (ground arith) | inr k ↦ k ]

  pub present_rows-Flushed :
      (left y : ℕ) (full : Bool) (words : ℕ → ℕ) (m : Bytes)
      → (full ≡ true) ⊎ Shows s b f words m
      → Words32 words
      → y + left ≤ s.height
      → Flushed
          (in_range y left)
          words
          m
          (present_rows left full y (record s { words = words; video = screen s b f m }))
  unfolding present_rows
  present_rows-Flushed zero y full words m h w fits = record {
    frame = refl;
    copied = Copied-none y words m;
  }
  present_rows-Flushed (suc left) y full words m h w fits =
      let s1 = present_row full y (record s { words = words; video = screen s b f m }) in
      let r = present_row-Flushed y full words m h w (omega arith) in
      let h1 : (full ≡ true) ⊎ Shows s b f s1.words s1.video.memory = elim h [
        | inl t ↦ inl t
        | inr k ↦ inr (Copied-Shows _ words s1.words m s1.video.memory r.copied k)
      ] in
      let rest =
        present_rows-Flushed left (y + 1) full s1.words s1.video.memory h1 (r.copied.words32 w)
          (omega arith) in
      rw r.frame (record {
        frame = rest.frame;
        copied = Copied-cons y left words s1.words _ m s1.video.memory _ r.copied rest.copied;
      })
