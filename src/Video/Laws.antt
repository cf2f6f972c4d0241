-- ===== src/Video/Laws.antt =====
-- What the screen shows after each drawing operation, on a frame buffer of 32 bits a pixel.
use zareboon_os.Prelude.{
  ℕ, ◌+◌, ◌-◌, ◌*◌, ◌%◌, ◌^◌, ◌<◌, ◌≡◌, refl, ap, ◌∙◌, ◌&&◌, ◌||◌, Bool, true, false, ◌==◌, leb,
  ltb, if◌then◌else◌, arith, Bool-cases, inl, inr, ◌⊎◌, ==_iff, min,
}
use zareboon_os.Fs.Bytes.{get32, put32}
use zareboon_os.Video.{
  Video, is_negative, pixel_address, put_pixel, store_words, store_rows, clip, fill_rect, blit32,
}
use zareboon_os.Video.Rows.{IsFrame, shown, in_range, store_rows-frame, row_lem, rows_lem}

either : (a b c d : Bool) → a || b || c || d ≡ true → ((a || b) ≡ true) ⊎ ((c || d) ≡ true)
either a b c d h = ground arith

-- A range clipped to nothing is empty.
no_columns :
    (x w b x' : ℕ)
    → x < b
    → b < 2 ^ 16
    → is_negative (if ltb b (x + w) then b - x else w)
        || ((if ltb b (x + w) then b - x else w) == 0)
      ≡ true
    → x' < b
    → in_range x w x' ≡ false
no_columns x w b x' h small e i = ground arith

clipped_range :
    (x w b x' : ℕ) → x' < b → in_range x (if ltb b (x + w) then b - x else w) x' ≡ in_range x w x'
clipped_range x w b x' i = elim (Bool-cases (ltb b (x + w))) [
  | inl e ↦ rw e (ground arith)
  | inr e ↦ rw e refl
]

module _ (v : Video) (f : IsFrame v) where
  -- One word, seen from any pixel of the screen.
  word_lem :
      (x y x' y' color : ℕ)
      → color < 2 ^ 32
      → x < v.width
      → y < v.height
      → x' < v.width
      → y' < v.height
      → get32 (put32 v.memory (pixel_address v 4 x y) color) (pixel_address v 4 x' y')
        ≡ (if (y' == y) && in_range x 1 x' then color else shown v x' y')
  unfolding store_words
  word_lem x y x' y' color c32 hx hy hx' hy' =
      row_lem v f x y 1 x' y' (λ _. color) v.memory hx (omega arith) hy hx' hy' (λ i h. c32)

  -- On a frame buffer of 32 bits a pixel, put_pixel changes the colour of its pixel alone; a pixel
  -- off the screen changes nothing.
  pub shown-put_pixel :
      (x y x' y' color : ℕ)
      → color < 2 ^ 32
      → x' < v.width
      → y' < v.height
      → shown (put_pixel x y color v) x' y'
        ≡ (if (x' == x) && (y' == y) then color else shown v x' y')
  unfolding put_pixel
  shown-put_pixel x y x' y' color c32 hx' hy' =
      elim (Bool-cases (is_negative x || leb v.width x || is_negative y || leb v.height y)) [
        | inl e ↦ rw e (ground (arith, f.narrow, f.low))
        | inr e ↦
            let depth : (v.bpp == 32) ≡ true = (==_iff _ _).1 f.depth in
            rw (e, depth)
              (word_lem x y x' y' color c32 (ground arith) (ground arith) hx' hy' ∙ ground arith)
      ]

  -- On a frame buffer of 32 bits a pixel, blit32 shows rows `y0` to `y1` of the source, clipped to
  -- the screen, and leaves every other pixel as it was.
  pub shown-blit32 :
      (src : ℕ → ℕ) (src_w y0 y1 x' y' : ℕ)
      → ((i : ℕ) → src i < 2 ^ 32)
      → x' < v.width
      → y' < v.height
      → shown (blit32 src src_w y0 y1 v) x' y' ≡ (
          if leb y0 y' && ltb y' y1 && ltb x' src_w
          then src ((y' * src_w + x') % 2 ^ 32)
          else shown v x' y')
  unfolding blit32
  shown-blit32 src src_w y0 y1 x' y' s32 hx' hy' =
      let depth : (v.bpp == 32) ≡ true = (==_iff _ _).1 f.depth in
      let word = λ (y i : ℕ). src ((y * src_w + i) % 2 ^ 32) in
      rw depth (elim (Bool-cases (ltb y0 v.height)) [
        | inl e ↦
            let rows =
              rows_lem v f (min y1 v.height - y0) 0 y0 (min src_w v.width) x' y' word v.memory
                (omega arith) (omega arith) (ground arith) hx' hy' (λ j i h. s32 _) in
            let same : src ((y' * src_w + (x' - 0)) % 2 ^ 32) ≡ src ((y' * src_w + x') % 2 ^ 32) =
              ap (λ i. src ((y' * src_w + i) % 2 ^ 32)) (omega arith) in
            rows ∙ rw same (ground arith)
        | inr e ↦
            let none_left : min y1 v.height - y0 ≡ 0 = ground arith in
            rw (none_left, store_rows) (ground arith)
      ])

  clip_lem :
      (x w bound : ℕ)
      → x + w < 2 ^ 31
      → clip x w bound ≡ (if ltb bound (x + w) then bound - x else w)
  unfolding clip
  clip_lem x w bound h = ground arith

  -- On a frame buffer of 32 bits a pixel, fill_rect of a rectangle at a position and of sizes that
  -- are not negative, with its right and its bottom edge below 2 ^ 31 so that neither sum overflows
  -- an int, gives its pixels on the screen the colour, and leaves every other pixel as it was.
  pub shown-fill_rect :
      (x y w h x' y' color : ℕ)
      → color < 2 ^ 32
      → x + w < 2 ^ 31
      → y + h < 2 ^ 31
      → x' < v.width
      → y' < v.height
      → shown (fill_rect x y w h color v) x' y'
        ≡ (if in_range y h y' && in_range x w x' then color else shown v x' y')
  unfolding fill_rect
  shown-fill_rect x y w h x' y' color c32 w31 h31 hx' hy' =
      let depth : (v.bpp == 32) ≡ true = (==_iff _ _).1 f.depth in
      let signs : is_negative x || is_negative y ≡ false = ground arith in
      rw (clip_lem x w v.width w31, clip_lem y h v.height h31, depth, signs)
        (elim (Bool-cases (leb v.width x || leb v.height y)) [
          | inl e ↦ rw e (ground arith)
          | inr e ↦
              let w' = if ltb v.width (x + w) then v.width - x else w in
              let h' = if ltb v.height (y + h) then v.height - y else h in
              let rows =
                rows_lem v f h' x y w' x' y' (λ _ _. color) v.memory (ground arith) (ground arith)
                  (ground arith) hx' hy' (λ j i l. c32) in
              elim (Bool-cases (is_negative w' || (w' == 0) || is_negative h' || (h' == 0))) [
                | inl z ↦
                    let out : in_range y h y' && in_range x w x' ≡ false =
                      elim (either (is_negative w') (w' == 0) (is_negative h') (h' == 0) z) [
                        | inl c ↦
                            rw (no_columns x w v.width x' (ground arith) f.narrow c hx')
                              (ground arith)
                        | inr c ↦ rw (no_columns y h v.height y' (ground arith) f.low c hy') refl
                      ] in
                    rw (e, z, out) refl
                | inr z ↦
                    rw (e, z)
                      (rows
                        ∙ rw (clipped_range x w v.width x' hx', clipped_range y h v.height y' hy')
                            refl)
              ]
        ])

  -- blit32 changes the memory alone.
  pub blit32-frame :
      (src : ℕ → ℕ) (src_w y0 y1 : ℕ)
      → blit32 src src_w y0 y1 v ≡ record v { memory = (blit32 src src_w y0 y1 v).memory }
  unfolding blit32
  blit32-frame src src_w y0 y1 =
      let depth : (v.bpp == 32) ≡ true = (==_iff _ _).1 f.depth in
      rw depth (
        store_rows-frame (min y1 v.height - y0) 0 y0 (min src_w v.width)
          (λ y i. src ((y * src_w + i) % 2 ^ 32)) v)
