-- ===== src/Video/Runs.antt =====
-- video_memset: a run of pixels that goes on in the next row.
use zareboon_os.Prelude.{
  ℕ, zero, suc, ◌+◌, ◌-◌, ◌*◌, ◌^◌, ◌<◌, ◌≤◌, ◌≡◌, refl, ap, ◌&&◌, ◌||◌, Bool, true, false, ◌==◌,
  leb, ltb, if◌then◌else◌, arith, Bool-cases, inl, inr, ==_iff, ltb→lt, min,
}
use zareboon_os.Fs.Device.{Bytes}
use zareboon_os.Fs.Bytes.{get32}
use zareboon_os.Video.{Video, pixel_address, store_words, fill24, memset_rows, video_memset}
use zareboon_os.Video.Rows.{IsFrame, shown, in_range, rows_fit, row_lem}

-- A pixel of a run of `n` from (x, y) on, in rows of `w` pixels: it lies in the part of the run in row
-- `y`, or in the run that goes on from the next row.
abbrev split_at : ℕ → ℕ → ℕ → ℕ → ℕ → ℕ → Bool → Bool
split_at w x n x' row row' same =
    (same && in_range x (min n (w - x)) x') || in_range (row + w) (n - min n (w - x)) (row' + x')

split_before :
    (w x n x' row row' : ℕ)
    → x' < w
    → row' + w ≤ row
    → in_range (row + x) n (row' + x') ≡ split_at w x n x' row row' false
split_before w x n x' row row' hx' h = ground arith

split_same :
    (w x n x' row : ℕ)
    → x < w
    → x' < w
    → in_range (row + x) n (row + x') ≡ split_at w x n x' row row true
split_same w x n x' row hx hx' = ground arith

split_behind :
    (w x n x' row row' : ℕ)
    → x < w
    → row + w ≤ row'
    → in_range (row + x) n (row' + x') ≡ split_at w x n x' row row' false
split_behind w x n x' row row' hx h = ground arith

in_run_split :
    (w x y n x' y' : ℕ)
    → x < w
    → x' < w
    → in_range (y * w + x) n (y' * w + x') ≡ split_at w x n x' (y * w) (y' * w) (y' == y)
in_run_split w x y n x' y' hx hx' = elim (Bool-cases (y' == y)) [
  | inl e ↦ let at : y' ≡ y = (==_iff _ _).0 e in rw (e, at) (split_same w x n x' (y * w) hx hx')
  | inr e ↦ elim (Bool-cases (ltb y' y)) [
    | inl l ↦ rw e (split_before w x n x' (y * w) (y' * w) hx' (rows_fit y' y w (ltb→lt _ _ l)))
    | inr l ↦ rw e (split_behind w x n x' (y * w) (y' * w) hx (rows_fit y y' w (ground arith)))
  ]
]

either_colour :
    (a b : Bool) (n r m c : ℕ)
    → n ≡ (if b then c else r)
    → r ≡ (if a then c else m)
    → n ≡ (if a || b then c else m)
either_colour a b n r m c h k = ground arith

module _ (v : Video) (f : IsFrame v) where
  memset_rows-step :
      (left x y color n : ℕ) (m : Bytes)
      → memset_rows (suc left) x y color n (record v { memory = m })
        ≡ memset_rows left 0 (y + 1) color (n - min n (v.width - x)) (record v {
          memory = store_words (min n (v.width - x)) (pixel_address v 4 x y) (λ _. color) m;
        })
  unfolding memset_rows
  memset_rows-step left x y color n m =
      let depth : (v.bpp == 32) ≡ true = (==_iff _ _).1 f.depth in
      ap
        (λ (t : Bool). memset_rows left 0 (y + 1) color (n - min n (v.width - x)) (record v {
          memory =
              if t
              then store_words (min n (v.width - x)) (pixel_address v 4 x y) (λ _. color) m
              else fill24 (min n (v.width - x)) (pixel_address v 3 x y) color m;
        }))
        depth

  memset_lem :
      (left x y n x' y' color : ℕ) (m : Bytes)
      → color < 2 ^ 32
      → x < v.width
      → y + left ≡ v.height
      → x' < v.width
      → y' < v.height
      → shown (memset_rows left x y color n (record v { memory = m })) x' y' ≡ (
          if in_range (y * v.width + x) n (y' * v.width + x')
          then color
          else get32 m (pixel_address v 4 x' y'))
  memset_lem zero x y n x' y' color m c32 hx hy hx' hy' =
      let below = rows_fit y' y v.width (omega arith) in
      let out : in_range (y * v.width + x) n (y' * v.width + x') ≡ false = ground arith in
      unfold memset_rows in rw out refl
  memset_lem (suc left) x y n x' y' color m c32 hx hy hx' hy' =
      let m1 = store_words (min n (v.width - x)) (pixel_address v 4 x y) (λ _. color) m in
      let row =
        row_lem v f x y (min n (v.width - x)) x' y' (λ _. color) m hx (omega arith) (omega arith)
          hx' hy' (λ i h. c32) in
      let rest =
        memset_lem left 0 (y + 1) (n - min n (v.width - x)) x' y' color m1 c32 (omega arith)
          (omega arith) hx' hy' in
      let start : (y + 1) * v.width + 0 ≡ y * v.width + v.width = grind arith in
      rw (memset_rows-step left x y color n m, in_run_split v.width x y n x' y' hx hx')
        (either_colour _ _ _ _ _ color (rw start at rest) row)

  -- On a frame buffer of 32 bits a pixel, video_memset from a pixel of the screen gives `count`
  -- pixels the colour, counted along the rows, as far as the screen goes, and leaves every other
  -- pixel as it was.
  pub shown-video_memset :
      (x y count x' y' color : ℕ)
      → color < 2 ^ 32
      → x < v.width
      → y < v.height
      → x' < v.width
      → y' < v.height
      → shown (video_memset x y color count v) x' y'
        ≡ (if in_range (y * v.width + x) count (y' * v.width + x') then color else shown v x' y')
  unfolding video_memset
  shown-video_memset x y count x' y' color c32 hx hy hx' hy' =
      let on_screen : leb v.width x || leb v.height y ≡ false = ground arith in
      let depth : (v.bpp == 32) || (v.bpp == 24) ≡ true = ground (arith, f.depth) in
      rw (on_screen, depth)
        (memset_lem (v.height - y) x y count x' y' color v.memory c32 hx (omega arith) hx' hy')
