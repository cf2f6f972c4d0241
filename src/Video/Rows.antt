-- ===== src/Video/Rows.antt =====
-- Rows of words in a frame buffer of 32 bits a pixel, as the screen shows them.
use zareboon_os.Prelude.{
  ℕ, zero, suc, ◌+◌, ◌-◌, ◌*◌, ◌^◌, ◌<◌, ◌≤◌, ◌≡◌, ◌≢◌, refl, sym, ap, ◌∙◌, ◌&&◌, Bool, ◌==◌, leb,
  ltb, if◌then◌else◌, arith, Bool-cases, inl, inr, ◌⊎◌, ==_iff, ltb→lt,
}
use zareboon_os.Fs.Device.{Bytes}
use zareboon_os.Fs.Bytes.{get32}
use zareboon_os.Video.{Video, pixel_address, store_words, store_rows}
use zareboon_os.Video.Words.{store_words-get32_ne, store_words-get32_self}

-- A frame buffer of 32 bits a pixel whose rows hold the screen's and lie below 2 ^ 32.
pub record IsFrame (v : Video) : Type 0 where
  pub depth : v.bpp ≡ 32
  pub room : v.width * 4 ≤ v.pitch
  pub fits : v.framebuffer + v.height * v.pitch ≤ 2 ^ 32
  pub narrow : v.width < 2 ^ 16
  pub low : v.height < 2 ^ 16

-- The colour at column `x` of row `y`.
abbrev pub shown : Video → ℕ → ℕ → ℕ
shown v x y = get32 v.memory (pixel_address v 4 x y)

abbrev pub in_range : ℕ → ℕ → ℕ → Bool
in_range from n i = leb from i && ltb i (from + n)

pub rows_fit : (a b s : ℕ) → a < b → a * s + s ≤ b * s
rows_fit a b s h = grind arith

-- Rows of words change the memory alone.
pub store_rows-frame :
    (left x y n : ℕ) (word : ℕ → ℕ → ℕ) (v : Video)
    → store_rows left x y n word v ≡ record v { memory = (store_rows left x y n word v).memory }
unfolding store_rows
store_rows-frame zero x y n word v = refl
store_rows-frame (suc left) x y n word v =
    store_rows-frame left x (y + 1) n word
      (record v { memory = store_words n (pixel_address v 4 x y) (word y) v.memory })

module _ (v : Video) (f : IsFrame v) where
  address_lem :
      (x y : ℕ)
      → x < v.width
      → y < v.height
      → (pixel_address v 4 x y ≡ v.framebuffer + y * v.pitch + x * 4)
        × (y * v.pitch + v.pitch ≤ v.height * v.pitch)
  address_lem x y hx hy =
      let row = rows_fit y v.height v.pitch hy in (omega (arith, f.room, f.fits, row), row)

  -- One row of words, seen from any pixel of the screen.
  pub row_lem :
      (x y n x' y' : ℕ) (word : ℕ → ℕ) (m : Bytes)
      → x < v.width
      → x + n ≤ v.width
      → y < v.height
      → x' < v.width
      → y' < v.height
      → ((i : ℕ) → i < n → word i < 2 ^ 32)
      → get32 (store_words n (pixel_address v 4 x y) word m) (pixel_address v 4 x' y') ≡ (
          if (y' == y) && in_range x n x' then word (x' - x) else get32 m (pixel_address v 4 x' y'))
  row_lem x y n x' y' word m hx hn hy hx' hy' w32 =
      let (a, ra) = address_lem x y hx hy in
      let (b, rb) = address_lem x' y' hx' hy' in
      let fits : pixel_address v 4 x y + 4 * n ≤ 2 ^ 32 = omega (arith, f.room, f.fits) in
      elim (Bool-cases (y' == y)) [
        | inl e ↦
            let at : y' ≡ y = (==_iff _ _).0 e in
            let rows : y' * v.pitch ≡ y * v.pitch = ap (λ r. r * v.pitch) at in
            elim (Bool-cases (in_range x n x')) [
              | inl i ↦
                  let to : pixel_address v 4 x' y' ≡ pixel_address v 4 x y + 4 * (x' - x) =
                    ground arith in
                  rw (e, i, to)
                    (store_words-get32_self n (pixel_address v 4 x y) word m (x' - x) fits
                      (ground arith) (w32 (x' - x) (ground arith)))
              | inr i ↦
                  rw (e, i)
                    (store_words-get32_ne n (pixel_address v 4 x y) word m (pixel_address v 4 x' y')
                      fits (ground arith))
            ]
        | inr e ↦ rw e (
            store_words-get32_ne n (pixel_address v 4 x y) word m (pixel_address v 4 x' y') fits
              (apart (ground arith)))
      ]
    where
      apart :
          y' ≢ y
          → (pixel_address v 4 x' y' + 4 ≤ pixel_address v 4 x y)
            ⊎ (pixel_address v 4 x y + 4 * n ≤ pixel_address v 4 x' y')
      apart ne =
          let (a, ra) = address_lem x y hx hy in
          let (b, rb) = address_lem x' y' hx' hy' in
          elim (Bool-cases (ltb y' y)) [
            | inl e ↦ inl (omega (arith, rows_fit y' y v.pitch (ltb→lt _ _ e), f.room))
            | inr e ↦ inr (omega (arith, rows_fit y y' v.pitch (ground arith), f.room))
          ]

  -- Rows of words, seen from any pixel of the screen.
  pub rows_lem :
      (left x y n x' y' : ℕ) (word : ℕ → ℕ → ℕ) (m : Bytes)
      → x < v.width
      → x + n ≤ v.width
      → y + left ≤ v.height
      → x' < v.width
      → y' < v.height
      → ((j i : ℕ) → i < n → word j i < 2 ^ 32)
      → shown (store_rows left x y n word (record v { memory = m })) x' y' ≡ (
          if in_range y left y' && in_range x n x'
          then word y' (x' - x)
          else get32 m (pixel_address v 4 x' y'))
  unfolding store_rows
  rows_lem zero x y n x' y' word m hx hn hy hx' hy' w32 = ground arith
  rows_lem (suc left) x y n x' y' word m hx hn hy hx' hy' w32 =
      let m1 = store_words n (pixel_address v 4 x y) (word y) m in
      let row = row_lem x y n x' y' (word y) m hx hn (omega arith) hx' hy' (w32 y) in
      let rest = rows_lem left x (y + 1) n x' y' word m1 hx hn (omega arith) hx' hy' w32 in
      rest ∙ elim (Bool-cases (in_range x n x')) [
        | inr c ↦ rw c (ground (arith, rw c at row))
        | inl c ↦ elim (Bool-cases (y' == y)) [
          | inl e ↦
              let at : y' ≡ y = (==_iff _ _).0 e in
              let first : word y (x' - x) ≡ word y' (x' - x) = ap (λ r. word r (x' - x)) (sym at) in
              let here : get32 m1 (pixel_address v 4 x' y') ≡ word y (x' - x) =
                row ∙ rw (e, c) refl in
              ground (arith, here, first)
          | inr e ↦
              let same : get32 m1 (pixel_address v 4 x' y') ≡ get32 m (pixel_address v 4 x' y') =
                row ∙ rw e refl in
              ground (arith, same)
        ]
      ]
