-- ===== src/Display/Mirror.antt =====
-- The invariant of the open display: outside the dirty band the two buffers agree, and the screen
-- shows the front one. What draws to the back buffer keeps it.
use zareboon_os.Prelude.{
  ℕ, ◌+◌, ◌*◌, ◌^◌, ◌<◌, ◌≤◌, ◌≡◌, ◌≢◌, false, true, arith, Bool-cases, inl, inr, ◌⊎◌, leb, ltb,
  min, max, ltb→lt,
}
use zareboon_os.Video.Rows.{IsFrame, shown, rows_fit}
use zareboon_os.Display.{Display, mark_dirty}
use zareboon_os.Display.Buffers.{Words32}

-- Two buffers of `h` rows of `w` words that do not overlap.
pub record AreBuffers (back front w h : ℕ) : Type 0 where
  pub wide : 0 < w
  pub small : h * w ≤ 2 ^ 24
  pub back_fits : back + 4 * (h * w) ≤ 2 ^ 32
  pub front_fits : front + 4 * (h * w) ≤ 2 ^ 32
  pub apart : (back + 4 * (h * w) ≤ front) ⊎ (front + 4 * (h * w) ≤ back)

-- The word of column `x` and row `y` in a buffer.
abbrev pub pixel_of : (ℕ → ℕ) → ℕ → ℕ → ℕ → ℕ → ℕ
pixel_of words base w x y = words (base + 4 * (y * w + x))

-- The display's invariant, with the buffers equal on the rows that are clean.
pub record MirrorOn (clean : ℕ → Type 0) (s : Display) : Type 0 where
  pub active : s.active ≡ true
  pub buffers : AreBuffers s.back s.front s.width s.height
  pub frame : IsFrame s.video
  pub words32 : Words32 s.words
  pub synced :
      s.full ≡ false
      → (x y : ℕ) → x < s.width
      → y < s.height
      → clean y
      → pixel_of s.words s.back s.width x y ≡ pixel_of s.words s.front s.width x y
  pub mirrored :
      s.full ≡ false
      → (x y : ℕ) → x < s.width
      → y < s.height
      → x < s.video.width
      → y < s.video.height
      → shown s.video x y ≡ pixel_of s.words s.front s.width x y

-- A row outside the band.
abbrev pub Outside : ℕ → ℕ → ℕ → Type 0
Outside top bottom y = (y < top) ⊎ (bottom ≤ y)

pub record IsMirror (s : Display) : Type 0 where
  pub band : s.dirty_bottom ≤ s.height
  pub mirror : MirrorOn (Outside s.dirty_top s.dirty_bottom) s

pub index_lt : (x y w h : ℕ) → x < w → y < h → y * w + x < h * w
index_lt x y w h hx hy = omega (arith, rows_fit y h w hy)

pub index_ne : (x y x' y' w : ℕ) → x < w → x' < w → y ≢ y' → y * w + x ≢ y' * w + x'
index_ne x y x' y' w hx hx' ne e = elim (Bool-cases (ltb y y')) [
  | inl l ↦ absurd (omega (arith, rows_fit y y' w (ltb→lt _ _ l)))
  | inr l ↦ absurd (omega (arith, rows_fit y' y w (ground arith)))
]

pub MirrorOn-weaken :
    (clean clean' : ℕ → Type 0) (s : Display)
    → ((y : ℕ) → clean' y → clean y)
    → MirrorOn clean s
    → MirrorOn clean' s
MirrorOn-weaken clean clean' s sub m = record {
  active = m.active;
  buffers = m.buffers;
  frame = m.frame;
  words32 = m.words32;
  synced = λ e x y hx hy c. m.synced e x y hx hy (sub y c);
  mirrored = m.mirrored;
}

-- A display whose rows are clean outside the band and outside [top, bottom) too.
pub mark_dirty-IsMirror :
    (top bottom : ℕ) (s : Display)
    → top < bottom
    → bottom ≤ s.height
    → s.dirty_bottom ≤ s.height
    → MirrorOn (λ y. Outside s.dirty_top s.dirty_bottom y × Outside top bottom y) s
    → IsMirror (mark_dirty top bottom s)
mark_dirty-IsMirror top bottom s pos low band m =
    elim (Bool-cases (leb s.dirty_bottom s.dirty_top)) [
      | inl e ↦ rw e (record {
        band = low;
        mirror =
            let n = MirrorOn-weaken _ (Outside top bottom) s (λ y c. (ground arith, c)) m in
            record {
              active = n.active;
              buffers = n.buffers;
              frame = n.frame;
              words32 = n.words32;
              synced = n.synced;
              mirrored = n.mirrored;
            };
      })
      | inr e ↦ rw e (record {
        band = omega arith;
        mirror =
            let n =
              MirrorOn-weaken _ (Outside (min s.dirty_top top) (max s.dirty_bottom bottom)) s
                (λ y c. (ground arith, ground arith)) m in
            record {
              active = n.active;
              buffers = n.buffers;
              frame = n.frame;
              words32 = n.words32;
              synced = n.synced;
              mirrored = n.mirrored;
            };
      })
    ]
