-- ===== src/Display/Draw.antt =====
-- display_pixel and display_fill: the back buffer that they leave, and the invariant.
use zareboon_os.Prelude.{
  ℕ, ◌+◌, ◌*◌, ◌%◌, ◌^◌, ◌<◌, ◌≤◌, ◌≡◌, refl, ◌∙◌, sym, not, ◌||◌, ◌&&◌, ◌==◌, if◌then◌else◌, arith,
  Bool-cases, inl, inr, ◌⊎◌, ==_iff, leb,
}
use zareboon_os.Video.Rows.{rows_fit}
use zareboon_os.Display.{Display, word_at, put_word, mark_dirty, display_pixel}
use zareboon_os.Display.Buffers.{Words32, put_word-Words32}
use zareboon_os.Display.Mirror.{
  pixel_of, MirrorOn, Outside, IsMirror, index_lt, index_ne, mark_dirty-IsMirror,
}

-- What the program has drawn at column `x` of row `y`.
abbrev pub drawn : Display → ℕ → ℕ → ℕ
drawn s x y = pixel_of s.words s.back s.width x y

pub count_fits : (b s : ℕ) → 0 < s → b ≤ b * s
count_fits b s h = grind arith

pub rows_le : (a b w : ℕ) → a ≤ b → a * w ≤ b * w
rows_le a b w h = grind arith

-- Words that differ only in rows of the back buffer from `top` to `bottom`.
abbrev pub SameBut : (back w top bottom : ℕ) → (ℕ → ℕ) → (ℕ → ℕ) → Type 0
SameBut back w top bottom words words' =
    (a : ℕ) → (a < back + 4 * (top * w)) ⊎ (back + 4 * (bottom * w) ≤ a) → words' a ≡ words a

drawn-MirrorOn :
    (top bottom : ℕ) (words' : ℕ → ℕ) (s : Display)
    → bottom ≤ s.height
    → Words32 words'
    → SameBut s.back s.width top bottom s.words words'
    → IsMirror s
    → MirrorOn
        (λ y. Outside s.dirty_top s.dirty_bottom y × Outside top bottom y)
        (record s { words = words' })
drawn-MirrorOn top bottom words' s low w32 same m = record {
  active = m.mirror.active;
  buffers = m.mirror.buffers;
  frame = m.mirror.frame;
  words32 = w32;
  synced = λ e x y hx hy (c, out).
      same (s.back + 4 * (y * s.width + x)) (outside_rows x y hx out)
      ∙ m.mirror.synced e x y hx hy c
      ∙ sym (same (s.front + 4 * (y * s.width + x)) (outside_front x y hx hy));
  mirrored = λ e x y hx hy vx vy.
      m.mirror.mirrored e x y hx hy vx vy
      ∙ sym (same (s.front + 4 * (y * s.width + x)) (outside_front x y hx hy));
}
  where
    outside_rows :
        (x y : ℕ)
        → x < s.width
        → Outside top bottom y
        → (s.back + 4 * (y * s.width + x) < s.back + 4 * (top * s.width))
          ⊎ (s.back + 4 * (bottom * s.width) ≤ s.back + 4 * (y * s.width + x))
    outside_rows x y hx (inl h) = inl (omega (arith, rows_fit y top s.width h))
    outside_rows x y hx (inr h) = inr (omega (arith, rows_le bottom y s.width h))

    outside_front :
        (x y : ℕ)
        → x < s.width
        → y < s.height
        → (s.front + 4 * (y * s.width + x) < s.back + 4 * (top * s.width))
          ⊎ (s.back + 4 * (bottom * s.width) ≤ s.front + 4 * (y * s.width + x))
    outside_front x y hx hy =
        let i = index_lt x y s.width s.height hx hy in
        let r = rows_le bottom s.height s.width low in
        elim m.mirror.buffers.apart [
          | inl h ↦ inr (omega (arith, i, r))
          | inr h ↦ inl (omega (arith, i))
        ]

-- The address of a pixel of the back buffer.
pub back_address :
    (s : Display) (x y : ℕ)
    → IsMirror s
    → x < s.width
    → y < s.height
    → word_at s.back ((y * s.width + x) % 2 ^ 32) ≡ s.back + 4 * (y * s.width + x)
back_address s x y m hx hy =
    let i = index_lt x y s.width s.height hx hy in
    omega (arith, i, m.mirror.buffers.small, m.mirror.buffers.back_fits)

put-SameBut :
    (back w x y color : ℕ) (words : ℕ → ℕ)
    → x < w
    → SameBut back w y (y + 1) words (put_word (back + 4 * (y * w + x)) color words)
put-SameBut back w x y color words hx a out =
    let next : (y + 1) * w ≡ y * w + w = grind arith in ground (arith, next)

pub drawn-mark_dirty :
    (top bottom : ℕ) (s : Display) (x y : ℕ) → drawn (mark_dirty top bottom s) x y ≡ drawn s x y
drawn-mark_dirty top bottom s x y = elim (Bool-cases (leb s.dirty_bottom s.dirty_top)) [
  | inl e ↦ rw e refl
  | inr e ↦ rw e refl
]

put_word-drawn :
    (base w x y x' y' color : ℕ) (words : ℕ → ℕ)
    → x < w
    → x' < w
    → pixel_of (put_word (base + 4 * (y * w + x)) color words) base w x' y'
      ≡ (if (x' == x) && (y' == y) then color else pixel_of words base w x' y')
put_word-drawn base w x y x' y' color words hx hx' = elim (Bool-cases (y' == y)) [
  | inl e ↦ let at : y' ≡ y = (==_iff _ _).0 e in rw (e, at) (ground arith)
  | inr e ↦ let ne = index_ne x' y' x y w hx' hx (ground arith) in rw e (ground (arith, ne))
]

-- A drawing of some rows of the back buffer, and the band marked.
pub marked-IsMirror :
    (top bottom : ℕ) (words' : ℕ → ℕ) (s : Display)
    → top < bottom
    → bottom ≤ s.height
    → Words32 words'
    → SameBut s.back s.width top bottom s.words words'
    → IsMirror s
    → IsMirror (mark_dirty top bottom (record s { words = words' }))
marked-IsMirror top bottom words' s pos low w32 same m =
    mark_dirty-IsMirror top bottom (record s { words = words' }) pos low m.band
      (drawn-MirrorOn top bottom words' s low w32 same m)

-- display_pixel keeps the invariant of an open display. On a pixel of the display it draws the
-- colour, and it leaves every other pixel as it was.
pub display_pixel-draws :
    (x y color x' y' : ℕ) (s : Display)
    → IsMirror s
    → color < 2 ^ 32
    → x' < s.width
    → y' < s.height
    → IsMirror (display_pixel x y color s)
      × (drawn (display_pixel x y color s) x' y'
          ≡ (if (x' == x) && (y' == y) then color else drawn s x' y'))
unfolding display_pixel
display_pixel-draws x y color x' y' s m c32 hx' hy' =
    elim (Bool-cases (not s.active || leb s.width x || leb s.height y)) [
      | inl e ↦ rw e (m, ground (arith, m.mirror.active))
      | inr e ↦
          let hx : x < s.width = ground arith in
          let hy : y < s.height = ground arith in
          let rows = count_fits s.height s.width (omega arith) in
          let next : (y + 1) % 2 ^ 32 ≡ y + 1 = omega (arith, rows, m.mirror.buffers.small) in
          let a = s.back + 4 * (y * s.width + x) in
          rw (e, back_address s x y m hx hy)
            (elim (Bool-cases (s.words a == color)) [
              | inl same ↦
                  let is : s.words a ≡ color = (==_iff _ _).0 same in rw same (m, no_change is)
              | inr other ↦
                  rw (other, next)
                    (
                      marked-IsMirror y (y + 1) (put_word a color s.words) s (omega arith)
                          (omega arith) (put_word-Words32 a color s.words c32 m.mirror.words32)
                          (put-SameBut s.back s.width x y color s.words hx) m,
                      drawn-mark_dirty y (y + 1) (record s { words = put_word a color s.words }) x'
                            y'
                          ∙ put_word-drawn s.back s.width x y x' y' color s.words hx hx',
                    )
            ])
    ]
  where
    no_change :
        s.words (s.back + 4 * (y * s.width + x)) ≡ color
        → drawn s x' y' ≡ (if (x' == x) && (y' == y) then color else drawn s x' y')
    no_change is = elim (Bool-cases (x' == x)) [
      | inr e ↦ rw e refl
      | inl e ↦ elim (Bool-cases (y' == y)) [
        | inr k ↦ rw (e, k) refl
        | inl k ↦
            let at : x' ≡ x = (==_iff _ _).0 e in
            let to : y' ≡ y = (==_iff _ _).0 k in rw (e, k, at, to) is
      ]
    ]
