-- ===== src/Console/Glyph.antt =====
-- draw_char: the pixels of a glyph, and no other, take its colour.
use zareboon_os.Prelude.{
  ℕ, zero, suc, ◌+◌, ◌-◌, ◌*◌, ◌/◌, ◌^◌, ◌<◌, ◌≡◌, refl, ap, ◌∙◌, Bool, true, false, ◌&&◌, ◌||◌,
  ◌==◌, leb, if◌then◌else◌, arith, Bool-cases, inl, inr, ==_iff, min,
}
use zareboon_os.Video.{Video, is_negative, put_pixel}
use zareboon_os.Video.Rows.{IsFrame, shown, in_range}
use zareboon_os.Video.Laws.{shown-put_pixel}
use zareboon_os.Console.{Console, is_set, draw_row, draw_rows, draw_char}
use zareboon_os.Console.Font.{font_row}

-- A frame buffer of the same shape as `v`.
pub record Alike (v v' : Video) : Type 0 where
  pub frame : IsFrame v'
  pub width : v'.width ≡ v.width
  pub height : v'.height ≡ v.height

put_pixel-Alike : (x y color : ℕ) (v : Video) → IsFrame v → Alike v (put_pixel x y color v)
unfolding put_pixel
put_pixel-Alike x y color v f =
    elim (Bool-cases (is_negative x || leb v.width x || is_negative y || leb v.height y)) [
      | inl e ↦ rw e (record { frame = f; width = refl; height = refl })
      | inr e ↦
          let depth : (v.bpp == 32) ≡ true = (==_iff _ _).1 f.depth in
          rw (e, depth)
            (record {
              frame = record {
                depth = f.depth;
                room = f.room;
                fits = f.fits;
                narrow = f.narrow;
                low = f.low;
              };
              width = refl;
              height = refl;
            })
    ]

-- One pixel of a row, drawn or not.
abbrev dot : Bool → ℕ → ℕ → ℕ → Video → Video
dot b x y color v = if b then put_pixel x y color v else v

dot-Alike : (b : Bool) (x y color : ℕ) (v : Video) → IsFrame v → Alike v (dot b x y color v)
dot-Alike true x y color v f = put_pixel-Alike x y color v f
dot-Alike false x y color v f = record { frame = f; width = refl; height = refl }

shown-dot :
    (b : Bool) (x y color x' y' : ℕ) (v : Video)
    → IsFrame v
    → color < 2 ^ 32
    → x' < v.width
    → y' < v.height
    → shown (dot b x y color v) x' y'
      ≡ (if b && (x' == x) && (y' == y) then color else shown v x' y')
shown-dot true x y color x' y' v f c32 hx hy = shown-put_pixel v f x y x' y' color c32 hx hy
shown-dot false x y color x' y' v f c32 hx hy = refl

Alike-trans : (v v' v'' : Video) → Alike v v' → Alike v' v'' → Alike v v''
Alike-trans v v' v'' a b = record {
  frame = b.frame;
  width = b.width ∙ a.width;
  height = b.height ∙ a.height;
}

-- The pixel of a row of a glyph at screen column `x'` is set.
abbrev row_bit : ℕ → ℕ → ℕ → ℕ → Bool
row_bit row scale x x' = is_set row (min ((x' - x) / scale) 7)

-- The dot drawn here, and those drawn behind it.
joined :
    (across rest here all b b' : Bool) (color new old : ℕ)
    → new ≡ (if b && here && across then color else old)
    → all ≡ (here || rest)
    → (here ≡ true → b ≡ b')
    → (if across && rest && b' then color else new) ≡ (if across && all && b' then color else old)
joined across rest false all b b' color new old h k same = ground arith
joined across rest true all b b' color new old h k same = let e = same refl in ground arith

in_range-suc :
    (from i left at : ℕ)
    → in_range (from + i) (suc left) at ≡ (at == from + i) || in_range (from + (i + 1)) left at
in_range-suc from i left at = ground arith

draw_row-Alike :
    (left px x y row scale color : ℕ) (v : Video)
    → IsFrame v
    → Alike v (draw_row left px x y row scale color v)
unfolding draw_row
draw_row-Alike zero px x y row scale color v f = record { frame = f; width = refl; height = refl }
draw_row-Alike (suc left) px x y row scale color v f =
    let a = dot-Alike (is_set row (min (px / scale) 7)) (x + px) y color v f in
    Alike-trans v _ _ a (draw_row-Alike left (px + 1) x y row scale color _ a.frame)

shown-draw_row :
    (left px x y row scale color x' y' : ℕ) (v : Video)
    → IsFrame v
    → color < 2 ^ 32
    → x' < v.width
    → y' < v.height
    → shown (draw_row left px x y row scale color v) x' y' ≡ (
        if (y' == y) && in_range (x + px) left x' && row_bit row scale x x'
        then color
        else shown v x' y')
unfolding draw_row
shown-draw_row zero px x y row scale color x' y' v f c32 hx hy = ground arith
shown-draw_row (suc left) px x y row scale color x' y' v f c32 hx hy =
    let b = is_set row (min (px / scale) 7) in
    let v1 = dot b (x + px) y color v in
    let a = dot-Alike b (x + px) y color v f in
    let here = shown-dot b (x + px) y color x' y' v f c32 hx hy in
    let rest =
      shown-draw_row left (px + 1) x y row scale color x' y' v1 a.frame c32 (omega (arith, a.width))
        (omega (arith, a.height)) in
    rest
    ∙ joined (y' == y) (in_range (x + (px + 1)) left x') (x' == x + px)
        (in_range (x + px) (suc left) x') b (row_bit row scale x x') color _ _ here
        (in_range-suc x px left x')
        (λ e.
          let at : x' ≡ x + px = (==_iff _ _).0 e in
          ap (λ i. is_set row (min (i / scale) 7)) (omega arith))

-- The pixel of a glyph at a place of the screen is set.
abbrev pub glyph_bit : ℕ → ℕ → ℕ → ℕ → ℕ → ℕ → Bool
glyph_bit c scale x y x' y' = row_bit (font_row c (min ((y' - y) / scale) 7)) scale x x'

shown-draw_rows :
    (left py x y c scale color x' y' : ℕ) (v : Video)
    → IsFrame v
    → color < 2 ^ 32
    → x' < v.width
    → y' < v.height
    → shown (draw_rows left py x y c scale color v) x' y' ≡ (
        if in_range x (8 * scale) x' && in_range (y + py) left y' && glyph_bit c scale x y x' y'
        then color
        else shown v x' y')
unfolding draw_rows
shown-draw_rows zero py x y c scale color x' y' v f c32 hx hy = ground arith
shown-draw_rows (suc left) py x y c scale color x' y' v f c32 hx hy =
    let row = font_row c (min (py / scale) 7) in
    let v1 = draw_row (8 * scale) 0 x (y + py) row scale color v in
    let a = draw_row-Alike (8 * scale) 0 x (y + py) row scale color v f in
    let here = shown-draw_row (8 * scale) 0 x (y + py) row scale color x' y' v f c32 hx hy in
    let rest =
      shown-draw_rows left (py + 1) x y c scale color x' y' v1 a.frame c32 (omega (arith, a.width))
        (omega (arith, a.height)) in
    let start : x + 0 ≡ x = omega arith in
    rest
    ∙ joined (in_range x (8 * scale) x') (in_range (y + (py + 1)) left y') (y' == y + py)
        (in_range (y + py) (suc left) y') (row_bit row scale x x') (glyph_bit c scale x y x' y')
        color _ _
        (rw start at here
          ∙ swapped (y' == y + py) (in_range x (8 * scale) x') (row_bit row scale x x') color
              (shown v x' y'))
        (in_range-suc y py left y')
        (λ e.
          let at : y' ≡ y + py = (==_iff _ _).0 e in
          ap (λ i. row_bit (font_row c (min (i / scale) 7)) scale x x') (omega arith))
  where
    swapped :
        (here column b : Bool) (color old : ℕ)
        → (if here && column && b then color else old)
          ≡ (if b && here && column then color else old)
    swapped here column b color old = ground arith

-- On a frame buffer of 32 bits a pixel, draw_char gives the pixels of the screen that are set in the
-- glyph, each of its dots a square of `scale` pixels, the colour, and leaves every other pixel as it
-- was.
pub shown-draw_char :
    (x y c color x' y' : ℕ) (k : Console)
    → IsFrame k.video
    → 0 < k.scale
    → color < 2 ^ 32
    → x' < k.video.width
    → y' < k.video.height
    → shown (draw_char x y c color k).video x' y' ≡ (
        if in_range x (8 * k.scale) x'
          && in_range y (8 * k.scale) y'
          && glyph_bit c k.scale x y x' y'
        then color
        else shown k.video x' y')
unfolding draw_char
shown-draw_char x y c color x' y' k f pos c32 hx hy =
    let some_scale : (k.scale == 0) ≡ false = ground arith in
    let start : y + 0 ≡ y = omega arith in
    rw some_scale
      (rw start at (shown-draw_rows (8 * k.scale) 0 x y c k.scale color x' y' k.video f c32 hx hy))
