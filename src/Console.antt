-- ===== src/Console.antt =====
-- src/console.c, src/cursor.c, src/font.c and src/stdio.c: text on the screen. An int16_t is its bit
-- pattern below 2 ^ 16, an int its bit pattern below 2 ^ 32.
pub mod Font
pub mod Format
pub mod Glyph
pub mod Place
mod Tests
use zareboon_os.Prelude.{
  ℕ, zero, suc, ◌+◌, ◌-◌, ◌*◌, ◌/◌, ◌%◌, ◌^◌, Bool, true, false, not, ◌&&◌, ◌||◌, Option, none,
  some, ◌==◌, leb, ltb, if◌then◌else◌, List, [], ◌∷◌, min,
}
use zareboon_os.Video.{Video, is_negative, put_pixel, video_memset, fill_rect}
use zareboon_os.Console.Font.{font_row}
use zareboon_os.Console.Format.{Out, put, line, Arg, print}

abbrev pub screen_width : ℕ
screen_width = 1024

abbrev pub screen_height : ℕ
screen_height = 768

abbrev pub margin : ℕ
margin = 2

-- global_scale, cursor_x, cursor_y, drawn_x, drawn_y, and the screen.
pub record Console : Type 0 where
  pub scale : ℕ
  pub cursor_x : ℕ
  pub cursor_y : ℕ
  pub drawn_x : ℕ
  pub drawn_y : ℕ
  pub video : Video

-- An int16_t below 0, and one made an int.
abbrev pub is_negative16 : ℕ → Bool
is_negative16 = leb (2 ^ 15)

abbrev pub to_int : ℕ → ℕ
to_int n = if is_negative16 n then n + 2 ^ 32 - 2 ^ 16 else n

abbrev pub set_font_scale : ℕ → Console → Console
set_font_scale scale k = record k { scale = scale % 2 ^ 8 }

abbrev pub set_cursor : ℕ → ℕ → Console → Console
set_cursor x y k = record k { cursor_x = x % 2 ^ 16; cursor_y = y % 2 ^ 16 }

abbrev pub move_cursor : ℕ → ℕ → Console → Console
move_cursor x y k = set_cursor (k.cursor_x + x) (k.cursor_y + y) k

-- `cursor_x * (8 * get_font_scale())`, returned as an int16_t.
abbrev pub get_raw_cursor_x : Console → ℕ
get_raw_cursor_x k = k.cursor_x * (8 * k.scale) % 2 ^ 16

abbrev pub get_raw_cursor_y : Console → ℕ
get_raw_cursor_y k = k.cursor_y * (8 * k.scale) % 2 ^ 16

-- rgb(0, 0, 0) and rgb(255, 255, 255)
abbrev pub black : ℕ
black = 0xFF000000

abbrev pub white : ℕ
white = 0xFFFFFFFF

unfoldable pub erase_cursor : Console → Console
unfolding fill_rect
erase_cursor k =
    let g = 8 * k.scale in
    let x = to_int k.drawn_x * g % 2 ^ 32 in
    let y = to_int k.drawn_y * g % 2 ^ 32 in
    if is_negative16 k.drawn_x then k else record k {
      video = fill_rect x y g g black k.video;
      drawn_x = 2 ^ 16 - 1;
      drawn_y = 2 ^ 16 - 1;
    }

unfoldable pub update_cursor : Console → Console
unfolding erase_cursor fill_rect
update_cursor k =
    let e = erase_cursor k in
    let g = 8 * e.scale in
    record e {
      video =
          fill_rect (to_int (get_raw_cursor_x e)) (to_int (get_raw_cursor_y e)) g g white e.video;
      drawn_x = e.cursor_x;
      drawn_y = e.cursor_y;
    }

abbrev pub new_line : Console → Console
new_line k = set_cursor margin (k.cursor_y + 1) k

-- `row & (0x80 >> x)`
abbrev pub is_set : ℕ → ℕ → Bool
is_set row x = row / 2 ^ (7 - x) % 2 == 1

-- The loop over `left` pixels of a row of a glyph, from pixel `px` on.
unfoldable pub draw_row : ℕ → ℕ → ℕ → ℕ → ℕ → ℕ → ℕ → Video → Video
unfolding put_pixel
draw_row zero px x y row scale color v = v
draw_row (suc left) px x y row scale color v =
    draw_row left (px + 1) x y row scale color
      (if is_set row (min (px / scale) 7) then put_pixel (x + px) y color v else v)

unfoldable pub draw_rows : ℕ → ℕ → ℕ → ℕ → ℕ → ℕ → ℕ → Video → Video
unfolding draw_row font_row
draw_rows zero py x y c scale color v = v
draw_rows (suc left) py x y c scale color v =
    draw_rows left (py + 1) x y c scale color
      (draw_row (8 * scale) 0 x (y + py) (font_row c (min (py / scale) 7)) scale color v)

-- The scale is a uint8_t, so 8 * scale is at least 8 and below 2 ^ 16.
unfoldable pub draw_char : ℕ → ℕ → ℕ → ℕ → Console → Console
unfolding draw_rows
draw_char x y c color k =
    let scale = if k.scale == 0 then 2 else k.scale in
    record k { scale = scale; video = draw_rows (8 * scale) 0 x y c scale color k.video }

-- print_char between the erased cursor and draw_char: the cursor is moved on for a tab, and then on to
-- the screen.
unfoldable pub place_cursor : ℕ → Console → Console
place_cursor c k =
    let k0 = if c == 9 then move_cursor 4 0 k else k in
    let k1 =
      if is_negative16 k0.cursor_x || ltb k0.cursor_x margin
      then set_cursor margin k0.cursor_y k0
      else k0 in
    let x = get_raw_cursor_x k1 in
    let k2 =
      if not (is_negative16 x) && leb screen_width x
      then set_cursor margin (k1.cursor_y + 1) k1
      else k1 in
    let y = get_raw_cursor_y k2 in
    if not (is_negative16 y) && leb screen_height y then set_cursor margin 0 k2 else k2

unfoldable pub print_char : ℕ → ℕ → Console → Console
unfolding erase_cursor place_cursor draw_char
print_char c color k =
    let e = erase_cursor k in
    let p = place_cursor c e in
    if c == 10
    then new_line e
    else move_cursor 1 0 (draw_char (get_raw_cursor_x p) (get_raw_cursor_y p) c color p)

unfoldable pub clear : Console → Console
unfolding video_memset
clear k =
    set_cursor 0 0
      (record k { video = video_memset 0 0 black (screen_width * screen_height) k.video })

unfoldable pub draw_black_square : ℕ → ℕ → ℕ → Console → Console
unfolding fill_rect
draw_black_square x y color k =
    let g = 8 * k.scale % 2 ^ 16 in record k { video = fill_rect x y g g color k.video }

-- The calls that print makes, one after the other.
unfoldable pub run_outs : List Out → Console → Console
unfolding print_char
run_outs [] k = k
run_outs (put c color ∷ outs) k = run_outs outs (print_char (c % 2 ^ 8) color k)
run_outs (line ∷ outs) k = run_outs outs (new_line k)

unfoldable pub print_to : List ℕ → List Arg → Console → Option Console
unfolding print run_outs update_cursor
print_to c args k = elim (print c args) [
  | none ↦ none
  | some outs ↦ some (update_cursor (run_outs outs k))
]
