-- ===== src/Console/Tests.antt =====
-- Text on a small screen.
use zareboon_os.Prelude.{
  ◌≡◌, refl, true, false, ◌&&◌, some, if◌then◌else◌, arith, [], ◌∷◌, ◌⊎◌, inl, inr,
}
use zareboon_os.Video.{Video}
use zareboon_os.Video.Rows.{IsFrame, shown, in_range}
use zareboon_os.Console.{
  Console, erase_cursor, print_char, place_cursor, move_cursor, get_raw_cursor_x, get_raw_cursor_y,
  draw_char,
}
use zareboon_os.Console.Format.{word, put, line, digits_loop, digits_of, print_number, print, atoi}
use zareboon_os.Console.Format.Numbers.{atoi-print_number}
use zareboon_os.Console.Format.Runs.{IsDone, print-IsDone}
use zareboon_os.Console.Place.{IsPlaced, is_placed, place_cursor-IsPlaced}
use zareboon_os.Console.Glyph.{glyph_bit, shown-draw_char}

abbrev screen : Video
screen = record {
  framebuffer = 0xE0000000;
  pitch = 128;
  width = 32;
  height = 24;
  bpp = 32;
  memory = λ a. 0;
}

screen-IsFrame : IsFrame screen
screen-IsFrame = record {
  depth = refl;
  room = omega arith;
  fits = omega arith;
  narrow = omega arith;
  low = omega arith;
}

abbrev console : Console
console = record {
  scale = 2;
  cursor_x = 2;
  cursor_y = 2;
  drawn_x = 0xFFFF;
  drawn_y = 0xFFFF;
  video = screen;
}

padded_number :
    print_number 42 true 10 false 6 true false ≡ b'-' ∷ b'0' ∷ b'0' ∷ b'0' ∷ b'4' ∷ b'2' ∷ []
unfolding print_number digits_of digits_loop
padded_number = refl

-- "%d\n" of -1, then "%x" of 255.
printed :
    print (b'%' ∷ b'd' ∷ 10 ∷ b'%' ∷ b'x' ∷ []) (word 0xFFFFFFFF ∷ word 255 ∷ [])
    ≡ some (
        put b'-' 0xFFFFFFFF
        ∷ put b'1' 0xFFFFFFFF
        ∷ line
        ∷ put b'f' 0xFFFFFFFF
        ∷ put b'f' 0xFFFFFFFF
        ∷ [])
unfolding print print_number digits_of digits_loop
printed = refl

print-IsDone_example : IsDone (print (b'%' ∷ b'0' ∷ b'9' ∷ b's' ∷ []) [])
print-IsDone_example = print-IsDone (b'%' ∷ b'0' ∷ b'9' ∷ b's' ∷ []) [] (omega arith)

atoi-print_number_example : atoi (print_number 1234567 false 10 false 12 true false) ≡ 1234567
atoi-print_number_example =
    atoi-print_number 1234567 12 false true false (omega arith) (inr (inl refl))

place_cursor-IsPlaced_example :
    IsPlaced (place_cursor 9 (erase_cursor console))
    × ((is_placed (move_cursor 4 0 (erase_cursor console)) ≡ false)
        ⊎ (place_cursor 9 (erase_cursor console) ≡ move_cursor 4 0 (erase_cursor console)))
    × (print_char 9 7 console
        ≡ move_cursor 1 0 (
            draw_char
              (get_raw_cursor_x (place_cursor 9 (erase_cursor console)))
              (get_raw_cursor_y (place_cursor 9 (erase_cursor console)))
              9
              7
              (place_cursor 9 (erase_cursor console))))
place_cursor-IsPlaced_example =
    place_cursor-IsPlaced 9 7 console refl (omega arith) (omega arith) (omega arith) (omega arith)

shown-draw_char_example : shown (draw_char 8 4 b'T' 7 console).video 16 4 ≡ (
    if in_range 8 16 16 && in_range 4 16 4 && glyph_bit b'T' 2 8 4 16 4
    then 7
    else shown screen 16 4)
shown-draw_char_example =
    shown-draw_char 8 4 b'T' 7 16 4 console screen-IsFrame (omega arith) (omega arith) (omega arith)
      (omega arith)
