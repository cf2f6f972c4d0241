-- ===== src/Display/Tests.antt =====
-- A display of two rows of two pixels on a small screen.
use zareboon_os.Prelude.{
  ℕ, ◌+◌, ◌≡◌, refl, true, false, ◌&&◌, ◌==◌, if◌then◌else◌, arith, [], ◌∷◌, inl,
}
use zareboon_os.Fs.Bytes.{get32}
use zareboon_os.Heap.{walk, place, kmalloc, heap_init, ram_heap, heap_size}
use zareboon_os.Heap.Chain.{heap_init-Tiles}
use zareboon_os.Video.{Video}
use zareboon_os.Video.Rows.{IsFrame, shown, in_range}
use zareboon_os.Display.{Display, display_open, display_pixel, display_fill, display_present}
use zareboon_os.Display.Mirror.{IsMirror}
use zareboon_os.Display.Draw.{drawn, display_pixel-draws}
use zareboon_os.Display.Fill.{display_fill-draws}
use zareboon_os.Display.Flush.{Presented, display_present-Presented}
use zareboon_os.Display.Open.{Opened, display_open-Opened}

abbrev screen : Video
screen = record {
  framebuffer = 0xE0000000;
  pitch = 16;
  width = 4;
  height = 3;
  bpp = 32;
  memory = λ a. 0;
}

screen-IsFrame : IsFrame screen
screen-IsFrame = record {
  depth = refl;
  room = omega arith;
  fits = omega arith;
  narrow = omega arith;
  low = omega arith;
}

-- Before display_open.
abbrev text : Display
text = record {
  back = 0;
  front = 0;
  width = 0;
  height = 0;
  dirty_top = 0;
  dirty_bottom = 0;
  full = false;
  active = false;
  heap = heap_init;
  words = λ a. 0;
  console_suspended = false;
  video = screen;
}

-- An open display on which nothing is dirty.
abbrev dark : Display
dark = record text {
  back = 0x01000008;
  front = 0x01000020;
  width = 2;
  height = 2;
  active = true;
  console_suspended = true;
}

blank : (x y : ℕ) → shown screen x y ≡ 0
unfolding get32
blank x y = refl

dark-IsMirror : IsMirror dark
dark-IsMirror = record {
  band = omega arith;
  mirror = record {
    active = refl;
    buffers = record {
      wide = omega arith;
      small = omega arith;
      back_fits = omega arith;
      front_fits = omega arith;
      apart = inl (omega arith);
    };
    frame = screen-IsFrame;
    words32 = λ a. omega arith;
    synced = λ e x y hx hy o. refl;
    mirrored = λ e x y hx hy vx vy. blank x y;
  };
}

open_text : (display_open 2 2 text).0 ≡ true
unfolding display_open kmalloc walk place heap_init
open_text = refl

-- What is drawn reaches the screen with display_present, and not before.
shown_late :
    shown (display_pixel 1 0 7 dark).video 1 0
      ∷ shown (display_present (display_pixel 1 0 7 dark)).video 1 0
      ∷ []
    ≡ 0 ∷ 7 ∷ []
unfolding display_pixel display_present get32
shown_late = refl

display_open-Opened_example : Opened 2 2 text (display_open 2 2 text).1
display_open-Opened_example =
    display_open-Opened 2 2 ram_heap (ram_heap + heap_size) text heap_init-Tiles (omega arith)
      (omega arith) screen-IsFrame (λ a. omega arith) open_text

display_pixel-draws_example :
    IsMirror (display_pixel 1 0 7 dark)
    × (drawn (display_pixel 1 0 7 dark) 1 0 ≡ (if (1 == 1) && (0 == 0) then 7 else drawn dark 1 0))
display_pixel-draws_example =
    display_pixel-draws 1 0 7 1 0 dark dark-IsMirror (omega arith) (omega arith) (omega arith)

display_fill-draws_example :
    IsMirror (display_fill 1 0 5 1 7 dark)
    × (drawn (display_fill 1 0 5 1 7 dark) 1 0
        ≡ (if in_range 0 1 0 && in_range 1 5 1 then 7 else drawn dark 1 0))
display_fill-draws_example =
    display_fill-draws 1 0 5 1 7 1 0 dark dark-IsMirror (omega arith) (omega arith) (omega arith)

display_present-Presented_example :
    Presented (display_fill 0 0 2 1 7 dark) (display_present (display_fill 0 0 2 1 7 dark))
display_present-Presented_example =
    display_present-Presented (display_fill 0 0 2 1 7 dark)
      (display_fill-draws 0 0 2 1 7 0 0 dark dark-IsMirror (omega arith) (omega arith)
        (omega arith)).0
