-- ===== src/Video/Tests.antt =====
-- Drawing on a small frame buffer.
use zareboon_os.Prelude.{
  ℕ, ◌+◌, ◌*◌, ◌%◌, ◌^◌, ◌≡◌, refl, ◌&&◌, List, [], ◌∷◌, leb, ltb, if◌then◌else◌, arith,
}
use zareboon_os.Fs.Bytes.{get32}
use zareboon_os.Video.{Video, video_memset, fill_rect, blit32, put_rows}
use zareboon_os.Video.Rows.{IsFrame, shown, in_range}
use zareboon_os.Video.Laws.{shown-fill_rect, shown-blit32}
use zareboon_os.Video.Runs.{shown-video_memset}

-- Four columns and three rows, in rows of twenty bytes.
abbrev screen : ℕ → Video
screen bpp = record {
  framebuffer = 0xE0000000;
  pitch = 20;
  width = 4;
  height = 3;
  bpp = bpp;
  memory = λ a. 0;
}

screen-IsFrame : IsFrame (screen 32)
screen-IsFrame = record {
  depth = refl;
  room = omega arith;
  fits = omega arith;
  narrow = omega arith;
  low = omega arith;
}

abbrev row_of : Video → ℕ → List ℕ
row_of v y = shown v 0 y ∷ shown v 1 y ∷ shown v 2 y ∷ shown v 3 y ∷ []

clipped_rectangle : row_of (fill_rect 2 1 9 9 7 (screen 32)) 2 ≡ 0 ∷ 0 ∷ 7 ∷ 7 ∷ []
unfolding fill_rect get32
clipped_rectangle = refl

-- At 24 bits the rectangle goes through put_pixel.
three_bytes : (put_rows 1 1 0 1 (λ _ _. 0x030201) (screen 24)).memory 0xE0000005 ≡ 3
unfolding put_rows
three_bytes = refl

shown-fill_rect_example :
    shown (fill_rect 1 1 9 1 7 (screen 32)) 3 1
    ≡ (if in_range 1 1 1 && in_range 1 9 3 then 7 else shown (screen 32) 3 1)
shown-fill_rect_example =
    shown-fill_rect (screen 32) screen-IsFrame 1 1 9 1 3 1 7 (omega arith) (omega arith)
      (omega arith) (omega arith) (omega arith)

abbrev pattern : ℕ → ℕ
pattern i = i % 100 + 1

shown-blit32_example : shown (blit32 pattern 3 1 9 (screen 32)) 2 2 ≡ (
    if leb 1 2 && ltb 2 9 && ltb 2 3 then pattern ((2 * 3 + 2) % 2 ^ 32) else shown (screen 32) 2 2)
shown-blit32_example =
    shown-blit32 (screen 32) screen-IsFrame pattern 3 1 9 2 2 (λ i. omega arith) (omega arith)
      (omega arith)

shown-video_memset_example :
    shown (video_memset 3 0 7 4 (screen 32)) 1 1
    ≡ (if in_range (0 * 4 + 3) 4 (1 * 4 + 1) then 7 else shown (screen 32) 1 1)
shown-video_memset_example =
    shown-video_memset (screen 32) screen-IsFrame 3 0 4 1 1 7 (omega arith) (omega arith)
      (omega arith) (omega arith) (omega arith)
