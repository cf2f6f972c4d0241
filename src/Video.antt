-- ===== src/Video.antt =====
-- src/video.c: the frame buffer, and the pixels, runs, rectangles and rows drawn to it. An int is
-- its bit pattern below 2 ^ 32; memory is its bytes by 32-bit address.
pub mod Words
pub mod Rows
pub mod Laws
pub mod Runs
mod Tests
use zareboon_os.Prelude.{
  ℕ, zero, suc, ◌+◌, ◌-◌, ◌*◌, ◌/◌, ◌%◌, ◌^◌, Bool, ◌||◌, Option, none, some, ◌==◌, leb, ltb,
  if◌then◌else◌, min,
}
use zareboon_os.Fs.Device.{Bytes}
use zareboon_os.Fs.Bytes.{put8, put32}

-- vbe_buffer, vbe_pitch, vbe_width, vbe_height and vbe_bpp, and the machine's memory.
pub record Video : Type 0 where
  pub framebuffer : ℕ
  pub pitch : ℕ
  pub width : ℕ
  pub height : ℕ
  pub bpp : ℕ
  pub memory : Bytes

-- GraphicInfo
pub record GraphicInfo : Type 0 where
  pub framebuffer : ℕ
  pub pitch : ℕ
  pub width : ℕ
  pub height : ℕ
  pub bpp : ℕ

pub graphic_init : Option GraphicInfo → Video → Video
graphic_init none v = v
graphic_init (some info) v = record {
  framebuffer = info.framebuffer;
  pitch = info.pitch;
  width = info.width;
  height = info.height;
  bpp = info.bpp;
  memory = v.memory;
}

-- `x < 0` on an int.
abbrev pub is_negative : ℕ → Bool
is_negative = leb (2 ^ 31)

-- `vbe_buffer + y * vbe_pitch + x * size`
abbrev pub pixel_address : Video → ℕ → ℕ → ℕ → ℕ
pixel_address v size x y = (v.framebuffer + y * v.pitch + x * size) % 2 ^ 32

-- The three stores of a 24-bit pixel.
unfoldable pub put24 : Bytes → ℕ → ℕ → Bytes
unfolding put8
put24 b a color =
    put8 (put8 (put8 b a color) ((a + 1) % 2 ^ 32) (color / 256)) ((a + 2) % 2 ^ 32) (color / 65536)

unfoldable pub put_pixel : ℕ → ℕ → ℕ → Video → Video
unfolding put24 put32
put_pixel x y color v =
    if is_negative x || leb v.width x || is_negative y || leb v.height y
    then v
    else if v.bpp == 32
    then record v { memory = put32 v.memory (pixel_address v 4 x y) color }
    else if v.bpp == 24
    then record v { memory = put24 v.memory (pixel_address v 3 x y) color }
    else v

-- `rep stosl` and `rep movsl`: `count` words `word 0`, `word 1`, ... from `dst` on.
unfoldable pub store_words : ℕ → ℕ → (ℕ → ℕ) → Bytes → Bytes
unfolding put32
store_words zero dst word b = b
store_words (suc count) dst word b =
    store_words count ((dst + 4) % 2 ^ 32) (λ i. word (i + 1)) (put32 b dst (word 0))

abbrev pub fill32 : ℕ → ℕ → ℕ → Bytes → Bytes
fill32 dst color count = store_words count dst (λ _. color)

-- The loop over the pixels of a row in video_memset at 24 bits.
unfoldable pub fill24 : ℕ → ℕ → ℕ → Bytes → Bytes
unfolding put24
fill24 zero dst color b = b
fill24 (suc count) dst color b = fill24 count ((dst + 3) % 2 ^ 32) color (put24 b dst color)

-- The loop of video_memset: `left` rows are left on the screen from row `y` on, the first of them
-- from column `x` on.
unfoldable pub memset_rows : ℕ → ℕ → ℕ → ℕ → ℕ → Video → Video
unfolding store_words fill24
memset_rows zero x y color remaining v = v
memset_rows (suc left) x y color remaining v =
    let chunk = min remaining (v.width - x) in
    let at32 = fill32 (pixel_address v 4 x y) color chunk v.memory in
    let at24 = fill24 chunk (pixel_address v 3 x y) color v.memory in
    memset_rows left 0 (y + 1) color (remaining - chunk)
      (record v { memory = if v.bpp == 32 then at32 else at24 })

unfoldable pub video_memset : ℕ → ℕ → ℕ → ℕ → Video → Video
unfolding memset_rows
video_memset x y color count v =
    if leb v.width x || leb v.height y
    then v
    else if (v.bpp == 32) || (v.bpp == 24)
    then memset_rows (v.height - y) x y color count v
    else v

-- `left` rows of `count` words from row `y` on, each from column `x` on.
unfoldable pub store_rows : ℕ → ℕ → ℕ → ℕ → (ℕ → ℕ → ℕ) → Video → Video
unfolding store_words
store_rows zero x y count word v = v
store_rows (suc left) x y count word v =
    store_rows left x (y + 1) count word
      (record v { memory = store_words count (pixel_address v 4 x y) (word y) v.memory })

-- The same pixel by pixel, through put_pixel.
unfoldable pub put_row : ℕ → ℕ → ℕ → (ℕ → ℕ) → Video → Video
unfolding put_pixel
put_row zero x y word v = v
put_row (suc count) x y word v =
    put_row count (x + 1) y (λ i. word (i + 1)) (put_pixel x y (word 0) v)

unfoldable pub put_rows : ℕ → ℕ → ℕ → ℕ → (ℕ → ℕ → ℕ) → Video → Video
unfolding put_row
put_rows zero x y count word v = v
put_rows (suc left) x y count word v =
    put_rows left x (y + 1) count word (put_row count x y (word y) v)

-- `if (x + w > vbe_width) w = vbe_width - x` on ints.
unfoldable pub clip : ℕ → ℕ → ℕ → ℕ
clip x w bound =
    let end = (x + w) % 2 ^ 32 in
    if is_negative end then w else if ltb bound end then bound - x else w

unfoldable pub fill_rect : ℕ → ℕ → ℕ → ℕ → ℕ → Video → Video
unfolding clip store_rows put_rows
fill_rect x y w h color v =
    let w' = clip x w v.width in
    let h' = clip y h v.height in
    if is_negative x || is_negative y
    then v
    else if leb v.width x || leb v.height y
    then v
    else if is_negative w' || (w' == 0) || is_negative h' || (h' == 0)
    then v
    else if v.bpp == 32
    then store_rows h' x y w' (λ _ _. color) v
    else put_rows h' x y w' (λ _ _. color) v

-- `src` is an array of words; `y0` is below 2 ^ 32.
unfoldable pub blit32 : (ℕ → ℕ) → ℕ → ℕ → ℕ → Video → Video
unfolding store_rows put_rows
blit32 src src_w y0 y1 v =
    let w = min src_w v.width in
    let left = min y1 v.height - y0 in
    let word = λ (y i : ℕ). src ((y * src_w + i) % 2 ^ 32) in
    if v.bpp == 32 then store_rows left 0 y0 w word v else put_rows left 0 y0 w word v
