-- ===== src/Display.antt =====
-- src/display.c: the two buffers of the graphics mode, the band of rows that changed, and
-- display_present. The heap's memory is its words by address, apart from the frame buffer.
pub mod Buffers
pub mod Mirror
pub mod Draw
pub mod Fill
pub mod Present
pub mod Rows
pub mod Flush
pub mod Open
mod Tests
use zareboon_os.Prelude.{
  ℕ, zero, suc, ◌+◌, ◌-◌, ◌*◌, ◌/◌, ◌%◌, ◌^◌, Bool, true, false, not, ◌&&◌, ◌||◌, ◌==◌, leb, ltb,
  if◌then◌else◌, List, min, max,
}
use zareboon_os.Heap.{Block, kmalloc, kfree}
use zareboon_os.Video.{Video, blit32}

abbrev pub display_max_pixels : ℕ
display_max_pixels = 2 ^ 24

-- display_state_t, the heap, console_suspended of shell.c, and the screen.
pub record Display : Type 0 where
  pub back : ℕ
  pub front : ℕ
  pub width : ℕ
  pub height : ℕ
  pub dirty_top : ℕ
  pub dirty_bottom : ℕ
  pub full : Bool
  pub active : Bool
  pub heap : List Block
  pub words : ℕ → ℕ
  pub console_suspended : Bool
  pub video : Video

-- The address of `base[i]`, and a store of a word.
abbrev pub word_at : ℕ → ℕ → ℕ
word_at base i = (base + 4 * i) % 2 ^ 32

abbrev pub put_word : ℕ → ℕ → (ℕ → ℕ) → ℕ → ℕ
put_word a v words x = if x == a then v else words x

abbrev pub mark_dirty : ℕ → ℕ → Display → Display
mark_dirty top bottom s =
    if leb s.dirty_bottom s.dirty_top
    then record s { dirty_top = top; dirty_bottom = bottom }
    else record s { dirty_top = min s.dirty_top top; dirty_bottom = max s.dirty_bottom bottom }

abbrev pub clear_dirty : Display → Display
clear_dirty s = record s { dirty_top = 0; dirty_bottom = 0 }

abbrev pub free_one : List Block → ℕ → List Block
free_one heap p = if p == 0 then heap else kfree heap p

abbrev pub free_buffers : Display → Display
free_buffers s = record s { heap = free_one (free_one s.heap s.back) s.front; back = 0; front = 0 }

-- `for (i = 0; i < pixels; i++) back[i] = front[i] = 0`, at index `i` with `left` to go.
unfoldable pub zero_words : ℕ → ℕ → ℕ → ℕ → (ℕ → ℕ) → ℕ → ℕ
zero_words zero i back front words = words
zero_words (suc left) i back front words =
    zero_words left (i + 1) back front
      (put_word (word_at front i) 0 (put_word (word_at back i) 0 words))

-- display_open once both buffers are there.
unfoldable pub opened : ℕ → ℕ → ℕ → ℕ → Display → Display
unfolding zero_words
opened width height back front s =
    let s1 =
      free_buffers
        (record s { words = zero_words (width * height % 2 ^ 32) 0 back front s.words }) in
    mark_dirty 0 height (
      clear_dirty (record s1 {
        back = back;
        front = front;
        width = width;
        height = height;
        full = true;
        active = true;
        console_suspended = if s.active then s.console_suspended else true;
      }))

unfoldable pub display_open : ℕ → ℕ → Display → Bool × Display
unfolding opened
display_open width height s =
    let bytes = width * height % 2 ^ 32 * 4 % 2 ^ 32 in
    let (heap1, back) = kmalloc s.heap bytes in
    let (heap2, front) = kmalloc heap1 bytes in
    if (width == 0) || (height == 0)
    then (false, s)
    else if ltb (display_max_pixels / height) width
    then (false, s)
    else if back == 0
    then (false, record s { heap = heap1 })
    else if front == 0
    then (false, record s { heap = kfree heap2 back })
    else (true, opened width height back front (record s { heap = heap2 }))

unfoldable pub display_close : Display → Bool × Display
display_close s =
    let s1 = free_buffers s in
    (
      s.active,
      clear_dirty (record s1 {
        width = 0;
        height = 0;
        full = false;
        active = false;
        console_suspended = if s.active then false else s.console_suspended;
      }),
    )

unfoldable pub display_pixel : ℕ → ℕ → ℕ → Display → Display
display_pixel x y color s =
    let a = word_at s.back ((y * s.width + x) % 2 ^ 32) in
    if not s.active || leb s.width x || leb s.height y
    then s
    else if s.words a == color
    then s
    else mark_dirty y ((y + 1) % 2 ^ 32) (record s { words = put_word a color s.words })

-- `rep stosl`: `count` words from `dst` on.
unfoldable pub fill_words : ℕ → ℕ → ℕ → (ℕ → ℕ) → ℕ → ℕ
fill_words zero dst color words = words
fill_words (suc count) dst color words =
    fill_words count (word_at dst 1) color (put_word dst color words)

-- The loop of display_fill over `left` rows from `row` on.
unfoldable pub fill_rows : ℕ → ℕ → ℕ → ℕ → ℕ → Display → Display
unfolding fill_words
fill_rows zero row x width color s = s
fill_rows (suc left) row x width color s = fill_rows left (row + 1) x width color (record s {
  words = fill_words width (word_at s.back ((row * s.width + x) % 2 ^ 32)) color s.words;
})

unfoldable pub display_fill : ℕ → ℕ → ℕ → ℕ → ℕ → Display → Display
unfolding fill_rows
display_fill x y width height color s =
    let width' = min width (s.width - x) in
    let height' = min height (s.height - y) in
    if not s.active || leb s.width x || leb s.height y
    then s
    else if (width' == 0) || (height' == 0)
    then s
    else mark_dirty y (y + height') (fill_rows height' y x width' color s)

-- The search of display_present for a difference, from `x` on, between the rows at two addresses.
unfoldable pub row_changed : ℕ → ℕ → ℕ → ℕ → (ℕ → ℕ) → Bool
row_changed zero x back front words = false
row_changed (suc left) x back front words =
    not (words (word_at back x) == words (word_at front x))
    || row_changed left (x + 1) back front words

-- `for (x = 0; x < width; x++) front[x] = back[x]`
unfoldable pub copy_row : ℕ → ℕ → ℕ → ℕ → (ℕ → ℕ) → ℕ → ℕ
copy_row zero x back front words = words
copy_row (suc left) x back front words =
    copy_row left (x + 1) back front (put_word (word_at front x) (words (word_at back x)) words)

-- The body of display_present's loop for row `y`.
unfoldable pub present_row : Bool → ℕ → Display → Display
unfolding row_changed copy_row blit32
present_row full y s =
    let back = word_at s.back (y * s.width % 2 ^ 32) in
    let front = word_at s.front (y * s.width % 2 ^ 32) in
    if not full && not (row_changed s.width 0 back front s.words) then s else record s {
      video = blit32 (λ i. s.words (word_at s.back i)) s.width y ((y + 1) % 2 ^ 32) s.video;
      words = copy_row s.width 0 back front s.words;
    }

unfoldable pub present_rows : ℕ → Bool → ℕ → Display → Display
unfolding present_row
present_rows zero full y s = s
present_rows (suc left) full y s = present_rows left full (y + 1) (present_row full y s)

unfoldable pub display_present : Display → Display
unfolding present_rows
display_present s =
    let top = if s.full then 0 else s.dirty_top in
    let bottom = if s.full then s.height else s.dirty_bottom in
    if not s.active
    then s
    else if leb bottom top
    then record s { full = false }
    else clear_dirty (present_rows (bottom - top) s.full top (record s { full = false }))
