-- ===== src/Editor.antt =====
-- build/zrn/projects/Editor: the text buffer of buffer.c, and the loading, saving and key loop of
-- main.c. The system calls read_file, create_file and write_file are values or calls.
pub mod Text
mod Tests
use zareboon_os.Prelude.{
  ℕ, zero, suc, ◌+◌, ◌-◌, Bool, true, false, not, ◌&&◌, ◌||◌, Option, none, some, ◌==◌,
  if◌then◌else◌, ltb, leb, List, [], ◌∷◌,
}
use zareboon_os.Fs.Device.{Bytes}
use zareboon_os.Strings.{store}

-- BUFFER_CAPACITY
abbrev pub buffer_capacity : ℕ
buffer_capacity = 4096

-- buffer_t
pub record Buffer : Type 0 where
  pub bytes : Bytes
  pub length : ℕ

-- The loop of line_start from index `index` down.
unfoldable pub line_start_from : ℕ → Bytes → ℕ
line_start_from zero b = 0
line_start_from (suc i) b = if b i == 10 then suc i else line_start_from i b

unfoldable pub line_start : Buffer → ℕ
unfolding line_start_from
line_start b = line_start_from b.length b.bytes

unfoldable pub buffer_clear : Buffer → Buffer
buffer_clear b = record b { length = 0 }

unfoldable pub buffer_push : Buffer → ℕ → Bool × Buffer
buffer_push b ch =
    if leb buffer_capacity b.length
    then (false, b)
    else (true, record { bytes = store b.bytes b.length ch; length = b.length + 1 })

unfoldable pub buffer_pop : Buffer → Bool × Buffer
buffer_pop b = if b.length == 0 then (false, b) else (true, record b { length = b.length - 1 })

-- The loop of buffer_line_is from position `at` of the data on; the text is its bytes before the 0.
unfoldable pub line_matches : Buffer → ℕ → List ℕ → Bool
line_matches b at [] = at == b.length
line_matches b at (c ∷ text) =
    let rest = line_matches b (at + 1) text in
    if leb b.length at then false else if not (b.bytes at == c) then false else rest

unfoldable pub buffer_line_is : Buffer → List ℕ → Bool
unfolding line_matches line_start
buffer_line_is b text = line_matches b (line_start b) text

unfoldable pub buffer_drop_line : Buffer → Buffer
unfolding line_start
buffer_drop_line b = record b { length = line_start b }

abbrev pub is_printable : ℕ → Bool
is_printable ch = leb 32 ch && leb ch 126

-- The loop of load with `left` bytes left, at `i`, `kept` of them kept in place: the data, and the
-- number kept.
unfoldable pub load_loop : ℕ → ℕ → ℕ → Bytes → Bytes × ℕ
load_loop zero i kept b = (b, kept)
load_loop (suc left) i kept b =
    let keep = load_loop left (i + 1) (kept + 1) (store b kept (b i)) in
    let skip = load_loop left (i + 1) kept b in
    if b i == 0 then (b, kept) else if (b i == 10) || is_printable (b i) then keep else skip

-- load, once read_file left `b.bytes`; `found` is `count >= 0`.
unfoldable pub load : Bool → Buffer → Bool × Buffer
unfolding buffer_clear
load found b =
    let (kept_bytes, kept) = load_loop (buffer_capacity - 1) 0 0 b.bytes in
    if found then (true, record { bytes = kept_bytes; length = kept }) else (false, buffer_clear b)

-- insert_tab, whose pushes may fail without a word.
unfoldable pub insert_spaces : ℕ → Buffer → Buffer
unfolding buffer_push
insert_spaces zero b = b
insert_spaces (suc n) b = insert_spaces n (buffer_push b b' ').1

-- What a key leads to: the loop goes on, or edit returns false or, behind a save of the buffer,
-- true.
pub data Edited : Type 0 where
  editing closed saved : Buffer → Edited

-- The body of edit's loop for a key.
unfoldable pub edit_key : ℕ → Buffer → Edited
unfolding buffer_line_is buffer_drop_line buffer_push buffer_pop insert_spaces
edit_key ch b =
    if ch == 10
    then (if buffer_line_is b (b':' ∷ b'w' ∷ b'q' ∷ [])
        then saved (buffer_drop_line b)
        else if buffer_line_is b (b':' ∷ b'q' ∷ [])
        then closed b
        else editing (buffer_push b 10).1)
    else if ch == 8
    then editing (buffer_pop b).1
    else if ch == 9
    then editing (insert_spaces 4 b)
    else if is_printable ch
    then editing (buffer_push b ch).1
    else editing b

-- NAME_CAPACITY, and copy_name with `left` bytes of room left.
abbrev pub name_capacity : ℕ
name_capacity = 13

unfoldable pub copy_name_loop : ℕ → ℕ → Bytes → Bytes → Bytes
copy_name_loop zero length name source = store name length 0
copy_name_loop (suc left) length name source =
    let rest = copy_name_loop left (length + 1) (store name length (source length)) source in
    if source length == 0 then store name length 0 else rest

unfoldable pub copy_name : Bytes → Bytes → Bytes
unfolding copy_name_loop
copy_name name source = copy_name_loop (name_capacity - 1) 0 name source

-- A key in read_name: the name goes on, or it is done.
pub data Named : Type 0 where
  naming done : Bytes → ℕ → Named

unfoldable pub name_key : ℕ → Bytes → ℕ → Named
name_key ch name length =
    if ch == 10
    then (if ltb 0 length then done name length else naming name length)
    else if ch == 8
    then (if ltb 0 length
        then naming (store name (length - 1) 0) (length - 1)
        else naming name length)
    else if ltb 32 ch && leb ch 126 && ltb (length + 1) name_capacity
    then naming (store (store name length ch) (length + 1) 0) (length + 1)
    else naming name length
