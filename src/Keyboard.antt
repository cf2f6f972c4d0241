-- ===== src/Keyboard.antt =====
-- src/keyboard.c: the PS/2 interrupt handler, its modifier state and the ring of typed characters.
pub mod Queue
pub mod Handler
mod Tests
use zareboon_os.Prelude.{
  ℕ, ◌+◌, ◌-◌, ◌%◌, Bool, true, false, not, ◌&&◌, List, [], ◌∷◌, ◌++◌, ltb, leb, ◌==◌,
  if◌then◌else◌, get_or, set,
}

abbrev pub buffer_size : ℕ
buffer_size = 256

-- The file's static variables. A `char` is kept as its byte. `eois` counts the writes of the
-- end-of-interrupt command to the interrupt controller's port.
pub record Keyboard : Type 0 where
  pub key_buffer : List ℕ
  pub head : ℕ
  pub tail : ℕ
  pub shift : Bool
  pub caps : Bool
  pub ctrl : Bool
  pub extended : Bool
  pub eois : ℕ

abbrev pub ascii : List ℕ
ascii =
    0 ∷ 27 ∷ b'1' ∷ b'2' ∷ b'3' ∷ b'4' ∷ b'5' ∷ b'6' ∷ b'7' ∷ b'8' ∷ b'9' ∷ b'0' ∷ b'-' ∷ b'=' ∷ 8
    ∷ 9 ∷ b'q' ∷ b'w' ∷ b'e' ∷ b'r' ∷ b't' ∷ b'y' ∷ b'u' ∷ b'i' ∷ b'o' ∷ b'p' ∷ b'[' ∷ b']' ∷ 10 ∷ 0
    ∷ b'a' ∷ b's' ∷ b'd' ∷ b'f' ∷ b'g' ∷ b'h' ∷ b'j' ∷ b'k' ∷ b'l' ∷ b';' ∷ 39 ∷ 96 ∷ 0 ∷ 92 ∷ b'z'
    ∷ b'x' ∷ b'c' ∷ b'v' ∷ b'b' ∷ b'n' ∷ b'm' ∷ b',' ∷ b'.' ∷ b'/' ∷ 0 ∷ b'*' ∷ 0 ∷ 32 ∷ []

abbrev pub ascii_shift : List ℕ
ascii_shift =
    0 ∷ 27 ∷ b'!' ∷ b'@' ∷ b'#' ∷ b'$' ∷ b'%' ∷ b'^' ∷ b'&' ∷ b'*' ∷ b'(' ∷ b')' ∷ b'_' ∷ b'+' ∷ 8
    ∷ 9 ∷ b'Q' ∷ b'W' ∷ b'E' ∷ b'R' ∷ b'T' ∷ b'Y' ∷ b'U' ∷ b'I' ∷ b'O' ∷ b'P' ∷ b'{' ∷ b'}' ∷ 10 ∷ 0
    ∷ b'A' ∷ b'S' ∷ b'D' ∷ b'F' ∷ b'G' ∷ b'H' ∷ b'J' ∷ b'K' ∷ b'L' ∷ b':' ∷ 34 ∷ b'~' ∷ 0 ∷ b'|'
    ∷ b'Z' ∷ b'X' ∷ b'C' ∷ b'V' ∷ b'B' ∷ b'N' ∷ b'M' ∷ b'<' ∷ b'>' ∷ b'?' ∷ 0 ∷ b'*' ∷ 0 ∷ 32 ∷ []

pub buffer_push : Keyboard → ℕ → Keyboard
buffer_push k c =
    let next = (k.head + 1) % buffer_size in
    if next == k.tail then k else record k { key_buffer = set k.key_buffer k.head c; head = next }

pub send_eoi : Keyboard → Keyboard
send_eoi k = record k { eois = k.eois + 1 }

-- Reads of the two tables; the entries that the C initialisers leave out are 0.
pub unshifted : ℕ → ℕ
unshifted scancode = get_or ascii scancode 0

pub shifted : ℕ → ℕ
shifted scancode = get_or ascii_shift scancode 0

pub scancode_to_ascii : Keyboard → ℕ → ℕ
scancode_to_ascii k scancode =
    if leb 128 scancode
    then 0
    else (let base = unshifted scancode in
        let is_letter = leb b'a' base && leb base b'z' in
        let use_shift = if is_letter && k.caps then not k.shift else k.shift in
        if use_shift then shifted scancode else base)

-- KEY_UP = 0x80, KEY_DOWN, KEY_LEFT, KEY_RIGHT, KEY_HOME, KEY_END, KEY_DELETE
pub extended_to_key : ℕ → ℕ
extended_to_key code =
    if code == 0x48
    then 0x80
    else if code == 0x50
    then 0x81
    else if code == 0x4B
    then 0x82
    else if code == 0x4D
    then 0x83
    else if code == 0x47
    then 0x84
    else if code == 0x4F
    then 0x85
    else if code == 0x53
    then 0x86
    else 0

pub handle_extended : Keyboard → ℕ → Bool → Keyboard
handle_extended k code released =
    if code == 0x1D
    then record k { ctrl = not released }
    else if released
    then k
    else (let key = extended_to_key code in if key == 0 then k else buffer_push k key)

-- The new state, and whether the code was a modifier.
pub handle_modifier : Keyboard → ℕ → Bool → Keyboard × Bool
handle_modifier k code released =
    if code == 0x1D
    then (record k { ctrl = not released }, true)
    else if code == 0x2A
    then (record k { shift = not released }, true)
    else if code == 0x36
    then (record k { shift = not released }, true)
    else if code == 0x3A
    then (if released then (k, true) else (record k { caps = not k.caps }, true))
    else (k, false)

-- The new state, and whether the running program is to be aborted.
pub handle_character : Bool → Keyboard → ℕ → Keyboard × Bool
handle_character app_running k code =
    if k.ctrl && (code == 0x2E)
    then (k, app_running)
    else (let c = scancode_to_ascii k code in
        if c == 0 then (k, false) else (buffer_push k c, false))

-- A code with no prefix before it.
pub handle_plain : Bool → Keyboard → ℕ → Bool → Keyboard × Bool
handle_plain app_running k code released =
    let (k', modifier) = handle_modifier k code released in
    if modifier
    then (k', false)
    else if released
    then (k', false)
    else handle_character app_running k' code

-- `keyboard_handler_c` on the byte read from the data port; the flag says that it ends in a call
-- of `app_abort`. `scancode & 0x80` and `scancode & ~0x80` of a byte are a test and a remainder.
pub keyboard_handler : Bool → Keyboard → ℕ → Keyboard × Bool
keyboard_handler app_running k scancode =
    if scancode == 0xE0
    then (send_eoi (record k { extended = true }), false)
    else (let released = leb 0x80 scancode in
        let code = scancode % 0x80 in
        if k.extended
        then (send_eoi (handle_extended (record k { extended = false }) code released), false)
        else (let (k', abort_app) = handle_plain app_running k code released in
            (send_eoi k', abort_app)))

pub keyboard_has_input : Keyboard → Bool
keyboard_has_input k = not (k.head == k.tail)

-- The character read, 0 when there is none, and the new state.
pub keyboard_read_char : Keyboard → ℕ × Keyboard
keyboard_read_char k =
    if k.head == k.tail
    then (0, k)
    else (get_or k.key_buffer k.tail 0, record k { tail = (k.tail + 1) % buffer_size })
