-- ===== src/Strings.antt =====
-- src/string.c and src/args.c: NUL-terminated strings as arrays of bytes, and the argument line that
-- a program is run with.
pub mod Laws
use zareboon_os.Prelude.{
  ℕ, zero, suc, ◌+◌, ◌-◌, ◌%◌, ◌^◌, Bool, true, false, not, ◌&&◌, Option, none, some, ◌==◌,
  if◌then◌else◌, ltb, List, [], ◌∷◌, get_or,
}
use zareboon_os.Fs.Device.{Bytes}

-- A string literal, and a pointer into an array.
abbrev pub literal : List ℕ → Bytes
literal xs i = get_or xs i 0

abbrev pub from : ℕ → Bytes → Bytes
from n b i = b (n + i)

abbrev pub store : Bytes → ℕ → ℕ → Bytes
store b i v j = if j == i then v else b j

-- strcmp from index `i`, a uint16_t, on fuel: it compares for equality, and answers true for equal.
unfoldable pub strcmp : ℕ → ℕ → Bytes → Bytes → Option Bool
strcmp zero i a b = none
strcmp (suc fuel) i a b =
    let rest = strcmp fuel ((i + 1) % 2 ^ 16) a b in
    if not (a i == b i) then some false else if a i == 0 then some true else rest

-- strlen from index `i`; the result is a uint16_t.
unfoldable pub strlen : ℕ → ℕ → Bytes → Option ℕ
strlen zero i a = none
strlen (suc fuel) i a =
    let rest = strlen fuel (i + 1) a in if a i == 0 then some (i % 2 ^ 16) else rest

-- ARGS_CAPACITY
abbrev pub args_capacity : ℕ
args_capacity = 256

-- The loop of args_set with `left` bytes of room left: the line, and its length.
unfoldable pub args_loop : ℕ → ℕ → Bytes → Bytes → Bytes × ℕ
args_loop zero length text line = (line, length)
args_loop (suc left) length text line =
    let rest = args_loop left (length + 1) text (store line length (text length)) in
    if text length == 0 then (line, length) else rest

-- args_set of a text, or of a null pointer, over the line that args_get hands out.
unfoldable pub args_set : Option Bytes → Bytes → Bytes
unfolding args_loop
args_set none line = store line 0 0
args_set (some text) line =
    let (line', length) = args_loop (args_capacity - 1) 0 text line in store line' length 0
