-- ===== src/Console/Format.antt =====
-- src/stdio.c, and atoi of src/console.c: what print hands to the console. A string is its characters
-- before the NUL; an int is its bit pattern below 2 ^ 32.
pub mod Numbers
pub mod Runs
use zareboon_os.Prelude.{
  ℕ, zero, suc, ◌+◌, ◌-◌, ◌*◌, ◌/◌, ◌%◌, ◌^◌, Bool, true, false, not, ◌&&◌, ◌||◌, Option, none,
  some, ◌==◌, leb, ltb, if◌then◌else◌, List, [], ◌∷◌, ◌++◌, map, length, replicate, get_or,
}
use zareboon_os.Video.{is_negative}

-- One call of the console: print_char, or new_line.
pub data Out : Type 0 where
  put : ℕ → ℕ → Out
  line : Out

abbrev pub colored : ℕ → List ℕ → List Out
colored color = map (λ c. put c color)

-- `while (count-- > 0) print_char(ch)`, for an int `count`.
abbrev pub pad_chars : ℕ → ℕ → List ℕ
pad_chars ch count = if is_negative count then [] else replicate count ch

-- `(width > len) ? (width - len) : 0`
abbrev pub pad_of : ℕ → ℕ → ℕ
pad_of width len = if is_negative width then 0 else width - len

unfoldable pub print_str : List ℕ → ℕ → Bool → List ℕ
print_str s width left =
    let pad = pad_chars b' ' (pad_of width (length s)) in if left then s ++ pad else pad ++ s

-- `digits[i]`
unfoldable pub digit_char : Bool → ℕ → ℕ
digit_char upper i = if ltb i 10 then b'0' + i else (if upper then b'A' else b'a') + (i - 10)

-- The loop that fills `buf`, with room for `left` more characters; `buf` is a stack, its last
-- character first.
unfoldable pub digits_loop : ℕ → ℕ → ℕ → Bool → List ℕ → List ℕ
unfolding digit_char
digits_loop zero uval base upper buf = buf
digits_loop (suc left) uval base upper buf =
    let rest = digits_loop left (uval / base) base upper (digit_char upper (uval % base) ∷ buf) in
    if uval == 0 then buf else rest

unfoldable pub digits_of : ℕ → ℕ → Bool → List ℕ
digits_of uval base upper = if uval == 0 then b'0' ∷ [] else digits_loop 32 uval base upper []

unfoldable pub print_number : ℕ → Bool → ℕ → Bool → ℕ → Bool → Bool → List ℕ
print_number uval negative base upper width zeros left =
    let digits = digits_of uval base upper in
    let sign = if negative then b'-' ∷ [] else [] in
    let pad = pad_of width (length sign + length digits) in
    let padded = if left then false else zeros in
    (if not left && not padded then pad_chars b' ' pad else [])
    ++ sign
    ++ (if not left && padded then pad_chars b'0' pad else [])
    ++ digits
    ++ (if left then pad_chars b' ' pad else [])

-- An argument of print: a 32-bit word, or a string; print_str prints a null pointer as "(null)".
pub data Arg : Type 0 where
  word : ℕ → Arg
  text : Option (List ℕ) → Arg

abbrev pub null_text : List ℕ
null_text = b'(' ∷ b'n' ∷ b'u' ∷ b'l' ∷ b'l' ∷ b')' ∷ []

-- va_arg. Where no argument of the type is left the C code reads what it finds; here 0 or a null
-- pointer.
abbrev pub next_word : List Arg → ℕ × List Arg
next_word (word n ∷ args) = (n, args)
next_word (text s ∷ args) = (0, args)
next_word [] = (0, [])

abbrev pub next_text : List Arg → List ℕ × List Arg
next_text (text (some s) ∷ args) = (s, args)
next_text (text none ∷ args) = (null_text, args)
next_text (word n ∷ args) = (null_text, args)
next_text [] = (null_text, [])

-- The flags `zeros` and `left`, and what stands behind them.
unfoldable pub flags : List ℕ → Bool → Bool → (Bool × Bool) × List ℕ
flags [] zeros left = ((zeros, left), [])
flags (c ∷ cs) zeros left = elim (c == b'0') [
  | true ↦ flags cs true left
  | false ↦ elim (c == b'-') [ true ↦ flags cs zeros true | false ↦ ((zeros, left), c ∷ cs) ]
]

unfoldable pub width_of : List ℕ → ℕ → ℕ × List ℕ
width_of [] width = (width, [])
width_of (c ∷ cs) width = elim (leb b'0' c && leb c b'9') [
  | true ↦ width_of cs ((width * 10 + (c - b'0')) % 2 ^ 32)
  | false ↦ (width, c ∷ cs)
]

-- One conversion: what it prints, the arguments left, and the colour.
unfoldable pub conversion : ℕ → ℕ → Bool → Bool → List Arg → ℕ → (List Out × List Arg) × ℕ
unfolding print_str print_number
conversion c width zeros left args color =
    let (n, args_n) = next_word args in
    let (s, args_s) = next_text args in
    let number : ℕ → Bool → (List Out × List Arg) × ℕ = λ base upper.
      ((colored color (print_number n false base upper width zeros left), args_n), color) in
    if c == b's'
    then ((colored color (print_str s width left), args_s), color)
    else if c == b'c'
    then (
      (
        colored color (
            (if left then [] else pad_chars b' ' (width - 1))
            ++ (n % 256 ∷ [])
            ++ (if left then pad_chars b' ' (width - 1) else [])),
        args_n,
      ),
      color,
    )
    else if c == b'C'
    then (([], args_n), n)
    else if (c == b'd') || (c == b'i')
    then (let negative = is_negative n in
        let uval = if negative then (2 ^ 32 - n) % 2 ^ 32 else n in
        ((colored color (print_number uval negative 10 false width zeros left), args_n), color))
    else if c == b'u'
    then number 10 false
    else if c == b'x'
    then number 16 false
    else if c == b'X'
    then number 16 true
    else if c == b'%'
    then ((colored color (b'%' ∷ []), args), color)
    else ((colored color (b'%' ∷ c ∷ []), args), color)

-- What an iteration of print's loop prints, and what it leaves: the rest of the format, where none is
-- left after a break, the arguments and the colour.
pub record Step : Type 0 where
  pub out : List Out
  pub rest : List ℕ
  pub args : List Arg
  pub color : ℕ

-- A conversion, behind its flags and its width.
unfoldable pub convert : List ℕ → ℕ → Bool → Bool → List Arg → ℕ → Step
unfolding conversion
convert [] width zeros left args color = record { out = []; rest = []; args = args; color = color }
convert (c ∷ cs) width zeros left args color =
    let ((out, args'), color') = conversion c width zeros left args color in
    record { out = out; rest = cs; args = args'; color = color' }

unfoldable pub print_step : ℕ → List ℕ → List Arg → ℕ → Step
unfolding flags width_of convert
print_step c cs args color =
    let ((zeros, left), behind) = flags cs false false in
    let (width, rest) = width_of behind 0 in
    if c == 10
    then record { out = line ∷ []; rest = cs; args = args; color = color }
    else if not (c == b'%')
    then record { out = put c color ∷ []; rest = cs; args = args; color = color }
    else convert rest width zeros left args color

abbrev pub then_print : List Out → Option (List Out) → Option (List Out)
then_print here none = none
then_print here (some out) = some (here ++ out)

-- The loop of print over the format; `none` when the fuel runs out.
unfoldable pub print_loop : ℕ → List ℕ → List Arg → ℕ → Option (List Out)
unfolding print_step
print_loop zero c args color = none
print_loop (suc fuel) [] args color = some []
print_loop (suc fuel) (c ∷ cs) args color =
    let step = print_step c cs args color in
    then_print step.out (print_loop fuel step.rest step.args step.color)

-- rgb(255, 255, 255)
abbrev pub white : ℕ
white = 0xFFFFFFFF

-- The length and the index are uint16_t. A format of 65536 characters or more, whose length is cut off
-- and where the index may wrap, is outside the model: `none`.
unfoldable pub print : List ℕ → List Arg → Option (List Out)
unfolding print_loop
print c args = if ltb (length c) (2 ^ 16) then print_loop (length c + 1) c args white else none

unfoldable pub atoi_loop : List ℕ → ℕ → ℕ
atoi_loop [] res = res
atoi_loop (c ∷ cs) res =
    let rest = atoi_loop cs ((res * 10 + (c - b'0')) % 2 ^ 32) in
    if leb b'0' c && leb c b'9' then rest else res

unfoldable pub atoi : List ℕ → ℕ
unfolding atoi_loop
atoi s = atoi_loop s 0
