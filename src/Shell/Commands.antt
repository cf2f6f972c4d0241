-- ===== src/Shell/Commands.antt =====
-- Which command a line runs, and how cmd_run splits its argument.
use zareboon_os.Prelude.{
  ℕ, zero, suc, ◌+◌, ◌<◌, ◌≤◌, ◌≡◌, refl, ◌∙◌, true, false, ◌||◌, Option, none, some, ◌==◌,
  if◌then◌else◌, inl, inr, List, [], ◌∷◌, length, take, arith, Bool-cases,
}
use zareboon_os.Fs.Device.{Bytes}
use zareboon_os.Strings.{store, literal, from, args_set}
use zareboon_os.Strings.Laws.{Spells, same, strcmp-same, args_set-take}
use zareboon_os.Shell.{
  Command, Call, print_usage, print_unknown, exec_program, display_close, commands, word_loop,
  skip_spaces, run_from, run_named, cmd_run, run_command, execute_loop, execute, line_fuel,
}

-- The first word of a text, of at most `n` bytes, what follows it, and a text without the spaces
-- it begins with.
abbrev pub take_word : ℕ → List ℕ → List ℕ
take_word zero xs = []
take_word (suc n) [] = []
take_word (suc n) (x ∷ xs) = if x == b' ' then [] else x ∷ take_word n xs

abbrev pub drop_word : ℕ → List ℕ → List ℕ
drop_word zero xs = xs
drop_word (suc n) [] = []
drop_word (suc n) (x ∷ xs) = if x == b' ' then x ∷ xs else drop_word n xs

abbrev pub drop_spaces : List ℕ → List ℕ
drop_spaces [] = []
drop_spaces (x ∷ xs) = if x == b' ' then drop_spaces xs else x ∷ xs

abbrev pub lookup : List (List ℕ × Command) → List ℕ → Option Command
lookup [] xs = none
lookup ((name, c) ∷ more) xs = if same xs name then some c else lookup more xs

-- What one command of the table calls, and the notice for none.
abbrev pub outcome_of : Bytes → Option Command → Bytes → Bytes → Option (List Call × Bytes)
outcome_of stack none arg line = some (print_unknown ∷ [], line)
outcome_of stack (some c) arg line = run_command stack c arg line

abbrev AllNamed : List (List ℕ × Command) → Type 0
AllNamed [] = Unit
AllNamed ((name, c) ∷ more) = Spells name 0 (literal name) × AllNamed more

execute_loop-lookup :
    (table : List (List ℕ × Command)) (xs : List ℕ) (stack command arg line : Bytes)
    → AllNamed table
    → Spells xs 0 command
    → length xs < 256
    → execute_loop table stack command arg line ≡ outcome_of stack (lookup table xs) arg line
unfolding execute_loop
execute_loop-lookup [] xs stack command arg line n s short = refl
execute_loop-lookup ((name, c) ∷ more) xs stack command arg line (n, ns) s short =
    let test =
      strcmp-same xs name line_fuel 0 command (literal name) s n (omega arith) (omega arith) in
    elim (Bool-cases (same xs name)) [
      | inl e ↦ rw (e, test, execute_loop, e) refl
      | inr e ↦
          rw (e, test, execute_loop, e)
            (execute_loop-lookup more xs stack command arg line ns s short)
    ]

-- execute runs the command of the table whose name is the whole command typed, or prints the
-- notice when there is none, for every command of at most 255 bytes.
pub execute-lookup :
    (xs : List ℕ) (stack command arg line : Bytes)
    → Spells xs 0 command
    → length xs < 256
    → execute stack command arg line ≡ outcome_of stack (lookup commands xs) arg line
unfolding execute
execute-lookup xs stack command arg line s short =
    execute_loop-lookup commands xs stack command arg line (ground arith) s short

word_loop-Spells :
    (xs : List ℕ) (left i : ℕ) (arg name : Bytes)
    → Spells xs i arg
    → Spells
        (take_word left xs)
        i
        (store (word_loop left i arg name).0 (word_loop left i arg name).1 0)
      × ((word_loop left i arg name).1 ≡ i + length (take_word left xs))
      × Spells (drop_word left xs) (word_loop left i arg name).1 arg
      × ((j : ℕ) → j < i → (word_loop left i arg name).0 j ≡ name j)
unfolding word_loop
word_loop-Spells xs zero i arg name s = (ground arith, omega arith, s, λ j h. refl)
word_loop-Spells [] (suc left) i arg name s = rw s (ground arith, omega arith, s, λ j h. refl)
word_loop-Spells (x ∷ xs) (suc left) i arg name (s, m, ss) = elim (Bool-cases (x == b' ')) [
  | inl e ↦
      let stop : (arg i == 0 || (arg i == b' ')) ≡ true = ground arith in
      rw (e, stop) (ground arith, omega arith, (s, m, ss), λ j h. refl)
  | inr e ↦
      let go : (arg i == 0 || (arg i == b' ')) ≡ false = ground arith in
      let (r0, r1, r2, r3) = word_loop-Spells xs left (i + 1) arg (store name i (arg i)) ss in
      rw (e, go)
        (
          (ground (arith, r3 i (omega arith), r1, s), m, r0),
          omega (arith, r1),
          r2,
          λ j h. r3 j (omega arith) ∙ ground arith,
        )
]

-- How skipping spaces ends.
abbrev Skipped : List ℕ → Bytes → Option ℕ → Type 0
Skipped xs arg none = ⊥
Skipped xs arg (some at) = Spells xs at arg

skip_spaces-Skipped :
    (xs : List ℕ) (fuel i : ℕ) (arg : Bytes)
    → Spells xs i arg
    → length xs < fuel
    → Skipped (drop_spaces xs) arg (skip_spaces fuel i arg)
unfolding skip_spaces
skip_spaces-Skipped xs zero i arg s few = absurd (omega arith)
skip_spaces-Skipped [] (suc fuel) i arg s few = rw s s
skip_spaces-Skipped (x ∷ xs) (suc fuel) i arg (s, m, ss) few = elim (Bool-cases (x == b' ')) [
  | inl e ↦ rw (s, e) (skip_spaces-Skipped xs fuel (i + 1) arg ss (omega arith))
  | inr e ↦ rw (s, e) (s, m, ss)
]

from-Spells :
    (xs : List ℕ) (at i j : ℕ) (b : Bytes) → at + i ≡ j → Spells xs j b → Spells xs i (from at b)
from-Spells [] at i j b e s = rw e s
from-Spells (x ∷ xs) at i j b e (s, m, ss) =
    (rw e s, m, from-Spells xs at (i + 1) (j + 1) b (omega arith) ss)

-- How cmd_run ends on an argument with the program's name `word` and the arguments `rest`.
abbrev pub Ran : List ℕ → List ℕ → Bytes → Option (List Call × Bytes) → Type 0
Ran [] rest line o = o ≡ some (print_usage ∷ [], line)
Ran (x ∷ word) rest line none = ⊥
Ran (x ∷ word) rest line (some (exec_program name args ∷ display_close ∷ [], line')) =
    Spells (x ∷ word) 0 name × Spells (take 255 rest) 0 args × Spells [] 0 line'
Ran (x ∷ word) rest line (some other) = ⊥

run_from-Ran :
    (x : ℕ) (word zs : List ℕ) (o : Option ℕ) (name arg line : Bytes)
    → Spells (x ∷ word) 0 name
    → Skipped zs arg o
    → Ran (x ∷ word) zs line (run_from o name arg line)
unfolding run_from
run_from-Ran x word zs none name arg line s k = k
run_from-Ran x word zs (some at) name arg line s k = (
  s,
  args_set-take zs (from at arg) line (from-Spells zs at 0 at arg (omega arith) k),
  args_set-take [] (literal []) (args_set (some (from at arg)) line) refl,
)

run_named-Ran :
    (word zs : List ℕ) (index : ℕ) (name arg line : Bytes)
    → Spells word 0 name
    → index ≡ length word
    → Spells zs index arg
    → length zs ≤ 255
    → Ran word (drop_spaces zs) line (run_named index name arg line)
unfolding run_named
run_named-Ran [] zs index name arg line s e k short = rw e refl
run_named-Ran (x ∷ word) zs index name arg line s e k short =
    let named : (index == 0) ≡ false = ground arith in
    rw named (
      run_from-Ran x word (drop_spaces zs) _ name arg line s
        (skip_spaces-Skipped zs line_fuel index arg k (omega arith)))

length-drop_word : (n : ℕ) (xs : List ℕ) → length (drop_word n xs) ≤ length xs
length-drop_word zero xs = omega arith
length-drop_word (suc n) [] = omega arith
length-drop_word (suc n) (x ∷ xs) = ground (arith, length-drop_word n xs)

-- On an argument of at most 255 bytes, cmd_run ends. When the argument begins with a space or is
-- empty it prints the usage; else it runs the program that the first word names, which finds what
-- follows the spaces behind that word as its argument line, then closes the display, and leaves the
-- argument line empty.
pub cmd_run-Ran :
    (xs : List ℕ) (stack arg line : Bytes)
    → Spells xs 0 arg
    → length xs ≤ 255
    → Ran (take_word 255 xs) (drop_spaces (drop_word 255 xs)) line (cmd_run stack arg line)
unfolding cmd_run
cmd_run-Ran xs stack arg line s short =
    let (w0, w1, w2, w3) = word_loop-Spells xs 255 0 arg stack s in
    run_named-Ran (take_word 255 xs) (drop_word 255 xs) (word_loop 255 0 arg stack).1
      (store (word_loop 255 0 arg stack).0 (word_loop 255 0 arg stack).1 0) arg line w0
      (omega (arith, w1)) w2 (omega (arith, length-drop_word 255 xs))
