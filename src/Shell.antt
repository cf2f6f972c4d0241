-- ===== src/Shell.antt =====
-- src/shell.c: the line that is typed, the keys that edit it, and the commands. A call of another
-- part is a value, in the order of the calls; the argument line of args.c is state.
pub mod Commands
pub mod Keys
mod Tests
use zareboon_os.Prelude.{
  ℕ, zero, suc, ◌+◌, ◌-◌, ◌%◌, ◌^◌, Bool, true, false, not, ◌&&◌, ◌||◌, Option, none, some, ◌==◌,
  if◌then◌else◌, ltb, leb, List, [], ◌∷◌, ◌++◌,
}
use zareboon_os.Fs.Device.{Bytes}
use zareboon_os.Strings.{literal, from, store, strcmp, args_set}

-- LINE_CAPACITY, and the fuel of every loop over a line: a line that is terminated takes less.
abbrev pub line_capacity : ℕ
line_capacity = 256

abbrev pub line_fuel : ℕ
line_fuel = 257

-- line_t
pub record Line : Type 0 where
  pub command : Bytes
  pub arg : Bytes
  pub index : ℕ
  pub command_length : ℕ
  pub in_command : Bool

pub data Command : Type 0 where
  help clear ls echo run time logo mkdir rmdir cat : Command

-- `exec_program name args` runs a program while args.c holds `args`. `print_usage` and
-- `print_unknown` are the two notices.
pub data Call : Type 0 where
  make_dir remove_dir fs_cat print : Bytes → Call
  clear_screen list_files print_time draw_logo print_usage print_unknown display_close : Call
  new_line print_prompt erase_previous_cell : Call
  move_cursor print_char : ℕ → Call
  exec_program : Bytes → Bytes → Call

-- The table of commands.
abbrev pub commands : List (List ℕ × Command)
commands =
    (b'h' ∷ b'e' ∷ b'l' ∷ b'p' ∷ [], help)
    ∷ (b'c' ∷ b'l' ∷ b'e' ∷ b'a' ∷ b'r' ∷ [], clear)
    ∷ (b'l' ∷ b's' ∷ [], ls)
    ∷ (b'e' ∷ b'c' ∷ b'h' ∷ b'o' ∷ [], echo)
    ∷ (b'r' ∷ b'u' ∷ b'n' ∷ [], run)
    ∷ (b't' ∷ b'i' ∷ b'm' ∷ b'e' ∷ [], time)
    ∷ (b'l' ∷ b'o' ∷ b'g' ∷ b'o' ∷ [], logo)
    ∷ (b'm' ∷ b'k' ∷ b'd' ∷ b'i' ∷ b'r' ∷ [], mkdir)
    ∷ (b'r' ∷ b'm' ∷ b'd' ∷ b'i' ∷ b'r' ∷ [], rmdir)
    ∷ (b'c' ∷ b'a' ∷ b't' ∷ [], cat)
    ∷ []

-- The loop of cmd_help.
unfoldable pub help_loop : List (List ℕ × Command) → List Call
help_loop [] = []
help_loop ((name, c) ∷ []) = print (literal name) ∷ []
help_loop ((name, c) ∷ more) =
    print (literal name) ∷ print (literal (b',' ∷ b' ' ∷ [])) ∷ help_loop more

unfoldable pub cmd_help : List Call
unfolding help_loop
cmd_help =
    print (literal (b'C' ∷ b'o' ∷ b'm' ∷ b'm' ∷ b'a' ∷ b'n' ∷ b'd' ∷ b's' ∷ b':' ∷ b' ' ∷ []))
    ∷ help_loop commands

-- The loop of cmd_run that copies the program's name, with `left` bytes of room left.
unfoldable pub word_loop : ℕ → ℕ → Bytes → Bytes → Bytes × ℕ
word_loop zero index arg name = (name, index)
word_loop (suc left) index arg name =
    let rest = word_loop left (index + 1) arg (store name index (arg index)) in
    if arg index == 0 || (arg index == b' ') then (name, index) else rest

-- `while (arg[index] == ' ') index++;`
unfoldable pub skip_spaces : ℕ → ℕ → Bytes → Option ℕ
skip_spaces zero index arg = none
skip_spaces (suc fuel) index arg =
    let rest = skip_spaces fuel (index + 1) arg in if arg index == b' ' then rest else some index

-- cmd_run from the index of the arguments on.
unfoldable pub run_from : Option ℕ → Bytes → Bytes → Bytes → Option (List Call × Bytes)
unfolding args_set
run_from none name arg line = none
run_from (some at) name arg line =
    let line' = args_set (some (from at arg)) line in
    some (exec_program name line' ∷ display_close ∷ [], args_set (some (literal [])) line')

-- cmd_run from the end of the name on.
unfoldable pub run_named : ℕ → Bytes → Bytes → Bytes → Option (List Call × Bytes)
unfolding run_from skip_spaces
run_named index name arg line =
    let program = run_from (skip_spaces line_fuel index arg) name arg line in
    if index == 0 then some (print_usage ∷ [], line) else program

-- `stack` is what the name array holds before it is filled.
unfoldable pub cmd_run : Bytes → Bytes → Bytes → Option (List Call × Bytes)
unfolding word_loop run_named
cmd_run stack arg line =
    let (name, index) = word_loop (line_capacity - 1) 0 arg stack in
    run_named index (store name index 0) arg line

-- What a command calls, and the argument line after it.
unfoldable pub run_command : Bytes → Command → Bytes → Bytes → Option (List Call × Bytes)
unfolding cmd_run cmd_help
run_command stack help arg line = some (cmd_help, line)
run_command stack clear arg line = some (clear_screen ∷ [], line)
run_command stack ls arg line = some (list_files ∷ [], line)
run_command stack echo arg line = some (print arg ∷ [], line)
run_command stack run arg line = cmd_run stack arg line
run_command stack time arg line = some (print_time ∷ [], line)
run_command stack logo arg line = some (draw_logo ∷ [], line)
run_command stack mkdir arg line = some (make_dir arg ∷ [], line)
run_command stack rmdir arg line = some (remove_dir arg ∷ [], line)
run_command stack cat arg line = some (fs_cat arg ∷ [], line)

-- The loop of execute over the table.
unfoldable pub execute_loop :
    List (List ℕ × Command) → Bytes → Bytes → Bytes → Bytes → Option (List Call × Bytes)
unfolding strcmp run_command
execute_loop [] stack command arg line = some (print_unknown ∷ [], line)
execute_loop ((name, c) ∷ more) stack command arg line =
    elim (strcmp line_fuel 0 command (literal name)) [
      | none ↦ none
      | some true ↦ run_command stack c arg line
      | some false ↦ execute_loop more stack command arg line
    ]

unfoldable pub execute : Bytes → Bytes → Bytes → Bytes → Option (List Call × Bytes)
unfolding execute_loop
execute stack command arg line = execute_loop commands stack command arg line

-- The command and the argument keep the bytes behind their first.
unfoldable pub line_reset : Line → Line
line_reset l = record {
  command = store l.command 0 0;
  arg = store l.arg 0 0;
  index = 0;
  command_length = 0;
  in_command = true;
}

-- `line_target(line)[at] = ch`
unfoldable pub put_target : Line → ℕ → ℕ → Line
put_target l at ch =
    if l.in_command
    then record l { command = store l.command at ch }
    else record l { arg = store l.arg at ch }

-- A line, the argument line of args.c, and what was called.
abbrev pub Outcome : Type 0
Outcome = Option (List Call × (Line × Bytes))

unfoldable pub line_submit : Bytes → Line → Bytes → Outcome
unfolding put_target line_reset execute
line_submit stack l args =
    let l' = put_target l l.index 0 in
    let empty = if l.in_command then l.index == 0 else (l.command_length == 0) in
    if empty
    then some (new_line ∷ print_prompt ∷ [], (line_reset l', args))
    else elim (execute stack l'.command l'.arg args) [
      | none ↦ none
      | some (calls, args') ↦ some (new_line ∷ calls ++ (print_prompt ∷ []), (line_reset l', args'))
    ]

unfoldable pub line_backspace : Line → List Call × Line
unfolding put_target
line_backspace l =
    if ltb 0 l.index
    then (let shorter : Line = record l { index = l.index - 1 } in
        (erase_previous_cell ∷ [], put_target shorter (l.index - 1) 0))
    else if not l.in_command
    then (
      erase_previous_cell ∷ [],
      record l {
        in_command = true;
        index = l.command_length;
        command = store l.command l.command_length 0;
        arg = store l.arg 0 0;
      },
    )
    else ([], l)

unfoldable pub line_space : Line → List Call × Line
line_space l = (
  move_cursor 1 ∷ [],
  record l {
    command = store l.command l.index 0;
    command_length = l.index;
    in_command = false;
    index = 0;
    arg = store l.arg 0 0;
  },
)

unfoldable pub line_append : Line → ℕ → List Call × Line
unfolding put_target
line_append l ch =
    let l' = put_target (put_target l l.index ch) (l.index + 1) 0 in
    if leb (line_capacity - 1) l.index
    then ([], l)
    else (print_char ch ∷ [], record l' { index = (l.index + 1) % 256 })

unfoldable pub handle_key : Bytes → ℕ → Line → Bytes → Outcome
unfolding line_submit line_backspace line_space line_append
handle_key stack ch l args =
    if ch == 10
    then line_submit stack l args
    else if ch == 8
    then some ((line_backspace l).0, ((line_backspace l).1, args))
    else if (ch == b' ') && l.in_command
    then some ((line_space l).0, ((line_space l).1, args))
    else if ch == 9
    then some (move_cursor 4 ∷ [], (l, args))
    else some ((line_append l ch).0, ((line_append l ch).1, args))
