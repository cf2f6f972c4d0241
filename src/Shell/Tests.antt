-- ===== src/Shell/Tests.antt =====
-- Lines typed and run, and the theorems of the strings and of the shell there.
use zareboon_os.Prelude.{ℕ, ◌<◌, ◌≡◌, ◌≢◌, refl, true, List, [], ◌∷◌, arith}
use zareboon_os.Fs.Device.{Bytes}
use zareboon_os.Strings.{literal}
use zareboon_os.Strings.Laws.{Spells}
use zareboon_os.Shell.{Line, commands, cmd_run, execute, handle_key}
use zareboon_os.Shell.Commands.{
  take_word, drop_word, drop_spaces, Ran, cmd_run-Ran, lookup, outcome_of, execute-lookup,
}
use zareboon_os.Shell.Keys.{IsValid, Keeps, handle_key-Keeps}

abbrev zeros : Bytes
zeros i = 0

abbrev ls_text : List ℕ
ls_text = b'l' ∷ b's' ∷ []

abbrev run_text : List ℕ
run_text = b'g' ∷ b' ' ∷ b' ' ∷ b'a' ∷ b' ' ∷ b'b' ∷ []

ls_spelt : Spells ls_text 0 (literal ls_text)
ls_spelt = ground arith

run_spelt : Spells run_text 0 (literal run_text)
run_spelt = ground arith

-- Two characters of a command and a space before the argument.
abbrev some_line : Line
some_line = record {
  command = literal ls_text;
  arg = zeros;
  index = 2;
  command_length = 0;
  in_command = true;
}

some_line-IsValid : IsValid some_line
some_line-IsValid = record {
  index_in = omega arith;
  length_in = omega arith;
  command_bytes = λ j h. bytes j h;
  command_ends = refl;
  arg_bytes = λ j h. absurd (omega arith);
  arg_ends = refl;
}
  where
    bytes : (j : ℕ) → j < 2 → literal ls_text j ≢ 0
    bytes j h = ground arith

execute-lookup_example :
    execute zeros (literal ls_text) zeros zeros
    ≡ outcome_of zeros (lookup commands ls_text) zeros zeros
execute-lookup_example =
    execute-lookup ls_text zeros (literal ls_text) zeros zeros ls_spelt (omega arith)

cmd_run-Ran_example :
    Ran
      (take_word 255 run_text)
      (drop_spaces (drop_word 255 run_text))
      zeros
      (cmd_run zeros (literal run_text) zeros)
cmd_run-Ran_example = cmd_run-Ran run_text zeros (literal run_text) zeros run_spelt (omega arith)

handle_key-Keeps_example : Keeps 10 some_line (handle_key zeros 10 some_line zeros)
handle_key-Keeps_example =
    handle_key-Keeps zeros 10 some_line zeros some_line-IsValid (λ e. absurd (omega arith))
