-- ===== src/Editor/Tests.antt =====
-- The editor on a small text.
use zareboon_os.Prelude.{ℕ, ◌≤◌, ◌≡◌, refl, true, List, [], ◌∷◌, take, arith}
use zareboon_os.Strings.{literal}
use zareboon_os.Strings.Laws.{Spells}
use zareboon_os.Editor.{Buffer, done, buffer_line_is, load, edit_key, copy_name, name_key}
use zareboon_os.Editor.Text.{text, kept_of, after, load-kept_of, edit_key-length}

abbrev two_lines : List ℕ
two_lines = b'a' ∷ 10 ∷ b':' ∷ b'q' ∷ []

abbrev small : Buffer
small = record { bytes = literal two_lines; length = 4 }

two_lines_spelt : Spells two_lines 0 (literal two_lines)
two_lines_spelt = ground arith

quits : buffer_line_is small (b':' ∷ b'q' ∷ []) ≡ true
unfolding buffer_line_is
quits = refl

copied : copy_name (literal []) (literal two_lines) 3 ≡ b'q'
unfolding copy_name
copied = refl

named : name_key 10 (literal two_lines) 4 ≡ done (literal two_lines) 4
unfolding name_key
named = refl

load-kept_of_example :
    ((load true small).0 ≡ true) × (text (load true small).1 ≡ kept_of (take 4095 two_lines))
load-kept_of_example = load-kept_of two_lines small two_lines_spelt

edit_key-length_example : (after (edit_key 33 small)).length ≤ 4096
edit_key-length_example = edit_key-length 33 small (omega arith)
