-- ===== src/Fs/Names/Tests.antt =====
-- Runs of the name formatter, and its theorems at concrete names.
use zareboon_os.Prelude.{ℕ, ◌≡◌, refl, List, [], ◌∷◌, ◌++◌, some, arith}
use zareboon_os.Fs.Names.{format_fat_name}
use zareboon_os.Fs.Names.Laws.{Form, tail_of, format_fat_name_lem}

abbrev readme : List ℕ
readme = b'r' ∷ b'E' ∷ b'a' ∷ b'd' ∷ b'm' ∷ b'e' ∷ b'1' ∷ b'2' ∷ b'3' ∷ []

abbrev txt : List ℕ
txt = b't' ∷ b'x' ∷ b't' ∷ []

readme_formatted :
    format_fat_name (readme ++ tail_of (some txt))
    ≡ b'R' ∷ b'E' ∷ b'A' ∷ b'D' ∷ b'M' ∷ b'E' ∷ b'1' ∷ b'2' ∷ b'T' ∷ b'X' ∷ b'T' ∷ []
unfolding format_fat_name
readme_formatted = refl

format_fat_name_lem_example : Form readme (some txt)
format_fat_name_lem_example = format_fat_name_lem readme (some txt) (omega arith)
