-- ===== src/Fs/Names.antt =====
-- The 8.3 names of fs.c.
pub mod Laws
mod Tests
use zareboon_os.Prelude.{
  ℕ, zero, suc, ◌+◌, ◌-◌, ◌%◌, Bool, true, false, ◌&&◌, ◌||◌, List, [], ◌∷◌, ltb, leb, ◌==◌,
  if◌then◌else◌, not, get_or, set, replicate,
}

-- `if (c >= 'a' && c <= 'z') c -= 32`
unfoldable pub upcase : ℕ → ℕ
upcase c = if leb b'a' c && leb c b'z' then c - 32 else c

-- A C string is the list of its bytes before the terminating NUL. The first loop: `j` bytes of the
-- base name are stored into `out`; it ends at a dot, at the end, or at eight bytes.
unfoldable pub copy_base : List ℕ → ℕ → List ℕ → List ℕ × List ℕ
copy_base [] j out = (out, [])
copy_base (c ∷ cs) j out =
    let next = copy_base cs (j + 1) (set out j (upcase c)) in
    if not (c == b'.') && ltb j 8 then next else (out, c ∷ cs)

-- The second loop skips to the dot.
unfoldable pub skip_base : List ℕ → List ℕ
skip_base [] = []
skip_base (c ∷ cs) = let next = skip_base cs in if c == b'.' then c ∷ cs else next

-- The third loop stores the extension from index `k` on.
unfoldable pub copy_extension : List ℕ → ℕ → List ℕ → List ℕ
copy_extension [] k out = out
copy_extension (c ∷ cs) k out =
    let next = copy_extension cs (k + 1) (set out k (upcase c)) in if ltb k 11 then next else out

-- The rest of the name after its base: nothing, or a dot and the extension.
unfoldable pub after_base : List ℕ → List ℕ → List ℕ
after_base [] out = out
after_base (c ∷ cs) out = copy_extension cs 8 out

abbrev pub blank_name : List ℕ
blank_name = replicate 11 b' '

unfoldable pub format_fat_name : List ℕ → List ℕ
unfolding copy_base skip_base copy_extension after_base upcase
format_fat_name name =
    let (out, rest) = copy_base name 0 blank_name in after_base (skip_base rest) out

-- The loop over the eleven bytes, by the number of rounds left.
unfoldable pub equal_from : ℕ → (ℕ → ℕ) → (ℕ → ℕ) → Bool
equal_from zero a b = true
equal_from (suc left) a b =
    let n = 10 - left in let rest = equal_from left a b in if a n == b n then rest else false

unfoldable pub fat_name_equal : (ℕ → ℕ) → (ℕ → ℕ) → Bool
unfolding equal_from
fat_name_equal raw formatted = equal_from 11 raw formatted

-- The bytes of a formatted name, by index.
abbrev pub name_bytes : List ℕ → ℕ → ℕ
name_bytes name i = get_or (format_fat_name name) i 0
