-- ===== src/Strings/Laws.antt =====
-- Strings against the lists that they spell.
use zareboon_os.Prelude.{
  ℕ, zero, suc, ◌+◌, ◌%◌, ◌^◌, ◌<◌, ◌≤◌, ◌≡◌, ◌≢◌, refl, ◌∙◌, Bool, true, false, ◌&&◌, some, ◌==◌,
  List, [], ◌∷◌, length, take, arith,
}
use zareboon_os.Fs.Device.{Bytes}
use zareboon_os.Strings.{strcmp, strlen, store, args_loop, args_set}

-- From index `i` on the array holds the bytes of the list, none of them 0, and then a 0.
abbrev pub Spells : List ℕ → ℕ → Bytes → Type 0
Spells [] i b = b i ≡ 0
Spells (x ∷ xs) i b = (b i ≡ x) × (x ≢ 0) × Spells xs (i + 1) b

pub Spells-same :
    (xs : List ℕ) (i : ℕ) (b b' : Bytes)
    → ((j : ℕ) → i ≤ j → j ≤ i + length xs → b' j ≡ b j)
    → Spells xs i b
    → Spells xs i b'
Spells-same [] i b b' h s = h i (omega arith) (omega arith) ∙ s
Spells-same (x ∷ xs) i b b' h (e, n, s) = (
  h i (omega arith) (omega arith) ∙ e,
  n,
  Spells-same xs (i + 1) b b' (λ j p q. h j (omega arith) (omega arith)) s,
)

abbrev pub same : List ℕ → List ℕ → Bool
same [] [] = true
same [] (y ∷ ys) = false
same (x ∷ xs) [] = false
same (x ∷ xs) (y ∷ ys) = x == y && same xs ys

-- On two strings, the first shorter than 2 ^ 16 and than the fuel, strcmp ends, and answers whether
-- they spell the same list.
pub strcmp-same :
    (xs ys : List ℕ) (fuel i : ℕ) (a b : Bytes)
    → Spells xs i a
    → Spells ys i b
    → length xs < fuel
    → i + length xs < 2 ^ 16
    → strcmp fuel i a b ≡ some (same xs ys)
unfolding strcmp
strcmp-same xs ys zero i a b s t few short = absurd (omega arith)
strcmp-same [] [] (suc fuel) i a b s t few short = ground arith
strcmp-same [] (y ∷ ys) (suc fuel) i a b s (t, n, ts) few short = ground arith
strcmp-same (x ∷ xs) [] (suc fuel) i a b (s, m, ss) t few short = ground arith
strcmp-same (x ∷ xs) (y ∷ ys) (suc fuel) i a b (s, m, ss) (t, n, ts) few short =
    let at : (i + 1) % 2 ^ 16 ≡ i + 1 = omega arith in
    let rest : strcmp fuel ((i + 1) % 2 ^ 16) a b ≡ some (same xs ys) =
      rw at (strcmp-same xs ys fuel (i + 1) a b ss ts (omega arith) (omega arith)) in
    rw (s, t, rest) (ground arith)

-- On a string shorter than 2 ^ 16 and than the fuel, strlen ends with its length.
pub strlen-length :
    (xs : List ℕ) (fuel i : ℕ) (a : Bytes)
    → Spells xs i a
    → length xs < fuel
    → i + length xs < 2 ^ 16
    → strlen fuel i a ≡ some (i + length xs)
unfolding strlen
strlen-length xs zero i a s few short = absurd (omega arith)
strlen-length [] (suc fuel) i a s few short = ground arith
strlen-length (x ∷ xs) (suc fuel) i a (s, m, ss) few short =
    let rest = strlen-length xs fuel (i + 1) a ss (omega arith) (omega arith) in
    rw (s, rest) (ground arith)

-- What the loop of args_set leaves: the bytes copied stand in the line, and nothing below them
-- changes.
args_loop-Spells :
    (xs : List ℕ) (left i : ℕ) (text line : Bytes)
    → Spells xs i text
    → Spells
        (take left xs)
        i
        (store (args_loop left i text line).0 (args_loop left i text line).1 0)
      × (i ≤ (args_loop left i text line).1)
      × ((j : ℕ) → j < i → (args_loop left i text line).0 j ≡ line j)
unfolding args_loop
args_loop-Spells xs zero i text line s = (ground arith, omega arith, λ j h. refl)
args_loop-Spells [] (suc left) i text line s = rw s (ground arith, omega arith, λ j h. refl)
args_loop-Spells (x ∷ xs) (suc left) i text line (s, m, ss) =
    let (r0, r1, r2) = args_loop-Spells xs left (i + 1) text (store line i (text i)) ss in
    let nonzero : (text i == 0) ≡ false = ground arith in
    rw nonzero (
      (ground (arith, r2 i (omega arith), s), m, r0),
      omega (arith, r1),
      λ j h. r2 j (omega arith) ∙ ground arith,
    )

-- args_set of a text that is a string keeps its first 255 bytes, as a string.
pub args_set-take :
    (xs : List ℕ) (text line : Bytes)
    → Spells xs 0 text
    → Spells (take 255 xs) 0 (args_set (some text) line)
unfolding args_set
args_set-take xs text line s = (args_loop-Spells xs 255 0 text line s).0
