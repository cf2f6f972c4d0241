-- ===== src/Shell/Keys.antt =====
-- The keys against the text that is typed.
use zareboon_os.Prelude.{
  ℕ, zero, suc, ◌+◌, ◌-◌, ◌%◌, ◌<◌, ◌≤◌, ◌≡◌, ◌≢◌, refl, sym, ◌∙◌, ap, ap₂, Bool, true, false, ◌&&◌,
  Option, none, some, ◌==◌, if◌then◌else◌, ltb, leb, inl, inr, List, [], ◌∷◌, ◌++◌, length, arith,
  Bool-cases, ==_iff, ltb→lt, append_assoc,
}
use zareboon_os.Fs.Device.{Bytes}
use zareboon_os.Strings.{store}
use zareboon_os.Strings.Laws.{Spells}
use zareboon_os.Shell.Commands.{take_word, Ran, cmd_run-Ran, lookup, outcome_of, execute-lookup}
use zareboon_os.Shell.{
  Line, Call, Outcome, put_target, line_reset, line_submit, line_backspace, line_space, line_append,
  handle_key, execute, new_line, print_prompt, Command, help, clear, ls, echo, run, time, logo,
  mkdir, rmdir, cat, commands, run_command, cmd_run,
}

-- The first `n` bytes of an array.
abbrev pub prefix : ℕ → Bytes → List ℕ
prefix zero b = []
prefix (suc n) b = prefix n b ++ (b n ∷ [])

-- What is typed so far: the command, and behind a space the argument.
abbrev pub text : Line → List ℕ
text l =
    if l.in_command
    then prefix l.index l.command
    else prefix l.command_length l.command ++ (b' ' ∷ prefix l.index l.arg)

abbrev pub drop_last : List ℕ → List ℕ
drop_last [] = []
drop_last (x ∷ []) = []
drop_last (x ∷ y ∷ ys) = x ∷ drop_last (y ∷ ys)

-- What a key does to the text: Enter takes it, Backspace removes the last character, Tab leaves
-- it; any other is appended, a space that ends the command always, all else while the part that is
-- typed has fewer than 255 characters.
abbrev pub typed : ℕ → Line → List ℕ
typed ch l =
    if ch == 10
    then []
    else if ch == 8
    then drop_last (text l)
    else if (ch == b' ') && l.in_command
    then text l ++ (ch ∷ [])
    else if ch == 9
    then text l
    else if ltb l.index 255
    then text l ++ (ch ∷ [])
    else text l

-- The parts fit their arrays with the 0 behind them, and every byte before it is another.
pub record IsValid (l : Line) : Type 0 where
  pub index_in : l.index ≤ 255
  pub length_in : l.command_length ≤ 255
  pub command_bytes :
      (j : ℕ) → j < (if l.in_command then l.index else l.command_length) → l.command j ≢ 0
  pub command_ends : l.command (if l.in_command then l.index else l.command_length) ≡ 0
  pub arg_bytes : (j : ℕ) → j < (if l.in_command then 0 else l.index) → l.arg j ≢ 0
  pub arg_ends : l.arg (if l.in_command then 0 else l.index) ≡ 0

drop_last-snoc : (xs : List ℕ) (x : ℕ) → drop_last (xs ++ (x ∷ [])) ≡ xs
drop_last-snoc [] x = refl
drop_last-snoc (y ∷ []) x = refl
drop_last-snoc (y ∷ z ∷ zs) x = ap (◌∷◌ y) (drop_last-snoc (z ∷ zs) x)

pub prefix-same : (n : ℕ) (b b' : Bytes) → ((j : ℕ) → j < n → b' j ≡ b j) → prefix n b' ≡ prefix n b
prefix-same zero b b' h = refl
prefix-same (suc n) b b' h =
    ap₂ (λ (xs : List ℕ) (x : ℕ). xs ++ (x ∷ [])) (prefix-same n b b' (λ j p. h j (omega arith)))
      (h n (omega arith))

pub prefix-store : (n i v : ℕ) (b : Bytes) → n ≤ i → prefix n (store b i v) ≡ prefix n b
prefix-store n i v b h = prefix-same n b (store b i v) (λ j p. ground arith)

-- The bytes before a 0 are a string.
cells-Spells :
    (n i : ℕ) (b : Bytes)
    → ((j : ℕ) → j < n → b (i + j) ≢ 0)
    → b (i + n) ≡ 0
    → (xs : List ℕ) × (length xs ≡ n) × Spells xs i b
cells-Spells zero i b h e = ([], refl, ground arith)
cells-Spells (suc n) i b h e =
    let (xs, size, s) =
      cells-Spells n (i + 1) b (λ j p e'. h (j + 1) (omega arith) (ap b (omega arith) ∙ e'))
        (ap b (omega arith) ∙ e) in
    (b i ∷ xs, omega arith, (refl, (λ e'. h 0 (omega arith) (ap b (omega arith) ∙ e')), s))

abbrev line_of : Bytes → Bytes → ℕ → ℕ → Bool → Line
line_of c a n k m = record { command = c; arg = a; index = n; command_length = k; in_command = m }

append_at :
    (c a : Bytes) (n k : ℕ) (m : Bool) (ch : ℕ)
    → n < 255
    → text (line_append (line_of c a n k m) ch).1 ≡ text (line_of c a n k m) ++ (ch ∷ [])
unfolding line_append put_target
append_at c a n k true ch h =
    let room : leb 255 n ≡ false = ground arith in
    let next : (n + 1) % 256 ≡ suc n = omega arith in
    rw (room, next)
      (ap₂ (λ (xs : List ℕ) (x : ℕ). xs ++ (x ∷ [])) (prefix-same n c _ (λ j p. ground arith))
        (ground arith))
append_at c a n k false ch h =
    let room : leb 255 n ≡ false = ground arith in
    let next : (n + 1) % 256 ≡ suc n = omega arith in
    rw (room, next)
      (ap₂ (λ (xs : List ℕ) (x : ℕ). prefix k c ++ (b' ' ∷ (xs ++ (x ∷ []))))
          (prefix-same n a _ (λ j p. ground arith)) (ground arith)
        ∙ sym (append_assoc (prefix k c) (b' ' ∷ prefix n a) (ch ∷ [])))

full_at : (l : Line) (ch : ℕ) → 255 ≤ l.index → (line_append l ch).1 ≡ l
unfolding line_append
full_at l ch h = let full : leb 255 l.index ≡ true = ground arith in rw full refl

line_append-text :
    (l : Line) (ch : ℕ)
    → text (line_append l ch).1 ≡ (if ltb l.index 255 then text l ++ (ch ∷ []) else text l)
line_append-text l ch = elim (Bool-cases (ltb l.index 255)) [
  | inl e ↦ rw e (append_at l.command l.arg l.index l.command_length l.in_command ch (ltb→lt _ _ e))
  | inr e ↦ rw e (ap text (full_at l ch (ground arith)))
]

backspace_at :
    (c a : Bytes) (n k : ℕ) (m : Bool)
    → text (line_backspace (line_of c a n k m)).1 ≡ drop_last (text (line_of c a n k m))
unfolding line_backspace put_target
backspace_at c a zero k true = refl
backspace_at c a zero k false =
    prefix-store k k 0 c (omega arith) ∙ sym (drop_last-snoc (prefix k c) b' ')
backspace_at c a (suc n) k true =
    let some_left : ltb 0 (suc n) ≡ true = ground arith in
    let less : suc n - 1 ≡ n = omega arith in
    rw (some_left, less)
      (prefix-store n n 0 c (omega arith) ∙ sym (drop_last-snoc (prefix n c) (c n)))
backspace_at c a (suc n) k false =
    let some_left : ltb 0 (suc n) ≡ true = ground arith in
    let less : suc n - 1 ≡ n = omega arith in
    let shape = append_assoc (prefix k c) (b' ' ∷ prefix n a) (a n ∷ []) in
    rw (some_left, less)
      (ap (λ (xs : List ℕ). prefix k c ++ (b' ' ∷ xs)) (prefix-store n n 0 a (omega arith))
        ∙ sym (drop_last-snoc (prefix k c ++ (b' ' ∷ prefix n a)) (a n))
        ∙ ap drop_last shape)

line_space-text : (l : Line) → l.in_command ≡ true → text (line_space l).1 ≡ text l ++ (b' ' ∷ [])
unfolding line_space
line_space-text l h = rw h (
    ap (λ (xs : List ℕ). xs ++ (b' ' ∷ []))
      (prefix-store l.index l.index 0 l.command (omega arith)))

-- No byte before `n` becomes 0 when a 0 is stored at `n` or behind it, or a character at `n`.
store-below :
    (n i j : ℕ) (b : Bytes) → ((m : ℕ) → m < n → b m ≢ 0) → n ≤ i → j < n → store b i 0 j ≢ 0
store-below n i j b h le lt e = h j lt (ground arith)

store-at :
    (n ch j : ℕ) (b : Bytes)
    → ((m : ℕ) → m < n → b m ≢ 0)
    → ch ≢ 0
    → j < n + 1
    → store (store b n ch) (n + 1) 0 j ≢ 0
store-at n ch j b h z lt e = elim (Bool-cases (j == n)) [
  | inl q ↦ z (ground arith)
  | inr q ↦ h j (ground arith) (ground arith)
]

line_reset-IsValid : (l : Line) → IsValid (line_reset l)
unfolding line_reset
line_reset-IsValid l = record {
  index_in = omega arith;
  length_in = omega arith;
  command_bytes = λ j h. absurd (omega arith);
  command_ends = ground arith;
  arg_bytes = λ j h. absurd (omega arith);
  arg_ends = ground arith;
}

space-IsValid : (l : Line) → IsValid l → l.in_command ≡ true → IsValid (line_space l).1
unfolding line_space
space-IsValid l v e = record {
  index_in = omega arith;
  length_in = v.index_in;
  command_bytes = λ j h.
      store-below l.index l.index j l.command (λ m p. v.command_bytes m (rw e p)) (omega arith) h;
  command_ends = ground arith;
  arg_bytes = λ j h. absurd (omega arith);
  arg_ends = ground arith;
}

append-IsValid :
    (c a : Bytes) (n k : ℕ) (m : Bool) (ch : ℕ)
    → ch ≢ 0
    → n < 255
    → IsValid (line_of c a n k m)
    → IsValid (line_append (line_of c a n k m) ch).1
unfolding line_append put_target
append-IsValid c a n k true ch z h v =
    let room : leb 255 n ≡ false = ground arith in
    let next : (n + 1) % 256 ≡ n + 1 = omega arith in
    rw (room, next)
      (record {
        index_in = omega arith;
        length_in = v.length_in;
        command_bytes = λ j h. store-at n ch j c v.command_bytes z h;
        command_ends = ground arith;
        arg_bytes = v.arg_bytes;
        arg_ends = v.arg_ends;
      })
append-IsValid c a n k false ch z h v =
    let room : leb 255 n ≡ false = ground arith in
    let next : (n + 1) % 256 ≡ n + 1 = omega arith in
    rw (room, next)
      (record {
        index_in = omega arith;
        length_in = v.length_in;
        command_bytes = v.command_bytes;
        command_ends = v.command_ends;
        arg_bytes = λ j h. store-at n ch j a v.arg_bytes z h;
        arg_ends = ground arith;
      })

backspace-IsValid :
    (c a : Bytes) (n k : ℕ) (m : Bool)
    → IsValid (line_of c a n k m)
    → IsValid (line_backspace (line_of c a n k m)).1
unfolding line_backspace put_target
backspace-IsValid c a zero k true v = v
backspace-IsValid c a zero k false v = record {
  index_in = v.length_in;
  length_in = v.length_in;
  command_bytes = λ j h. store-below k k j c v.command_bytes (omega arith) h;
  command_ends = ground arith;
  arg_bytes = λ j h. absurd (omega arith);
  arg_ends = ground arith;
}
backspace-IsValid c a (suc n) k true v =
    let some_left : ltb 0 (suc n) ≡ true = ground arith in
    let less : suc n - 1 ≡ n = omega arith in
    rw (some_left, less)
      (record {
        index_in = omega (arith, v.index_in);
        length_in = v.length_in;
        command_bytes =
            λ j h. store-below n n j c (λ i p. v.command_bytes i (omega arith)) (omega arith) h;
        command_ends = ground arith;
        arg_bytes = v.arg_bytes;
        arg_ends = v.arg_ends;
      })
backspace-IsValid c a (suc n) k false v =
    let some_left : ltb 0 (suc n) ≡ true = ground arith in
    let less : suc n - 1 ≡ n = omega arith in
    rw (some_left, less)
      (record {
        index_in = omega (arith, v.index_in);
        length_in = v.length_in;
        command_bytes = v.command_bytes;
        command_ends = v.command_ends;
        arg_bytes = λ j h. store-below n n j a (λ i p. v.arg_bytes i (omega arith)) (omega arith) h;
        arg_ends = ground arith;
      })

abbrev Ends : Option (List Call × Bytes) → Type 0
Ends none = ⊥
Ends (some o) = Unit

run_command-Ends :
    (xs : List ℕ) (c : Command) (stack arg line : Bytes)
    → Spells xs 0 arg
    → length xs ≤ 255
    → Ends (run_command stack c arg line)
unfolding run_command
run_command-Ends xs run stack arg line s short =
    ends (take_word 255 xs) _ _ (cmd_run stack arg line) (cmd_run-Ran xs stack arg line s short)
  where
    ends :
        (word rest : List ℕ) (line : Bytes) (o : Option (List Call × Bytes))
        → Ran word rest line o
        → Ends o
    ends [] rest line o r = rw r tt
    ends (x ∷ word) rest line none r = r
    ends (x ∷ word) rest line (some o) r = tt
run_command-Ends xs help stack arg line s short = tt
run_command-Ends xs clear stack arg line s short = tt
run_command-Ends xs ls stack arg line s short = tt
run_command-Ends xs echo stack arg line s short = tt
run_command-Ends xs time stack arg line s short = tt
run_command-Ends xs logo stack arg line s short = tt
run_command-Ends xs mkdir stack arg line s short = tt
run_command-Ends xs rmdir stack arg line s short = tt
run_command-Ends xs cat stack arg line s short = tt

outcome_of-Ends :
    (xs : List ℕ) (o : Option Command) (stack arg line : Bytes)
    → Spells xs 0 arg
    → length xs ≤ 255
    → Ends (outcome_of stack o arg line)
outcome_of-Ends xs none stack arg line s short = tt
outcome_of-Ends xs (some c) stack arg line s short = run_command-Ends xs c stack arg line s short

-- execute ends on a command and an argument that are terminated.
execute-Ends :
    (n k : ℕ) (stack command arg line : Bytes)
    → n ≤ 255
    → k ≤ 255
    → ((j : ℕ) → j < n → command j ≢ 0)
    → command n ≡ 0
    → ((j : ℕ) → j < k → arg j ≢ 0)
    → arg k ≡ 0
    → Ends (execute stack command arg line)
execute-Ends n k stack command arg line hn hk c c0 a a0 =
    let (xs, size_x, sx) = string n command c c0 in
    let (ys, size_y, sy) = string k arg a a0 in
    rw (execute-lookup xs stack command arg line sx (omega arith))
      (outcome_of-Ends ys (lookup commands xs) stack arg line sy (omega arith))
  where
    string :
        (n : ℕ) (b : Bytes)
        → ((j : ℕ) → j < n → b j ≢ 0)
        → b n ≡ 0
        → (xs : List ℕ) × (length xs ≡ n) × Spells xs 0 b
    string n b h e =
        cells-Spells n 0 b (λ j p e'. h j p (ap b (omega arith) ∙ e')) (ap b (omega arith) ∙ e)

-- How a key at the line `l` ends.
abbrev pub Keeps : ℕ → Line → Outcome → Type 0
Keeps ch l none = ⊥
Keeps ch l (some (calls, (l', args))) = IsValid l' × (text l' ≡ typed ch l)

submitted :
    (l l' : Line) (args : Bytes) (o : Option (List Call × Bytes))
    → Ends o
    → Keeps 10 l (elim o [
      | none ↦ none
      | some (calls, args') ↦ some (new_line ∷ calls ++ (print_prompt ∷ []), (line_reset l', args'))
    ])
unfolding line_reset
submitted l l' args none h = h
submitted l l' args (some o) h = (line_reset-IsValid l', refl)

line_submit-Keeps :
    (c a : Bytes) (n k : ℕ) (m : Bool) (stack args : Bytes)
    → IsValid (line_of c a n k m)
    → Keeps 10 (line_of c a n k m) (line_submit stack (line_of c a n k m) args)
unfolding line_submit put_target line_reset
line_submit-Keeps c a n k true stack args v = elim (Bool-cases (n == 0)) [
  | inl e ↦ rw e (line_reset-IsValid (line_of (store c n 0) a n k true), refl)
  | inr e ↦ rw e (
      submitted (line_of c a n k true) (line_of (store c n 0) a n k true) args _ (
        execute-Ends n 0 stack (store c n 0) a args v.index_in (omega arith)
          (λ j h. store-below n n j c v.command_bytes (omega arith) h) (ground arith)
          (λ j h. absurd (omega arith)) v.arg_ends))
]
line_submit-Keeps c a n k false stack args v = elim (Bool-cases (k == 0)) [
  | inl e ↦ rw e (line_reset-IsValid (line_of c (store a n 0) n k false), refl)
  | inr e ↦ rw e (
      submitted (line_of c a n k false) (line_of c (store a n 0) n k false) args _ (
        execute-Ends k n stack c (store a n 0) args v.length_in v.index_in v.command_bytes
          v.command_ends (λ j h. store-below n n j a v.arg_bytes (omega arith) h) (ground arith)))
]

-- Every key but the character 0 keeps a valid line valid and does to the text what `typed` says;
-- Enter included, whatever command it runs: handle_key ends.
pub handle_key-Keeps :
    (stack : Bytes) (ch : ℕ) (l : Line) (args : Bytes)
    → IsValid l
    → ch ≢ 0
    → Keeps ch l (handle_key stack ch l args)
unfolding handle_key
handle_key-Keeps stack ch l args v z = elim (Bool-cases (ch == 10)) [
  | inl e ↦
      let enter : ch ≡ 10 = (==_iff _ _).0 e in rw enter (line_submit-Keeps _ _ _ _ _ stack args v)
  | inr e1 ↦ elim (Bool-cases (ch == 8)) [
    | inl e ↦
        rw (e1, e)
          (
            backspace-IsValid _ _ _ _ _ v,
            rw (e1, e) (backspace_at l.command l.arg l.index l.command_length l.in_command),
          )
    | inr e2 ↦ elim (Bool-cases ((ch == b' ') && l.in_command)) [
      | inl e ↦
          let space : ch ≡ b' ' = ground arith in
          let typing : l.in_command ≡ true = ground arith in
          rw (e1, e2, e)
            (space-IsValid l v typing, rw (e1, e2, e) (line_space-text l typing ∙ rw space refl))
      | inr e3 ↦ elim (Bool-cases (ch == 9)) [
        | inl e ↦ rw (e1, e2, e3, e) (v, rw (e1, e2, e3, e) refl)
        | inr e4 ↦
            rw (e1, e2, e3, e4) (append_keeps l ch v z, rw (e1, e2, e3, e4) (line_append-text l ch))
      ]
    ]
  ]
]
  where
    append_keeps : (l : Line) (ch : ℕ) → IsValid l → ch ≢ 0 → IsValid (line_append l ch).1
    append_keeps l ch v z = elim (Bool-cases (ltb l.index 255)) [
      | inl e ↦ append-IsValid _ _ _ _ _ ch z (ltb→lt _ _ e) v
      | inr e ↦ rw (full_at l ch (ground arith)) v
    ]
