-- ===== src/Editor/Text.antt =====
-- The buffer against the text that it holds.
use zareboon_os.Prelude.{
  ℕ, zero, suc, ◌+◌, ◌-◌, ◌<◌, ◌≤◌, ◌≡◌, ◌≢◌, ◌⊎◌, refl, sym, ◌∙◌, ap, ap₂, Bool, true, false, ◌||◌,
  ◌==◌, if◌then◌else◌, leb, inl, inr, List, [], ◌∷◌, ◌++◌, take, arith, Bool-cases, ==_iff,
  append_assoc, append-nil,
}
use zareboon_os.Fs.Device.{Bytes}
use zareboon_os.Strings.{store}
use zareboon_os.Strings.Laws.{Spells, Spells-same, same}
use zareboon_os.Shell.Keys.{prefix, prefix-store}
use zareboon_os.Editor.{
  Buffer, line_start_from, line_start, buffer_push, buffer_pop, line_matches, buffer_line_is,
  buffer_drop_line, is_printable, load_loop, load, insert_spaces, Edited, editing, closed, saved,
  edit_key,
}

abbrev pub text : Buffer → List ℕ
text b = prefix b.length b.bytes

-- The `n` bytes from `at` on.
abbrev pub cells : ℕ → ℕ → Bytes → List ℕ
cells zero at b = []
cells (suc n) at b = b at ∷ cells n (at + 1) b

-- The text behind the last newline.
abbrev pub last_line : Buffer → List ℕ
last_line b = cells (b.length - line_start b) (line_start b) b.bytes

prefix-at : (n m : ℕ) (b : Bytes) → n ≡ m → prefix n b ≡ prefix m b
prefix-at n m b e = ap (λ (k : ℕ). prefix k b) e

prefix-cells : (n at : ℕ) (b : Bytes) → prefix (at + n) b ≡ prefix at b ++ cells n at b
prefix-cells zero at b = prefix-at (at + 0) at b (omega arith) ∙ sym (append-nil (prefix at b))
prefix-cells (suc n) at b =
    let e : at + 1 ≡ suc at = omega arith in
    prefix-at (at + suc n) (suc at + n) b (omega arith)
    ∙ prefix-cells n (suc at) b
    ∙ append_assoc (prefix at b) (b at ∷ []) (cells n (suc at) b)
    ∙ rw e refl

line_start_from-le :
    (n : ℕ) (b : Bytes)
    → (line_start_from n b ≤ n)
      × ((j : ℕ) → line_start_from n b ≤ j → j < n → b j ≢ 10)
      × ((line_start_from n b ≡ 0) ⊎ (b (line_start_from n b - 1) ≡ 10))
unfolding line_start_from
line_start_from-le zero b = (omega arith, λ j p q. absurd (omega arith), inl refl)
line_start_from-le (suc n) b = elim (Bool-cases (b n == 10)) [
  | inl e ↦
      rw e (omega arith, λ j p q. absurd (omega arith), inr (ap b (omega arith) ∙ (==_iff _ _).0 e))
  | inr e ↦
      let (le, none_in, start) = line_start_from-le n b in
      rw e (
        omega (arith, le),
        λ j p q. elim (Bool-cases (j == n)) [
          | inl at ↦ let here : j ≡ n = (==_iff _ _).0 at in rw here (λ h. ground arith)
          | inr apart ↦ none_in j p (ground arith)
        ],
        start,
      )
]

line_matches-same :
    (n at : ℕ) (b : Buffer) (xs : List ℕ)
    → at + n ≡ b.length
    → line_matches b at xs ≡ same (cells n at b.bytes) xs
unfolding line_matches
line_matches-same zero at b [] h = ground arith
line_matches-same (suc n) at b [] h = ground arith
line_matches-same zero at b (x ∷ xs) h = ground arith
line_matches-same (suc n) at b (x ∷ xs) h =
    let inside : leb b.length at ≡ false = ground arith in
    let rest = line_matches-same n (at + 1) b xs (omega arith) in rw (inside, rest) (ground arith)

-- buffer_line_is answers whether the text behind the last newline is the text given.
pub buffer_line_is-same : (b : Buffer) (xs : List ℕ) → buffer_line_is b xs ≡ same (last_line b) xs
unfolding buffer_line_is line_start
buffer_line_is-same b xs =
    line_matches-same (b.length - line_start b) (line_start b) b xs
      (omega (arith, (line_start_from-le b.length b.bytes).0))

-- buffer_drop_line cuts off what stands behind the last newline, which holds no newline; what is
-- left is empty or ends with one.
pub buffer_drop_line-last_line :
    (b : Buffer)
    → (text b ≡ text (buffer_drop_line b) ++ last_line b)
      × ((j : ℕ) → line_start b ≤ j → j < b.length → b.bytes j ≢ 10)
      × ((text (buffer_drop_line b) ≡ [])
          ⊎ ((xs : List ℕ) × (text (buffer_drop_line b) ≡ xs ++ (10 ∷ []))))
unfolding buffer_drop_line line_start
buffer_drop_line-last_line b =
    let (le, none_in, start) = line_start_from-le b.length b.bytes in
    (
      prefix-at b.length (line_start b + (b.length - line_start b)) b.bytes (omega (arith, le))
          ∙ prefix-cells (b.length - line_start b) (line_start b) b.bytes,
      none_in,
      ends (line_start b) start,
    )
  where
    ends :
        (n : ℕ)
        → (n ≡ 0) ⊎ (b.bytes (n - 1) ≡ 10)
        → (prefix n b.bytes ≡ []) ⊎ ((xs : List ℕ) × (prefix n b.bytes ≡ xs ++ (10 ∷ [])))
    ends zero h = inl refl
    ends (suc n) (inl h) = absurd (omega arith)
    ends (suc n) (inr h) = inr (
      prefix n b.bytes,
      ap (λ (x : ℕ). prefix n b.bytes ++ (x ∷ [])) (ap b.bytes (omega arith) ∙ h),
    )

-- While the text has fewer than 4096 bytes, buffer_push appends the character and answers true,
-- and buffer_pop after it answers true and gives back the text before.
pub buffer_pop-push :
    (b : Buffer) (ch : ℕ)
    → b.length < 4096
    → ((buffer_push b ch).0 ≡ true)
      × (text (buffer_push b ch).1 ≡ text b ++ (ch ∷ []))
      × ((buffer_pop (buffer_push b ch).1).0 ≡ true)
      × (text (buffer_pop (buffer_push b ch).1).1 ≡ text b)
unfolding buffer_push buffer_pop
buffer_pop-push b ch h =
    let room : leb 4096 b.length ≡ false = ground arith in
    let some_in : (b.length + 1 == 0) ≡ false = ground arith in
    let back : b.length + 1 - 1 ≡ b.length = omega arith in
    let next : b.length + 1 ≡ suc b.length = omega arith in
    rw (room, some_in, back, next)
      (
        refl,
        ap₂ (λ (xs : List ℕ) (x : ℕ). xs ++ (x ∷ []))
            (prefix-store b.length b.length ch b.bytes (omega arith)) (ground arith),
        refl,
        prefix-store b.length b.length ch b.bytes (omega arith),
      )

-- The characters that load keeps.
abbrev pub kept_of : List ℕ → List ℕ
kept_of [] = []
kept_of (x ∷ xs) = if (x == 10) || is_printable x then x ∷ kept_of xs else kept_of xs

load_loop-kept_of :
    (xs : List ℕ) (left i kept : ℕ) (b : Bytes)
    → Spells xs i b
    → kept ≤ i
    → prefix (load_loop left i kept b).1 (load_loop left i kept b).0
      ≡ prefix kept b ++ kept_of (take left xs)
unfolding load_loop
load_loop-kept_of xs zero i kept b s h = sym (append-nil (prefix kept b))
load_loop-kept_of [] (suc left) i kept b s h = rw s (sym (append-nil (prefix kept b)))
load_loop-kept_of (x ∷ xs) (suc left) i kept b (s, m, ss) h =
    let ended : (b i == 0) ≡ false = ground arith in
    elim (Bool-cases ((b i == 10) || is_printable (b i))) [
      | inl e ↦
          rw (ended, e, sym s, e)
            (load_loop-kept_of xs left (i + 1) (kept + 1) (store b kept (b i))
                (Spells-same xs (i + 1) b (store b kept (b i)) (λ j p q. ground arith) ss)
                (omega arith)
              ∙ kept_here (kept_of (take left xs)))
      | inr e ↦ rw (ended, e, sym s, e) (load_loop-kept_of xs left (i + 1) kept b ss (omega arith))
    ]
  where
    kept_here :
        (ys : List ℕ) → prefix (kept + 1) (store b kept (b i)) ++ ys ≡ prefix kept b ++ (b i ∷ ys)
    kept_here ys =
        ap (◌++ ys) (
          prefix-at (kept + 1) (suc kept) (store b kept (b i)) (omega arith)
          ∙ ap₂ (λ (zs : List ℕ) (z : ℕ). zs ++ (z ∷ []))
              (prefix-store kept kept (b i) b (omega arith)) (ground arith))
        ∙ append_assoc (prefix kept b) (b i ∷ []) ys

-- When the bytes read are ended by a 0, load of a file that was found leaves the newlines and the printable characters among the first
-- 4095 bytes read, up to the first 0, in their order.
pub load-kept_of :
    (xs : List ℕ) (b : Buffer)
    → Spells xs 0 b.bytes
    → ((load true b).0 ≡ true) × (text (load true b).1 ≡ kept_of (take 4095 xs))
unfolding load
load-kept_of xs b s = (refl, load_loop-kept_of xs 4095 0 0 b.bytes s (omega arith))

-- The buffer that a key leads to.
abbrev pub after : Edited → Buffer
after (editing b) = b
after (closed b) = b
after (saved b) = b

insert_spaces-le : (n : ℕ) (b : Buffer) → b.length ≤ 4096 → (insert_spaces n b).length ≤ 4096
unfolding insert_spaces buffer_push
insert_spaces-le zero b h = h
insert_spaces-le (suc n) b h =
    insert_spaces-le n (buffer_push b b' ').1 (push_le (leb 4096 b.length) refl)
  where
    push_le : (t : Bool) → leb 4096 b.length ≡ t → (buffer_push b b' ').1.length ≤ 4096
    push_le true e = rw e h
    push_le false e = rw e (ground arith)

-- From a text of at most 4096 bytes no key leads to a longer one.
pub edit_key-length :
    (ch : ℕ) (b : Buffer) → b.length ≤ 4096 → (after (edit_key ch b)).length ≤ 4096
unfolding edit_key buffer_push buffer_pop buffer_drop_line line_start
edit_key-length ch b h =
    ground (arith, (line_start_from-le b.length b.bytes).0, insert_spaces-le 4 b h)
