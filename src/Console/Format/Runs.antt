-- ===== src/Console/Format/Runs.antt =====
-- print ends on every format of fewer than 65536 characters.
use zareboon_os.Prelude.{
  ℕ, zero, suc, ◌+◌, ◌*◌, ◌-◌, ◌%◌, ◌^◌, ◌<◌, ◌≤◌, ◌≡◌, Bool, true, false, ◌&&◌, Option, none, some,
  ◌==◌, leb, ltb, List, [], ◌∷◌, length, arith, Bool-cases, inl, inr,
}
use zareboon_os.Console.Format.{
  Out, Arg, flags, width_of, convert, print_step, then_print, print_loop, white, print,
}

-- A run that ended.
abbrev pub IsDone : Option (List Out) → Type 0
IsDone none = ⊥
IsDone (some out) = Unit

flags_shortens : (c : List ℕ) (zeros left : Bool) → length (flags c zeros left).1 ≤ length c
unfolding flags
flags_shortens [] zeros left = omega arith
flags_shortens (c ∷ cs) zeros left = elim (Bool-cases (c == b'0')) [
  | inl e ↦ rw (e, length) (omega (arith, flags_shortens cs true left))
  | inr e ↦ elim (Bool-cases (c == b'-')) [
    | inl k ↦ rw (e, k, length) (omega (arith, flags_shortens cs zeros true))
    | inr k ↦ rw (e, k, length) (omega arith)
  ]
]

width_of_shortens : (c : List ℕ) (width : ℕ) → length (width_of c width).1 ≤ length c
unfolding width_of
width_of_shortens [] width = omega arith
width_of_shortens (c ∷ cs) width = elim (Bool-cases (leb b'0' c && leb c b'9')) [
  | inl e ↦
      rw (e, length) (omega (arith, width_of_shortens cs ((width * 10 + (c - b'0')) % 2 ^ 32)))
  | inr e ↦ rw (e, length) (omega arith)
]

convert_shortens :
    (c : List ℕ) (width : ℕ) (zeros left : Bool) (args : List Arg) (color : ℕ)
    → length (convert c width zeros left args color).rest ≤ length c
unfolding convert
convert_shortens [] width zeros left args color = omega arith
convert_shortens (c ∷ cs) width zeros left args color = omega arith

print_step_shortens :
    (c : ℕ) (cs : List ℕ) (args : List Arg) (color : ℕ)
    → length (print_step c cs args color).rest ≤ length cs
unfolding print_step
print_step_shortens c cs args color =
    let zeros = (flags cs false false).0.0 in
    let left = (flags cs false false).0.1 in
    let behind = (flags cs false false).1 in
    let width = (width_of behind 0).0 in
    let rest = (width_of behind 0).1 in
    let shorter = convert_shortens rest width zeros left args color in
    let shorter' = width_of_shortens behind 0 in
    let shorter'' = flags_shortens cs false false in
    elim (Bool-cases (c == 10)) [
      | inl e ↦ rw e (omega arith)
      | inr e ↦ elim (Bool-cases (c == b'%')) [
        | inl k ↦ rw (e, k) (omega (arith, shorter, shorter', shorter''))
        | inr k ↦ rw (e, k) (omega arith)
      ]
    ]

then_print-IsDone :
    (here : List Out) (o : Option (List Out)) → IsDone o → IsDone (then_print here o)
then_print-IsDone here none h = h
then_print-IsDone here (some out) h = tt

print_loop-IsDone :
    (fuel : ℕ) (c : List ℕ) (args : List Arg) (color : ℕ)
    → length c < fuel
    → IsDone (print_loop fuel c args color)
unfolding print_loop
print_loop-IsDone zero c args color few = absurd (omega arith)
print_loop-IsDone (suc fuel) [] args color few = tt
print_loop-IsDone (suc fuel) (c ∷ cs) args color few =
    then_print-IsDone (print_step c cs args color).out _
      (print_loop-IsDone fuel _ _ _ (omega (arith, print_step_shortens c cs args color)))

-- print ends on every format of fewer than 65536 characters, for all arguments: its loop needs no
-- more iterations than the format has characters, and one.
pub print-IsDone : (c : List ℕ) (args : List Arg) → length c < 2 ^ 16 → IsDone (print c args)
unfolding print
print-IsDone c args short =
    let fits : ltb (length c) (2 ^ 16) ≡ true = ground arith in
    rw fits (print_loop-IsDone (length c + 1) c args white (omega arith))
