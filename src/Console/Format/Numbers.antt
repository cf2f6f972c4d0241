-- ===== src/Console/Format/Numbers.antt =====
-- print_number: its width, and the number that atoi reads back.
use zareboon_os.Prelude.{
  ℕ, zero, suc, ◌+◌, ◌-◌, ◌*◌, ◌/◌, ◌%◌, ◌^◌, ◌<◌, ◌≤◌, ◌≡◌, ◌⊎◌, refl, ap, ◌∙◌, Bool, true, false,
  not, ◌&&◌, ◌==◌, leb, if◌then◌else◌, List, [], ◌∷◌, ◌++◌, length, replicate, length-append,
  append_assoc, length-replicate, max, arith, Bool-cases, inl, inr, ==_iff,
}
use zareboon_os.Video.{is_negative}
use zareboon_os.Console.Format.{
  pad_chars, pad_of, digit_char, digits_loop, digits_of, print_number, atoi_loop, atoi,
}

-- The characters of a number below 2 ^ 32, put in front of `buf`, are read as that number.
atoi_loop-digits_loop :
    (left n : ℕ) (upper : Bool) (buf : List ℕ)
    → n < 2 ^ left
    → n < 2 ^ 32
    → atoi_loop (digits_loop left n 10 upper buf) 0 ≡ atoi_loop buf n
unfolding digits_loop atoi_loop digit_char
atoi_loop-digits_loop zero n upper buf small h = let none : n ≡ 0 = omega arith in rw none refl
atoi_loop-digits_loop (suc left) n upper buf small h = elim (Bool-cases (n == 0)) [
  | inl e ↦ let none : n ≡ 0 = (==_iff _ _).0 e in rw none refl
  | inr e ↦
      let half : n / 10 < 2 ^ left =
        let double : 2 ^ suc left ≡ 2 * 2 ^ left = grind arith in omega arith in
      let digit : digit_char upper (n % 10) ≡ b'0' + n % 10 = ground arith in
      let is_digit : leb b'0' (b'0' + n % 10) && leb (b'0' + n % 10) b'9' ≡ true = ground arith in
      let value : (n / 10 * 10 + (b'0' + n % 10 - b'0')) % 2 ^ 32 ≡ n = omega arith in
      rw (e, digit)
        (atoi_loop-digits_loop left (n / 10) upper ((b'0' + n % 10) ∷ buf) half (omega arith)
          ∙ rw (is_digit, value) refl)
]

append-digits_loop :
    (left n base : ℕ) (upper : Bool) (buf rest : List ℕ)
    → digits_loop left n base upper buf ++ rest ≡ digits_loop left n base upper (buf ++ rest)
unfolding digits_loop
append-digits_loop zero n base upper buf rest = refl
append-digits_loop (suc left) n base upper buf rest = elim (Bool-cases (n == 0)) [
  | inl e ↦ rw e refl
  | inr e ↦
      rw e (append-digits_loop left (n / base) base upper (digit_char upper (n % base) ∷ buf) rest)
]

-- The digits of a number, with blanks behind them.
atoi_loop-digits_of :
    (n k : ℕ) (upper : Bool)
    → n < 2 ^ 32
    → atoi_loop (digits_of n 10 upper ++ replicate k b' ') 0 ≡ n
unfolding digits_of atoi_loop
atoi_loop-digits_of n k upper h = elim (Bool-cases (n == 0)) [
  | inl e ↦ let none : n ≡ 0 = (==_iff _ _).0 e in rw (e, none) (stops 0 k)
  | inr e ↦
      rw (e, append-digits_loop 32 n 10 upper [] (replicate k b' '))
        (atoi_loop-digits_loop 32 n upper (replicate k b' ') h h ∙ stops n k)
]
  where
    stops : (r j : ℕ) → atoi_loop (replicate j b' ') r ≡ r
    stops r zero = refl
    stops r (suc j) = refl

atoi_loop-zeros : (k : ℕ) (s : List ℕ) → atoi_loop (replicate k b'0' ++ s) 0 ≡ atoi_loop s 0
unfolding atoi_loop
atoi_loop-zeros zero s = refl
atoi_loop-zeros (suc k) s = atoi_loop-zeros k s

pad_chars-pad_of :
    (ch width len : ℕ) → pad_chars ch (pad_of width len) ≡ replicate (pad_of width len) ch
pad_chars-pad_of ch width len = elim (Bool-cases (is_negative width)) [
  | inl e ↦ rw e refl
  | inr e ↦ let small : is_negative (width - len) ≡ false = ground arith in rw (e, small) refl
]

pad_of_fits : (width len : ℕ) → width ≤ len → pad_of width len ≡ 0
pad_of_fits width len h = ground arith

-- atoi reads back the number that print_number wrote in decimal with no sign, when the number stands
-- to the left, or with zeros in front, or fills its width.
pub atoi-print_number :
    (n width : ℕ) (upper zeros left : Bool)
    → n < 2 ^ 32
    → (left ≡ true) ⊎ ((zeros ≡ true) ⊎ (width ≤ length (digits_of n 10 upper)))
    → atoi (print_number n false 10 upper width zeros left) ≡ n
unfolding atoi print_number
atoi-print_number n width upper zeros true h fits =
    let len = 0 + length (digits_of n 10 upper) in
    rw (pad_chars-pad_of b' ' width len) (atoi_loop-digits_of n (pad_of width len) upper h)
atoi-print_number n width upper true false h fits =
    let len = 0 + length (digits_of n 10 upper) in
    rw (pad_chars-pad_of b'0' width len) (
      ap (λ s. atoi_loop s 0)
        (append_assoc (replicate (pad_of width len) b'0') (digits_of n 10 upper) [])
      ∙ atoi_loop-zeros (pad_of width len) (digits_of n 10 upper ++ [])
      ∙ atoi_loop-digits_of n 0 upper h)
atoi-print_number n width upper false false h (inl e) = absurd cc
atoi-print_number n width upper false false h (inr (inl e)) = absurd cc
atoi-print_number n width upper false false h (inr (inr fits)) =
    let len = 0 + length (digits_of n 10 upper) in
    let none : pad_of width len ≡ 0 = pad_of_fits width len (omega arith) in
    rw none (atoi_loop-digits_of n 0 upper h)

length-five :
    (a b c d e : List ℕ)
    → length (a ++ b ++ c ++ d ++ e) ≡ length a + length b + length c + length d + length e
length-five a b c d e = omega (
  arith,
  length-append (a ++ b ++ c ++ d) e,
  length-append (a ++ b ++ c) d,
  length-append (a ++ b) c,
  length-append a b,
)

sign_lem :
    (negative : Bool)
    → length {A = ℕ} (if negative then b'-' ∷ [] else []) ≡ (if negative then 1 else 0)
sign_lem true = refl
sign_lem false = refl

-- The pad is printed once.
pads_lem :
    (k : ℕ) (left zeros : Bool)
    → length {A = ℕ}
          (if not left && not (if left then false else zeros) then replicate k b' ' else [])
        + length {A = ℕ}
            (if not left && (if left then false else zeros) then replicate k b'0' else [])
        + length {A = ℕ} (if left then replicate k b' ' else [])
      ≡ k
pads_lem k true zeros = omega (arith, length-replicate {A = ℕ} k b' ')
pads_lem k false true = omega (arith, length-replicate {A = ℕ} k b'0')
pads_lem k false false = omega (arith, length-replicate {A = ℕ} k b' ')

-- print_number gives as many characters as its width, or as the number and its sign need if they
-- need more.
pub length-print_number :
    (n base width : ℕ) (negative upper zeros left : Bool)
    → width < 2 ^ 31
    → length (print_number n negative base upper width zeros left)
      ≡ max width (length (digits_of n base upper) + (if negative then 1 else 0))
unfolding print_number
length-print_number n base width negative upper zeros left h =
    let sign : List ℕ = if negative then b'-' ∷ [] else [] in
    let len = length sign + length (digits_of n base upper) in
    let blanks = pad_chars-pad_of b' ' width len in
    let naughts = pad_chars-pad_of b'0' width len in
    let total = pads_lem (pad_of width len) left zeros in
    let sizes = sign_lem negative in
    let pad : pad_of width len ≡ width - len = ground arith in
    rw (blanks, naughts)
      (length-five _ sign _ (digits_of n base upper) _ ∙ omega (arith, total, sizes, pad))
