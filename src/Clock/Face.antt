-- ===== src/Clock/Face.antt =====
-- The time that print_format_time prints.
use zareboon_os.Prelude.{
  ℕ, ◌+◌, ◌*◌, ◌/◌, ◌%◌, ◌<◌, ◌≤◌, ◌≡◌, refl, ap, ◌∙◌, true, false, some, ◌==◌, leb, arith, List,
  [], ◌∷◌, ◌++◌, Bool-cases, inl, inr, ==_iff,
}
use zareboon_os.Video.{is_negative}
use zareboon_os.Console.Format.{
  colored, white, digit_char, digits_loop, digits_of, print_number, print_loop, print,
}
use zareboon_os.Clock.{bcd_to_bin, get_time, print_format_time}

-- A number below 100 as the clock's registers hold it, and as two characters.
abbrev pub to_bcd : ℕ → ℕ
to_bcd n = n / 10 * 16 + n % 10

abbrev pub pair : ℕ → List ℕ
pair n = (b'0' + n / 10) ∷ (b'0' + n % 10) ∷ []

pub bcd_to_bin-to_bcd : (n : ℕ) → n < 100 → bcd_to_bin (to_bcd n) ≡ n
unfolding bcd_to_bin
bcd_to_bin-to_bcd n h = omega arith

digit_lem : (i : ℕ) → i < 10 → digit_char false i ≡ b'0' + i
unfolding digit_char
digit_lem i h = ground arith

two_digits : (n : ℕ) → 10 ≤ n → n < 100 → digits_of n 10 false ≡ pair n
unfolding digits_of digits_loop
two_digits n lo h =
    let a : (n == 0) ≡ false = ground arith in
    let b : (n / 10 == 0) ≡ false = ground arith in
    let c : (n / 10 / 10 == 0) ≡ true = ground arith in
    let tens : digit_char false (n / 10 % 10) ≡ b'0' + n / 10 =
      digit_lem _ (omega arith) ∙ omega arith in
    rw (a, b, c, tens, digit_lem (n % 10) (omega arith)) refl

one_digit : (n : ℕ) → n < 10 → digits_of n 10 false ≡ (b'0' + n) ∷ []
unfolding digits_of digits_loop
one_digit n h = elim (Bool-cases (n == 0)) [
  | inl a ↦ let none : n ≡ 0 = (==_iff _ _).0 a in rw none refl
  | inr a ↦
      let b : (n / 10 == 0) ≡ true = ground arith in
      let ones : digit_char false (n % 10) ≡ b'0' + n = digit_lem _ (omega arith) ∙ omega arith in
      rw (a, b, ones) refl
]

padded_lem : (n : ℕ) → n < 100 → print_number n false 10 false 2 true false ≡ pair n
unfolding print_number
padded_lem n h = elim (Bool-cases (leb 10 n)) [
  | inl e ↦ rw (two_digits n (ground arith) h) refl
  | inr e ↦
      let tens : n / 10 ≡ 0 = ground arith in
      let ones : n % 10 ≡ n = ground arith in rw (one_digit n (ground arith), tens, ones) refl
]

-- When the registers of the real-time clock hold the hours, minutes and seconds, each below 100, in
-- BCD, print_format_time prints them with two digits each and colons between.
pub print_format_time_lem :
    (h m s : ℕ) (cmos : ℕ → ℕ)
    → h < 100
    → m < 100
    → s < 100
    → cmos 4 ≡ to_bcd h
    → cmos 2 ≡ to_bcd m
    → cmos 0 ≡ to_bcd s
    → print_format_time cmos ≡ some (colored white (pair h ++ (b':' ∷ pair m) ++ (b':' ∷ pair s)))
unfolding print_format_time get_time print print_loop
print_format_time_lem h m s cmos h100 m100 s100 eh em es =
    let hh : bcd_to_bin (cmos 4) ≡ h = ap bcd_to_bin eh ∙ bcd_to_bin-to_bcd h h100 in
    let mm : bcd_to_bin (cmos 2) ≡ m = ap bcd_to_bin em ∙ bcd_to_bin-to_bcd m m100 in
    let ss : bcd_to_bin (cmos 0) ≡ s = ap bcd_to_bin es ∙ bcd_to_bin-to_bcd s s100 in
    rw
      (
        hh,
        mm,
        ss,
        positive h h100,
        positive m m100,
        positive s s100,
        padded_lem h h100,
        padded_lem m m100,
        padded_lem s s100,
      )
      refl
  where
    positive : (n : ℕ) → n < 100 → is_negative n ≡ false
    positive n small = ground arith
