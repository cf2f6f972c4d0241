-- ===== src/Fs/Names/Laws.antt =====
-- What the 8.3 form of a name keeps, and when two names match.
use mathlib.Core.Option
use zareboon_os.Prelude.{
  ℕ, zero, suc, ◌+◌, ◌-◌, ◌<◌, ◌≤◌, ◌≡◌, ◌≢◌, ◌↔◌, refl, ap, ◌∙◌, true, List, [], ◌∷◌, arith, ltb,
  ◌==◌, if◌then◌else◌, get_or, set, length, length-set, map, Bool-cases, inl, inr, get_or_ext, sym,
  ltb→lt, tested, tested_at, ==_iff, Option, none, some, ◌++◌, get_or-set_self, get_or-set_ne,
}
use zareboon_os.Fs.Names.{
  upcase, copy_base, skip_base, copy_extension, after_base, format_fat_name, blank_name, equal_from,
  fat_name_equal,
}

upcase_idem : (c : ℕ) → upcase (upcase c) ≡ upcase c
unfolding upcase
upcase_idem c = ground arith

upcase_dot : (c : ℕ) → (upcase c == b'.') ≡ (c == b'.')
unfolding upcase
upcase_dot c = ground arith

copy_base-length : (cs : List ℕ) (j : ℕ) (out : List ℕ) → length (copy_base cs j out).0 ≡ length out
unfolding copy_base
copy_base-length [] j out = refl
copy_base-length (c ∷ cs) j out =
    ground (arith, copy_base-length cs (j + 1) (set out j (upcase c)), length-set out j (upcase c))

copy_extension-length :
    (cs : List ℕ) (k : ℕ) (out : List ℕ) → length (copy_extension cs k out) ≡ length out
unfolding copy_extension
copy_extension-length [] k out = refl
copy_extension-length (c ∷ cs) k out =
    ground
      (arith, copy_extension-length cs (k + 1) (set out k (upcase c)), length-set out k (upcase c))

after_base-length : (cs out : List ℕ) → length (after_base cs out) ≡ length out
unfolding after_base
after_base-length [] out = refl
after_base-length (c ∷ cs) out = copy_extension-length cs 8 out

pub length-format_fat_name : (name : List ℕ) → length (format_fat_name name) ≡ 11
unfolding format_fat_name
length-format_fat_name name =
    after_base-length (skip_base (copy_base name 0 blank_name).1) (copy_base name 0 blank_name).0
    ∙ copy_base-length name 0 blank_name

-- The part of a name before its first dot holds no dot.
abbrev pub NoDot : List ℕ → Type 0
NoDot [] = Unit
NoDot (c ∷ cs) = (c ≢ b'.') × NoDot cs

-- The rest of a name behind its base: nothing, or a dot and an extension.
abbrev pub tail_of : Option (List ℕ) → List ℕ
tail_of none = []
tail_of (some ext) = b'.' ∷ ext

abbrev pub extension : Option (List ℕ) → List ℕ
extension none = []
extension (some ext) = ext

-- Where the base is longer than the room, the bytes left over are skipped.
skip_base-tail :
    (cs : List ℕ) (t : Option (List ℕ)) → NoDot cs → skip_base (cs ++ tail_of t) ≡ tail_of t
unfolding skip_base
skip_base-tail [] none h = refl
skip_base-tail [] (some ext) h = refl
skip_base-tail (c ∷ cs) t h = ground (arith, skip_base-tail cs t h.1, h.0)

copy_base-tail :
    (cs : List ℕ) (t : Option (List ℕ)) (j : ℕ) (out : List ℕ)
    → NoDot cs
    → skip_base (copy_base (cs ++ tail_of t) j out).1 ≡ tail_of t
unfolding copy_base skip_base
copy_base-tail [] none j out h = refl
copy_base-tail [] (some ext) j out h = refl
copy_base-tail (c ∷ cs) t j out h =
    ground
      (arith, skip_base-tail cs t h.1, h.0, copy_base-tail cs t (j + 1) (set out j (upcase c)) h.1)

-- Byte `i` of what is written from `j` on, up to `end`, over `old`.
abbrev pub field : List ℕ → ℕ → ℕ → ℕ → ℕ → ℕ
field [] j end i old = old
field (c ∷ cs) j end i old =
    if ltb j end then field cs (j + 1) end i (if i == j then upcase c else old) else old

copy_base-field :
    (cs : List ℕ) (t : Option (List ℕ)) (j : ℕ) (out : List ℕ) (i : ℕ)
    → NoDot cs
    → length out ≡ 11
    → get_or (copy_base (cs ++ tail_of t) j out).0 i 0 ≡ field cs j 8 i (get_or out i 0)
unfolding copy_base
copy_base-field [] none j out i h full = refl
copy_base-field [] (some ext) j out i h full = refl
copy_base-field (c ∷ cs) t j out i h full = ground (
  arith,
  h.0,
  copy_base-field cs t (j + 1) (set out j (upcase c)) i h.1,
  length-set out j (upcase c),
  get_or-set_ne out j i (upcase c) 0,
  get_or-set_self out j (upcase c) 0,
)

copy_extension-field :
    (cs : List ℕ) (k : ℕ) (out : List ℕ) (i : ℕ)
    → length out ≡ 11
    → get_or (copy_extension cs k out) i 0 ≡ field cs k 11 i (get_or out i 0)
unfolding copy_extension
copy_extension-field [] k out i full = refl
copy_extension-field (c ∷ cs) k out i full = ground (
  arith,
  copy_extension-field cs (k + 1) (set out k (upcase c)) i,
  length-set out k (upcase c),
  get_or-set_ne out k i (upcase c) 0,
  get_or-set_self out k (upcase c) 0,
)

-- Byte `i` of a name padded with blanks.
abbrev pub padded : List ℕ → ℕ → ℕ
padded [] i = b' '
padded (c ∷ cs) zero = upcase c
padded (c ∷ cs) (suc i) = padded cs i

field-before : (cs : List ℕ) (j end i old : ℕ) → i < j → field cs j end i old ≡ old
field-before [] j end i old h = refl
field-before (c ∷ cs) j end i old h = ground (arith, field-before cs (j + 1) end i old)

field-padded :
    (cs : List ℕ) (j end d i : ℕ) → i ≡ j + d → i < end → field cs j end i b' ' ≡ padded cs d
field-padded [] j end d i e h = refl
field-padded (c ∷ cs) j end zero i e h = ground (arith, field-before cs (j + 1) end i (upcase c))
field-padded (c ∷ cs) j end (suc d) i e h =
    ground (arith, field-padded cs (j + 1) end d i (omega arith))

field-outside : (cs : List ℕ) (j end i old : ℕ) → end ≤ i → field cs j end i old ≡ old
field-outside [] j end i old h = refl
field-outside (c ∷ cs) j end i old h = ground (arith, field-outside cs (j + 1) end i old)

after_base-field :
    (t : Option (List ℕ)) (out : List ℕ) (i : ℕ)
    → length out ≡ 11
    → get_or (after_base (tail_of t) out) i 0 ≡ field (extension t) 8 11 i (get_or out i 0)
unfolding after_base
after_base-field none out i full = refl
after_base-field (some ext) out i full = copy_extension-field ext 8 out i full

blanks : tested (λ i. get_or blank_name i 0 == b' ') 11 ≡ true
unfolding tested
blanks = refl

blank : (i : ℕ) → i < 11 → get_or blank_name i 0 ≡ b' '
blank i h = (==_iff _ _).0 (tested_at _ 11 blanks i h)

format_fat_name-field :
    (base : List ℕ) (t : Option (List ℕ)) (i : ℕ)
    → NoDot base
    → i < 11
    → get_or (format_fat_name (base ++ tail_of t)) i 0
      ≡ field (extension t) 8 11 i (field base 0 8 i b' ')
unfolding format_fat_name
format_fat_name-field base t i h small =
    let full : length blank_name ≡ 11 = refl in
    rw
      (
        copy_base-tail base t 0 blank_name h,
        after_base-field t _ i (copy_base-length (base ++ tail_of t) 0 blank_name),
        copy_base-field base t 0 blank_name i h full,
      )
      (ap (λ (o : ℕ). field (extension t) 8 11 i (field base 0 8 i o)) (blank i small))

-- Eleven bytes: the base, then the extension, each in capitals, cut off or padded with blanks.
abbrev pub Form : List ℕ → Option (List ℕ) → Type 0
Form base t =
    (length (format_fat_name (base ++ tail_of t)) ≡ 11)
    × ((i : ℕ) → i < 8 → get_or (format_fat_name (base ++ tail_of t)) i 0 ≡ padded base i)
    × ((i : ℕ)
        → i < 3
        → get_or (format_fat_name (base ++ tail_of t)) (8 + i) 0 ≡ padded (extension t) i)

-- The 8.3 form of `base` or `base.ext`, where `base` holds no dot, has eleven bytes: the first
-- eight are the base in capitals, cut off at eight bytes or padded with blanks, and the last three
-- the extension in capitals, cut off at three or padded.
pub format_fat_name_lem : (base : List ℕ) (t : Option (List ℕ)) → NoDot base → Form base t
format_fat_name_lem base t h = (
  length-format_fat_name (base ++ tail_of t),
  λ i small.
      format_fat_name-field base t i h (omega arith)
      ∙ field-before (extension t) 8 11 i (field base 0 8 i b' ') (omega arith)
      ∙ field-padded base 0 8 i i (omega arith) small,
  λ i small.
      format_fat_name-field base t (8 + i) h (omega arith)
      ∙ ap (λ (o : ℕ). field (extension t) 8 11 (8 + i) o)
          (field-outside base 0 8 (8 + i) b' ' (omega arith))
      ∙ field-padded (extension t) 8 11 i (8 + i) refl (omega arith),
)

NoDot-map : (cs : List ℕ) → NoDot cs → NoDot (map upcase cs)
NoDot-map [] h = tt
NoDot-map (c ∷ cs) h = (unfold upcase in ground arith, NoDot-map cs h.1)

padded-map : (cs : List ℕ) (i : ℕ) → padded (map upcase cs) i ≡ padded cs i
padded-map [] i = refl
padded-map (c ∷ cs) zero = upcase_idem c
padded-map (c ∷ cs) (suc i) = padded-map cs i

padded-extension :
    (t : Option (List ℕ)) (i : ℕ)
    → padded (extension (Option.map (map upcase) t)) i ≡ padded (extension t) i
padded-extension none i = refl
padded-extension (some ext) i = padded-map ext i

-- Two names whose capitals agree have the same 8.3 form: the file system does not tell case apart.
pub format_fat_name-map-upcase :
    (base : List ℕ) (t : Option (List ℕ))
    → NoDot base
    → format_fat_name (map upcase base ++ tail_of (Option.map (map upcase) t))
      ≡ format_fat_name (base ++ tail_of t)
format_fat_name-map-upcase base t h = get_or_ext 0 _ _ (raised.0 ∙ sym plain.0) λ i small.
    elim (Bool-cases (ltb i 8)) [
      | inl e ↦
          let first : i < 8 = ltb→lt _ _ e in
          raised.1 i first ∙ padded-map base i ∙ sym (plain.1 i first)
      | inr e ↦
          let third : i - 8 < 3 = ground (arith, raised.0) in
          let at : 8 + (i - 8) ≡ i = ground arith in
          rw at at
            (raised.2 (i - 8) third ∙ padded-extension t (i - 8) ∙ sym (plain.2 (i - 8) third))
    ]
  where
    raised : Form (map upcase base) (Option.map (map upcase) t)
    raised = format_fat_name_lem (map upcase base) (Option.map (map upcase) t) (NoDot-map base h)

    plain : Form base t
    plain = format_fat_name_lem base t h

equal_from-agrees :
    (left : ℕ) (a b : ℕ → ℕ)
    → left ≤ 11
    → (equal_from left a b ≡ true) ↔ ((i : ℕ) → 11 - left ≤ i → i < 11 → a i ≡ b i)
unfolding equal_from
equal_from-agrees zero a b h = (λ e i p q. absurd (omega arith), λ f. refl)
equal_from-agrees (suc left) a b h =
    let (sound, complete) = equal_from-agrees left a b (omega arith) in
    (
      λ e i p q. elim (Bool-cases (i == 10 - left)) [
        | inl here ↦ rw ((==_iff _ _).0 here) (ground arith)
        | inr later ↦ sound (ground arith) i (ground arith) q
      ],
      λ f. ground (arith, f (10 - left), complete (λ i p q. f i (omega arith) q)),
    )

-- fat_name_equal holds exactly when the eleven bytes agree.
pub fat_name_equal_iff :
    (a b : ℕ → ℕ) → (fat_name_equal a b ≡ true) ↔ ((i : ℕ) → i < 11 → a i ≡ b i)
unfolding fat_name_equal
fat_name_equal_iff a b =
    let (sound, complete) = equal_from-agrees 11 a b (omega arith) in
    (λ e i h. sound e i (omega arith) h, λ f. complete (λ i p q. f i q))
