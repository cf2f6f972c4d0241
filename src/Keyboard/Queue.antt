-- ===== src/Keyboard/Queue.antt =====
-- The ring of key_buffer, buf_head and buf_tail as a queue of at most 255 characters.
use zareboon_os.Prelude.{
  ℕ, zero, suc, ◌+◌, ◌-◌, ◌%◌, ◌<◌, ◌≡◌, ◌≢◌, refl, ap, ap₂, ◌∙◌, List, [], ◌∷◌, ◌++◌, arith, ltb,
  if◌then◌else◌, length, get_or, set, length-set, get_or-set_self, get_or-set_ne,
}
use zareboon_os.Keyboard.{Keyboard, buffer_push, keyboard_has_input, keyboard_read_char}

-- The indices are in range of the array of 256 entries.
pub record IsValid (k : Keyboard) : Type 0 where
  pub entries : length k.key_buffer ≡ 256
  pub head_in : k.head < 256
  pub tail_in : k.tail < 256

-- The entries from index `t` on, `n` of them, round the end of the array.
abbrev pub span : List ℕ → ℕ → ℕ → List ℕ
span buf t zero = []
span buf t (suc n) = get_or buf t 0 ∷ span buf ((t + 1) % 256) n

abbrev pub waiting : Keyboard → ℕ
waiting k = (k.head + 256 - k.tail) % 256

-- The characters typed and not yet read, oldest first.
abbrev pub contents : Keyboard → List ℕ
contents k = span k.key_buffer k.tail (waiting k)

length-span : (buf : List ℕ) (t n : ℕ) → length (span buf t n) ≡ n
length-span buf t zero = refl
length-span buf t (suc n) = ap suc (length-span buf ((t + 1) % 256) n)

pub length-contents : (k : Keyboard) → length (contents k) ≡ waiting k
length-contents k = length-span k.key_buffer k.tail (waiting k)

span-set :
    (buf : List ℕ) (c n t i : ℕ)
    → length buf ≡ 256
    → t < 256
    → n < 255
    → i ≡ (t + n) % 256
    → span (set buf i c) t (suc n) ≡ span buf t n ++ (c ∷ [])
span-set buf c zero t i full ht hn e =
    ap (λ (v : ℕ). v ∷ [])
      (let here : i ≡ t = omega arith in
        ap (λ (j : ℕ). get_or (set buf j c) t 0) here ∙ get_or-set_self buf t c 0 (omega arith))
span-set buf c (suc n) t i full ht hn e =
    ap₂ ◌∷◌ (get_or-set_ne buf i t c 0 (omega arith))
      (span-set buf c n ((t + 1) % 256) i full (omega arith) (omega arith) (omega arith))

-- One round of the ring takes the oldest entry off.
span-pop :
    (buf : List ℕ) (t n : ℕ)
    → n ≢ 0
    → span buf t n ≡ get_or buf t 0 ∷ span buf ((t + 1) % 256) (n - 1)
span-pop buf t zero h = absurd (h refl)
span-pop buf t (suc n) h = ap (λ (m : ℕ). get_or buf t 0 ∷ span buf ((t + 1) % 256) m) (omega arith)

pub buffer_push-IsValid : {k : Keyboard} (c : ℕ) → IsValid k → IsValid (buffer_push k c)
unfolding buffer_push
buffer_push-IsValid {k} c v = ground (arith, length-set k.key_buffer k.head c)

-- In a valid ring buffer_push appends the character when fewer than 255 are waiting, and
-- otherwise leaves the waiting characters as they are.
pub buffer_push_refines :
    {k : Keyboard} (c : ℕ)
    → IsValid k
    → contents (buffer_push k c)
      ≡ (if ltb (length (contents k)) 255 then contents k ++ (c ∷ []) else contents k)
unfolding buffer_push
buffer_push_refines {k} c v =
    ground (arith, length-contents k, span-set k.key_buffer c (waiting k) k.tail k.head)

pub keyboard_read_char-IsValid : {k : Keyboard} → IsValid k → IsValid (keyboard_read_char k).1
unfolding keyboard_read_char
keyboard_read_char-IsValid {k} v = ground arith

-- The oldest item, and 0 where there is none.
abbrev pub oldest : List ℕ → ℕ
oldest [] = 0
oldest (c ∷ cs) = c

abbrev pub rest : List ℕ → List ℕ
rest [] = []
rest (c ∷ cs) = cs

-- In a valid ring keyboard_read_char returns the oldest waiting character, or 0 at once when there is
-- none, and leaves the others waiting in their order; keyboard_has_input says whether one waits.
pub keyboard_read_char_refines :
    {k : Keyboard}
    → IsValid k
    → ((keyboard_read_char k).0 ≡ oldest (contents k))
      × (contents (keyboard_read_char k).1 ≡ rest (contents k))
      × (keyboard_has_input k ≡ ltb 0 (length (contents k)))
unfolding keyboard_read_char keyboard_has_input
keyboard_read_char_refines {k} v =
    ground (arith, length-contents k, span-pop k.key_buffer k.tail (waiting k))
