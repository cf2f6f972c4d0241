-- ===== src/Keyboard/Handler.antt =====
-- The interrupt handler of keyboard.c: what each scancode does to the state.
use mathlib.Core.Bool.{xor}
use zareboon_os.Prelude.{
  ℕ, ◌+◌, ◌-◌, ◌%◌, ◌<◌, ◌≤◌, ◌≡◌, refl, Bool, true, false, not, ◌&&◌, ◌⊎◌, arith, leb, ◌==◌,
  if◌then◌else◌, inl, inr, tested, tested_at,
}
use zareboon_os.Keyboard.{
  Keyboard, unshifted, shifted, buffer_push, send_eoi, scancode_to_ascii, extended_to_key,
  handle_extended, handle_modifier, handle_character, handle_plain, keyboard_handler,
}
use zareboon_os.Keyboard.Queue.{IsValid, contents, buffer_push-IsValid}

-- What buffer_push leaves alone.
buffer_push-frame :
    (k : Keyboard) (c : ℕ)
    → ((buffer_push k c).eois ≡ k.eois) × ((buffer_push k c).extended ≡ k.extended)
unfolding buffer_push
buffer_push-frame k c = ground arith

handle_extended-IsValid :
    {k : Keyboard} (code : ℕ) (released : Bool)
    → IsValid k
    → IsValid (handle_extended k code released)
unfolding handle_extended
handle_extended-IsValid {k} code released v =
    ground (arith, buffer_push-IsValid (extended_to_key code) v)

handle_modifier-IsValid :
    {k : Keyboard} (code : ℕ) (released : Bool)
    → IsValid k
    → IsValid (handle_modifier k code released).0
unfolding handle_modifier
handle_modifier-IsValid {k} code released v = ground arith

handle_character-IsValid :
    {k : Keyboard} (run : Bool) (code : ℕ) → IsValid k → IsValid (handle_character run k code).0
unfolding handle_character
handle_character-IsValid {k} run code v =
    ground (arith, buffer_push-IsValid (scancode_to_ascii k code) v)

handle_plain-IsValid :
    {k : Keyboard} (run : Bool) (code : ℕ) (released : Bool)
    → IsValid k
    → IsValid (handle_plain run k code released).0
unfolding handle_plain
handle_plain-IsValid {k} run code released v =
    let m = handle_modifier-IsValid code released v in
    ground (arith, m, handle_character-IsValid run code m)

-- In a state whose ring indices are in range, the handler keeps them in range, whatever the
-- scancode and whether or not a program runs.
pub keyboard_handler-IsValid :
    {k : Keyboard} (run : Bool) (scancode : ℕ)
    → IsValid k
    → IsValid (keyboard_handler run k scancode).0
unfolding keyboard_handler send_eoi
keyboard_handler-IsValid {k} run scancode v =
    let k0 : Keyboard = record k { extended = false } in
    let v0 : IsValid k0 = record {
      entries = v.entries;
      head_in = v.head_in;
      tail_in = v.tail_in;
    } in
    ground (
      arith,
      handle_extended-IsValid {k = k0} (scancode % 128) (leb 128 scancode) v0,
      handle_plain-IsValid run (scancode % 128) (leb 128 scancode) v,
    )

handle_extended-frame :
    (k : Keyboard) (code : ℕ) (r : Bool)
    → ((handle_extended k code r).eois ≡ k.eois)
      × ((handle_extended k code r).extended ≡ k.extended)
unfolding handle_extended
handle_extended-frame k code r = ground (arith, buffer_push-frame k (extended_to_key code))

handle_plain-frame :
    (run : Bool) (k : Keyboard) (code : ℕ) (r : Bool)
    → ((handle_plain run k code r).0.eois ≡ k.eois)
      × ((handle_plain run k code r).0.extended ≡ k.extended)
unfolding handle_plain handle_modifier handle_character
handle_plain-frame run k code r = ground (arith, buffer_push-frame k (scancode_to_ascii k code))

-- Every interrupt is acknowledged exactly once, on every path, and afterwards the prefix flag is
-- set exactly when the byte was the prefix 0xE0.
pub keyboard_handler_acknowledges :
    (run : Bool) (k : Keyboard) (scancode : ℕ)
    → ((keyboard_handler run k scancode).0.eois ≡ k.eois + 1)
      × ((keyboard_handler run k scancode).0.extended ≡ (scancode == 0xE0))
unfolding keyboard_handler send_eoi
keyboard_handler_acknowledges run k scancode = ground (
  arith,
  handle_extended-frame (record k { extended = false }) (scancode % 128) (leb 128 scancode),
  handle_plain-frame run k (scancode % 128) (leb 128 scancode),
)

-- The handler asks for the running program to be aborted exactly when a program runs, control is
-- held, no prefix came before, and the byte is the press of C; it then leaves the ring and every
-- modifier as they were.
pub keyboard_handler_aborts :
    (run : Bool) (k : Keyboard) (scancode : ℕ)
    → ((keyboard_handler run k scancode).1
        ≡ (run && k.ctrl && not k.extended && (scancode == 0x2E)))
      × ((keyboard_handler run k scancode).1 ≡ true
          → (keyboard_handler run k scancode).0 ≡ record k { eois = k.eois + 1 })
unfolding keyboard_handler send_eoi handle_plain handle_modifier handle_character
keyboard_handler_aborts run k scancode = (ground arith, λ h. ground arith)

-- The byte of a key's release, and a prefix, put nothing into the ring: what waits to be read
-- stays the same. So does a press while control is held of the key C.
pub keyboard_handler_release :
    (run : Bool) (k : Keyboard) (scancode : ℕ)
    → (0x80 ≤ scancode) ⊎ ((scancode ≡ 0x2E) × (k.ctrl ≡ true) × (k.extended ≡ false))
    → scancode < 256
    → contents (keyboard_handler run k scancode).0 ≡ contents k
unfolding keyboard_handler send_eoi handle_extended handle_plain handle_modifier handle_character
keyboard_handler_release run k scancode (inl h) small = ground arith
keyboard_handler_release run k scancode (inr h) small = ground arith

-- The letters, as the code tests for them.
abbrev pub is_letter : ℕ → Bool
is_letter c = leb b'a' c && leb c b'z'

-- The two tables agree: a letter of one stands as its capital in the other.
tables_agree : ℕ → Bool
tables_agree n = if is_letter (unshifted n) then shifted n + 32 == unshifted n else true

tables_checked : tested tables_agree 128 ≡ true
unfolding tested tables_agree unshifted shifted
tables_checked = refl

shifted-letter : (n : ℕ) → n < 128 → is_letter (unshifted n) ≡ true → shifted n + 32 ≡ unshifted n
unfolding tables_agree
shifted-letter n small e = ground (arith, tested_at tables_agree 128 tables_checked n small)

-- On a letter key the character is the capital exactly when one of shift and caps lock is on; on
-- any other key of the table caps lock does not matter, and shift alone chooses the column.
pub scancode_to_ascii_lem :
    (k : Keyboard) (scancode : ℕ)
    → scancode < 128
    → scancode_to_ascii k scancode ≡ (
        if is_letter (unshifted scancode)
        then (if xor k.shift k.caps then unshifted scancode - 32 else unshifted scancode)
        else (if k.shift then shifted scancode else unshifted scancode))
unfolding scancode_to_ascii xor
scancode_to_ascii_lem k scancode small = ground (arith, shifted-letter scancode small)
