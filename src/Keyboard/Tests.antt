-- ===== src/Keyboard/Tests.antt =====
-- Runs of the keyboard driver, and its theorems at concrete states.
use zareboon_os.Prelude.{ℕ, ◌≡◌, refl, true, false, List, [], ◌∷◌, arith, replicate}
use zareboon_os.Keyboard.{
  Keyboard, buffer_push, send_eoi, scancode_to_ascii, extended_to_key, handle_extended, unshifted,
  shifted, handle_modifier, handle_character, handle_plain, keyboard_handler, keyboard_has_input,
  keyboard_read_char,
}
use zareboon_os.Keyboard.Queue.{IsValid, contents, buffer_push_refines, keyboard_read_char_refines}
use zareboon_os.Keyboard.Handler.{keyboard_handler-IsValid, keyboard_handler_aborts}

-- Empty, with the indices at the last entry.
abbrev fresh : Keyboard
fresh = record {
  key_buffer = replicate 256 0;
  head = 255;
  tail = 255;
  shift = false;
  caps = true;
  ctrl = false;
  extended = false;
  eois = 0;
}

abbrev with_ctrl : Keyboard
with_ctrl = record fresh { ctrl = true }

abbrev type_all : Keyboard → List ℕ → Keyboard
type_all k [] = k
type_all k (s ∷ ss) = type_all (keyboard_handler true k s).0 ss

-- With caps lock on: a, shift held, a, 1, shift released, the arrow up.
typed :
    contents (type_all fresh (0x1E ∷ 0x2A ∷ 0x1E ∷ 0x02 ∷ 0xAA ∷ 0xE0 ∷ 0x48 ∷ []))
    ≡ b'A' ∷ b'a' ∷ b'!' ∷ 0x80 ∷ []
unfolding keyboard_handler handle_plain handle_modifier handle_character handle_extended
    extended_to_key scancode_to_ascii buffer_push send_eoi unshifted shifted
typed = refl

fresh-IsValid : IsValid fresh
fresh-IsValid = omega arith

buffer_push_refines_example : contents (buffer_push fresh 65) ≡ 65 ∷ []
buffer_push_refines_example = buffer_push_refines {k = fresh} 65 fresh-IsValid

keyboard_read_char_refines_example :
    ((keyboard_read_char fresh).0 ≡ 0)
    × (contents (keyboard_read_char fresh).1 ≡ [])
    × (keyboard_has_input fresh ≡ false)
keyboard_read_char_refines_example = keyboard_read_char_refines {k = fresh} fresh-IsValid

keyboard_handler-IsValid_example : IsValid (keyboard_handler true fresh 0x1E).0
keyboard_handler-IsValid_example = keyboard_handler-IsValid {k = fresh} true 0x1E fresh-IsValid

keyboard_handler_aborts_example :
    ((keyboard_handler true with_ctrl 0x2E).1 ≡ true)
    × ((keyboard_handler true with_ctrl 0x2E).1 ≡ true
        → (keyboard_handler true with_ctrl 0x2E).0 ≡ record with_ctrl { eois = 1 })
keyboard_handler_aborts_example = keyboard_handler_aborts true with_ctrl 0x2E
