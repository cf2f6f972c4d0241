-- ===== src/Console/Place.antt =====
-- Where print_char draws.
use zareboon_os.Prelude.{
  ℕ, ◌+◌, ◌*◌, ◌%◌, ◌^◌, ◌<◌, ◌≤◌, ◌≡◌, not, ◌&&◌, ◌||◌, leb, ltb, if◌then◌else◌, arith, Bool-cases,
  inl, inr, Bool, ◌⊎◌, false, refl, ◌==◌,
}
use zareboon_os.Console.{
  Console, erase_cursor, print_char, draw_char, move_cursor, place_cursor, set_cursor,
  get_raw_cursor_x, get_raw_cursor_y, is_negative16, margin, screen_width, screen_height,
}

-- The cursor stands behind the margin, and the top left corner of its cell on the screen.
pub record IsPlaced (k : Console) : Type 0 where
  pub behind_margin : margin ≤ k.cursor_x
  pub column : get_raw_cursor_x k < screen_width
  pub row : get_raw_cursor_y k < screen_height

-- The same, as a test.
abbrev pub is_placed : Console → Bool
is_placed k =
    leb margin k.cursor_x
    && ltb (get_raw_cursor_x k) screen_width
    && ltb (get_raw_cursor_y k) screen_height

-- A raw position that is not negative is the product.
raw_lem : (n g : ℕ) → n * g < 2 ^ 15 → n * g % 2 ^ 16 ≡ n * g
raw_lem n g h = omega arith

count_fits : (b s : ℕ) → 0 < s → b ≤ b * s
count_fits b s h = grind arith

-- The three adjustments, one after the other.
abbrev to_margin : Console → Console
to_margin k =
    if is_negative16 k.cursor_x || ltb k.cursor_x margin then set_cursor margin k.cursor_y k else k

abbrev to_line : Console → Console
to_line k =
    if not (is_negative16 (get_raw_cursor_x k)) && leb screen_width (get_raw_cursor_x k)
    then set_cursor margin (k.cursor_y + 1) k
    else k

abbrev to_top : Console → Console
to_top k =
    if not (is_negative16 (get_raw_cursor_y k)) && leb screen_height (get_raw_cursor_y k)
    then set_cursor margin 0 k
    else k

-- A cursor whose raw position is the product.
record IsNear (k : Console) (lines : ℕ) : Type 0 where
  x : k.cursor_x * (8 * k.scale) < 2 ^ 15
  y : (k.cursor_y + lines) * (8 * k.scale) < 2 ^ 15
  pos : 0 < k.scale
  small : k.scale < 64

to_margin-IsNear :
    (k : Console) → IsNear k 1 → IsNear (to_margin k) 1 × (margin ≤ (to_margin k).cursor_x)
to_margin-IsNear k n = elim (Bool-cases (is_negative16 k.cursor_x || ltb k.cursor_x margin)) [
  | inl e ↦
      let few = count_fits (k.cursor_y + 1) (8 * k.scale) (omega (arith, n.pos)) in
      let y16 : k.cursor_y % 2 ^ 16 ≡ k.cursor_y = omega (arith, few, n.y) in
      rw e (
        record { x = omega (arith, n.small); y = rw y16 n.y; pos = n.pos; small = n.small },
        omega arith,
      )
  | inr e ↦ rw e (n, ground arith)
]

to_line-IsNear :
    (k : Console)
    → IsNear k 1
    → margin ≤ k.cursor_x
    → IsNear (to_line k) 0
      × (margin ≤ (to_line k).cursor_x)
      × (get_raw_cursor_x (to_line k) < screen_width)
to_line-IsNear k n behind =
    let raw = raw_lem k.cursor_x (8 * k.scale) n.x in
    elim (Bool-cases
      (not (is_negative16 (get_raw_cursor_x k)) && leb screen_width (get_raw_cursor_x k))) [
        | inl e ↦
            let few = count_fits (k.cursor_y + 1) (8 * k.scale) (omega (arith, n.pos)) in
            let y16 : (k.cursor_y + 1) % 2 ^ 16 ≡ k.cursor_y + 1 = omega (arith, few, n.y) in
            let same : k.cursor_y + 1 + 0 ≡ k.cursor_y + 1 = omega arith in
            rw e (
              record {
                x = omega (arith, n.small);
                y = rw (y16, same) n.y;
                pos = n.pos;
                small = n.small;
              },
              omega arith,
              omega (arith, n.small),
            )
        | inr e ↦
            let less = fewer k.cursor_y (8 * k.scale) in
            rw e (
              record { x = n.x; y = omega (arith, n.y, less); pos = n.pos; small = n.small },
              behind,
              ground (arith, raw, n.x),
            )
      ]
  where
    fewer : (b g : ℕ) → (b + 0) * g ≤ (b + 1) * g
    fewer b g = grind arith

to_top-IsPlaced :
    (k : Console)
    → IsNear k 0
    → margin ≤ k.cursor_x
    → get_raw_cursor_x k < screen_width
    → IsPlaced (to_top k)
to_top-IsPlaced k n behind column =
    let raw = raw_lem (k.cursor_y + 0) (8 * k.scale) n.y in
    let same : k.cursor_y + 0 ≡ k.cursor_y = omega arith in
    elim (Bool-cases
      (not (is_negative16 (get_raw_cursor_y k)) && leb screen_height (get_raw_cursor_y k))) [
        | inl e ↦ rw e (record {
          behind_margin = omega arith;
          column = omega (arith, n.small);
          row = omega arith;
        })
        | inr e ↦ rw e (record {
          behind_margin = behind;
          column = column;
          row = ground (arith, rw same at raw, rw same at n.y);
        })
      ]

-- erase_cursor moves no cursor.
record Keeps (k k' : Console) : Type 0 where
  scale : k'.scale ≡ k.scale
  cursor_x : k'.cursor_x ≡ k.cursor_x
  cursor_y : k'.cursor_y ≡ k.cursor_y

erase_cursor-Keeps : (k : Console) → Keeps k (erase_cursor k)
unfolding erase_cursor
erase_cursor-Keeps k = elim (Bool-cases (is_negative16 k.drawn_x)) [
  | inl e ↦ rw e (record { scale = refl; cursor_x = refl; cursor_y = refl })
  | inr e ↦ rw e (record { scale = refl; cursor_x = refl; cursor_y = refl })
]

-- The cursor after the move for a tab, on the line that it was on.
after_tab-IsNear :
    (c : ℕ) (k : Console)
    → 0 < k.scale
    → k.scale < 64
    → (k.cursor_x + 4) * (8 * k.scale) < 2 ^ 15
    → (k.cursor_y + 1) * (8 * k.scale) < 2 ^ 15
    → IsNear (if c == 9 then move_cursor 4 0 k else k) 1
after_tab-IsNear c k pos small hx hy =
    let few = count_fits (k.cursor_x + 4) (8 * k.scale) (omega (arith, pos)) in
    let few' = count_fits (k.cursor_y + 1) (8 * k.scale) (omega (arith, pos)) in
    let x16 : (k.cursor_x + 4) % 2 ^ 16 ≡ k.cursor_x + 4 = omega (arith, few, hx) in
    let y16 : (k.cursor_y + 0) % 2 ^ 16 ≡ k.cursor_y = omega (arith, few', hy) in
    elim (Bool-cases (c == 9)) [
      | inl e ↦ rw e (record { x = rw x16 hx; y = rw y16 hy; pos = pos; small = small })
      | inr e ↦ rw e (record {
        x = omega (arith, hx, wider k.cursor_x (8 * k.scale));
        y = hy;
        pos = pos;
        small = small;
      })
    ]
  where
    wider : (b g : ℕ) → b * g ≤ (b + 4) * g
    wider b g = grind arith

-- A cursor that is on the screen already is left where it is.
placed_stays :
    (k : Console)
    → k.cursor_x < 2 ^ 15
    → (is_placed k ≡ false) ⊎ (to_top (to_line (to_margin k)) ≡ k)
placed_stays k low = elim (Bool-cases (is_placed k)) [
  | inr e ↦ inl e
  | inl e ↦
      inr
        (stays (record { behind_margin = ground arith; column = ground arith; row = ground arith }))
]
  where
    stays : IsPlaced k → to_top (to_line (to_margin k)) ≡ k
    stays p =
        let behind : is_negative16 k.cursor_x || ltb k.cursor_x margin ≡ false =
          ground (arith, p.behind_margin) in
        let column : not (is_negative16 (get_raw_cursor_x k))
              && leb screen_width (get_raw_cursor_x k)
            ≡ false =
          ground (arith, p.column) in
        let row : not (is_negative16 (get_raw_cursor_y k)) && leb screen_height (get_raw_cursor_y k)
            ≡ false =
          ground (arith, p.row) in
        rw (behind, column, row) refl

-- With a scale from 1 to 63, from a cursor from which the cell four to the right and the next line's
-- lie below 2 ^ 15, print_char of any character but a line feed, a tab included, draws it at the
-- cursor that place_cursor moved, whose position is on the screen, behind the margin. That is the
-- cursor as it was, or four to the right for a tab, wherever this one is on the screen already.
pub place_cursor-IsPlaced :
    (c color : ℕ) (k : Console)
    → (c == 10) ≡ false
    → 0 < k.scale
    → k.scale < 64
    → (k.cursor_x + 4) * (8 * k.scale) < 2 ^ 15
    → (k.cursor_y + 1) * (8 * k.scale) < 2 ^ 15
    → IsPlaced (place_cursor c (erase_cursor k))
      × ((is_placed (if c == 9 then move_cursor 4 0 (erase_cursor k) else erase_cursor k) ≡ false)
          ⊎ (place_cursor c (erase_cursor k)
              ≡ (if c == 9 then move_cursor 4 0 (erase_cursor k) else erase_cursor k)))
      × (print_char c color k
          ≡ move_cursor 1 0 (
              draw_char
                (get_raw_cursor_x (place_cursor c (erase_cursor k)))
                (get_raw_cursor_y (place_cursor c (erase_cursor k)))
                c
                color
                (place_cursor c (erase_cursor k))))
unfolding place_cursor print_char
place_cursor-IsPlaced c color k printed pos small hx hy =
    let at = erase_cursor-Keeps k in
    let e = erase_cursor k in
    let near : IsNear (if c == 9 then move_cursor 4 0 e else e) 1 =
      after_tab-IsNear c e (rw at.scale pos) (rw at.scale small) (rw (at.scale, at.cursor_x) hx)
        (rw (at.scale, at.cursor_y) hy) in
    let k0 = if c == 9 then move_cursor 4 0 e else e in
    let (n, behind) = to_margin-IsNear k0 near in
    let (n', behind', column) = to_line-IsNear (to_margin k0) n behind in
    let few = count_fits k0.cursor_x (8 * k0.scale) (omega (arith, near.pos)) in
    (
      to_top-IsPlaced (to_line (to_margin k0)) n' behind' column,
      placed_stays k0 (omega (arith, few, near.x)),
      rw printed refl,
    )
