-- ===== src/Spoom/Enemies.antt =====
-- What the loops of update_enemies do to the map: every enemy moves down by one row, once.
use zareboon_os.Prelude.{
  ℕ, zero, suc, ◌+◌, ◌-◌, ◌%◌, ◌^◌, ◌<◌, ◌≤◌, ◌≡◌, ◌≢◌, refl, ◌∙◌, true, false, ◌&&◌, Option, none,
  some, ◌==◌, if◌then◌else◌, ltb, leb, inl, inr, ◌⊎◌, arith, Bool-cases, ==_iff,
}
use zareboon_os.Spoom.{
  Map, Game, put, move_enemy, move_row, move_rows, update_enemies, shot_row, main_menu, Menu,
}

-- A row of the map after the columns from `lo` to `hi - 1` of row `y` were visited.
abbrev row_after : ℕ → ℕ → ℕ → Map → Map
row_after lo hi y arr r c =
    if leb lo c && ltb c hi && (arr y c == 1) && ltb (y + 1) 10 && (r == y)
    then 0
    else if leb lo c && ltb c hi && (arr y c == 1) && ltb (y + 1) 10 && (r == y + 1)
    then 1
    else arr r c

move_row-row_after :
    (left x y : ℕ) (arr : Map) (r c : ℕ)
    → move_row left x y arr r c ≡ row_after x (x + left) y arr r c
unfolding move_row move_enemy
move_row-row_after zero x y arr r c = ground arith
move_row-row_after (suc left) x y arr r c =
    move_row-row_after left (x + 1) y (move_enemy y x arr) r c
    ∙ elim (Bool-cases ((arr y x == 1) && ltb (y + 1) 10)) [
      | inl e ↦ rw (moves e) (ground arith)
      | inr e ↦ rw (stays e) (ground arith)
    ]
  where
    moves :
        (arr y x == 1) && ltb (y + 1) 10 ≡ true
        → move_enemy y x arr ≡ put (put arr y x 0) (y + 1) x 1
    moves e = rw e refl

    stays : (arr y x == 1) && ltb (y + 1) 10 ≡ false → move_enemy y x arr ≡ arr
    stays e = rw e refl

-- The map after the rows below `n` were visited.
abbrev rows_after : ℕ → Map → Map
rows_after n arr r c =
    if ltb 0 r && leb r n && (arr (r - 1) c == 1) && ltb r 10
    then 1
    else if ltb r n && (arr r c == 1) && ltb (r + 1) 10
    then 0
    else arr r c

rows_step :
    (n : ℕ) (arr mid : Map) (r c : ℕ)
    → c < 10
    → mid r c ≡ row_after 0 10 n arr r c
    → mid (r - 1) c ≡ row_after 0 10 n arr (r - 1) c
    → rows_after n mid r c ≡ rows_after (suc n) arr r c
rows_step n arr mid r c h p q = rw (p, q) (parts (Bool-cases (ltb r n)) (Bool-cases (r == n)))
  where
    parts :
        (ltb r n ≡ true) ⊎ (ltb r n ≡ false)
        → ((r == n) ≡ true) ⊎ ((r == n) ≡ false)
        → (if ltb 0 r && leb r n && (row_after 0 10 n arr (r - 1) c == 1) && ltb r 10
            then 1
            else if ltb r n && (row_after 0 10 n arr r c == 1) && ltb (r + 1) 10
            then 0
            else row_after 0 10 n arr r c)
          ≡ rows_after (suc n) arr r c
    parts (inl e) f = ground arith
    parts (inr e) (inl f) = let at : r ≡ n = (==_iff _ _).0 f in rw at (ground arith)
    parts (inr e) (inr f) = ground arith

move_rows-rows_after :
    (n : ℕ) (arr : Map) (r c : ℕ) → c < 10 → move_rows n arr r c ≡ rows_after n arr r c
unfolding move_rows
move_rows-rows_after zero arr r c h = ground arith
move_rows-rows_after (suc n) arr r c h =
    let row = move_row-row_after 10 0 n arr in
    move_rows-rows_after n (move_row 10 0 n arr) r c h
    ∙ rows_step n arr (move_row 10 0 n arr) r c h (row r c) (row (r - 1) c)

-- When the tick is below 100, which every call keeps, the call of update_enemies at tick 99 moves every enemy above the last row down by one row,
-- whatever stood below it, and leaves every other cell of the ten columns; any other call leaves
-- the map and counts the tick.
pub update_enemies-rows_after :
    (g : Game) (r c : ℕ)
    → g.tick < 100
    → c < 10
    → ((update_enemies g).tick ≡ (if g.tick == 99 then 0 else g.tick + 1))
      × ((update_enemies g).level_map r c ≡ (
          if g.tick == 99
          then (if ltb 0 r && ltb r 10 && (g.level_map (r - 1) c == 1)
              then 1
              else if ltb r 9 && (g.level_map r c == 1)
              then 0
              else g.level_map r c)
          else g.level_map r c))
unfolding update_enemies
update_enemies-rows_after g r c small h = elim (Bool-cases (g.tick == 99)) [
  | inl e ↦
      let due : ltb ((g.tick + 1) % 2 ^ 16) 100 ≡ false = ground arith in
      rw (due, e) (refl, move_rows-rows_after 10 g.level_map r c h ∙ ground arith)
  | inr e ↦
      let early : ltb ((g.tick + 1) % 2 ^ 16) 100 ≡ true = ground arith in
      rw (early, e) (omega arith, refl)
]

-- How a shot from row `rows - 1` up column `x` ends: at the nearest enemy.
abbrev pub Hits : ℕ → ℕ → Map → Option ℕ → Type 0
Hits rows x arr none = (r : ℕ) → r < rows → arr r x ≢ 1
Hits rows x arr (some y) = (y < rows) × (arr y x ≡ 1) × ((r : ℕ) → y < r → r < rows → arr r x ≢ 1)

-- The loop of shoot, over the rows below the one given, ends at the last of them that holds an
-- enemy in the column, or at none when none does.
pub shot_row-Hits : (rows x : ℕ) (arr : Map) → Hits rows x arr (shot_row rows x arr)
unfolding shot_row
shot_row-Hits zero x arr = λ r h. absurd (omega arith)
shot_row-Hits (suc y) x arr = elim (Bool-cases (arr y x == 1)) [
  | inl e ↦ rw e (omega arith, (==_iff _ _).0 e, λ r p q. absurd (omega arith))
  | inr e ↦ rw e (further (shot_row y x arr) (shot_row-Hits y x arr) (λ q. ground arith))
]
  where
    further : (o : Option ℕ) → Hits y x arr o → arr y x ≢ 1 → Hits (suc y) x arr o
    further none h n = λ r p. elim (Bool-cases (r == y)) [
      | inl e ↦ let at : r ≡ y = (==_iff _ _).0 e in rw at n
      | inr e ↦ h r (ground arith)
    ]
    further (some z) (lt, at, h) n = (
      omega arith,
      at,
      λ r p q. elim (Bool-cases (r == y)) [
        | inl e ↦ let here : r ≡ y = (==_iff _ _).0 e in rw here n
        | inr e ↦ h r p (ground arith)
      ],
    )

-- A selection that is one of the menu's three lines stays one, whatever the key.
pub main_menu-selected :
    (ch : ℕ) (m : Menu)
    → 1 ≤ m.selected
    → m.selected ≤ 3
    → (1 ≤ (main_menu ch m).0.selected) × ((main_menu ch m).0.selected ≤ 3)
unfolding main_menu
main_menu-selected ch m lo hi = (ground arith, ground arith)
