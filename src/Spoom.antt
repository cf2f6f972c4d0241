-- ===== src/Spoom.antt =====
-- build/zrn/projects/spoom-game: the levels, the player, the enemies and the menu. A map is a
-- function of a row and a column, both below 10; a key is what getch returned.
pub mod Enemies
mod Tests
use zareboon_os.Prelude.{
  ℕ, zero, suc, ◌+◌, ◌-◌, ◌%◌, ◌^◌, Bool, true, false, not, ◌&&◌, ◌||◌, Option, none, some, ◌==◌,
  if◌then◌else◌, ltb, leb, List, [], ◌∷◌,
}

-- `uint8_t arr[HEIGHT][WIDTH]`, and a store in it.
abbrev pub Map : Type 0
Map = ℕ → ℕ → ℕ

abbrev pub put : Map → ℕ → ℕ → ℕ → Map
put arr y x v r c = if (r == y) && (c == x) then v else arr r c

abbrev pub height : ℕ
height = 10

abbrev pub width : ℕ
width = 10

-- The rows of the four levels, by their bytes.
abbrev pub empty_row : ℕ → ℕ
empty_row x = 0

abbrev pub wall : ℕ → ℕ
wall x = 1

abbrev pub ones : ℕ → ℕ → ℕ → ℕ
ones lo hi x = if leb lo x && ltb x hi then 1 else 0

abbrev pub player_at : ℕ → ℕ → ℕ
player_at at x = if x == at then 2 else 0

abbrev pub lvl1 : Map
lvl1 y = if y == 0 then ones 3 7 else if y == 9 then player_at 5 else empty_row

abbrev pub lvl2 : Map
lvl2 y =
    if y == 0 then wall else if y == 1 then ones 3 7 else if y == 9 then player_at 4 else empty_row

abbrev pub lvl3 : Map
lvl3 y =
    if ltb y 2 then wall else if y == 2 then ones 3 7 else if y == 9 then player_at 5 else empty_row

abbrev pub lvl4 : Map
lvl4 y =
    if (y == 0) || (y == 2) || (y == 4)
    then wall
    else if (y == 5) || (y == 6)
    then ones 4 6
    else if y == 9
    then player_at 4
    else empty_row

unfoldable pub get_lvl : ℕ → Option Map
get_lvl num =
    if num == 1
    then some lvl1
    else if num == 2
    then some lvl2
    else if num == 3
    then some lvl3
    else if num == 4
    then some lvl4
    else none

-- The loops of get_index_x and get_index_y, with `left` columns or rows left: the first cell, row
-- by row, that holds the target.
unfoldable pub index_in_row : ℕ → ℕ → (ℕ → ℕ) → ℕ → Option ℕ
index_in_row zero x row target = none
index_in_row (suc left) x row target =
    let rest = index_in_row left (x + 1) row target in if row x == target then some x else rest

unfoldable pub index_in_map : ℕ → ℕ → Map → ℕ → Option (ℕ × ℕ)
unfolding index_in_row
index_in_map zero y arr target = none
index_in_map (suc left) y arr target = elim (index_in_row width 0 (arr y) target) [
  | some x ↦ some (y, x)
  | none ↦ index_in_map left (y + 1) arr target
]

unfoldable pub get_index_x : Map → ℕ → ℕ
unfolding index_in_map
get_index_x arr target = elim (index_in_map height 0 arr target) [ none ↦ 0 | some (y, x) ↦ x ]

unfoldable pub get_index_y : Map → ℕ → ℕ
unfolding index_in_map
get_index_y arr target = elim (index_in_map height 0 arr target) [ none ↦ 0 | some (y, x) ↦ y ]

-- The loops of game_check.
unfoldable pub clear_row : ℕ → ℕ → (ℕ → ℕ) → Bool
clear_row zero x row = true
clear_row (suc left) x row =
    let rest = clear_row left (x + 1) row in
    if not (row x == 0) && not (row x == 2) then false else rest

unfoldable pub clear_rows : ℕ → ℕ → Map → Bool
unfolding clear_row
clear_rows zero y arr = true
clear_rows (suc left) y arr =
    let rest = clear_rows left (y + 1) arr in if clear_row width 0 (arr y) then rest else false

unfoldable pub game_check : Map → Bool
unfolding clear_rows
game_check arr = clear_rows height 0 arr

-- The statics of game.c, map.c and main.c that a level plays on: the player, is_screen_dirty, the
-- tick of update_enemies, cur_lvl, and the map.
pub record Game : Type 0 where
  pub x : ℕ
  pub y : ℕ
  pub dirty : Bool
  pub tick : ℕ
  pub cur_lvl : ℕ
  pub level_map : Map

-- The loop of shoot from row `rows - 1` up: the row of the enemy hit.
unfoldable pub shot_row : ℕ → ℕ → Map → Option ℕ
shot_row zero x arr = none
shot_row (suc y) x arr = let rest = shot_row y x arr in if arr y x == 1 then some y else rest

unfoldable pub shoot : Game → Game
unfolding shot_row
shoot g = elim (shot_row (g.y + 1) g.x g.level_map) [
  | none ↦ g
  | some y ↦ record g { level_map = put g.level_map y g.x 0; dirty = true }
]

-- The end of update_player, once the player's column is `x`.
unfoldable pub move_player : ℕ → Game → Game
unfolding get_index_x
move_player x g =
    let cleared = put g.level_map g.y (get_index_x g.level_map 2) 0 in
    record g { x = x; level_map = put cleared g.y x 2; dirty = true }

-- update_player for the key `ch`. `r` on a level that does not exist reads through a null pointer
-- in the source; game_main never calls it there, and here it changes nothing.
unfoldable pub update_player : ℕ → Game → Game
unfolding shoot move_player get_lvl get_index_x get_index_y
update_player ch g =
    let restarted : Game = elim (get_lvl g.cur_lvl) [
      | none ↦ g
      | some map ↦ record g {
        level_map = map;
        x = get_index_x map 2;
        y = get_index_y map 2;
        dirty = true;
      }
    ] in
    if ch == b'a'
    then (if ltb 0 g.x then move_player (g.x - 1) g else g)
    else if ch == b'd'
    then (if ltb (g.x + 1) width then move_player (g.x + 1) g else g)
    else if ch == 10
    then shoot g
    else if ch == b'r'
    then restarted
    else g

-- One cell of update_enemies' loops, and whether an enemy moved.
unfoldable pub move_enemy : ℕ → ℕ → Map → Map
move_enemy y x arr =
    if (arr y x == 1) && ltb (y + 1) height then put (put arr y x 0) (y + 1) x 1 else arr

unfoldable pub move_row : ℕ → ℕ → ℕ → Map → Map
unfolding move_enemy
move_row zero x y arr = arr
move_row (suc left) x y arr = move_row left (x + 1) y (move_enemy y x arr)

-- The rows below `rows`, from the lowest on the screen up.
unfoldable pub move_rows : ℕ → Map → Map
move_rows zero arr = arr
move_rows (suc y) arr = move_rows y (move_row width 0 y arr)

-- Whether some enemy of the row above `rows` moves.
unfoldable pub any_moves : ℕ → Map → Bool
unfolding index_in_row
any_moves zero arr = false
any_moves (suc y) arr =
    let rest = any_moves y arr in
    elim (index_in_row width 0 (arr y) 1) [ none ↦ rest | some x ↦ true ]

unfoldable pub update_enemies : Game → Game
unfolding any_moves
update_enemies g =
    let tick = (g.tick + 1) % 2 ^ 16 in
    if ltb tick 100 then record g { tick = tick } else record g {
      tick = 0;
      level_map = move_rows height g.level_map;
      dirty = g.dirty || any_moves (height - 1) g.level_map;
    }

-- A round of game_main's inner loop: the game, whether the defeat is printed, and whether the
-- level is won. draw_frame and sleep change none of it but the flag.
unfoldable pub game_round : ℕ → Game → Game × (Bool × Bool)
unfolding update_player update_enemies game_check
game_round ch g =
    let g' = update_enemies (update_player ch g) in
    let lost = g'.level_map g'.y g'.x == 1 in
    let won = game_check g'.level_map in
    (
      (if won then record g' { cur_lvl = (g'.cur_lvl + 1) % 256 } else record g' { dirty = false }),
      (lost, won),
    )

-- The statics of menu.c, and what main_menu does: whether a game is run, the screen is cleared,
-- and which text, if any, is drawn.
pub record Menu : Type 0 where
  pub selected : ℕ
  pub in_help : Bool

pub record Shown : Type 0 where
  pub runs_game : Bool
  pub clears : Bool
  pub draws : Bool

unfoldable pub main_menu : ℕ → Menu → Menu × Shown
main_menu ch m =
    let first = ch == 255 in
    let still : Shown = record { runs_game = false; clears = false; draws = first } in
    let drawn : Shown = record { runs_game = false; clears = false; draws = true } in
    if m.in_help
    then (if ch == 10 then (record m { in_help = false }, drawn) else (m, still))
    else if ch == b'w'
    then (record m { selected = if ltb 1 m.selected then m.selected - 1 else 3 }, drawn)
    else if ch == b's'
    then (record m { selected = if ltb m.selected 3 then m.selected + 1 else 1 }, drawn)
    else if ch == 10
    then (if m.selected == 1
        then (m, record drawn { runs_game = true })
        else if m.selected == 2
        then (record m { in_help = true }, drawn)
        else if m.selected == 3
        then (m, record still { clears = true })
        else (m, still))
    else (m, still)
