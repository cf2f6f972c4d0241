-- ===== src/Spoom/Tests.antt =====
-- A level played.
use zareboon_os.Prelude.{◌+◌, ◌-◌, ◌≡◌, refl, false, ◌&&◌, ◌==◌, if◌then◌else◌, ltb, [], ◌∷◌, arith}
use zareboon_os.Spoom.{
  Game, Menu, lvl1, get_index_x, get_index_y, update_enemies, game_round, shot_row, move_rows,
  move_row,
}
use zareboon_os.Spoom.Enemies.{Hits, update_enemies-rows_after, shot_row-Hits}

abbrev start : Game
start = record { x = 5; y = 9; dirty = false; tick = 99; cur_lvl = 1; level_map = lvl1 }

abbrev first_line : Menu
first_line = record { selected = 1; in_help = false }

player_found : (get_index_x lvl1 2 ∷ get_index_y lvl1 2 ∷ []) ≡ 5 ∷ 9 ∷ []
unfolding get_index_x get_index_y
player_found = refl

abbrev played : Game
played = (game_round b'a' start).0

-- The player moves to the left and the enemies down.
round_played :
    (played.level_map 9 4 ∷ played.level_map 9 5 ∷ played.level_map 1 3 ∷ played.level_map 0 3 ∷ [])
    ≡ 2 ∷ 0 ∷ 1 ∷ 0 ∷ []
unfolding game_round move_rows move_row
round_played = refl

update_enemies-rows_after_example :
    ((update_enemies start).tick ≡ (if start.tick == 99 then 0 else start.tick + 1))
    × ((update_enemies start).level_map 1 3 ≡ (
        if start.tick == 99
        then (if ltb 0 1 && ltb 1 10 && (lvl1 (1 - 1) 3 == 1)
            then 1
            else if ltb 1 9 && (lvl1 1 3 == 1)
            then 0
            else lvl1 1 3)
        else lvl1 1 3))
update_enemies-rows_after_example = update_enemies-rows_after start 1 3 (omega arith) (omega arith)

shot_row-Hits_example : Hits 10 5 lvl1 (shot_row 10 5 lvl1)
shot_row-Hits_example = shot_row-Hits 10 5 lvl1
