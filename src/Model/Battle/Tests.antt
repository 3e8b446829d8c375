-- ===== src/Model/Battle/Tests.antt =====
-- Runs of a battle.
use zdxsv.Prelude.{
  ℕ, ◌+◌, ◌%◌, ◌≡◌, refl, String, List, [], ◌∷◌, none, some, length, arith, inl, inr,
}
use zdxsv.Model.Rule.{new_rule}
use zdxsv.Model.User.{zero_user, User}
use zdxsv.Model.Battle.{
  Battle, new_battle, add, num_of_entry_users, get_position, get_user_by_pos, set_rule,
  set_battle_server,
}
use zdxsv.Model.Battle.Places.{add_all, ids_of, get_user_by_pos-get_position, add-sides}

abbrev player : String → ℕ → User
player id side = record zero_user { user_id = id; entry = side; sync = "" }

abbrev players : List User
players = player "A" 1 ∷ player "B" 2 ∷ player "C" 0 ∷ []

abbrev battle : Battle
battle = record (new_battle "emu" 2 7) {
  users = players;
  aeug_ids = "A" ∷ [];
  titans_ids = "B" ∷ [];
}

out_of_range : get_user_by_pos battle 0 ≡ none
unfolding get_user_by_pos
out_of_range = refl

served :
    (set_battle_server (set_rule battle new_rule) (10 ∷ 0 ∷ 0 ∷ 1 ∷ []) 8210).server_port ≡ 8210
unfolding set_battle_server set_rule
served = refl

built : add_all (new_battle "emu" 2 7) players ≡ battle
unfolding add
built = refl

get_user_by_pos-get_position_example :
    (v : User) × (get_user_by_pos battle (get_position battle "B") ≡ some v) × (v.user_id ≡ "B")
get_user_by_pos-get_position_example =
    get_user_by_pos-get_position battle "B" (omega arith) (inr (inl refl))

add-sides_example :
    ((add_all (new_battle "emu" 2 7) players).users ≡ players)
    × ((add_all (new_battle "emu" 2 7) players).aeug_ids ≡ ids_of 1 players)
    × ((add_all (new_battle "emu" 2 7) players).titans_ids ≡ ids_of 2 players)
    × (num_of_entry_users (add_all (new_battle "emu" 2 7) players)
        ≡ (length (ids_of 1 players) + length (ids_of 2 players)) % 65536)
add-sides_example = add-sides "emu" 2 7 players
