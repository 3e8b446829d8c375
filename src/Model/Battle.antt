-- ===== src/Model/Battle.antt =====
-- pkg/lobby/model/battle.go: a battle and the copies of its users.
pub mod Places
mod Tests
use zdxsv.Prelude.{
  ℕ, zero, suc, ◌+◌, ◌-◌, ◌%◌, String, List, [], ◌∷◌, ◌++◌, Option, none, some, Bool, true, false,
  ◌||◌, if◌then◌else◌, ltb, ◌==◌, length, get_elem?, str_eq,
}
use zdxsv.Model.Rule.{Rule, new_rule}
use zdxsv.Model.User.{User, entry_aeug, entry_titans}

-- The users are copies, not pointers. A set of ids is a test, and the empty address is a nil one.
pub record Battle : Type 0 where
  pub battle_code : String
  pub server_ip : List ℕ
  pub server_port : ℕ
  pub users : List User
  pub aeug_ids : List String
  pub titans_ids : List String
  pub udp_users : String → Bool
  pub p2p_map : String → Option (String → Bool)
  pub rule : Rule
  pub lobby_id : ℕ
  pub platform : String
  pub start_time : ℕ
  pub test_battle : Bool
  pub ggpo_session : ℕ
  pub platform_info : String → Option (String → String)

-- The random session id is an argument.
abbrev pub new_battle : String → ℕ → ℕ → Battle
new_battle platform lobby_id session = record {
  battle_code = "";
  server_ip = [];
  server_port = 0;
  users = [];
  aeug_ids = [];
  titans_ids = [];
  udp_users = λ id. false;
  p2p_map = λ id. none;
  rule = new_rule;
  lobby_id = lobby_id;
  platform = platform;
  start_time = 0;
  test_battle = false;
  ggpo_session = session;
  platform_info = λ id. none;
}

unfoldable pub set_rule : Battle → Rule → Battle
set_rule b rule = record b { rule = rule }

-- The copy's pointers to its battle, lobby and room are cleared; this model's users have none.
unfoldable pub add : Battle → User → Battle
add b u =
    if u.entry == entry_aeug
    then record b { users = b.users ++ u ∷ []; aeug_ids = b.aeug_ids ++ u.user_id ∷ [] }
    else if u.entry == entry_titans
    then record b { users = b.users ++ u ∷ []; titans_ids = b.titans_ids ++ u.user_id ∷ [] }
    else record b { users = b.users ++ u ∷ [] }

unfoldable pub num_of_entry_users : Battle → ℕ
num_of_entry_users b = (length b.aeug_ids + length b.titans_ids) % 65536

unfoldable pub set_battle_server : Battle → List ℕ → ℕ → Battle
set_battle_server b ip port = record b { server_ip = ip; server_port = port }

-- The loop from index `i` on; the place is a byte.
abbrev pub position_from : ℕ → String → List User → ℕ
position_from i user_id [] = 0
position_from i user_id (u ∷ us) =
    let rest = position_from (suc i) user_id us in
    if str_eq user_id u.user_id then (i + 1) % 256 else rest

unfoldable pub get_position : Battle → String → ℕ
get_position b user_id = position_from 0 user_id b.users

unfoldable pub get_user_by_pos : Battle → ℕ → Option User
get_user_by_pos b pos =
    if pos == 0 || ltb (length b.users) pos then none else get_elem? b.users (pos - 1)
