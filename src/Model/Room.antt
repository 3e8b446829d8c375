-- ===== src/Model/Room.antt =====
-- pkg/lobby/model/room.go: a room, its members in the order of entry, and its state.
pub mod Status
pub mod Start
mod Tests
use zdxsv.Prelude.{
  ℕ, zero, suc, ◌+◌, ◌*◌, ◌%◌, ◌^◌, String, str_eq, Bool, true, false, ◌&&◌, List, [], ◌∷◌, ◌++◌,
  Option, none, some, ◌==◌, if◌then◌else◌, ltb, leb, length,
}
use zdxsv.Model.Rule.{Rule, new_rule}
use zdxsv.Model.User.{User, Heap, set_entry, entry_aeug, entry_titans}

abbrev pub state_empty : ℕ
state_empty = 1

abbrev pub state_recruit : ℕ
state_recruit = 3

abbrev pub state_full : ℕ
state_full = 4

-- `deadline` counts nanoseconds.
pub record Room : Type 0 where
  pub id : ℕ
  pub lobby_id : ℕ
  pub name : String
  pub max_player : ℕ
  pub password : String
  pub owner : String
  pub deadline : ℕ
  pub users : List ℕ
  pub status : ℕ
  pub rule : Rule

unfoldable pub new_room : ℕ → ℕ → Room
new_room lobby_id room_id = record {
  id = room_id;
  lobby_id = lobby_id;
  name = "(空き)";
  max_player = 0;
  password = "";
  owner = "";
  deadline = 0;
  users = [];
  status = state_empty;
  rule = new_rule;
}

-- The test that ends `Enter` and `Exit`.
unfoldable pub set_status : Room → Room
set_status r =
    if length r.users == r.max_player
    then record r { status = state_full }
    else record r { status = state_recruit }

abbrev thirty_minutes : ℕ
thirty_minutes = 30 * 60 * 10 ^ 9

-- The first one in opens the room; `now` is the time of the call.
unfoldable pub open_room : Heap → Room → ℕ → ℕ → Room
open_room h r u now =
    if length r.users == 0
    then record r {
      owner = (h u).user_id;
      deadline = now + thirty_minutes;
      max_player = r.rule.player_count;
    }
    else r

unfoldable pub enter : Heap → Room → ℕ → ℕ → Room
enter h r u now =
    let opened = open_room h r u now in
    set_status (record opened { users = opened.users ++ u ∷ [] })

-- The loop of `Exit`: the first member with that id goes.
unfoldable pub remove_user : Heap → String → List ℕ → List ℕ
remove_user h id [] = []
remove_user h id (u ∷ us) = if str_eq (h u).user_id id then us else u ∷ remove_user h id us

unfoldable pub remove : Room → Room
remove r = new_room r.lobby_id r.id

unfoldable pub exit : Heap → Room → String → Room
exit h r id =
    let left = set_status (record r { users = remove_user h id r.users }) in
    if length left.users == 0 then remove left else left

unfoldable pub entry : Heap → Room → ℕ → ℕ → Heap
entry h r u side = set_entry h u side

abbrev pub u16 : ℕ
u16 = 65536

-- The loop of `GetEntryUserCount` from the counts so far.
unfoldable pub count_entries : Heap → List ℕ → ℕ → ℕ → ℕ × ℕ
count_entries h [] a b = (a, b)
count_entries h (u ∷ us) a b =
    count_entries h us (if (h u).entry == entry_aeug then (a + 1) % u16 else a)
      (if (h u).entry == entry_titans then (b + 1) % u16 else b)

unfoldable pub get_entry_user_count : Heap → Room → ℕ × ℕ
unfolding count_entries
get_entry_user_count h r = count_entries h r.users 0 0

unfoldable pub can_battle_start : Heap → Room → Bool
can_battle_start h r =
    let (a, b) = get_entry_user_count h r in ltb 0 a && ltb 0 b && leb a 2 && leb b 2

-- One round of the loop of `StartBattleUsers`: whether the user is active, and the new counts.
unfoldable pub start_user : Heap → ℕ → ℕ → ℕ → Bool × ℕ × ℕ
start_user h u a b =
    if (h u).entry == entry_aeug
    then (ltb a 2, (a + 1) % u16, b)
    else if (h u).entry == entry_titans
    then (ltb b 2, a, (b + 1) % u16)
    else (false, a, b)

unfoldable pub start_users : Heap → List ℕ → ℕ → ℕ → List ℕ × List ℕ
start_users h [] a b = ([], [])
start_users h (u ∷ us) a b =
    let (now, a', b') = start_user h u a b in
    let (active, inactive) = start_users h us a' b' in
    if now then (u ∷ active, inactive) else (active, u ∷ inactive)

unfoldable pub start_battle_users : Heap → Room → List ℕ × List ℕ
unfolding start_users start_user
start_battle_users h r = start_users h r.users 0 0
