-- ===== src/Model/User.antt =====
-- pkg/lobby/model/user.go. Rooms and lobbies hold pointers to users, and share them: a pointer is
-- a number, and the heap gives the user that it points to.
use zdxsv.Prelude.{ℕ, ◌==◌, String, if◌then◌else◌}

abbrev pub entry_none : ℕ
entry_none = 0

abbrev pub entry_aeug : ℕ
entry_aeug = 1

abbrev pub entry_titans : ℕ
entry_titans = 2

-- The fields of `db.User` and `User` that the lobby reads; `sync` is the emulator's fingerprint. The
-- pointers to room, lobby and battle are those of a peer.
pub record User : Type 0 where
  pub user_id : String
  pub session_id : String
  pub name : String
  pub team : String
  pub battle_count : ℕ
  pub win_count : ℕ
  pub lose_count : ℕ
  pub entry : ℕ
  pub bin : String
  pub sync : String

-- The zero value.
abbrev pub zero_user : User
zero_user = record {
  user_id = "";
  session_id = "";
  name = "";
  team = "";
  battle_count = 0;
  win_count = 0;
  lose_count = 0;
  entry = 0;
  bin = "";
  sync = "";
}

abbrev pub Heap : Type 0
Heap = ℕ → User

-- `u.Entry = side`
unfoldable pub set_entry : Heap → ℕ → ℕ → Heap
set_entry h u side p = if p == u then record (h p) { entry = side } else h p
