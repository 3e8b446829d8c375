-- ===== src/App/SignIn.antt =====
-- pkg/lobby/app_core.go: signing in.
use zdxsv.Prelude.{
  ℕ, String, Bool, ◌&&◌, ◌||◌, not, List, [], ◌∷◌, Option, none, some, if◌then◌else◌, str_eq, find,
  store,
}
use zdxsv.Model.User.{User, entry_none}
use zdxsv.App.{user_id_list, login_ok, ask_battle_result, App, set_peer, set_user, set_side, send}
use zdxsv.App.Lobbies.{is_some}

-- The answers of the database to a peer, by its login key; `none` and `false` are errors.
pub record Accounts : Type 0 where
  pub register_user : Option User
  pub get_user_list : Option (List User)
  pub last_user : Option User
  pub get_user : String → Option User
  pub login_user : User → Bool
  pub update_user : User → Bool

abbrev list_entry : User → String × String × String
list_entry u = (u.user_id, u.name, u.team)

abbrev pub list_entries : List User → List (String × String × String)
list_entries [] = []
list_entries (u ∷ us) = list_entry u ∷ list_entries us

-- The user of the battle with that session.
abbrev pub user_of_session : String → List User → Option User
user_of_session session [] = none
user_of_session session (u ∷ us) =
    let rest = user_of_session session us in if str_eq u.session_id session then some u else rest

-- The copy in the battle has no room, lobby or battle.
abbrev pub take_user : App → ℕ → Option User → App
take_user a p none = a
take_user a p (some u) =
    set_peer (set_user a p u) p (record (a.peers p) { room = none; lobby = none; battle = none })

abbrev pub send_list : App → ℕ → Option (List User) → App
send_list a p none = a
send_list a p (some us) = send a p (user_id_list (list_entries us) ∷ [])

abbrev pub first_data : Accounts → App → ℕ → Option ℕ → App
first_data accounts a p none = send_list a p accounts.get_user_list
first_data accounts a p (some b) =
    let c =
      set_side (take_user a p (user_of_session (a.heap p).session_id (a.battle_store b).users)) p
        entry_none in
    send_list c p (some (c.heap p ∷ []))

unfoldable pub on_first_data : Accounts → App → ℕ → App
on_first_data accounts a p = first_data accounts a p (find a.battles (a.heap p).session_id)

abbrev pub zeros : String
zeros = "\0\0\0\0\0\0"

-- `p.User.User = *u` and what is set after it. `User` of the model has three more fields, which stay.
abbrev from_account : User → String → Option User → Option User
from_account old name none = none
from_account old name (some u) = some (record u {
  name = name;
  entry = old.entry;
  bin = old.bin;
  sync = old.sync;
  session_id = old.session_id;
})

abbrev last_account : User → Option User → Option User
last_account old none = none
last_account old (some u) =
    some
      (record u { entry = old.entry; bin = old.bin; sync = old.sync; session_id = old.session_id })

-- The user that the peer becomes, or `none` where the handler gives up.
abbrev pub chosen : Accounts → App → ℕ → String → String → Option User
chosen accounts a p user_id name =
    if str_eq user_id "******"
    then from_account (a.heap p) name accounts.register_user
    else if is_some (find a.battles (a.heap p).session_id)
    then some (a.heap p)
    else if str_eq name "" || str_eq user_id zeros
    then last_account (a.heap p) accounts.last_user
    else if not (str_eq user_id "") && not (str_eq name "")
    then from_account (a.heap p) name (accounts.get_user user_id)
    else none

abbrev pub log_in : Accounts → App → ℕ → App
log_in accounts a p =
    if accounts.login_user (a.heap p) && accounts.update_user (a.heap p)
    then send (record a { users = store (a.heap p).user_id p a.users }) p
        (ask_battle_result ∷ login_ok ∷ [])
    else a

abbrev pub decide_user : Accounts → App → ℕ → Option User → App
decide_user accounts a p none = a
decide_user accounts a p (some u) = log_in accounts (set_user a p u) p

unfoldable pub on_decide_user_id : Accounts → App → ℕ → String → String → App
on_decide_user_id accounts a p user_id name =
    decide_user accounts a p (chosen accounts a p user_id name)

-- The update of the record may fail, and the handlers go on.
unfoldable pub on_decide_team : App → ℕ → String → App
on_decide_team a p team = set_user a p (record (a.heap p) { team = team })

unfoldable pub on_set_user_binary : App → ℕ → String → App
on_set_user_binary a p bin = set_user a p (record (a.heap p) { bin = bin })
