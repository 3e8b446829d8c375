-- ===== src/App/Start.antt =====
-- pkg/lobby/app_core.go: how a battle starts, from a room or from a lobby's queue.
use zdxsv.Prelude.{
  ℕ, ◌+◌, ◌-◌, ◌*◌, ◌^◌, String, Bool, true, false, not, ◌&&◌, ◌||◌, List, [], ◌∷◌, Option, none,
  some, ◌==◌, if◌then◌else◌, leb, ltb, str_eq, find,
}
use zdxsv.Model.User.{User, Heap, entry_none}
use zdxsv.Model.Rule.{Rule}
use zdxsv.Model.Room.{can_battle_start, start_battle_users}
use zdxsv.Model.Lobby.{
  entry, get_entry_user_count, start_battle_users as start_lobby_users,
  can_battle_start as can_lobby_start,
}
use zdxsv.Model.Battle.{Battle, new_battle, add, set_battle_server}
use zdxsv.Battle.Rpc.{User as BattleUser, BattleRpc, notify_battle_users}
use zdxsv.App.{
  battle_start, remove_room, chat_message, lobby_entry_user_count, LobbyRef, RoomRef, AppPeer, App,
  put_at, lobby_at, set_lobby, room_at, set_peer, set_side, send, send_all, online, ids_of,
}
use zdxsv.App.Leaving.{not_in_room, user_ids}

-- What a start reads from outside: the clock, the new battle's code and session, whether the battle
-- server answers, its public address where it can be parsed, and whether a record can be saved.
pub record Outside : Type 0 where
  pub now : ℕ
  pub code : String
  pub session : ℕ
  pub answers : Bool
  pub public_addr : Option (List ℕ × ℕ)
  pub saves : String → Bool

abbrev pub seconds : ℕ → ℕ
seconds n = n * 10 ^ 9

-- `peer.Battle = battle`, with the new battle's pointer.
abbrev pub give_battle : App → ℕ → App
give_battle a q = set_peer a q (record (a.peers q) { battle = some a.next_battle })

-- The new battle gets its place in the store.
abbrev pub keep : App → Battle → App
keep a b = record a {
  battle_store = put_at a.battle_store a.next_battle b;
  next_battle = a.next_battle + 1;
}

abbrev pub add_test_peer : App → Option ℕ → App
add_test_peer a none = a
add_test_peer a (some q) = send (give_battle a q) q (battle_start ∷ [])

abbrev pub test_battle : Outside → String → ℕ → String → Battle
test_battle o platform lobby id = record (new_battle platform lobby o.session) {
  test_battle = true;
  udp_users = λ k. str_eq k id;
  p2p_map = λ k. if str_eq k id then some (λ j. false) else none;
  start_time = o.now;
  battle_code = o.code;
}

abbrev pub start_test : Outside → App → String → ℕ → ℕ → Option ℕ → App × String × Bool
start_test o a platform lobby u none = (a, "ユーザーエラー", false)
start_test o a platform lobby u (some q) =
    if leb (o.now - (a.peers q).proxy_reg_time) (seconds 20)
    then (
      keep (add_test_peer a (some q))
          (add (test_battle o platform lobby (a.heap u).user_id) (a.heap u)),
      "接続テスト対戦開始",
      true,
    )
    else (a, "UDPプロキシが登録されていません", false)

unfoldable pub start_test_battle : Outside → App → String → ℕ → List ℕ → App × String × Bool
start_test_battle o a platform lobby (u ∷ []) =
    start_test o a platform lobby u (find a.users (a.heap u).user_id)
start_test_battle o a platform lobby _ = (a, "ユーザー数エラー", false)

abbrev is_there : Option ℕ → Bool
is_there none = false
is_there (some q) = true

abbrev pub all_online : App → List ℕ → Bool
all_online a [] = true
all_online a (u ∷ us) = is_there (find a.users (a.heap u).user_id) && all_online a us

-- The other users that the peer has reached over its proxy. `i` is its index, `j` that of the first one.
abbrev reached : Heap → AppPeer → ℕ → ℕ → List ℕ → String → Bool
reached h q i j [] id = false
reached h q i j (u ∷ us) id =
    (not (i == j) && str_eq (h u).user_id id && q.proxy_p2p_connected id)
    || reached h q i (j + 1) us id

abbrev pub with_proxy : Outside → App → Battle → List ℕ → ℕ → ℕ → App × Battle
with_proxy o a b users i q = (
  set_peer a q (record (a.peers q) { proxy_use_time = o.now }),
  record b {
    udp_users = λ k. str_eq k (a.heap q).user_id || b.udp_users k;
    p2p_map = λ k.
        if str_eq k (a.heap q).user_id
        then some (reached a.heap (a.peers q) i 0 users)
        else b.p2p_map k;
  },
)

-- The loop that settles who plays over UDP and over P2P. It runs after all users have been found.
abbrev pub settle_peer : Outside → App → Battle → List ℕ → ℕ → Option ℕ → App × Battle
settle_peer o a b users i none = (a, b)
settle_peer o a b users i (some q) =
    if ltb (o.now - (a.peers q).proxy_reg_time) (seconds 20)
    then with_proxy o a b users i q
    else (a, b)

abbrev pub settle : Outside → App → Battle → List ℕ → ℕ → List ℕ → App × Battle
settle o a b users i [] = (a, b)
settle o a b users i (u ∷ us) =
    let step = settle_peer o a b users i (find a.users (a.heap u).user_id) in
    settle o step.0 step.1 users (i + 1) us

abbrev or_empty : Option (String → Bool) → String → Bool
or_empty none id = false
or_empty (some f) id = f id

abbrev pub battle_user : Battle → User → BattleUser
battle_user b u = record {
  user_id = u.user_id;
  session_id = u.session_id;
  name = u.name;
  team = u.team;
  entry = u.entry;
  p2p_map = or_empty (b.p2p_map u.user_id);
}

abbrev pub battle_users : Heap → Battle → List ℕ → List BattleUser
battle_users h b [] = []
battle_users h b (u ∷ us) = battle_user b (h u) ∷ battle_users h b us

-- `battlePlatformInfo` of pkg/lobby/msg_battle.go: the address is the server's, never the client's.
abbrev pub battle_platform_info : AppPeer → String → String
battle_platform_info q k = if str_eq k "tcp_ip" then q.tcp_ip else q.platform_info k

-- The loop that adds the users; it stops where a record cannot be saved. The battle is kept either way,
-- since the peers have it.
abbrev pub add_peer : Outside → App → Battle → ℕ → Option ℕ → Bool × App × Battle
add_peer o a b u none = (false, a, b)
add_peer o a b u (some q) = (
  o.saves (a.heap u).user_id,
  give_battle a q,
  record (add b (a.heap u)) {
    platform_info = λ k.
        if str_eq k (a.heap u).user_id
        then some (battle_platform_info (a.peers q))
        else b.platform_info k;
  },
)

abbrev pub add_users : Outside → App → Battle → List ℕ → Bool × App × Battle
add_users o a b [] = (true, a, b)
add_users o a b (u ∷ us) =
    let step = add_peer o a b u (find a.users (a.heap u).user_id) in
    let rest = add_users o step.1 step.2 us in if step.0 then rest else step

abbrev pub announce : Outside → App → Battle → List ℕ → List ℕ × ℕ → Bool × App
announce o a b users addr =
    let made = record (set_battle_server b addr.0 addr.1) {
      start_time = o.now;
      battle_code = o.code;
    } in
    let (ok, c, d) = add_users o a made users in
    let kept = keep c d in
    if ok
    then (true, send_all kept (online kept (ids_of kept.heap users)) (battle_start ∷ []))
    else (false, kept)

abbrev pub with_addr : Outside → App → Battle → List ℕ → Option (List ℕ × ℕ) → Bool × App
with_addr o a b users none = (false, a)
with_addr o a b users (some addr) = announce o a b users addr

abbrev pub ask : Outside → App → Battle → List ℕ → BattleRpc → Bool × App
ask o a b users server =
    if o.answers
    then (let c = record a {
      battle_server = some (notify_battle_users server (battle_users a.heap b users));
    } in
        with_addr o c b users o.public_addr)
    else (false, a)

abbrev pub with_rule : Battle → Option Rule → Battle
with_rule b none = b
with_rule b (some rule) = record b { rule = rule }

abbrev pub start_on :
    Outside → App → String → ℕ → List ℕ → Option Rule → Option BattleRpc → Bool × App
start_on o a platform lobby users rule none = (false, a)
start_on o a platform lobby users rule (some server) =
    if all_online a users
    then (let (b, battle) =
          settle o a (with_rule (new_battle platform lobby o.session) rule) users 0 users in
        ask o b battle users server)
    else (false, a)

unfoldable pub start_battle : Outside → App → String → ℕ → List ℕ → Option Rule → Bool × App
start_battle o a platform lobby users rule = start_on o a platform lobby users rule a.battle_server

abbrev pub clear_sides : App → List ℕ → App
clear_sides a [] = a
clear_sides a (u ∷ us) = clear_sides (set_side a u entry_none) us

abbrev pub if_started : Bool × App → (App → App) → App
if_started (true, a) f = f a
if_started (false, a) f = a

-- `rule` is what the configuration sets, if it sets anything.
abbrev pub start_lobby : Outside → App → LobbyRef → ℕ → ℕ → Option Rule → App
start_lobby o a l p side rule =
    let users = start_lobby_users a.heap (lobby_at a l) in
    if (lobby_at a l).id == 1 && not (side == entry_none)
    then (let (b, message, ok) = start_test_battle o a (lobby_at a l).platform 1 users in
        if_started (ok, send b p (chat_message "SERVER" ">" message ∷ []))
          (λ c. clear_sides c users))
    else if can_lobby_start a.heap (lobby_at a l)
    then if_started (start_battle o a (lobby_at a l).platform (lobby_at a l).id users rule)
        (λ c. clear_sides c users)
    else a

abbrev pub enter_queue : App → LobbyRef → ℕ → ℕ → App
enter_queue a l p side =
    let (h, v) = entry a.heap (lobby_at a l) p side in set_lobby (record a { heap = h }) l v

abbrev pub tell_counts : App → LobbyRef → App
tell_counts a l =
    let (aeug, titans) = get_entry_user_count a.heap (lobby_at a l) in
    send_all a (not_in_room a (online a (user_ids a.heap (lobby_at a l).users)))
      (lobby_entry_user_count (lobby_at a l).id aeug titans ∷ [])

unfoldable pub on_entry_lobby_battle : Outside → App → ℕ → ℕ → Option Rule → App
on_entry_lobby_battle o a p side rule = elim (a.peers p).lobby [
  | none ↦ a
  | some l ↦ tell_counts (start_lobby o (enter_queue a l p side) l p side rule) l
]

abbrev pub start_room : Outside → App → ℕ → RoomRef → App
start_room o a p r =
    let (active, inactive) = start_battle_users a.heap (room_at a r) in
    if_started
      (start_battle o a (a.peers p).platform (room_at a r).lobby_id active
        (some (room_at a r).rule))
      (λ b. send_all b (online b (ids_of b.heap inactive)) (remove_room ∷ []))

-- The room's rule is copied into the battle; in the source both have a pointer to it.
unfoldable pub on_notice_room_battle_start : Outside → App → ℕ → App
on_notice_room_battle_start o a p = elim (a.peers p).room [
  | none ↦ a
  | some r ↦ if can_battle_start a.heap (room_at a r) then start_room o a p r else a
]
