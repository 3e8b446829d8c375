-- ===== src/App/Members/Starts.antt =====
-- The start of a battle leaves everybody where they are.
use zdxsv.Prelude.{
  ◌+◌, ◌-◌, ℕ, String, Bool, true, false, List, [], ◌∷◌, Option, none, some, ◌≡◌, refl, ◌∙◌, inl,
  inr, if◌then◌else◌, leb, ltb, find, Bool-cases,
}
use zdxsv.Model.Rule.{Rule}
use zdxsv.Model.Battle.{Battle, new_battle, set_battle_server}
use zdxsv.Battle.Rpc.{BattleRpc, notify_battle_users}
use zdxsv.App.{battle_start, App, online, ids_of}
use zdxsv.App.Start.{
  give_battle, Outside, seconds, keep, add_test_peer, start_test, start_test_battle, all_online,
  settle_peer, settle, battle_users, with_rule, add_peer, add_users, announce, with_addr, ask,
  start_on, start_battle,
}
use zdxsv.App.Members.{View, view}
use zdxsv.App.Members.Frames.{view-send, view-send_all, view-quiet}

view-add_test_peer : (a : App) (o : Option ℕ) → view (add_test_peer a o) ≡ view a
view-add_test_peer a none = refl
view-add_test_peer a (some q) =
    view-send (give_battle a q) q (battle_start ∷ [])
    ∙ view-quiet a q (record (a.peers q) { battle = some a.next_battle }) refl refl

view-start_test :
    (o : Outside) (a : App) (platform : String) (lobby u : ℕ) (q : Option ℕ)
    → view (start_test o a platform lobby u q).0 ≡ view a
view-start_test o a platform lobby u none = refl
view-start_test o a platform lobby u (some q) =
    elim (Bool-cases (leb (o.now - (a.peers q).proxy_reg_time) (seconds 20))) [
      | inl e ↦ rw e (view-add_test_peer a (some q))
      | inr e ↦ rw e refl
    ]

pub view-start_test_battle :
    (o : Outside) (a : App) (platform : String) (lobby : ℕ) (us : List ℕ)
    → view (start_test_battle o a platform lobby us).0 ≡ view a
unfolding start_test_battle
view-start_test_battle o a platform lobby [] = refl
view-start_test_battle o a platform lobby (u ∷ []) =
    view-start_test o a platform lobby u (find a.users (a.heap u).user_id)
view-start_test_battle o a platform lobby (u ∷ w ∷ us) = refl

view-settle_peer :
    (o : Outside) (a : App) (b : Battle) (us : List ℕ) (i : ℕ) (q : Option ℕ)
    → view (settle_peer o a b us i q).0 ≡ view a
view-settle_peer o a b us i none = refl
view-settle_peer o a b us i (some q) =
    elim (Bool-cases (ltb (o.now - (a.peers q).proxy_reg_time) (seconds 20))) [
      | inl e ↦ rw e (view-quiet a q (record (a.peers q) { proxy_use_time = o.now }) refl refl)
      | inr e ↦ rw e refl
    ]

view-settle :
    (o : Outside) (a : App) (b : Battle) (all : List ℕ) (i : ℕ) (us : List ℕ)
    → view (settle o a b all i us).0 ≡ view a
view-settle o a b all i [] = refl
view-settle o a b all i (u ∷ us) =
    let step = settle_peer o a b all i (find a.users (a.heap u).user_id) in
    view-settle o step.0 step.1 all (i + 1) us
    ∙ view-settle_peer o a b all i (find a.users (a.heap u).user_id)

view-add_peer :
    (o : Outside) (a : App) (b : Battle) (u : ℕ) (q : Option ℕ)
    → view (add_peer o a b u q).1 ≡ view a
view-add_peer o a b u none = refl
view-add_peer o a b u (some q) =
    view-quiet a q (record (a.peers q) { battle = some a.next_battle }) refl refl

view-if :
    (t : Bool) (x y : Bool × App × Battle) (v : View)
    → view x.1 ≡ v
    → view y.1 ≡ v
    → view (if t then x else y).1 ≡ v
view-if true x y v e f = e
view-if false x y v e f = f

view-add_users :
    (o : Outside) (a : App) (b : Battle) (us : List ℕ) → view (add_users o a b us).1 ≡ view a
view-add_users o a b [] = refl
view-add_users o a b (u ∷ us) =
    let step = add_peer o a b u (find a.users (a.heap u).user_id) in
    let one = view-add_peer o a b u (find a.users (a.heap u).user_id) in
    view-if step.0 (add_users o step.1 step.2 us) step (view a)
      (view-add_users o step.1 step.2 us ∙ one) one

view-announce :
    (o : Outside) (a : App) (b : Battle) (us : List ℕ) (addr : List ℕ × ℕ)
    → view (announce o a b us addr).1 ≡ view a
view-announce o a b us addr =
    let made = record (set_battle_server b addr.0 addr.1) {
      start_time = o.now;
      battle_code = o.code;
    } in
    let added = add_users o a made us in
    let kept = keep added.1 added.2 in
    elim (Bool-cases added.0) [
      | inl e ↦
          rw e
            (view-send_all kept (online kept (ids_of kept.heap us)) _ ∙ view-add_users o a made us)
      | inr e ↦ rw e (view-add_users o a made us)
    ]

view-with_addr :
    (o : Outside) (a : App) (b : Battle) (us : List ℕ) (addr : Option (List ℕ × ℕ))
    → view (with_addr o a b us addr).1 ≡ view a
view-with_addr o a b us none = refl
view-with_addr o a b us (some addr) = view-announce o a b us addr

view-ask :
    (o : Outside) (a : App) (b : Battle) (us : List ℕ) (server : BattleRpc)
    → view (ask o a b us server).1 ≡ view a
view-ask o a b us server = elim (Bool-cases o.answers) [
  | inl e ↦ rw e (
      view-with_addr o
        (record a { battle_server = some (notify_battle_users server (battle_users a.heap b us)) })
        b us o.public_addr)
  | inr e ↦ rw e refl
]

view-start_on :
    (o : Outside) (a : App) (platform : String) (lobby : ℕ) (us : List ℕ) (rule : Option Rule)
    (server : Option BattleRpc)
    → view (start_on o a platform lobby us rule server).1 ≡ view a
view-start_on o a platform lobby us rule none = refl
view-start_on o a platform lobby us rule (some server) = elim (Bool-cases (all_online a us)) [
  | inl e ↦
      let b = with_rule (new_battle platform lobby o.session) rule in
      let step = settle o a b us 0 us in
      rw e (view-ask o step.0 step.1 us server ∙ view-settle o a b us 0 us)
  | inr e ↦ rw e refl
]

pub view-start_battle :
    (o : Outside) (a : App) (platform : String) (lobby : ℕ) (us : List ℕ) (rule : Option Rule)
    → view (start_battle o a platform lobby us rule).1 ≡ view a
unfolding start_battle
view-start_battle o a platform lobby us rule =
    view-start_on o a platform lobby us rule a.battle_server
