-- ===== src/Relay/Tests.antt =====
-- Runs of the relay with two players of one session.
use zdxsv.Prelude.{ℕ, ◌≡◌, refl, List, [], ◌∷◌, ◌++◌, Option, none, some, true, replicate}
use zdxsv.Prelude.Bytes.{le32, le16}
use zdxsv.Relay.Handling.{handle-IsSound, new_relay-IsSound, put_session-IsSound}
use zdxsv.Relay.{
  Addr, Relay, new_relay, new_session, session_token, handle, handle_ping, handle_ggpo, bind_peer,
}
use zdxsv.Relay.Members.{IsSound, Reaches, handle_ggpo-Reaches}

abbrev host : ℕ → Addr
host n = record { is4 = true; ip = n; port = 5000 }

abbrev ping : ℕ → List ℕ
ping peer = le32 0x594c4552 ++ 1 ∷ peer ∷ 0 ∷ 0 ∷ [] ++ le32 77 ++ le32 9 ++ le32 0 ++ replicate 8 0

abbrev game_packet : ℕ → List ℕ
game_packet to = le16 34046 ++ 0 ∷ 0 ∷ 0 ∷ 0 ∷ 0 ∷ 99 ∷ [] ++ le16 26315 ++ to ∷ 8 ∷ 55 ∷ []

abbrev registered : Relay
registered = (session_token new_relay 77 9 0).1

abbrev both : Relay
both = (handle (handle registered (ping 0) (host 1) 5).1 (ping 2) (host 2) 6).1

where_to : Option (Addr × List ℕ) → List ℕ
where_to none = []
where_to (some (a, out)) = a.ip ∷ out

forwarded_to :
    where_to (handle both (game_packet 2) (host 1) 7).0
    ≡ 2 ∷ le16 34046 ++ 0 ∷ 0 ∷ 0 ∷ 0 ∷ 0 ∷ 8 ∷ 0 ∷ 0 ∷ 0 ∷ 0 ∷ 55 ∷ []
unfolding where_to handle handle_ping handle_ggpo bind_peer session_token
forwarded_to = refl

stranger : where_to (handle both (game_packet 2) (host 3) 7).0 ≡ []
unfolding where_to handle handle_ping handle_ggpo bind_peer session_token
stranger = refl

to_itself : where_to (handle both (game_packet 2) (host 2) 7).0 ≡ []
unfolding where_to handle handle_ping handle_ggpo bind_peer session_token
to_itself = refl

registered-IsSound : IsSound registered
unfolding session_token
registered-IsSound = put_session-IsSound new_relay 0 (new_session 77 9 0) new_relay-IsSound refl

both-IsSound : IsSound both
both-IsSound =
    handle-IsSound (handle registered (ping 0) (host 1) 5).1 (ping 2) (host 2) 6
      (handle-IsSound registered (ping 0) (host 1) 5 registered-IsSound)

handle_ggpo-Reaches_example :
    Reaches both (game_packet 2) (host 1) (handle_ggpo both (game_packet 2) (host 1) 7).0
handle_ggpo-Reaches_example = handle_ggpo-Reaches both (game_packet 2) (host 1) 7 both-IsSound

handle-IsSound_example : IsSound (handle both (ping 0) (host 2) 8).1
handle-IsSound_example = handle-IsSound both (ping 0) (host 2) 8 both-IsSound
