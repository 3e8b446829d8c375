-- ===== src/Battle/TcpPeer/Tests.antt =====
-- Runs of the read loop.
use zdxsv.Prelude.{ℕ, ◌≡◌, refl, List, [], ◌∷◌}
use zdxsv.Battle.Logic.{is_fin_data}
use zdxsv.Battle.TcpPeer.{TcpPeer, new_tcp_peer, admit, asks, ended, read, read_all, take_frames}
use zdxsv.Battle.TcpPeer.Reads.{Sends, read_all_lem}

abbrev join_bytes : List ℕ
join_bytes =
    22 ∷ 0 ∷ 0 ∷ 0 ∷ 0 ∷ 0 ∷ 0 ∷ 0 ∷ 0 ∷ 0 ∷ 0 ∷ 0 ∷ 48 ∷ 49 ∷ 50 ∷ 51 ∷ 53 ∷ 48 ∷ 53 ∷ 54 ∷ 55 ∷ 57
    ∷ []

joining :
    read new_tcp_peer join_bytes
    ≡ asks (48 ∷ 49 ∷ 50 ∷ 51 ∷ 53 ∷ 48 ∷ 53 ∷ 54 ∷ 55 ∷ 57 ∷ []) new_tcp_peer
unfolding read is_fin_data
joining = refl

abbrev player : TcpPeer
player = admit new_tcp_peer "A"

zero_frame : read player (2 ∷ 1 ∷ 0 ∷ []) ≡ ended
unfolding read is_fin_data admit take_frames
zero_frame = refl

fin_data : read player (4 ∷ 240 ∷ 0 ∷ 0 ∷ []) ≡ ended
unfolding read is_fin_data admit take_frames
fin_data = refl

read_all_lem_example :
    Sends player
      ((3 ∷ 7 ∷ 8 ∷ []) ∷ (2 ∷ 9 ∷ []) ∷ [])
      (read_all player ((3 ∷ 7 ∷ []) ∷ (8 ∷ 2 ∷ []) ∷ (9 ∷ []) ∷ []))
unfolding admit is_fin_data
read_all_lem_example =
    read_all_lem ((3 ∷ 7 ∷ []) ∷ (8 ∷ 2 ∷ []) ∷ (9 ∷ []) ∷ []) player
      ((3 ∷ 7 ∷ 8 ∷ []) ∷ (2 ∷ 9 ∷ []) ∷ []) refl (refl, (refl, tt)) tt refl
      (refl, (refl, (refl, tt)))
