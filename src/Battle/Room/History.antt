-- ===== src/Battle/Room/History.antt =====
-- A battle room through joins, leaves and changes of peers elsewhere, against a list of members.
use zdxsv.Prelude.{
  ℕ, suc, Bool, if◌then◌else◌, ◌≡◌, ◌≢◌, refl, ap, ◌∙◌, List, [], ◌∷◌, ◌++◌, length, In, arith,
}
use zdxsv.Prelude.{==_refl}
use zdxsv.Battle.Room.{Heap, Peer, update, Room, new_room, clear, join, leave, send_message}
use zdxsv.Battle.Room.Members.{
  members, without, elsewhere_than, members-set_place, Placed, IsAlone, Placed-unique,
  others-without, members-set, set-Placed, append-Placed, members-append, update-Placed,
}

-- The `Leave`s that have let go of the lock and have still to clear the room.
abbrev pub more_clears : Bool → ℕ → ℕ
more_clears empty n = if empty then suc n else n

-- The room as its clients see it, in the order of joining, and how many clears are on their way. A peer
-- joins that is not a member; a member leaves; a peer leaves that was a member when the room was cleared,
-- and takes with it whoever has its place now; a clear takes out everybody; peers outside the room change
-- freely. These are the sections of room.go under the lock, in any order.
pub data History (id : ℕ) : ℕ → List ℕ → Heap → Room → Type 0 where
  opened : (h : Heap) → History id 0 [] h (new_room id)
  joined :
      {n : ℕ} {ms : List ℕ} {h : Heap} {r : Room}
      → History id n ms h r
      → (p : ℕ) → ((q : ℕ) → In q ms → q ≢ p)
      → History id n (ms ++ p ∷ []) (join h r p).0 (join h r p).1
  left :
      {n : ℕ} {ms : List ℕ} {h : Heap} {r : Room}
      → History id n ms h r
      → (p : ℕ) → In p ms
      → History id (more_clears (leave h r p).0 n) (without p ms) h (leave h r p).1
  left_late :
      {n : ℕ} {ms : List ℕ} {h : Heap} {r : Room}
      → History id n ms h r
      → (p : ℕ) → ((q : ℕ) → In q ms → q ≢ p)
      → History id
          (more_clears (leave h r p).0 n)
          (elsewhere_than h (h p).position ms)
          h
          (leave h r p).1
  cleared :
      {n : ℕ} {ms : List ℕ} {h : Heap} {r : Room}
      → History id (suc n) ms h r
      → History id n [] h (clear r)
  changed :
      {n : ℕ} {ms : List ℕ} {h : Heap} {r : Room}
      → History id n ms h r
      → (p : ℕ) (v : Peer) → ((q : ℕ) → In q ms → q ≢ p)
      → History id n ms (update h p v) r

-- What the room holds, read as the list, and the places.
abbrev pub Refines : ℕ → List ℕ → Heap → Room → Type 0
Refines id ms h r = (r.id ≡ id) × (members r.peers ≡ ms) × Placed h id 0 r.peers

joined-Refines :
    (id : ℕ) (ms : List ℕ) (h : Heap) (r : Room) (p : ℕ)
    → Refines id ms h r
    → ((q : ℕ) → In q ms → q ≢ p)
    → Refines id (ms ++ p ∷ []) (join h r p).0 (join h r p).1
unfolding join
joined-Refines id ms h r p (i, s, w) n =
    let v : Peer = record (h p) { room_id = r.id; position = length r.peers } in
    let at : update h p v p ≡ v = rw (==_refl p) refl in
    (
      i,
      members-append r.peers p ∙ ap (λ l. l ++ p ∷ []) s,
      append-Placed (update h p v) id 0 r.peers p (update-Placed h id 0 r.peers p v w (rw s n))
          (ap (λ x. x.position) at ∙ omega arith) (ap (λ x. x.room_id) at ∙ i),
    )

alone :
    (id : ℕ) (h : Heap) (r : Room) (p : ℕ)
    → Placed h id 0 r.peers
    → In p (members r.peers)
    → IsAlone h p (members r.peers)
alone id h r p w m q n e = Placed-unique h id 0 r.peers p q w m n e

left-Refines :
    (id : ℕ) (ms : List ℕ) (h : Heap) (r : Room) (p : ℕ)
    → Refines id ms h r
    → In p ms
    → Refines id (without p ms) h (leave h r p).1
unfolding leave
left-Refines id ms h r p (i, s, w) m =
    let u = alone id h r p w (rw s m) in
    (
      i,
      members-set h id p 0 (h p).position r.peers w u (omega arith) ∙ ap (without p) s,
      set-Placed h id 0 (h p).position r.peers w,
    )

left_late-Refines :
    (id : ℕ) (ms : List ℕ) (h : Heap) (r : Room) (p : ℕ)
    → Refines id ms h r
    → Refines id (elsewhere_than h (h p).position ms) h (leave h r p).1
unfolding leave
left_late-Refines id ms h r p (i, s, w) = (
  i,
  members-set_place h id 0 (h p).position r.peers w
      ∙ ap (λ k. elsewhere_than h k (members r.peers)) (omega arith)
      ∙ ap (elsewhere_than h (h p).position) s,
  set-Placed h id 0 (h p).position r.peers w,
)

-- Along every history, with joins also between the two halves of a leave, the room's peers, less the nils,
-- are the list of members, and each member holds its place in the slice and the number of the room.
pub history-Refines :
    (id n : ℕ) (ms : List ℕ) (h : Heap) (r : Room) → History id n ms h r → Refines id ms h r
unfolding new_room clear
history-Refines id _ _ _ _ (opened h) = (refl, refl, tt)
history-Refines id _ _ _ _ (joined {n = n} {ms = ms} {h = h} {r = r} t p d) =
    joined-Refines id ms h r p (history-Refines id n ms h r t) d
history-Refines id _ _ _ _ (left {n = n} {ms = ms} {h = h} {r = r} t p m) =
    left-Refines id ms h r p (history-Refines id n ms h r t) m
history-Refines id _ _ _ _ (left_late {n = n} {ms = ms} {h = h} {r = r} t p d) =
    left_late-Refines id ms h r p (history-Refines id n ms h r t)
history-Refines id n _ _ _ (cleared {ms = ms} {h = h} {r = r} t) =
    ((history-Refines id (suc n) ms h r t).0, refl, tt)
history-Refines id _ _ _ _ (changed {n = n} {ms = ms} {h = h} {r = r} t p v d) =
    let (i, s, w) = history-Refines id n ms h r t in
    (i, s, update-Placed h id 0 r.peers p v w (rw s d))

-- Along every history, with joins also between the two halves of a leave, a message that a member sends
-- goes to the other members, each once, in the order of joining.
pub send_message-history :
    (id n : ℕ) (ms : List ℕ) (h : Heap) (r : Room) (p : ℕ)
    → History id n ms h r
    → In p ms
    → send_message h r p ≡ without p ms
unfolding send_message
send_message-history id n ms h r p t m =
    let (i, s, w) = history-Refines id n ms h r t in
    others-without h id p 0 r.peers w (alone id h r p w (rw s m)) ∙ ap (without p) s
