-- ===== src/Battle/TcpPeer/Reads.antt =====
-- The messages that a console's reads become.
use zdxsv.Prelude.{
  ℕ, ◌+◌, ◌%◌, ◌≡◌, refl, sym, ap, ◌∙◌, String, List, [], ◌∷◌, ◌++◌, Option, some, true, false,
  length, append-nil, append_assoc, length-append, arith, inl, inr, ◌⊎◌, All, map,
}
use mathlib.Core.List.{head-eq_of_cons-eq, tail-eq_of_cons-eq}
use zdxsv.Proto.BattleBuffer.{BattleMessage, u32}
use zdxsv.Battle.Logic.{is_fin_data}
use zdxsv.Battle.TcpPeer.{
  TcpPeer, Event, goes_on, sends, framed, forward, add_message, after_read, take_frames, read,
  read_all,
}
use zdxsv.Battle.TcpPeer.Frames.{IsFrame, IsPart, flatten, take_frames_lem}

-- Bodies as messages with consecutive numbers, and the number after the last.
abbrev pub number : String → ℕ → List (List ℕ) → List BattleMessage × ℕ
number id s [] = ([], s)
number id s (b ∷ bs) =
    let (ms, t) = number id ((s + 1) % u32) bs in
    (record { user_id = id; seq = s; body = b } ∷ ms, t)

abbrev pub IsFull : List (List ℕ) → Type 0
IsFull [] = ⊥
IsFull (f ∷ fs) = Unit

-- What the reads of the frames `fs` give: the frames in groups, a message for each group.
abbrev pub Sends : TcpPeer → List (List ℕ) → Option (List BattleMessage × TcpPeer) → Type 0
Sends u fs r =
    (groups : List (List (List ℕ))) × (flatten groups ≡ fs)
    × All IsFull groups
    × (r
        ≡ some (
          (number u.user_id u.seq (map flatten groups)).0,
          record u { inbuf = []; seq = (number u.user_id u.seq (map flatten groups)).1 },
        ))

part_whole :
    (r : List ℕ) (fs : List (List ℕ))
    → IsPart r
    → All IsFrame fs
    → r ++ [] ≡ flatten fs
    → (fs ≡ []) × (r ≡ [])
part_whole r [] p a e = (refl, sym (append-nil r) ∙ e)
part_whole r ([] ∷ fs) p a e = absurd a.0
part_whole [] ((c ∷ cs) ∷ fs) p a e = absurd (grind (arith, e))
part_whole (b ∷ bs) ((c ∷ cs) ∷ fs) p a e =
    let same : b ≡ c = head-eq_of_cons-eq e in
    let long : length (bs ++ []) ≡ length (cs ++ flatten fs) = ap length (tail-eq_of_cons-eq e) in
    absurd (omega (arith, length-append bs [], length-append cs (flatten fs), a.0))

All-split : (xs ys : List (List ℕ)) → All IsFrame (xs ++ ys) → All IsFrame xs × All IsFrame ys
All-split [] ys a = (tt, a)
All-split (x ∷ xs) ys a = let (l, r) = All-split xs ys a.1 in ((a.0, l), r)

-- The message of the frames taken, and the peer behind it.
abbrev sent : TcpPeer → List ℕ → List ℕ → Event
sent u body rest =
    sends (record { user_id = u.user_id; seq = u.seq; body = body })
      (record u { inbuf = rest; seq = (u.seq + 1) % u32 })

forward_taken :
    (u : TcpPeer) (taken : List (List ℕ)) (rest : List ℕ)
    → All IsFrame taken
    → ((taken ≡ [])
        × (forward u (framed (flatten taken) rest) ≡ goes_on (record u { inbuf = rest })))
      ⊎ (IsFull taken × (forward u (framed (flatten taken) rest) ≡ sent u (flatten taken) rest))
forward_taken u [] rest a = inl (refl, refl)
forward_taken u ([] ∷ taken) rest a = absurd a.0
forward_taken u ((b ∷ bs) ∷ taken) rest a = inr (tt, refl)

read_room :
    (u : TcpPeer) (chunk : List ℕ)
    → u.in_room ≡ true
    → is_fin_data chunk ≡ false
    → read u chunk ≡ forward u (take_frames (length (u.inbuf ++ chunk)) [] (u.inbuf ++ chunk))
unfolding read
read_room u chunk r f = rw (f, r) refl

-- For a console in a room, a stream of frames, cut into reads at any places, none of them the fin data by
-- itself: every read is accepted; the messages sent are consecutively numbered from the peer's number,
-- each is one or more whole frames, and together they are the frames of the stream, in order; no bytes
-- are left.
pub read_all_lem :
    (chunks : List (List ℕ)) (u : TcpPeer) (fs : List (List ℕ))
    → u.in_room ≡ true
    → All IsFrame fs
    → IsPart u.inbuf
    → u.inbuf ++ flatten chunks ≡ flatten fs
    → All (λ c. is_fin_data c ≡ false) chunks
    → Sends u fs (read_all u chunks)
unfolding read_all
read_all_lem [] u fs r a p e f =
    let (none_left, empty) = part_whole u.inbuf fs p a e in
    ([], sym none_left, tt, ap (λ i. some ([], record u { inbuf = i })) empty)
read_all_lem (chunk ∷ chunks) u fs r a p e f =
    let bytes : List ℕ = u.inbuf ++ chunk in
    let (taken, to_come, rest, d, s, w, part) =
      take_frames_lem fs (length bytes) [] bytes (flatten chunks) a (omega arith)
        (append_assoc u.inbuf chunk (flatten chunks) ∙ e) in
    let (whole, later) = All-split taken to_come (rw s at a) in
    let step = read_room u chunk r f.0 ∙ ap (forward u) d in
    elim (forward_taken u taken rest whole) [
      | inl (nothing, on) ↦
          let (groups, g, l, t) =
            read_all_lem chunks (record u { inbuf = rest }) to_come r later part w f.1 in
          (
            groups,
            g ∙ sym (s ∙ ap (λ z. z ++ to_come) nothing),
            l,
            ap (λ v. after_read v (λ z. read_all z chunks)) (step ∙ on) ∙ t,
          )
      | inr (full, on) ↦
          let (groups, g, l, t) =
            read_all_lem chunks (record u { inbuf = rest; seq = (u.seq + 1) % u32 }) to_come r later
              part w f.1 in
          (
            taken ∷ groups,
            ap (λ z. taken ++ z) g ∙ sym s,
            (full, l),
            ap (λ v. after_read v (λ z. read_all z chunks)) (step ∙ on)
                ∙ ap
                    (add_message
                      (record { user_id = u.user_id; seq = u.seq; body = flatten taken }))
                    t,
          )
    ]
