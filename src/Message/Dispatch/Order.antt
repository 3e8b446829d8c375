-- ===== src/Message/Dispatch/Order.antt =====
-- The dispatch loop on the bytes of several messages.
use zdxsv.Prelude.{
  ℕ, suc, ◌+◌, ◌≤◌, ◌<◌, ◌≡◌, refl, ap, ◌∙◌, sym, List, [], ◌∷◌, ◌++◌, ltb, length, take, arith,
  length-append, length-take, map, true, false, All, append-nil, append_assoc,
}
use zdxsv.Message.{Message, header_size, sized, serialize}
use zdxsv.Prelude.{drop_left}
use zdxsv.Message.Codec.{IsEncodable, deserialize-serialize, deserialize-take}
use zdxsv.Message.Dispatch.{send_message, dispatch, on_message, Round, waiting, closed}

-- The output buffer after several calls.
abbrev pub sent : List ℕ → List Message → List ℕ
sent outbuf [] = outbuf
sent outbuf (m ∷ ms) = sent (send_message outbuf m) ms

abbrev bytes_of : List Message → List ℕ
bytes_of [] = []
bytes_of (m ∷ ms) = (serialize m).0 ++ bytes_of ms

sent-bytes_of : (out : List ℕ) (ms : List Message) → sent out ms ≡ out ++ bytes_of ms
unfolding send_message
sent-bytes_of out [] = sym (append-nil out)
sent-bytes_of out (m ∷ ms) =
    sent-bytes_of (out ++ (serialize m).0) ms ∙ append_assoc out (serialize m).0 (bytes_of ms)

length-serialize : (m : Message) → header_size ≤ length (serialize m).0
unfolding serialize sized
length-serialize m = omega arith

-- The messages before those of the rest of the round.
abbrev pub after : List Message → Round → Round
after [] r = r
after (m ∷ ms) r = on_message m (after ms r)

dispatch-serialize :
    (m : Message) (fuel : ℕ) (rest : List ℕ)
    → IsEncodable m
    → dispatch (suc fuel) ((serialize m).0 ++ rest)
      ≡ on_message (serialize m).1 (dispatch fuel rest)
unfolding dispatch
dispatch-serialize m fuel rest e =
    let long : ltb (length ((serialize m).0 ++ rest)) header_size ≡ false =
      ground (arith, length-append (serialize m).0 rest, length-serialize m) in
    rw (long, deserialize-serialize m rest e, drop_left (serialize m).0 rest) refl

dispatch-bytes_of :
    (ms : List Message) (fuel : ℕ) (rest : List ℕ)
    → All IsEncodable ms
    → dispatch (length ms + fuel) (bytes_of ms ++ rest)
      ≡ after (map (λ m. (serialize m).1) ms) (dispatch fuel rest)
dispatch-bytes_of [] fuel rest a = ap (λ n. dispatch n rest) (omega arith)
dispatch-bytes_of (m ∷ ms) fuel rest a =
    let count : suc (length ms) + fuel ≡ suc (length ms + fuel) = omega arith in
    rw (count, append_assoc (serialize m).0 (bytes_of ms) rest)
      (dispatch-serialize m (length ms + fuel) (bytes_of ms ++ rest) a.0
        ∙ ap (on_message (serialize m).1) (dispatch-bytes_of ms fuel rest a.1))

after-waiting :
    (ms : List Message) (inbuf : List ℕ) → after ms (waiting [] inbuf) ≡ waiting ms inbuf
after-waiting [] inbuf = refl
after-waiting (m ∷ ms) inbuf = ap (on_message m) (after-waiting ms inbuf)

after-closed : (ms : List Message) → after ms (closed []) ≡ closed ms
after-closed [] = refl
after-closed (m ∷ ms) = ap (on_message m) (after-closed ms)

dispatch_short : (inbuf : List ℕ) → length inbuf < header_size → dispatch 1 inbuf ≡ waiting [] inbuf
unfolding dispatch
dispatch_short inbuf h =
    let short : ltb (length inbuf) header_size ≡ true = ground arith in rw short refl

dispatch-take :
    (m : Message) (k : ℕ)
    → IsEncodable m
    → header_size ≤ k
    → k < length (serialize m).0
    → dispatch 1 (take k (serialize m).0) ≡ closed []
unfolding dispatch
dispatch-take m k e low high =
    let long : ltb (length (take k (serialize m).0)) header_size ≡ false =
      ground (arith, length-take k (serialize m).0) in
    rw (long, deserialize-take m k e high) refl

-- The messages given to `SendMessage`, each encodable, and then fewer bytes than a header: with a round
-- of fuel for each message and one more, the loop gives the peer every message, in order and with its
-- size set, and waits with the bytes left.
pub dispatch-sent :
    (ms : List Message) (rest : List ℕ)
    → All IsEncodable ms
    → length rest < header_size
    → dispatch (length ms + 1) (sent [] ms ++ rest) ≡ waiting (map (λ m. (serialize m).1) ms) rest
dispatch-sent ms rest a h =
    ap (λ b. dispatch (length ms + 1) (b ++ rest)) (sent-bytes_of [] ms)
    ∙ dispatch-bytes_of ms 1 rest a
    ∙ ap (after (map (λ m. (serialize m).1) ms)) (dispatch_short rest h)
    ∙ after-waiting _ rest

-- When behind those messages stands a header and not the whole of its message (`k` bytes of it), the
-- loop gives the peer the messages before it and closes the connection.
pub dispatch_cut :
    (ms : List Message) (m : Message) (k : ℕ)
    → All IsEncodable ms
    → IsEncodable m
    → header_size ≤ k
    → k < length (serialize m).0
    → dispatch (length ms + 1) (sent [] ms ++ take k (serialize m).0)
      ≡ closed (map (λ m. (serialize m).1) ms)
dispatch_cut ms m k a e low high =
    ap (λ b. dispatch (length ms + 1) (b ++ take k (serialize m).0)) (sent-bytes_of [] ms)
    ∙ dispatch-bytes_of ms 1 _ a
    ∙ ap (after (map (λ m. (serialize m).1) ms)) (dispatch-take m k e low high)
    ∙ after-closed _
