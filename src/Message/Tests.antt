-- ===== src/Message/Tests.antt =====
-- Runs of the codec and of the dispatch loop on small messages.
use zdxsv.Prelude.{ℕ, ◌≡◌, refl, [], ◌∷◌, ◌++◌, length, take, arith, replicate, length-replicate}
use zdxsv.Message.{
  Message, parsed, crash, serialize, deserialize, sized, next_seq, new_server_question,
  new_server_answer, new_server_notice, new_client_question, new_client_answer, new_client_notice,
  parse_body,
}
use zdxsv.Message.Codec.{deserialize-serialize, deserialize_wraps}
use zdxsv.Message.Dispatch.{dispatch, waiting, closed}
use zdxsv.Message.Dispatch.Order.{sent, dispatch-sent, dispatch_cut}
use zdxsv.Message.Dispatch.Ending.{IsEnded, dispatch-IsEnded}

abbrev hello : Message
hello = record {
  direction = 0x81;
  category = 0x02;
  command = 0x6101;
  body_size = 0;
  seq = 258;
  status = 0x00ffffff;
  body = 7 ∷ 8 ∷ 9 ∷ [];
}

hello_bytes :
    (serialize hello).0 ≡ 0x81 ∷ 2 ∷ 0x61 ∷ 1 ∷ 0 ∷ 3 ∷ 1 ∷ 2 ∷ 0 ∷ 255 ∷ 255 ∷ 255 ∷ 7 ∷ 8 ∷ 9 ∷ []
unfolding serialize sized
hello_bytes = refl

hello_read :
    deserialize (0x81 ∷ 2 ∷ 0x61 ∷ 1 ∷ 0 ∷ 1 ∷ 1 ∷ 2 ∷ 0 ∷ 255 ∷ 255 ∷ 255 ∷ 7 ∷ 8 ∷ [])
    ≡ parsed 13 (record hello { body_size = 1; body = 7 ∷ [] })
unfolding deserialize parse_body
hello_read = refl

answered :
    (new_server_answer hello).seq ∷ (new_client_answer hello).command ∷ [] ≡ 258 ∷ 0x6101 ∷ []
unfolding new_server_answer new_client_answer
answered = refl

questioned :
    (new_server_question 1 5).0.seq
      ∷ (new_server_notice 2 5).0.seq
      ∷ (new_client_question 65534 5).0.seq
      ∷ (new_client_notice 2147483647 5).0.seq
      ∷ []
    ≡ 2 ∷ 3 ∷ 0 ∷ 32768 ∷ []
unfolding new_server_question new_server_notice new_client_question new_client_notice next_seq
questioned = refl

deserialize-serialize_example :
    deserialize ((serialize hello).0 ++ 1 ∷ [])
    ≡ parsed (length (serialize hello).0) (serialize hello).1
deserialize-serialize_example =
    deserialize-serialize hello (1 ∷ [])
      (omega arith, omega arith, omega arith, omega arith, omega arith, omega arith)

abbrev large : Message
large = record hello { body = replicate 65524 0 }

deserialize_wraps_example : deserialize ((serialize large).0 ++ []) ≡ crash
deserialize_wraps_example =
    deserialize_wraps large [] (omega arith) (omega arith) (omega arith)
      (omega (arith, length-replicate {A = ℕ} 65524 0))
      (omega (arith, length-replicate {A = ℕ} 65524 0))

dispatch-sent_example :
    dispatch 3 (sent [] (hello ∷ hello ∷ []) ++ 1 ∷ [])
    ≡ waiting ((serialize hello).1 ∷ (serialize hello).1 ∷ []) (1 ∷ [])
dispatch-sent_example =
    dispatch-sent (hello ∷ hello ∷ []) (1 ∷ [])
      (
        (omega arith, omega arith, omega arith, omega arith, omega arith, omega arith),
        ((omega arith, omega arith, omega arith, omega arith, omega arith, omega arith), tt),
      )
      (omega arith)

dispatch_cut_example :
    dispatch 2 (sent [] (hello ∷ []) ++ take 13 (serialize hello).0)
    ≡ closed ((serialize hello).1 ∷ [])
unfolding serialize sized
dispatch_cut_example =
    dispatch_cut (hello ∷ []) hello 13
      ((omega arith, omega arith, omega arith, omega arith, omega arith, omega arith), tt)
      (omega arith, omega arith, omega arith, omega arith, omega arith, omega arith) (omega arith)
      (omega arith)

dispatch-IsEnded_example : IsEnded (dispatch 3 (1 ∷ 2 ∷ []))
dispatch-IsEnded_example = dispatch-IsEnded 3 (1 ∷ 2 ∷ []) (omega arith)
