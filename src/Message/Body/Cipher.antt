-- ===== src/Message/Body/Cipher.antt =====
-- The encrypted strings of a body: what the console writes, and that it is read back.
use Prim.Native.Nat.{bit_xor}
use zdxsv.Prelude.{
  ℕ, ◌/◌, suc, ◌+◌, ◌-◌, ◌%◌, ◌≤◌, ◌<◌, ◌≡◌, refl, ap, ◌∙◌, List, [], ◌∷◌, ◌++◌, false, leb, ltb,
  length, get_or, set, arith, append_assoc, length-append,
}
use zdxsv.Prelude.Xor.{bit_xor_twice}
use zdxsv.Prelude.Bytes.{be16, from16, from16-be16}
use zdxsv.Prelude.{take_left, drop_left, ==_refl}
use zdxsv.Message.Body.{key, decrypt, read16, read_encrypted_string, trim}

-- The console's side: each byte crossed with the key of its place.
abbrev pub encrypt : ℕ → ℕ → List ℕ → List ℕ
encrypt p j [] = []
encrypt p j (x ∷ xs) = bit_xor x (key p j) ∷ encrypt p (suc j) xs

abbrev pub checksum : ℕ → List ℕ → ℕ
checksum sum [] = sum
checksum sum (x ∷ xs) = checksum ((sum + x) % 65536) xs

-- The size counts the bytes and the checksum.
abbrev pub encrypted_field : ℕ → List ℕ → List ℕ
encrypted_field seq plain =
    be16 (length plain + 2) ++ be16 (checksum 0 plain) ++ encrypt (seq % 256) 0 plain

length-encrypt : (p j : ℕ) (xs : List ℕ) → length (encrypt p j xs) ≡ length xs
length-encrypt p j [] = refl
length-encrypt p j (x ∷ xs) = ap suc (length-encrypt p (suc j) xs)

get_or_behind : (done rest : List ℕ) (c : ℕ) → get_or (done ++ c ∷ rest) (length done) 0 ≡ c
get_or_behind [] rest c = refl
get_or_behind (d ∷ ds) rest c = get_or_behind ds rest c

set_behind :
    (done rest : List ℕ) (c y : ℕ)
    → set (done ++ c ∷ rest) (length done) y ≡ (done ++ y ∷ []) ++ rest
set_behind [] rest c y = refl
set_behind (d ∷ ds) rest c y = ap (◌∷◌ d) (set_behind ds rest c y)

checksum_small : (sum : ℕ) (xs : List ℕ) → sum < 65536 → checksum sum xs < 65536
checksum_small sum [] h = h
checksum_small sum (x ∷ xs) h = checksum_small ((sum + x) % 65536) xs (omega arith)

decrypt_step :
    (p n j : ℕ) (buf : List ℕ) (sum x : ℕ)
    → j % 256 ≡ j
    → bit_xor (get_or buf j 0) (key p j) ≡ x
    → decrypt p (suc n) j buf sum ≡ decrypt p n (suc j) (set buf j x) ((sum + x) % 65536)
unfolding decrypt
decrypt_step p n j buf sum x place e =
    ap
      (λ i.
        decrypt p n (suc j) (set buf i (bit_xor (get_or buf j 0) (key p i)))
          ((sum + bit_xor (get_or buf j 0) (key p i)) % 65536))
      place
    ∙ ap (λ y. decrypt p n (suc j) (set buf j y) ((sum + y) % 65536)) e

decrypt-encrypt :
    (p : ℕ) (plain done : List ℕ) (sum : ℕ)
    → length done + length plain ≤ 256
    → decrypt p (length plain) (length done) (done ++ encrypt p (length done) plain) sum
      ≡ (done ++ plain, checksum sum plain)
unfolding decrypt
decrypt-encrypt p [] done sum h = refl
decrypt-encrypt p (x ∷ xs) done sum h =
    let k = key p (length done) in
    let rest = encrypt p (suc (length done)) xs in
    let next : suc (length done) ≡ length (done ++ x ∷ []) =
      omega (arith, length-append done (x ∷ [])) in
    decrypt_step p (length xs) (length done) (done ++ bit_xor x k ∷ rest) sum x (omega arith)
      (ap (λ c. bit_xor c k) (get_or_behind done rest (bit_xor x k)) ∙ bit_xor_twice x k)
    ∙ ap (λ b. decrypt p (length xs) (suc (length done)) b ((sum + x) % 65536))
        (set_behind done rest (bit_xor x k) x)
    ∙ ap (λ n. decrypt p (length xs) n ((done ++ x ∷ []) ++ encrypt p n xs) ((sum + x) % 65536))
        next
    ∙ decrypt-encrypt p xs (done ++ x ∷ []) ((sum + x) % 65536)
        (omega (arith, length-append done (x ∷ [])))
    ∙ ap (λ l. (l, checksum ((sum + x) % 65536) xs)) (append_assoc done (x ∷ []) xs)

-- For every decoder: a string of 1 to 256 bytes, encrypted by the console under the number of the
-- message, is read back as the decoder's result trimmed of zero bytes, and the bytes behind it are
-- left.
pub read_encrypted_string-encrypt :
    (decode : List ℕ → List ℕ) (seq : ℕ) (plain rest : List ℕ)
    → 0 < length plain
    → length plain ≤ 256
    → read_encrypted_string decode seq (encrypted_field seq plain ++ rest)
      ≡ (trim (decode plain), rest)
unfolding read_encrypted_string read16
read_encrypted_string-encrypt decode seq plain rest low high =
    let p : ℕ = seq % 256 in
    let cipher : List ℕ = encrypt p 0 plain in
    let size : from16 ((length plain + 2) / 256 % 256) ((length plain + 2) % 256)
        ≡ length plain + 2 =
      from16-be16 (length plain + 2) (omega arith) in
    let sum : from16 (checksum 0 plain / 256 % 256) (checksum 0 plain % 256) ≡ checksum 0 plain =
      from16-be16 (checksum 0 plain) (checksum_small 0 plain (omega arith)) in
    let long : leb (length plain + 2) 2 ≡ false = ground arith in
    let body : length plain + 2 - 2 ≡ length cipher = omega (arith, length-encrypt p 0 plain) in
    let enough : ltb (length (cipher ++ rest)) (length cipher) ≡ false =
      ground (arith, length-append cipher rest) in
    let plain' : decrypt p (length cipher) 0 cipher 0 ≡ (plain, checksum 0 plain) =
      ap (λ n. decrypt p n 0 cipher 0) (length-encrypt p 0 plain)
      ∙ decrypt-encrypt p plain [] 0 (omega arith) in
    rw
      (
        size,
        long,
        sum,
        body,
        enough,
        take_left cipher rest,
        drop_left cipher rest,
        plain',
        ==_refl (checksum 0 plain),
      )
      refl
