-- ===== src/Message/Body/Tests.antt =====
-- Runs of the readers and writers of a body.
use zdxsv.Prelude.{ℕ, ◌≡◌, refl, List, [], ◌∷◌, ◌++◌, arith}
use zdxsv.Message.{Message}
use zdxsv.Message.Body.{
  read8, read16, read32, read_string, read_encrypted_string, decrypt, key, write8, write8_le,
  write16_le, write32_le, write, sync, reader, remaining,
}
use zdxsv.Message.Body.Fields.{
  Field, byte, short, word, text, read_fields, write_fields, read_fields-write_fields,
}
use zdxsv.Message.Body.Cipher.{encrypted_field, read_encrypted_string-encrypt}

abbrev plain_text : List ℕ → List ℕ
plain_text bs = bs

abbrev empty : Message
empty = record {
  direction = 0x18;
  category = 1;
  command = 2;
  body_size = 0;
  seq = 300;
  status = 0;
  body = [];
}

little : write32_le (write16_le (write8_le [] 1) 0x0203) 0x04050607 ≡ 1 ∷ 3 ∷ 2 ∷ 7 ∷ 6 ∷ 5 ∷ 4 ∷ []
unfolding write32_le write16_le write8_le write8
little = refl

synced :
    remaining (reader (sync empty (write [] (1 ∷ 2 ∷ [])))) ∷ (sync empty (1 ∷ [])).body_size ∷ []
    ≡ 2 ∷ 1 ∷ []
unfolding sync write reader remaining
synced = refl

short_reads : (read16 (7 ∷ [])).0 ∷ (read32 (1 ∷ 2 ∷ [])).0 ∷ (read8 []).0 ∷ [] ≡ 0 ∷ 0 ∷ 0 ∷ []
unfolding read8 read16 read32
short_reads = refl

-- A string longer than the bytes left is filled with zeros, which are trimmed.
cut_string : read_string (0 ∷ 5 ∷ 0 ∷ 65 ∷ 66 ∷ []) ≡ (65 ∷ 66 ∷ [], [])
unfolding read_string read16
cut_string = refl

wrong_sum : read_encrypted_string plain_text 300 (0 ∷ 3 ∷ 0 ∷ 9 ∷ 1 ∷ []) ≡ ([], [])
unfolding read_encrypted_string read16 decrypt key
wrong_sum = refl

abbrev fields : List Field
fields = byte 200 ∷ text (0 ∷ 65 ∷ 0 ∷ 66 ∷ 0 ∷ []) ∷ word 70000 ∷ short 258 ∷ []

read_fields-write_fields_example :
    read_fields fields (write_fields plain_text [] fields ++ 9 ∷ [])
    ≡ (byte 200 ∷ text (65 ∷ 0 ∷ 66 ∷ []) ∷ word 70000 ∷ short 258 ∷ [], 9 ∷ [])
read_fields-write_fields_example =
    read_fields-write_fields plain_text fields (9 ∷ [])
      (omega arith, (omega arith, (omega arith, (omega arith, tt))))

read_encrypted_string-encrypt_example :
    read_encrypted_string plain_text 300 (encrypted_field 300 (65 ∷ 66 ∷ 67 ∷ []) ++ 9 ∷ [])
    ≡ (65 ∷ 66 ∷ 67 ∷ [], 9 ∷ [])
read_encrypted_string-encrypt_example =
    read_encrypted_string-encrypt plain_text 300 (65 ∷ 66 ∷ 67 ∷ []) (9 ∷ []) (omega arith)
      (omega arith)
