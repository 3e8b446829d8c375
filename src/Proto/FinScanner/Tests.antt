-- ===== src/Proto/FinScanner/Tests.antt =====
-- The scanner on concrete reads.
use mathlib.Core.List.{flatten}
use zdxsv.Prelude.{ℕ, ◌≡◌, refl, true, false, List, [], ◌∷◌, some, arith}
use zdxsv.Proto.FinScanner.{FinScanner, scan, scan_loop, take_frame, frame_size, is_fin_frame}
use zdxsv.Proto.FinScanner.Bytes.{read_bytes, next_byte}
use zdxsv.Proto.FinScanner.Stream.{scan_reads, scan_reads-read_bytes}

abbrev joined : FinScanner
joined = record { joined = 22; frame = []; lost = false }

-- A frame of three bytes and the fin frame, cut inside both.
abbrev reads : List (List ℕ)
reads = (3 ∷ 1 ∷ []) ∷ (2 ∷ 4 ∷ 0xf0 ∷ []) ∷ (0 ∷ 0 ∷ []) ∷ []

scan_reads-read_bytes_example :
    (u : FinScanner) × (scan_reads joined reads
      ≡ some ((read_bytes (some []) false (flatten reads)).1, u))
    × (some u.frame ≡ (read_bytes (some []) false (flatten reads)).0)
unfolding read_bytes next_byte flatten
scan_reads-read_bytes_example =
    scan_reads-read_bytes reads joined (omega arith) refl (omega arith) (λ e. cc)

finds_fin : (read_bytes (some []) false (flatten reads)).1 ≡ true
unfolding read_bytes next_byte flatten is_fin_frame
finds_fin = refl

scans_fin : scan joined (4 ∷ 0xf0 ∷ 0 ∷ 0 ∷ []) ≡ some (true, joined)
unfolding scan scan_loop take_frame frame_size is_fin_frame
scans_fin = refl
