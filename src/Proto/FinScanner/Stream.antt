-- ===== src/Proto/FinScanner/Stream.antt =====
-- A whole stream, read in pieces of any sizes.
use mathlib.Core.List.{flatten}
use zdxsv.Prelude.{
  ℕ, ◌≤◌, ◌≡◌, ◌≢◌, refl, sym, ap, ◌∙◌, Bool, true, false, ◌||◌, List, [], ◌∷◌, ◌++◌, Option, none,
  some,
}
use zdxsv.Proto.FinScanner.{FinScanner, scan, ps2_join_size}
use zdxsv.Proto.FinScanner.Bytes.{
  IsPartial, read_bytes, read_bytes-append, read_bytes-nil, read_bytes-found, read_bytes-lost,
}
use zdxsv.Proto.FinScanner.Chunks.{scan_lem, framing}

-- The callback of Zproxy.ServeBattle for each read in turn: whether some call reported a fin.
pub scan_reads : FinScanner → List (List ℕ) → Option (Bool × FinScanner)
scan_reads s [] = some (false, s)
scan_reads s (bytes ∷ reads) = elim (scan s bytes) [
  | none ↦ none
  | some (found, t) ↦ elim (scan_reads t reads) [
    | none ↦ none
    | some (later, u) ↦ some (found || later, u)
  ]
]

scan_reads_step :
    (s t u : FinScanner) (bytes : List ℕ) (reads : List (List ℕ)) (found later : Bool)
    → scan s bytes ≡ some (found, t)
    → scan_reads t reads ≡ some (later, u)
    → scan_reads s (bytes ∷ reads) ≡ some (found || later, u)
unfolding scan_reads
scan_reads_step s t u bytes reads found later e f = rw (e, scan_reads) (rw (f, scan_reads))

kept_of :
    (lost : Bool) (frame : List ℕ) (bytes : List ℕ) (found : Bool)
    → (read_bytes (framing frame lost) found bytes).0 ≢ none
    → lost ≡ false
kept_of true frame bytes found h = absurd (h (ap (λ r. r.0) (read_bytes-lost bytes found)))
kept_of false frame bytes found h = refl

-- After the join, and where no zero size breaks the framing, the scanner reports a fin in a stream
-- exactly when the automaton that reads it byte by byte does, however it was cut into reads, and it
-- is left with the same begun frame.
pub scan_reads-read_bytes :
    (reads : List (List ℕ)) (s : FinScanner)
    → ps2_join_size ≤ s.joined
    → s.lost ≡ false
    → IsPartial s.frame
    → (read_bytes (some s.frame) false (flatten reads)).0 ≢ none
    → (u : FinScanner) × (scan_reads s reads
        ≡ some ((read_bytes (some s.frame) false (flatten reads)).1, u))
      × (some u.frame ≡ (read_bytes (some s.frame) false (flatten reads)).0)
unfolding scan_reads flatten
scan_reads-read_bytes [] s joined kept p whole =
    let e = read_bytes-nil (some s.frame) false in (s, rw e, rw e)
scan_reads-read_bytes (bytes ∷ reads) s joined kept p whole =
    let (frame, lost, found, scanned, read, q) = scan_lem s bytes joined kept p in
    let t : FinScanner = record s { frame = frame; lost = lost } in
    let split : read_bytes (some s.frame) false (bytes ++ flatten reads)
        ≡ read_bytes (framing frame lost) found (flatten reads) =
      read_bytes-append bytes (flatten reads) (some s.frame) false
      ∙ ap (λ r. read_bytes r.0 r.1 (flatten reads)) read in
    let still : lost ≡ false =
      kept_of lost frame (flatten reads) found (λ e. whole (ap (λ r. r.0) split ∙ e)) in
    let later : read_bytes (framing frame lost) found (flatten reads)
        ≡ read_bytes (some frame) found (flatten reads) =
      rw still in
    let tail = split ∙ later ∙ read_bytes-found (flatten reads) (some frame) found in
    let (u, rest, at_end) =
      scan_reads-read_bytes reads t joined still q (λ e. whole (ap (λ r. r.0) tail ∙ e)) in
    (
      u,
      scan_reads_step s t u bytes reads found _ scanned rest ∙ ap (λ r. some (r.1, u)) (sym tail),
      at_end ∙ sym (ap (λ r. r.0) tail),
    )
