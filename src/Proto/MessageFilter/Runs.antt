-- ===== src/Proto/MessageFilter/Runs.antt =====
-- A filter on a run of messages of one user, numbered one by one.
use zdxsv.Prelude.{
  ℕ, zero, suc, ◌+◌, ◌-◌, ◌≤◌, ◌<◌, ◌≡◌, refl, sym, ap, ◌∙◌, String, true, false, List, [], ◌∷◌,
  ◌++◌, some, max, arith, drop, take, length, eq_iff,
}
use native.Mathlib.Decide.{dec_lt}
use zdxsv.Proto.BattleBuffer.{BattleMessage, u32}
use zdxsv.Proto.MessageFilter.{MessageFilter, filter, filter_all}

-- The user's messages number `s`, `s + 1` and so on.
abbrev pub IsRun : String → ℕ → List BattleMessage → Type 0
IsRun u s [] = Unit {0}
IsRun u s (m ∷ ms) = (m.user_id ≡ u) × (m.seq ≡ s) × IsRun u (s + 1) ms

module _ (u : String) (f : MessageFilter) (m : BattleMessage) (a : ℕ) where
  filter_next :
      f.recv_seq u ≡ some a
      → m.user_id ≡ u
      → m.seq ≡ a + 1
      → a + 1 < u32
      → ((filter f m).0 ≡ true) × ((filter f m).1.recv_seq u ≡ some (a + 1))
  unfolding filter
  filter_next e hu hs fits = ground (arith, eq_iff u u)

  filter_old :
      f.recv_seq u ≡ some a
      → m.user_id ≡ u
      → 1 ≤ m.seq
      → m.seq ≤ a
      → a + 1 < u32
      → filter f m ≡ (false, f)
  unfolding filter
  filter_old e hu pos hs fits = ground (arith, eq_iff u u)

drop_nil : (n : ℕ) → drop {A = BattleMessage} n [] ≡ []
drop_nil zero = refl
drop_nil (suc n) = refl

-- Where the user's last accepted number is `a`, a run of consecutive numbers from `s` on, with
-- `1 ≤ s ≤ a + 1` and below 2 ^ 32, passes exactly its messages above `a`, and the number accepted
-- last is then the larger of `a` and the run's last number.
pub filter_all-run :
    (u : String) (ms : List BattleMessage) (f : MessageFilter) (s a : ℕ)
    → f.recv_seq u ≡ some a
    → IsRun u s ms
    → 1 ≤ s
    → s ≤ a + 1
    → a + 1 < u32
    → s + length ms < u32
    → ((filter_all f ms).0 ≡ drop (a + 1 - s) ms)
      × ((filter_all f ms).1.recv_seq u ≡ some (max a (s + length ms - 1)))
unfolding filter_all
filter_all-run u [] f s a e run pos near fits room =
    (sym (drop_nil (a + 1 - s)), e ∙ ap some (omega arith))
filter_all-run u (m ∷ ms) f s a e (hu, hs, run) pos near fits room = elim (dec_lt s (a + 1)) [
  | yes old ↦
      let rest =
        filter_all-run u ms f (s + 1) a e run (omega arith) (omega arith) fits (omega arith) in
      let skip : a + 1 - s ≡ suc (a + 1 - (s + 1)) = omega arith in
      let last : s + suc (length ms) ≡ s + 1 + length ms = omega arith in
      rw (filter_old u f m a e hu (omega arith) (omega arith) (omega arith), skip, last) rest
  | no new ↦
      let now = filter_next u f m a e hu (omega arith) (omega arith) in
      let rest =
        filter_all-run u ms (filter f m).1 (s + 1) (a + 1) now.1 run (omega arith) (omega arith)
          (omega arith) (omega arith) in
      let all : a + 1 - s ≡ 0 = omega arith in
      let all' : a + 1 + 1 - (s + 1) ≡ 0 = omega arith in
      let last : s + 1 + length ms - 1 ≡ s + suc (length ms) - 1 = omega arith in
      let top : max (a + 1) (s + suc (length ms) - 1) ≡ max a (s + suc (length ms) - 1) =
        omega arith in
      rw (now.0, all) (ap (◌∷◌ m) (rw all' at rest.0), rw (last, top) at rest.1)
]

pub IsRun-append :
    (u : String) (s : ℕ) (ms : List BattleMessage) (m : BattleMessage)
    → IsRun u s ms
    → m.user_id ≡ u
    → m.seq ≡ s + length ms
    → IsRun u s (ms ++ m ∷ [])
IsRun-append u s [] m run hu hs = (hu, omega arith, tt)
IsRun-append u s (x ∷ ms) m (xu, xs, run) hu hs =
    (xu, xs, IsRun-append u (s + 1) ms m run hu (omega arith))

-- The messages that a window holds are a run as well.
pub IsRun-take :
    (u : String) (n s : ℕ) (ms : List BattleMessage) → IsRun u s ms → IsRun u s (take n ms)
IsRun-take u zero s ms run = tt
IsRun-take u (suc n) s [] run = tt
IsRun-take u (suc n) s (m ∷ ms) (hu, hs, run) = (hu, hs, IsRun-take u n (s + 1) ms run)

pub IsRun-drop :
    (u : String) (n s : ℕ) (ms : List BattleMessage) → IsRun u s ms → IsRun u (s + n) (drop n ms)
IsRun-drop u zero s ms run = let e : s + 0 ≡ s = omega arith in rw e run
IsRun-drop u (suc n) s [] run = tt
IsRun-drop u (suc n) s (m ∷ ms) (hu, hs, run) =
    let e : s + suc n ≡ s + 1 + n = omega arith in rw e (IsRun-drop u n (s + 1) ms run)
