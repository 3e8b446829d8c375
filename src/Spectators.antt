-- ===== src/Spectators.antt =====
-- pkg/lobby/spectator.go: the registry of the battles that are streamed live, and the spectators.
pub mod Writes
pub mod Delivery
pub mod Counts
pub mod Picks
pub mod Bounds
pub mod History
mod Tests
use zdxsv.Prelude.{
  ℕ, ◌+◌, ◌-◌, ◌*◌, ◌%◌, ◌^◌, min, String, Bool, true, false, not, ◌&&◌, ◌||◌, List, [], ◌∷◌, ◌++◌,
  Option, none, some, ◌==◌, if◌then◌else◌, ltb, leb, str_eq, find, length, take, drop,
}

-- Times are nanoseconds.
abbrev seconds : ℕ → ℕ
seconds n = n * 10 ^ 9

abbrev pub live_stall : ℕ
live_stall = seconds 30

abbrev pub live_max_bytes : ℕ
live_max_bytes = 32 * 2 ^ 20

abbrev live_retention : ℕ
live_retention = seconds 600

abbrev live_idle : ℕ
live_idle = seconds 600

abbrev pub live_max_spectators : ℕ
live_max_spectators = 4096

abbrev pub live_max_battle_watchers : ℕ
live_max_battle_watchers = 512

-- `session` is an int32 as its bit pattern; `done` is `none` before the upload has ended. The users are
-- for the list only.
pub record LiveBattle : Type 0 where
  pub code : String
  pub session : ℕ
  pub opened : ℕ
  pub uploading : Bool
  pub uploaded : Bool
  pub done : Option ℕ
  pub buf : List ℕ
  pub watchers : ℕ

-- `got` is what the connection has taken; `pre` is the response header that it has not.
pub record LiveWatcher : Type 0 where
  pub b : ℕ
  pub conn : ℕ
  pub got : List ℕ
  pub pre : List ℕ
  pub pos : ℕ
  pub progress : ℕ

-- `battles` maps a code to a pointer into `store`; `next` is the first free one.
pub record SpectatorRegistry : Type 0 where
  pub battles : List (String × ℕ)
  pub store : ℕ → LiveBattle
  pub next : ℕ
  pub nwatchers : ℕ

abbrev pub new_battle : String → ℕ → ℕ → LiveBattle
new_battle code session now = record {
  code = code;
  session = session;
  opened = now;
  uploading = false;
  uploaded = false;
  done = none;
  buf = [];
  watchers = 0;
}

abbrev pub new_spectator_registry : SpectatorRegistry
new_spectator_registry = record {
  battles = [];
  store = λ b. new_battle "" 0 0;
  next = 0;
  nwatchers = 0;
}

abbrev pub put_battle : SpectatorRegistry → ℕ → LiveBattle → SpectatorRegistry
put_battle r b v = record r { store = λ c. if c == b then v else r.store c }

abbrev pub open_new : SpectatorRegistry → String → ℕ → ℕ → Option ℕ → SpectatorRegistry
open_new r code session now (some b) = r
open_new r code session now none = record (put_battle r r.next (new_battle code session now)) {
  battles = r.battles ++ (code, r.next) ∷ [];
  next = r.next + 1;
}

-- `Open`
unfoldable pub open_battle : SpectatorRegistry → String → ℕ → ℕ → SpectatorRegistry
open_battle r code session now = open_new r code session now (find r.battles code)

abbrev pub is_done : LiveBattle → Bool
is_done b = elim b.done [ none ↦ false | some t ↦ true ]

abbrev pub is_stale : LiveBattle → ℕ → Bool
is_stale b now =
    elim b.done [ none ↦ false | some t ↦ ltb live_retention (now - t) ]
    || (not b.uploaded && ltb live_idle (now - b.opened))

abbrev pub fresh : SpectatorRegistry → ℕ → List (String × ℕ) → List (String × ℕ)
fresh r now [] = []
fresh r now ((code, b) ∷ bs) =
    let rest = fresh r now bs in if is_stale (r.store b) now then rest else (code, b) ∷ rest

-- `Tick`
unfoldable pub tick : SpectatorRegistry → ℕ → SpectatorRegistry
tick r now = record r { battles = fresh r now r.battles }

-- The answers of the registry: a battle, or an HTTP status.
pub data Found : Type 0 where
  found : ℕ → Found
  not_found : Found
  conflict : Found
  unavailable : Found

abbrev pub upload_to : SpectatorRegistry → ℕ → Option ℕ → Found × SpectatorRegistry
upload_to r session none = (not_found, r)
upload_to r session (some b) =
    if not ((r.store b).session == session)
    then (not_found, r)
    else if (r.store b).uploaded
    then (conflict, r)
    else (found b, put_battle r b (record (r.store b) { uploaded = true; uploading = true }))

unfoldable pub start_upload : SpectatorRegistry → String → ℕ → Found × SpectatorRegistry
start_upload r code session = upload_to r session (find r.battles code)

unfoldable pub add : SpectatorRegistry → ℕ → List ℕ → Bool × SpectatorRegistry
add r b data_ =
    if ltb live_max_bytes (length (r.store b).buf + length data_)
    then (false, r)
    else (true, put_battle r b (record (r.store b) { buf = (r.store b).buf ++ data_ }))

unfoldable pub end_upload : SpectatorRegistry → ℕ → ℕ → SpectatorRegistry
end_upload r b now = put_battle r b (record (r.store b) { uploading = false; done = some now })

abbrev contains_code : List String → String → Bool
contains_code [] code = false
contains_code (c ∷ cs) code =
    let rest = contains_code cs code in if str_eq c code then true else rest

abbrev pub skips : Option (List String) → LiveBattle → Bool
skips none b = false
skips (some codes) b = is_done b || contains_code codes b.code

abbrev same_bool : Bool → Bool → Bool
same_bool a b = if a then b else not b

abbrev pub better : LiveBattle → LiveBattle → Bool
better best b =
    (same_bool (is_done best) (is_done b) && ltb best.opened b.opened)
    || (is_done best && not (is_done b))

abbrev pub better_of : SpectatorRegistry → Option ℕ → ℕ → Option ℕ
better_of r none b = some b
better_of r (some c) b = if better (r.store c) (r.store b) then some b else some c

-- The loop of `newest`, in the order of the list; a Go map has none. `skip` is `none` for nil.
abbrev pub choose :
    SpectatorRegistry → Option (List String) → List (String × ℕ) → Option ℕ → Option ℕ
choose r skip [] best = best
choose r skip ((code, b) ∷ bs) best =
    choose r skip bs
      (if not (r.store b).uploaded || skips skip (r.store b) then best else better_of r best b)

abbrev pub newest : SpectatorRegistry → Option (List String) → Option ℕ
newest r skip = choose r skip r.battles none

abbrev pub pick_battle : SpectatorRegistry → Option ℕ → Found × SpectatorRegistry
pick_battle r none = (not_found, r)
pick_battle r (some b) =
    if not (r.store b).uploaded
    then (not_found, r)
    else if leb live_max_spectators r.nwatchers || leb live_max_battle_watchers (r.store b).watchers
    then (unavailable, r)
    else (
      found b,
      record (put_battle r b (record (r.store b) { watchers = (r.store b).watchers + 1 })) {
        nwatchers = r.nwatchers + 1;
      },
    )

-- `pick`: a code of "" asks for the newest battle.
unfoldable pub pick : SpectatorRegistry → String → Option (List String) → Found × SpectatorRegistry
pick r code skip = pick_battle r (if str_eq code "" then newest r skip else find r.battles code)

-- `unpick`, and `drop` but for the connection.
unfoldable pub unpick : SpectatorRegistry → ℕ → SpectatorRegistry
unpick r b = record (put_battle r b (record (r.store b) { watchers = (r.store b).watchers - 1 })) {
  nwatchers = r.nwatchers - 1;
}
