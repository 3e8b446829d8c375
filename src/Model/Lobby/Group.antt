-- ===== src/Model/Lobby/Group.antt =====
-- Which users a lobby's battle starts with.
use mathlib.Core.Path.{ap₂, subst}
use zdxsv.Prelude.{
  ℕ, ◌+◌, ◌≤◌, ◌≡◌, sym, ap, ◌∙◌, inl, inr, String, str_eq, eq_iff, str_eq_self, str_eq_ne, Bool,
  true, false, ◌&&◌, List, [], ◌∷◌, Option, none, some, insert, ◌==◌, if◌then◌else◌, arith,
  Bool-cases, Option-cases, ◌↔◌,
}
use zdxsv.Prelude.{find}
use zdxsv.Model.User.{User, Heap, entry_aeug, entry_titans}
use zdxsv.Model.Lobby.{
  Lobby, can_start, counts_of, add_entry, group_loop, start_group, can_battle_start,
}
use zdxsv.Model.Lobby.Wanted.{Enough, can_start-Enough}

-- How many entries of the queue are users in the lobby with that fingerprint, on that side.
unfoldable pub entries_on : Heap → (String → Option ℕ) → String → ℕ → List String → ℕ
entries_on h users sync side [] = 0
entries_on h users sync side (id ∷ ids) = elim (users id) [
  | none ↦ entries_on h users sync side ids
  | some u ↦
      (if str_eq (h u).sync sync && (h u).entry == side then 1 else 0)
      + entries_on h users sync side ids
]

can_start_mono : (i a b c d : ℕ) → a ≤ c → b ≤ d → can_start i a b ≡ true → can_start i c d ≡ true
unfolding can_start
can_start_mono i a b c d p q h = ground arith

can_start-zero : (i : ℕ) → can_start i 0 0 ≡ false
unfolding can_start
can_start-zero i = ground arith

add_entry_lem :
    (u : User) (c : ℕ × ℕ)
    → ((add_entry u c).0 ≡ c.0 + (if u.entry == entry_aeug then 1 else 0))
      × ((add_entry u c).1 ≡ c.1 + (if u.entry == entry_titans then 1 else 0))
unfolding add_entry
add_entry_lem u c = ground arith

module _ (h : Heap) (i : ℕ) (users : String → Option ℕ) where
  -- What the counts and the rest of the queue come to, for the fingerprint `s`.
  abbrev ready : (String → Option (ℕ × ℕ)) → List String → String → Bool
  ready counts ids s =
      can_start i ((counts_of counts s).0 + entries_on h users s entry_aeug ids)
        ((counts_of counts s).1 + entries_on h users s entry_titans ids)

  counts_of_self :
      (counts : String → Option (ℕ × ℕ)) (s : String) (c : ℕ × ℕ)
      → counts_of (insert s c counts) s ≡ c
  counts_of_self counts s c = rw (str_eq_self s, counts_of)

  counts_of_other :
      (counts : String → Option (ℕ × ℕ)) (s t : String) (c : ℕ × ℕ)
      → str_eq t s ≡ false
      → counts_of (insert s c counts) t ≡ counts_of counts t
  counts_of_other counts s t c e = rw (e, counts_of)

  entries_on-here :
      (id : String) (ids : List String) (u : ℕ) (side : ℕ)
      → users id ≡ some u
      → entries_on h users (h u).sync side (id ∷ ids)
        ≡ (if (h u).entry == side then 1 else 0) + entries_on h users (h u).sync side ids
  unfolding entries_on
  entries_on-here id ids u side e = rw (e, entries_on, str_eq_self (h u).sync)

  entries_on-other :
      (id : String) (ids : List String) (u : ℕ) (s : String) (side : ℕ)
      → users id ≡ some u
      → str_eq s (h u).sync ≡ false
      → entries_on h users s side (id ∷ ids) ≡ entries_on h users s side ids
  unfolding entries_on
  entries_on-other id ids u s side e ne =
      let ne' : str_eq (h u).sync s ≡ false =
        str_eq_ne (h u).sync s (λ p. ground (arith, eq_iff s (h u).sync, sym p)) in
      rw (e, entries_on, ne') (omega arith)

  entries_on-missing :
      (id : String) (ids : List String) (s : String) (side : ℕ)
      → users id ≡ none
      → entries_on h users s side (id ∷ ids) ≡ entries_on h users s side ids
  unfolding entries_on
  entries_on-missing id ids s side e = rw (e, entries_on)

  -- The counts after the entry of `u`, and the queue behind it, come to the same.
  ready_step :
      (counts : String → Option (ℕ × ℕ)) (id : String) (ids : List String) (u : ℕ) (s : String)
      → users id ≡ some u
      → ready counts (id ∷ ids) s
        ≡ ready (insert (h u).sync (add_entry (h u) (counts_of counts (h u).sync)) counts) ids s
  ready_step counts id ids u s e = elim (Bool-cases (str_eq s (h u).sync)) [
    | inl same ↦
        let eq : s ≡ (h u).sync = (eq_iff s (h u).sync).0 same in
        let (a, b) = add_entry_lem (h u) (counts_of counts (h u).sync) in
        rw
          (
            eq,
            counts_of_self counts (h u).sync (add_entry (h u) (counts_of counts (h u).sync)),
            entries_on-here id ids u entry_aeug e,
            entries_on-here id ids u entry_titans e,
          )
          (ap₂ (can_start i) (omega (arith, a)) (omega (arith, b)))
    | inr other ↦ rw (
      counts_of_other counts (h u).sync s (add_entry (h u) (counts_of counts (h u).sync)) other,
      entries_on-other id ids u s entry_aeug e other,
      entries_on-other id ids u s entry_titans e other,
    )
  ]

  -- The entry of `u` alone already makes its group ready.
  ready_now :
      (c : ℕ × ℕ) (s : String) (ids : List String)
      → can_start i c.0 c.1 ≡ true
      → can_start i
          (c.0 + entries_on h users s entry_aeug ids)
          (c.1 + entries_on h users s entry_titans ids)
        ≡ true
  ready_now c s ids now = can_start_mono i c.0 c.1 _ _ (omega arith) (omega arith) now

  -- The sums at the end of the queue.
  ready-nil :
      (counts : String → Option (ℕ × ℕ)) (s : String)
      → ready counts [] s ≡ can_start i (counts_of counts s).0 (counts_of counts s).1
  unfolding entries_on
  ready-nil counts s = ap₂ (can_start i) (omega arith) (omega arith)

  found_ready :
      (ids : List String) (first : Option String) (counts : String → Option (ℕ × ℕ)) (s : String)
      → group_loop h i users ids first counts ≡ (s, true)
      → ready counts ids s ≡ true
  unfolding group_loop
  found_ready [] first counts s e = cc
  found_ready (id ∷ ids) first counts s e = elim (Option-cases (users id)) [
    | inl missing ↦
        rw
          (
            entries_on-missing id ids s entry_aeug missing,
            entries_on-missing id ids s entry_titans missing,
          )
          (found_ready ids first counts s (rw (missing, group_loop) at e))
    | inr (u, present) ↦
        let sync = (h u).sync in
        let c = add_entry (h u) (counts_of counts sync) in
        let seen = elim first as (λ _. Option String) [ none ↦ some sync | some t ↦ some t ] in
        elim (Bool-cases (can_start i c.0 c.1)) [
          | inl now ↦
              let eq : sync ≡ s = ap (λ r. r.0) (rw (present, now, group_loop) at e) in
              subst (λ t. ready counts (id ∷ ids) t ≡ true) eq
                (ready_step counts id ids u sync present
                  ∙ rw (counts_of_self counts sync c) (ready_now c sync ids now))
          | inr later ↦
              ready_step counts id ids u s present
              ∙ found_ready ids seen (insert sync c counts) s (rw (present, later, group_loop) at e)
        ]
  ]

  step_false :
      (counts : String → Option (ℕ × ℕ)) (u : ℕ)
      → can_start i
          (add_entry (h u) (counts_of counts (h u).sync)).0
          (add_entry (h u) (counts_of counts (h u).sync)).1
        ≡ false
      → ((t : String) → can_start i (counts_of counts t).0 (counts_of counts t).1 ≡ false)
      → (t : String)
      → can_start i
          (counts_of (insert (h u).sync (add_entry (h u) (counts_of counts (h u).sync)) counts) t).0
          (counts_of (insert (h u).sync (add_entry (h u) (counts_of counts (h u).sync)) counts) t).1
        ≡ false
  step_false counts u later so_far t = elim (Bool-cases (str_eq t (h u).sync)) [
    | inl same ↦
        rw
          (
            (eq_iff t (h u).sync).0 same,
            counts_of_self counts (h u).sync (add_entry (h u) (counts_of counts (h u).sync)),
          )
          later
    | inr other ↦
        rw
          (counts_of_other counts (h u).sync t (add_entry (h u) (counts_of counts (h u).sync))
            other)
          (so_far t)
  ]

  none_ready :
      (ids : List String) (first : Option String) (counts : String → Option (ℕ × ℕ)) (s : String)
      → (group_loop h i users ids first counts).1 ≡ false
      → ((t : String) → can_start i (counts_of counts t).0 (counts_of counts t).1 ≡ false)
      → ready counts ids s ≡ false
  unfolding group_loop
  none_ready [] first counts s e so_far = ready-nil counts s ∙ so_far s
  none_ready (id ∷ ids) first counts s e so_far = elim (Option-cases (users id)) [
    | inl missing ↦
        rw
          (
            entries_on-missing id ids s entry_aeug missing,
            entries_on-missing id ids s entry_titans missing,
          )
          (none_ready ids first counts s (rw (missing, group_loop) at e) so_far)
    | inr (u, present) ↦
        let sync = (h u).sync in
        let c = add_entry (h u) (counts_of counts sync) in
        let seen = elim first as (λ _. Option String) [ none ↦ some sync | some t ↦ some t ] in
        elim (Bool-cases (can_start i c.0 c.1)) [
          | inl now ↦ let bad : ◌≡◌ {A = Bool} true false = rw (present, now, group_loop) at e in cc
          | inr later ↦
              ready_step counts id ids u s present
              ∙ none_ready ids seen (insert sync c counts) s (rw (present, later, group_loop) at e)
                  (step_false counts u later so_far)
        ]
  ]

Starts : Heap → Lobby → String → Type 0
Starts h l s =
    can_start l.id (entries_on h (find l.users) s entry_aeug l.entry_users)
      (entries_on h (find l.users) s entry_titans l.entry_users)
    ≡ true

-- The queue has enough entries of users in the lobby with the fingerprint. A user who has chosen a side
-- more than once has as many entries.
abbrev pub IsReady : Heap → Lobby → String → Type 0
IsReady h l s =
    Enough l.id (entries_on h (find l.users) s entry_aeug l.entry_users)
      (entries_on h (find l.users) s entry_titans l.entry_users)

zero_ready :
    (h : Heap) (l : Lobby) (s : String)
    → ready h l.id (find l.users) (λ _. none) l.entry_users s
      ≡ can_start l.id
          (entries_on h (find l.users) s entry_aeug l.entry_users)
          (entries_on h (find l.users) s entry_titans l.entry_users)
zero_ready h l s = ap₂ (can_start l.id) (omega arith) (omega arith)

can_battle_start-Starts :
    (h : Heap) (l : Lobby)
    → (can_battle_start h l ≡ true → (s : String) × Starts h l s)
      × ((s : String) → Starts h l s → can_battle_start h l ≡ true)
      × (can_battle_start h l ≡ true → Starts h l (start_group h l).0)
unfolding can_battle_start start_group Starts
can_battle_start-Starts h l = ((λ e. (_, chosen e)), (λ s r. some_ready (s, r)), chosen)
  where
    started : String × Bool
    started = group_loop h l.id (find l.users) l.entry_users none (λ _. none)

    chosen : started.1 ≡ true → Starts h l started.0
    chosen e =
        sym (zero_ready h l started.0)
        ∙ found_ready h l.id (find l.users) l.entry_users none (λ _. none) started.0
            (ap (λ b. (started.0, b)) e)

    some_ready : (s : String) × Starts h l s → started.1 ≡ true
    some_ready (s, r) = elim (Bool-cases started.1) [
      | inl e ↦ e
      | inr e ↦
          let not_ready =
            none_ready h l.id (find l.users) l.entry_users none (λ _. none) s e
              (λ t. can_start-zero l.id) in
          cc (sym (zero_ready h l s) ∙ not_ready, r)
    ]

-- A lobby starts a battle exactly when, for some fingerprint, the queue has as many entries of users in the
-- lobby with it as the lobby wants: one of each side in lobby 2, one in lobby 3, two of each side in the
-- others; and the group that it starts with is such a one. A user who chose a side twice has two entries.
pub can_battle_start-IsReady :
    (h : Heap) (l : Lobby)
    → ((can_battle_start h l ≡ true) ↔ ((s : String) × IsReady h l s))
      × (can_battle_start h l ≡ true → IsReady h l (start_group h l).0)
unfolding Starts
can_battle_start-IsReady h l =
    let (starts, some_starts, chosen) = can_battle_start-Starts h l in
    let side : (s : String) → Starts h l s ↔ IsReady h l s = λ s.
      can_start-Enough l.id (entries_on h (find l.users) s entry_aeug l.entry_users)
        (entries_on h (find l.users) s entry_titans l.entry_users) in
    (
      (λ e. let (s, t) = starts e in (s, (side s).0 t), λ (s, r). some_starts s ((side s).1 r)),
      λ e. (side (start_group h l).0).0 (chosen e),
    )
