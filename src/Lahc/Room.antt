-- ===== src/Lahc/Room.antt =====
-- The room of a Change move (lahc.rs: `pick_room`).
use klassenzeit.Base.{
  ℕ, ◌≡◌, ◌≤◌, refl, Bool, true, false, ◌&&◌, not, Option, none, some, List, [], ◌∷◌, arith, ltb,
  if◌then◌else◌, HashSet, contains, pair_eq, map, In, here, there, Bool-cases, inl, inr,
  Option-cases, All, All-map, ◌⊎◌, ◌↔◌,
}
use klassenzeit.Types.{Problem, Room}
use klassenzeit.Index.{Indexed, room_suits_subject, room_blocked}

unfoldable pub feasible : Indexed → ℕ → ℕ → HashSet (ℕ × ℕ) → ℕ → Bool
unfolding room_suits_subject room_blocked contains
feasible idx subject tb used_room room =
    room_suits_subject idx room subject
    && (not (room_blocked idx room tb) && not (contains used_room (room, tb)))

-- The scan for the feasible room of the smallest id.
unfoldable pub scan : (ℕ → Bool) → List Room → Option ℕ → Option ℕ
scan fits [] best = best
scan fits (room ∷ rooms) best = scan fits rooms (
    if fits room.id
    then elim best [
      | none ↦ some room.id
      | some current ↦ if ltb room.id current then some room.id else some current
    ]
    else best)

unfoldable pub pick_room : Problem → Indexed → ℕ → ℕ → ℕ → HashSet (ℕ × ℕ) → Option ℕ → Option ℕ
unfolding feasible scan
pick_room problem idx subject old_room new_tb used_room (some locked) =
    if feasible idx subject new_tb used_room locked then some locked else none
pick_room problem idx subject old_room new_tb used_room none =
    if feasible idx subject new_tb used_room old_room
    then some old_room
    else scan (feasible idx subject new_tb used_room) problem.rooms none

-- What a scan that starts from `best` returns.
abbrev Scanned : (ℕ → Bool) → List Room → Option ℕ → Option ℕ → Type 0
Scanned fits rooms best none = (best ≡ none) × All (λ room. fits room.id ≡ false) rooms
Scanned fits rooms best (some x) =
    ((best ≡ some x) ⊎ (In x (map (λ room. room.id) rooms) × (fits x ≡ true)))
    × ((b : ℕ) → best ≡ some b → x ≤ b)
    × All (λ room. fits room.id ≡ true → x ≤ room.id) rooms

-- One room of the scan.
abbrev step : (ℕ → Bool) → Room → Option ℕ → Option ℕ
step fits room best =
    if fits room.id
    then elim best [
      | none ↦ some room.id
      | some current ↦ if ltb room.id current then some room.id else some current
    ]
    else best

step-kept :
    (fits : ℕ → Bool) (room : Room) (rooms : List Room) (best r : Option ℕ)
    → (fits room.id ≡ true → (b : ℕ) × (best ≡ some b) × (b ≤ room.id))
    → Scanned fits rooms best r
    → Scanned fits (room ∷ rooms) best r
step-kept fits room rooms best none k h =
    let missed : fits room.id ≡ false = elim (Bool-cases (fits room.id)) [
      | inl hit ↦ let (b, e, l) = k hit in absurd (ground (arith, h.0, e))
      | inr miss ↦ miss
    ] in
    (h.0, (missed, h.1))
step-kept fits room rooms best (some x) k h = (
  elim h.0 [ inl e ↦ inl e | inr i ↦ inr (there i.0, i.1) ],
  h.1,
  ((λ hit. let (b, e, l) = k hit in ground (arith, h.1 b e, l)), h.2),
)

step-taken :
    (fits : ℕ → Bool) (room : Room) (rooms : List Room) (best r : Option ℕ)
    → fits room.id ≡ true
    → ((b : ℕ) → best ≡ some b → room.id ≤ b)
    → Scanned fits rooms (some room.id) r
    → Scanned fits (room ∷ rooms) best r
step-taken fits room rooms best none hit k h = absurd (ground (arith, h.0))
step-taken fits room rooms best (some x) hit k h =
    let le : x ≤ room.id = h.1 room.id refl in
    (
      elim h.0 [
        | inl e ↦ let e' : room.id ≡ x = ground (arith, e) in rw (← e') (inr (here, hit))
        | inr i ↦ inr (there i.0, i.1)
      ],
      (λ b e. omega (arith, k b e, le)),
      ((λ q. le), h.2),
    )

Scanned-step :
    (fits : ℕ → Bool) (room : Room) (rooms : List Room) (best r : Option ℕ)
    → Scanned fits rooms (step fits room best) r
    → Scanned fits (room ∷ rooms) best r
Scanned-step fits room rooms best r h = elim (Bool-cases (fits room.id)) [
  | inr miss ↦ step-kept fits room rooms best r (λ hit. absurd (cc)) (rw miss at h)
  | inl hit ↦ elim (Option-cases best) [
    | inl e ↦ step-taken fits room rooms best r hit (λ b q. absurd (cc)) (rw (hit, e) at h)
    | inr (b, e) ↦ elim (Bool-cases (ltb room.id b)) [
      | inl lt ↦
          step-taken fits room rooms best r hit (λ b' q. ground (arith, lt, e, q))
            (rw (hit, e, lt) at h)
      | inr ge ↦
          step-kept fits room rooms best r (λ q. (b, e, ground (arith, ge)))
            (rw e (rw (hit, e, ge) at h))
    ]
  ]
]

scan_lem :
    (fits : ℕ → Bool) (rooms : List Room) (best : Option ℕ)
    → Scanned fits rooms best (scan fits rooms best)
unfolding scan
scan_lem fits [] none = (refl, tt)
scan_lem fits [] (some b) = (inl refl, (λ b' q. ground arith), tt)
scan_lem fits (room ∷ rooms) best =
    Scanned-step fits room rooms best (scan fits rooms (step fits room best))
      (scan_lem fits rooms (step fits room best))

-- The room suits the subject and is neither blocked nor in use at the time block.
abbrev pub IsFree : Indexed → ℕ → ℕ → HashSet (ℕ × ℕ) → ℕ → Type 0
IsFree idx subject tb used_room room =
    (room_suits_subject idx room subject ≡ true)
    × (room_blocked idx room tb ≡ false)
    × (contains used_room (room, tb) ≡ false)

feasible-IsFree :
    (idx : Indexed) (subject tb : ℕ) (used_room : HashSet (ℕ × ℕ)) (room : ℕ)
    → (feasible idx subject tb used_room room ≡ true) ↔ IsFree idx subject tb used_room room
unfolding feasible
feasible-IsFree idx subject tb used_room room = ground arith

-- What `pick_room` promises: with a lock, the locked room, or none when it is not free; without one, the
-- old room when it is free, else the free room of the smallest id, and none only when no room is free.
abbrev pub IsPick : (ℕ → Type 0) → List Room → ℕ → Option ℕ → Option ℕ → Type 0
IsPick Free rooms old_room (some locked) none = ¬ (Free locked)
IsPick Free rooms old_room (some locked) (some x) = (x ≡ locked) × Free x
IsPick Free rooms old_room none none = ¬ (Free old_room) × All (λ room. ¬ (Free room.id)) rooms
IsPick Free rooms old_room none (some x) =
    Free x
    × (Free old_room → x ≡ old_room)
    × (¬ (Free old_room)
        → In x (map (λ room. room.id) rooms) × All (λ room. Free room.id → x ≤ room.id) rooms)

module _ (fits : ℕ → Bool) (Free : ℕ → Type 0) (same : (x : ℕ) → (fits x ≡ true) ↔ Free x) where
  not_free : (x : ℕ) → fits x ≡ false → ¬ (Free x)
  not_free x miss free = let hit = (same x).1 free in cc

  Scanned-IsPick :
      (rooms : List Room) (old_room : ℕ) (r : Option ℕ)
      → fits old_room ≡ false
      → Scanned fits rooms none r
      → IsPick Free rooms old_room none r
  Scanned-IsPick rooms old_room none miss h =
      (not_free old_room miss, All-map (λ room m. not_free room.id m) rooms h.1)
  Scanned-IsPick rooms old_room (some x) miss h = elim h.0 [
    | inl e ↦ absurd (cc)
    | inr i ↦ (
      (same x).0 i.1,
      (λ free. absurd (not_free old_room miss free)),
      (λ q. (i.0, All-map (λ room below free. below ((same room.id).1 free)) rooms h.2)),
    )
  ]

-- `pick_room` returns the locked room if there is a lock and that room suits the subject and is neither
-- blocked nor in use at the new time block, and none if there is a lock and it is not so; without a lock
-- the old room if it is free in this sense, else the free room of the problem with the smallest id, and
-- none only when the old room and all rooms of the problem are not free.
pub pick_room-IsPick :
    (problem : Problem) (idx : Indexed) (subject old_room tb : ℕ) (used_room : HashSet (ℕ × ℕ))
    (lock : Option ℕ)
    → IsPick
        (IsFree idx subject tb used_room)
        problem.rooms
        old_room
        lock
        (pick_room problem idx subject old_room tb used_room lock)
unfolding pick_room
pick_room-IsPick problem idx subject old_room tb used_room (some locked) =
    let same = feasible-IsFree idx subject tb used_room in
    elim (Bool-cases (feasible idx subject tb used_room locked)) [
      | inl hit ↦ rw hit (refl, (same locked).0 hit)
      | inr miss ↦ rw miss (
          not_free (feasible idx subject tb used_room) (IsFree idx subject tb used_room) same locked
            miss)
    ]
pick_room-IsPick problem idx subject old_room tb used_room none =
    let fits = feasible idx subject tb used_room in
    let same = feasible-IsFree idx subject tb used_room in
    elim (Bool-cases (feasible idx subject tb used_room old_room)) [
      | inl hit ↦
          rw hit
            ((same old_room).0 hit, (λ q. refl), (λ taken. absurd (taken ((same old_room).0 hit))))
      | inr miss ↦ rw miss (
          Scanned-IsPick fits (IsFree idx subject tb used_room) same problem.rooms old_room
            (scan fits problem.rooms none) miss (scan_lem fits problem.rooms none))
    ]
