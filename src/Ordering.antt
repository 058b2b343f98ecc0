-- ===== src/Ordering.antt =====
-- The first-fit-decreasing order of the lessons (ordering.rs): how many (day, room) pairs a lesson has.
pub mod FastPath
use klassenzeit.Base.{
  ℕ, zero, suc, Bool, true, false, ◌&&◌, ◌||◌, not, Option, none, some, List, [], ◌∷◌, ◌++◌, ◌==◌,
  leb, ltb, if◌then◌else◌, any, filter, length, map, sort_by, sat_add, sat_mul, as_u32,
}
use klassenzeit.Types.{Problem, Lesson, TimeBlock, Room, SchoolClass, assigned_teacher_id}
use klassenzeit.Index.{Indexed, teacher_blocked, room_blocked, room_suits_subject}
use klassenzeit.Validate.BreakSlots.{is_not_lesson}

abbrev pub Day : Type 0
Day = ℕ × List TimeBlock

push_block : TimeBlock → List Day → List Day
push_block tb [] = (tb.day_of_week, tb ∷ []) ∷ []
push_block tb ((day, tbs) ∷ days) =
    if day == tb.day_of_week
    then (day, tbs ++ (tb ∷ [])) ∷ days
    else (day, tbs) ∷ push_block tb days

group_days : List TimeBlock → List Day → List Day
unfolding push_block is_not_lesson
group_days [] days = days
group_days (tb ∷ tbs) days =
    group_days tbs (if is_not_lesson tb.kind then days else push_block tb days)

unfoldable pub tbs_by_day : Problem → List Day
unfolding group_days sort_by
tbs_by_day problem =
    map (λ d. (d.0, sort_by (λ a b. leb a.position b.position) d.1))
      (group_days problem.time_blocks [])

unfoldable pub home_room_pairs : List SchoolClass → List (ℕ × ℕ)
home_room_pairs [] = []
home_room_pairs (c ∷ cs) = elim c.home_room_id [
  | none ↦ home_room_pairs cs
  | some room ↦ (c.id, room) ∷ home_room_pairs cs
]

first_room : List (ℕ × ℕ) → ℕ → Option ℕ
first_room [] c = none
first_room ((k, room) ∷ pairs) c = if k == c then some room else first_room pairs c

-- The first four home rooms of the classes, as the array and its count hold them.
unfoldable pub lesson_home_rooms : List (ℕ × ℕ) → List ℕ → List ℕ → List ℕ
unfolding first_room
lesson_home_rooms pairs [] rooms = rooms
lesson_home_rooms pairs (c ∷ cs) rooms = lesson_home_rooms pairs cs (elim (first_room pairs c) [
  | none ↦ rooms
  | some room ↦ if ltb (length rooms) 4 then rooms ++ (room ∷ []) else rooms
])

unfoldable pub home_rooms_contains : List ℕ → ℕ → Bool
home_rooms_contains rooms room = any (λ r. r == room) rooms

-- The loop over the rooms of the fast path.
unfoldable pub count_rooms : (ℕ → Bool) → (ℕ → Bool) → List Room → ℕ × ℕ → ℕ × ℕ
count_rooms suits home [] counts = counts
count_rooms suits home (room ∷ rooms) (suitable, at_home) = count_rooms suits home rooms (
    if suits room.id
    then (sat_add suitable 1, (if home room.id then sat_add at_home 1 else at_home))
    else (suitable, at_home))

unfoldable pub same_room_eligibility_no_blocks :
    Lesson → Problem → Indexed → List Day → List (ℕ × ℕ) → ℕ × ℕ
unfolding count_rooms room_suits_subject home_rooms_contains lesson_home_rooms
same_room_eligibility_no_blocks l problem idx days pairs =
    let n = l.preferred_block_size in
    let viable_days = as_u32 (length (filter (λ d. leb n (length d.1)) days)) in
    let counts =
      count_rooms (λ room. room_suits_subject idx room l.subject_id)
        (home_rooms_contains (lesson_home_rooms pairs l.school_class_ids [])) problem.rooms
        (0, 0) in
    if n == 0 then (0, 0) else (sat_mul viable_days counts.0, sat_mul viable_days counts.1)

-- The walk over a day: `run` blocks in a row are free so far.
unfoldable pub run_fits : (TimeBlock → Bool) → ℕ → List TimeBlock → ℕ → Bool
run_fits free n [] run = false
run_fits free n (tb ∷ tbs) run =
    let more = run_fits free n tbs (suc run) in
    let reset = run_fits free n tbs 0 in
    if free tb then (if leb n (suc run) then true else more) else reset

-- A lesson with no teacher stops the source here with a panic; the model takes no block as blocked.
unfoldable pub is_free : Indexed → Option ℕ → ℕ → TimeBlock → Bool
unfolding teacher_blocked room_blocked
is_free idx none room tb = not (room_blocked idx room tb.id)
is_free idx (some teacher) room tb =
    not (teacher_blocked idx teacher tb.id) && not (room_blocked idx room tb.id)

-- The loop over the rooms of a day.
unfoldable pub viable_rooms : (ℕ → Bool) → (ℕ → Bool) → (ℕ → Bool) → List Room → ℕ × ℕ → ℕ × ℕ
viable_rooms suits home fits [] counts = counts
viable_rooms suits home fits (room ∷ rooms) (viable, at_home) = viable_rooms suits home fits rooms (
    if suits room.id && fits room.id
    then (sat_add viable 1, (if home room.id then sat_add at_home 1 else at_home))
    else (viable, at_home))

unfoldable pub viable_days :
    (ℕ → Bool) → (ℕ → Bool) → (ℕ → List TimeBlock → Bool) → ℕ → List Room → List Day → ℕ × ℕ → ℕ × ℕ
unfolding viable_rooms
viable_days suits home fits n rooms [] counts = counts
viable_days suits home fits n rooms ((day, tbs) ∷ days) counts =
    viable_days suits home fits n rooms days (
      if ltb (length tbs) n
      then counts
      else viable_rooms suits home (λ room. fits room tbs) rooms counts)

unfoldable pub same_room_eligibility : Lesson → Problem → Indexed → List Day → List (ℕ × ℕ) → ℕ × ℕ
unfolding viable_days run_fits is_free room_suits_subject home_rooms_contains lesson_home_rooms
    assigned_teacher_id
same_room_eligibility l problem idx days pairs =
    let n = l.preferred_block_size in
    if n == 0
    then (0, 0)
    else viable_days (λ room. room_suits_subject idx room l.subject_id)
        (home_rooms_contains (lesson_home_rooms pairs l.school_class_ids []))
        (λ room tbs. run_fits (is_free idx (assigned_teacher_id l) room) n tbs 0) n problem.rooms
        days (0, 0)

-- The keys that `sort_by` compares: the three scores and the lesson's id.
abbrev pub SortKey : Type 0
SortKey = ℕ × ℕ × ℕ × ℕ

unfoldable pub sort_key : Problem → Indexed → List Day → List (ℕ × ℕ) → Bool → Lesson → SortKey
unfolding same_room_eligibility same_room_eligibility_no_blocks
sort_key problem idx days pairs no_blocks l =
    let counts =
      if no_blocks
      then same_room_eligibility_no_blocks l problem idx days pairs
      else same_room_eligibility l problem idx days pairs in
    (as_u32 (length l.teacher_candidates), counts.0, counts.1, l.id)

abbrev pub key_le : SortKey → SortKey → Bool
key_le a b =
    ltb a.0 b.0
    || ((a.0 == b.0)
        && (ltb a.1 b.1 || ((a.1 == b.1) && (ltb a.2 b.2 || ((a.2 == b.2) && leb a.3 b.3)))))

unfoldable pub with_index : ℕ → (Lesson → SortKey) → List Lesson → List (ℕ × SortKey)
with_index i key [] = []
with_index i key (l ∷ ls) = (i, key l) ∷ with_index (suc i) key ls

abbrev is_nil : {A : Type 0} → List A → Bool
is_nil [] = true
is_nil (x ∷ xs) = false

-- The indices of the lessons in the order of their keys; equal keys keep the order of the problem.
unfoldable pub ffd_order : Problem → Indexed → List ℕ
unfolding tbs_by_day home_room_pairs sort_key with_index sort_by
ffd_order problem idx =
    let no_blocks = is_nil problem.teacher_blocked_times && is_nil problem.room_blocked_times in
    let key =
      sort_key problem idx (tbs_by_day problem) (home_room_pairs problem.school_classes)
        no_blocks in
    map (λ e. e.0) (sort_by (λ a b. key_le a.1 b.1) (with_index 0 key problem.lessons))
