-- ===== src/Validate/RoomHopping.antt =====
-- `validate_no_room_hopping`: within a day a class has each subject in one room.
use klassenzeit.Base.{
  In, All-In, All-map, All-mapped, All-unmap, some-inj, sym, ◌∙◌, some, ℕ, ◌≡◌, ◌↔◌, refl, Option,
  List, [], ◌==◌, triple_eq, find, map, All,
}
use klassenzeit.Types.{Problem, Placement, Lesson, TimeBlock}
use klassenzeit.Validate.Outcome.{
  unknown_lesson, unknown_time_block, room_hopping, Result, ok, ◌>>=◌, ok_or, ok_or-eq-ok, ok-inj,
  >>=-eq-ok,
}
use klassenzeit.Validate.Entries.{enter_each, Agrees, enter_each_iff}

abbrev pub Key : Type 0
Key = ℕ × ℕ × ℕ

abbrev pub find_lesson : Problem → ℕ → Option Lesson
find_lesson problem id = find (λ l. l.id == id) problem.lessons

abbrev pub find_time_block : Problem → ℕ → Option TimeBlock
find_time_block problem id = find (λ t. t.id == id) problem.time_blocks

-- The keys (class, day, subject) of a placement.
abbrev pub hop_keys : Problem → Placement → Result (List Key)
hop_keys problem p = do
  lesson' ← ok_or (find_lesson problem p.lesson_id) (unknown_lesson p.lesson_id)
  tb ← ok_or (find_time_block problem p.time_block_id) (unknown_time_block p.time_block_id)
  ok (map (λ c. (c, tb.day_of_week, lesson'.subject_id)) lesson'.school_class_ids)

unfoldable pub validate_no_room_hopping : Problem → List Placement → Result (Unit {0})
unfolding enter_each
validate_no_room_hopping problem placements =
    enter_each room_hopping (hop_keys problem) (λ p. p.room_id) placements [] >>= λ _. ok tt

-- The placement refers to a lesson and a time block of the problem, and is in the room named for each of
-- its classes on its day in its subject.
abbrev pub KeepsRoom : Problem → (ℕ → ℕ → ℕ → ℕ) → Placement → Type 0
KeepsRoom problem room p =
    (l : Lesson) × (tb : TimeBlock) × (find_lesson problem p.lesson_id ≡ some l)
    × (find_time_block problem p.time_block_id ≡ some tb)
    × All (λ c. room c tb.day_of_week l.subject_id ≡ p.room_id) l.school_class_ids

abbrev Kept : Problem → (Key → ℕ) → Placement → Type 0
Kept problem room = Agrees room_hopping (hop_keys problem) (λ p. p.room_id) room

-- The rooms by key of the loop, and by class, day and subject.
Kept-KeepsRoom :
    (problem : Problem) (room : Key → ℕ) (p : Placement)
    → Kept problem room p
    → KeepsRoom problem (λ c day subject. room (c, day, subject)) p
Kept-KeepsRoom problem room p (keys, found, same) =
    let (l, of_lesson, rest) = >>=-eq-ok (ok_or (find_lesson problem p.lesson_id) _) _ found in
    let (tb, of_block, rest') =
      >>=-eq-ok (ok_or (find_time_block problem p.time_block_id) _) _ rest in
    (
      l,
      tb,
      ok_or-eq-ok _ _ of_lesson,
      ok_or-eq-ok _ _ of_block,
      All-unmap (λ key. room key ≡ p.room_id) (λ c. (c, tb.day_of_week, l.subject_id))
          l.school_class_ids (rw (← ok-inj rest') at same),
    )

KeepsRoom-Kept :
    (problem : Problem) (room : ℕ → ℕ → ℕ → ℕ) (p : Placement)
    → KeepsRoom problem room p
    → Kept problem (λ key. room key.0 key.1 key.2) p
KeepsRoom-Kept problem room p (l, tb, of_lesson, of_block, same) = (
  map (λ c. (c, tb.day_of_week, l.subject_id)) l.school_class_ids,
  rw (of_lesson, of_block) refl,
  All-mapped (λ key. room key.0 key.1 key.2 ≡ p.room_id) (λ c. (c, tb.day_of_week, l.subject_id))
      l.school_class_ids same,
)

-- The validator accepts exactly when every placement refers to a lesson and a time block of the
-- problem, and one can name a room for every class, day and subject such that each placement is in
-- the room named for each class of its lesson, the day of its time block and the lesson's subject.
pub validate_no_room_hopping_iff :
    (problem : Problem) (placements : List Placement)
    → (validate_no_room_hopping problem placements ≡ ok tt)
      ↔ ((room : ℕ → ℕ → ℕ → ℕ) × All (KeepsRoom problem room) placements)
unfolding validate_no_room_hopping
validate_no_room_hopping_iff problem placements =
    let both = enter_each_iff room_hopping (hop_keys problem) (λ p. p.room_id) placements in
    let loop = enter_each room_hopping (hop_keys problem) (λ p. p.room_id) placements [] in
    (
      (λ q.
          let (h, done, _) = >>=-eq-ok loop (λ _. ok tt) q in
          let (room, kept) = both.0 (h, done) in
          (
            λ c day subject. room (c, day, subject),
            All-map (Kept-KeepsRoom problem room) placements kept,
          )),
      (λ (room, keeps).
          let (h, done) = both.1 (
            λ key. room key.0 key.1 key.2,
            All-map (KeepsRoom-Kept problem room) placements keeps,
          ) in
          rw done refl),
    )

-- The room that is named for a class of the placement is the placement's.
named_room :
    (problem : Problem) (room : ℕ → ℕ → ℕ → ℕ) (p : Placement) (l : Lesson) (tb : TimeBlock) (c : ℕ)
    → KeepsRoom problem room p
    → find_lesson problem p.lesson_id ≡ some l
    → find_time_block problem p.time_block_id ≡ some tb
    → In c l.school_class_ids
    → room c tb.day_of_week l.subject_id ≡ p.room_id
named_room problem room p l tb c (l', tb', found, found', same) of_lesson of_block i =
    let e : l' ≡ l = some-inj (sym found ∙ of_lesson) in
    let e' : tb' ≡ tb = some-inj (sym found' ∙ of_block) in
    All-In (λ c. room c tb.day_of_week l.subject_id ≡ p.room_id) l.school_class_ids
      (rw (e, e') at same) i

-- When the validator accepts, two of the placements, of lessons of the same subject that share a
-- class, on time blocks of the same day, are in the same room.
pub validate_no_room_hopping-same_room :
    (problem : Problem) (placements : List Placement) (p q : Placement) (l m : Lesson)
    (tb ub : TimeBlock) (c : ℕ)
    → validate_no_room_hopping problem placements ≡ ok tt
    → In p placements
    → In q placements
    → find_lesson problem p.lesson_id ≡ some l
    → find_lesson problem q.lesson_id ≡ some m
    → find_time_block problem p.time_block_id ≡ some tb
    → find_time_block problem q.time_block_id ≡ some ub
    → l.subject_id ≡ m.subject_id
    → tb.day_of_week ≡ ub.day_of_week
    → In c l.school_class_ids
    → In c m.school_class_ids
    → p.room_id ≡ q.room_id
validate_no_room_hopping-same_room problem placements p q l m tb ub c accepted in_p in_q lp lq bp bq
      subject day cp cq =
    let (room, agree) = (validate_no_room_hopping_iff problem placements).0 accepted in
    let keeps = KeepsRoom problem room in
    let first = named_room problem room p l tb c (All-In keeps placements agree in_p) lp bp cp in
    let second = named_room problem room q m ub c (All-In keeps placements agree in_q) lq bq cq in
    sym first ∙ rw (subject, day) second
