-- ===== src/Validate/DoubleBooking.antt =====
-- `validate_no_double_booking`: no class, teacher or room twice at a time, no lesson more often than its
-- hours, and every block in one room at consecutive positions of a day.
pub mod Exclusive
use klassenzeit.Base.{
  ℕ, zero, suc, ◌%◌, ◌≡◌, Bool, true, false, ◌&&◌, not, Option, none, some, List, [], ◌∷◌, ◌++◌,
  ◌==◌, ltb, leb, if◌then◌else◌, HashMap, get, insert, update, nat_eq, pair_eq, length, add_u8,
  sort_by, ◌-◌,
}
use klassenzeit.Types.{Problem, Lesson, TimeBlock, Placement}
use klassenzeit.Validate.Outcome.{
  Error, Result, ok, err, ◌>>=◌, ◌>>◌, ok_or, refuse_if, unknown_lesson, unknown_time_block,
  double_class, double_teacher, double_room, cardinality, block_count, block_positions, block_rooms,
}
use klassenzeit.Validate.Entries.{enter}
use klassenzeit.Validate.Teachers.{lesson_by_id}
use klassenzeit.Validate.BreakSlots.{tb_by_id}

-- A row: day, position and room.
abbrev pub Row : Type 0
Row = ℕ × ℕ × ℕ

pub record Used : Type 0 where
  pub class_used : HashMap (ℕ × ℕ) ℕ
  pub teacher_used : HashMap (ℕ × ℕ) ℕ
  pub room_used : HashMap (ℕ × ℕ) ℕ
  pub rows_by_lesson : HashMap ℕ (List Row)

abbrev pub nothing_used : Used
nothing_used = record { class_used = []; teacher_used = []; room_used = []; rows_by_lesson = [] }

unfoldable pub same_group : Option ℕ → Option ℕ → Bool
same_group (some a) (some b) = a == b
same_group (some a) none = false
same_group none b = false

-- One class at one time. The lesson that is there was found before, so the lookup of it succeeds.
unfoldable pub claim_class :
    HashMap ℕ Lesson → Lesson → ℕ → ℕ → ℕ → HashMap (ℕ × ℕ) ℕ → Result (HashMap (ℕ × ℕ) ℕ)
unfolding get insert same_group
claim_class lessons lesson' lesson_id tb c used = elim (get used (c, tb)) [
  | none ↦ ok (insert (c, tb) lesson_id used)
  | some old ↦
      if old == lesson_id
      then ok used
      else (ok_or (get lessons old) (unknown_lesson old) >>= λ other.
          if same_group lesson'.lesson_group_id other.lesson_group_id
          then ok used
          else err (double_class c tb old lesson_id))
]

unfoldable pub claim_classes :
    HashMap ℕ Lesson → Lesson → ℕ → ℕ → List ℕ → HashMap (ℕ × ℕ) ℕ → Result (HashMap (ℕ × ℕ) ℕ)
unfolding claim_class
claim_classes lessons lesson' lesson_id tb [] used = ok used
claim_classes lessons lesson' lesson_id tb (c ∷ cs) used =
    claim_class lessons lesson' lesson_id tb c used >>= λ used'.
    claim_classes lessons lesson' lesson_id tb cs used'

-- The body of the first loop.
unfoldable pub book : HashMap ℕ Lesson → HashMap ℕ TimeBlock → Placement → Used → Result Used
unfolding get update claim_classes enter
book lessons time_blocks p used = do
  lesson' ← ok_or (get lessons p.lesson_id) (unknown_lesson p.lesson_id)
  tb ← ok_or (get time_blocks p.time_block_id) (unknown_time_block p.time_block_id)
  classes ←
      claim_classes lessons lesson' p.lesson_id p.time_block_id lesson'.school_class_ids
        used.class_used
  teachers ←
      enter (λ key. double_teacher key.0 key.1) (p.teacher_id, p.time_block_id) p.lesson_id
        used.teacher_used
  rooms ←
      enter (λ key. double_room key.0 key.1) (p.room_id, p.time_block_id) p.lesson_id used.room_used
  ok (record {
    class_used = classes;
    teacher_used = teachers;
    room_used = rooms;
    rows_by_lesson =
        update p.lesson_id [] (λ rows. rows ++ ((tb.day_of_week, tb.position, p.room_id) ∷ []))
          used.rows_by_lesson;
  })

unfoldable pub book_all :
    HashMap ℕ Lesson → HashMap ℕ TimeBlock → List Placement → Used → Result Used
unfolding book
book_all lessons time_blocks [] used = ok used
book_all lessons time_blocks (p ∷ ps) used =
    book lessons time_blocks p used >>= λ used'. book_all lessons time_blocks ps used'

abbrev row_le : Row → Row → Bool
row_le a b = if a.0 == b.0 then leb a.1 b.1 else ltb a.0 b.0

-- The rows of a lesson by day.
by_day : List Row → HashMap ℕ (List (ℕ × ℕ)) → HashMap ℕ (List (ℕ × ℕ))
unfolding update
by_day [] groups = groups
by_day ((day, position, room) ∷ rows) groups =
    by_day rows (update day [] (λ g. g ++ ((position, room) ∷ [])) groups)

-- `first_pos + i as u8` for the rows of a chunk.
check_positions : ℕ → ℕ → ℕ → List (ℕ × ℕ) → Result (Unit {0})
check_positions l first i [] = ok tt
check_positions l first i ((position, room) ∷ rows) =
    refuse_if (not (position == add_u8 first (i % 256))) (block_positions l)
    >> check_positions l first (suc i) rows

check_rooms : ℕ → ℕ → List (ℕ × ℕ) → Result (Unit {0})
check_rooms l first [] = ok tt
check_rooms l first ((position, room) ∷ rows) =
    refuse_if (not (room == first)) (block_rooms l) >> check_rooms l first rows

check_chunk : ℕ → List (ℕ × ℕ) → Result (Unit {0})
unfolding check_positions check_rooms
check_chunk l [] = ok tt
check_chunk l ((position, room) ∷ rows) =
    check_positions l position 0 ((position, room) ∷ rows)
    >> check_rooms l room ((position, room) ∷ rows)

-- `chunks(n)`: the chunk so far, and the number of rows it lacks.
check_chunks : ℕ → ℕ → ℕ → List (ℕ × ℕ) → List (ℕ × ℕ) → Result (Unit {0})
unfolding check_chunk
check_chunks l n room_left chunk [] = check_chunk l chunk
check_chunks l n zero chunk (row ∷ rows) =
    check_chunk l chunk >> check_chunks l n (n - 1) (row ∷ []) rows
check_chunks l n (suc room_left) chunk (row ∷ rows) =
    check_chunks l n room_left (chunk ++ (row ∷ [])) rows

-- A block size of 0, with which the source panics here, is refused by `validate_structural`.
check_days : ℕ → ℕ → HashMap ℕ (List (ℕ × ℕ)) → Result (Unit {0})
unfolding check_chunks
check_days l n [] = ok tt
check_days l n ((day, rows) ∷ days) =
    refuse_if (not (length rows % n == 0)) (block_count l)
    >> check_chunks l n n [] rows
    >> check_days l n days

unfoldable pub check_rows : HashMap ℕ Lesson → HashMap ℕ (List Row) → Result (Unit {0})
unfolding get sort_by by_day check_days
check_rows lessons [] = ok tt
check_rows lessons ((id, rows) ∷ more) = do
  l ← ok_or (get lessons id) (unknown_lesson id)
  refuse_if (ltb l.hours_per_week (length rows)) (cardinality id)
  check_days id l.preferred_block_size (by_day (sort_by row_le rows) [])
  check_rows lessons more

unfoldable pub validate_no_double_booking : Problem → List Placement → Result (Unit {0})
unfolding book_all check_rows lesson_by_id tb_by_id
validate_no_double_booking problem placements = do
  used ← book_all (lesson_by_id problem) (tb_by_id problem) placements nothing_used
  check_rows (lesson_by_id problem) used.rows_by_lesson
