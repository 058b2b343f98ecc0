-- ===== src/Tests/Validate.antt =====
-- The validators on the sample timetable.
use klassenzeit.Base.{
  here, there, ℕ, ◌≤◌, ◌≡◌, ◌↔◌, refl, arith, ◌&&◌, ◌||◌, not, none, some, [], ◌∷◌, ◌==◌, All, any,
  get, nat_eq, pair_eq, triple_eq,
}
use klassenzeit.Types.{Problem, no_qualified_teacher, Lesson, lesson_slot}
use klassenzeit.Index.{new, teacher_qualified, room_suits_subject}
use klassenzeit.Index.Relations.{teacher_qualified-new, room_suits_subject-new}
use klassenzeit.Validate.Outcome.{ok, err, subject_cap, first_slot, last_slot, pre_teacher}
use klassenzeit.Validate.Entries.{}
use klassenzeit.Validate.RoomHopping.{
  KeepsRoom, validate_no_room_hopping, validate_no_room_hopping_iff,
  validate_no_room_hopping-same_room,
}
use klassenzeit.Validate.Teachers.{
  KeepsTeacher, lesson_by_id, IsAllowed, validate_placement_teacher_in_candidates,
  validate_placement_teacher_in_candidates_iff, validate_class_subject_teacher_uniformity,
  validate_class_subject_teacher_uniformity_iff,
}
use klassenzeit.Validate.BreakSlots.{
  OnLesson, validate_no_lesson_on_break_slot, validate_no_lesson_on_break_slot_iff,
}
use klassenzeit.Validate.PreSolve.{pre_solve_violations}
use klassenzeit.Validate.Structural.{validate_structural}
use klassenzeit.Validate.Structural.Accepted.{IsStructured, validate_structural-IsStructured}
use klassenzeit.Validate.DoubleBooking.{validate_no_double_booking}
use klassenzeit.Validate.DoubleBooking.Exclusive.{
  placements_of, validate_no_double_booking-exclusive,
}
use klassenzeit.Validate.DailyCaps.{validate_daily_caps}
use klassenzeit.Validate.DailyCaps.Hours.{hours_of, validate_daily_caps-hours_of}
use klassenzeit.Validate.TravelBuffer.{validate_travel_buffer}
use klassenzeit.Tests.{maths, school, timetable, place, lesson_a, lesson_b, block}

hopping_accepted : validate_no_room_hopping school timetable ≡ ok tt
unfolding validate_no_room_hopping
hopping_accepted = refl

booking_accepted : validate_no_double_booking school timetable ≡ ok tt
unfolding validate_no_double_booking
booking_accepted = refl

structure_accepted : validate_structural school ≡ ok tt
unfolding validate_structural
structure_accepted = refl

-- Two equal rows of a lesson with two hours and blocks of one pass.
same_row_twice :
    validate_no_double_booking school (place 51 41 21 11 ∷ place 51 41 21 11 ∷ []) ≡ ok tt
unfolding validate_no_double_booking
same_row_twice = refl

validate_no_room_hopping_iff_example :
    (validate_no_room_hopping school timetable ≡ ok tt)
    ↔ ((room : ℕ → ℕ → ℕ → ℕ) × All (KeepsRoom school room) timetable)
validate_no_room_hopping_iff_example = validate_no_room_hopping_iff school timetable

same_room_example : (place 52 43 22 12).room_id ≡ (place 52 44 22 12).room_id
same_room_example =
    validate_no_room_hopping-same_room school timetable (place 52 43 22 12) (place 52 44 22 12)
      lesson_b lesson_b (block 43 0 2 lesson_slot) (block 44 0 3 lesson_slot) 2 hopping_accepted
      (there (there here)) (there (there (there here))) refl refl refl refl refl refl here here

uniformity_example :
    (validate_class_subject_teacher_uniformity school timetable ≡ ok tt)
    ↔ ((teacher : ℕ → ℕ → ℕ) × All (KeepsTeacher school teacher) timetable)
uniformity_example = validate_class_subject_teacher_uniformity_iff school timetable

candidates_example :
    (validate_placement_teacher_in_candidates school timetable ≡ ok tt)
    ↔ All (IsAllowed school) timetable
candidates_example = validate_placement_teacher_in_candidates_iff school timetable

break_slot_example :
    (validate_no_lesson_on_break_slot school timetable ≡ ok tt) ↔ All (OnLesson school) timetable
break_slot_example = validate_no_lesson_on_break_slot_iff school timetable

double_booking_example :
    ((of_teacher : ℕ × ℕ → ℕ) × All
        (λ p. of_teacher (p.teacher_id, p.time_block_id) ≡ p.lesson_id)
        timetable)
    × ((of_room : ℕ × ℕ → ℕ) × All
          (λ p. of_room (p.room_id, p.time_block_id) ≡ p.lesson_id)
          timetable)
    × ((id : ℕ) (l : Lesson)
        → get (lesson_by_id school) id ≡ some l
        → placements_of id timetable ≤ l.hours_per_week)
double_booking_example = validate_no_double_booking-exclusive school timetable booking_accepted

structural_example : IsStructured school
structural_example = validate_structural-IsStructured school structure_accepted

-- Lesson 52, of two hours in one block, has one violation.
one_per_block :
    pre_solve_violations school
    ≡ some
        (record { kind = no_qualified_teacher; lesson_id = 52; hour_index = 0; reason = none } ∷ [])
unfolding pre_solve_violations
one_per_block = refl

qualified_example :
    teacher_qualified (new school) 11 31
    ≡ any (λ q. (q.teacher_id == 11) && (q.subject_id == 31)) school.teacher_qualifications
qualified_example = teacher_qualified-new school 11 31

suits_example : room_suits_subject (new school) 21 31 ≡ (
    not (any (λ x. x.room_id == 21) school.room_subject_suitabilities)
    || any (λ x. (x.room_id == 21) && (x.subject_id == 31)) school.room_subject_suitabilities)
suits_example = room_suits_subject-new school 21 31

caps_accepted : validate_daily_caps school timetable ≡ ok tt
unfolding validate_daily_caps
caps_accepted = refl

-- A third hour of the subject on the day is refused.
caps_refused :
    validate_daily_caps school (place 52 41 22 12 ∷ timetable) ≡ err (subject_cap (2, 0, 31) 3 2)
unfolding validate_daily_caps
caps_refused = refl

caps_fit : hours_of school 2 0 31 timetable ≤ 4294967295
unfolding hours_of
caps_fit = omega arith

caps_example : hours_of school 2 0 31 timetable ≤ 2
caps_example =
    validate_daily_caps-hours_of school timetable 2 0 31 maths caps_accepted refl caps_fit

-- Lesson 51 needs ten minutes on both sides, and so many are granted before the first slot.
abbrev buffered : ℕ → Problem
buffered grace = record school {
  lessons = record lesson_a { pre_buffer_minutes = 10; post_buffer_minutes = 10 } ∷ lesson_b ∷ [];
  pre_first_slot_grace_minutes = grace;
}

-- Before the break of day 0 the lesson has both sides free.
buffers_accepted :
    validate_travel_buffer
      (buffered 15)
      (place 51 41 21 11 ∷ place 52 43 22 12 ∷ place 52 44 22 12 ∷ [])
    ≡ ok tt
unfolding validate_travel_buffer
buffers_accepted = refl

-- Day 1 has no slot after its first.
buffers_at_end : validate_travel_buffer (buffered 15) timetable ≡ err (last_slot 51 1 0)
unfolding validate_travel_buffer
buffers_at_end = refl

buffers_at_start : validate_travel_buffer (buffered 0) timetable ≡ err (first_slot 51 0 0)
unfolding validate_travel_buffer
buffers_at_start = refl

-- Right after the lesson of the same teacher.
buffers_hit :
    validate_travel_buffer (buffered 15) (place 51 44 21 12 ∷ place 52 43 22 12 ∷ [])
    ≡ err (pre_teacher 51 12 0 3 52)
unfolding validate_travel_buffer
buffers_hit = refl

-- A second block of the lesson on the day is not the anchor, so the same neighbour passes there.
second_block_skipped :
    validate_travel_buffer
      (buffered 15)
      (place 51 41 21 11 ∷ place 51 44 21 12 ∷ place 52 43 22 12 ∷ [])
    ≡ ok tt
unfolding validate_travel_buffer
second_block_skipped = refl
