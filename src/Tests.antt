-- ===== src/Tests.antt =====
-- A small school that the tests run on: two classes, two teachers and two rooms, four lesson slots and a
-- break between the first two of day 0.
mod Score
mod Ordering
mod Greedy
mod Pins
mod Changes
mod Lahc
mod Validate
mod Supervision
mod Solution
use klassenzeit.Base.{Option, none, some, List, [], ◌∷◌, ℕ}
use klassenzeit.Types.{
  TimeBlock, TimeBlockKind, lesson_slot, break_slot, Teacher, Room, Subject, SchoolClass, Lesson,
  Problem, Placement, TeacherQualification,
}

abbrev pub block : ℕ → ℕ → ℕ → TimeBlockKind → TimeBlock
block id day position kind = record { id = id; day_of_week = day; position = position; kind = kind }

abbrev pub maths : Subject
maths = record {
  id = 31;
  prefer_early_period = 2;
  avoid_first_period = 1;
  avoid_last_period = 0;
  prefer_late_period = 0;
  max_hours_per_day = 2;
}

abbrev pub class_a : SchoolClass
class_a = record {
  id = 1;
  home_room_id = some 21;
  max_lessons_per_day = none;
  class_teacher_id = some 11;
}

abbrev pub class_b : SchoolClass
class_b = record {
  id = 2;
  home_room_id = none;
  max_lessons_per_day = some 4;
  class_teacher_id = none;
}

abbrev pub lesson_a : Lesson
lesson_a = record {
  id = 51;
  school_class_ids = 1 ∷ [];
  subject_id = 31;
  teacher_candidates = 11 ∷ 12 ∷ [];
  teacher_pin = some 11;
  hours_per_week = 2;
  preferred_block_size = 1;
  lesson_group_id = none;
  pre_buffer_minutes = 0;
  post_buffer_minutes = 0;
}

abbrev pub lesson_b : Lesson
lesson_b = record {
  id = 52;
  school_class_ids = 2 ∷ [];
  subject_id = 31;
  teacher_candidates = 12 ∷ [];
  teacher_pin = none;
  hours_per_week = 2;
  preferred_block_size = 2;
  lesson_group_id = none;
  pre_buffer_minutes = 0;
  post_buffer_minutes = 0;
}

abbrev pub school : Problem
school = record {
  time_blocks =
      block 41 0 0 lesson_slot
      ∷ block 42 0 1 break_slot
      ∷ block 43 0 2 lesson_slot
      ∷ block 44 0 3 lesson_slot
      ∷ block 45 1 0 lesson_slot
      ∷ [];
  teachers =
      record { id = 11; max_hours_per_week = 20; reserve_hours_per_week = 2 }
      ∷ record { id = 12; max_hours_per_week = 20; reserve_hours_per_week = 0 }
      ∷ [];
  rooms = record { id = 21 } ∷ record { id = 22 } ∷ [];
  subjects = maths ∷ [];
  school_classes = class_a ∷ class_b ∷ [];
  lessons = lesson_a ∷ lesson_b ∷ [];
  teacher_qualifications = record { teacher_id = 11; subject_id = 31 } ∷ [];
  teacher_blocked_times = [];
  room_blocked_times = [];
  room_subject_suitabilities = [];
  pinned_placements = [];
  pre_first_slot_grace_minutes = 0;
}

abbrev pub place : ℕ → ℕ → ℕ → ℕ → Placement
place l tb room teacher = record {
  lesson_id = l;
  time_block_id = tb;
  room_id = room;
  teacher_id = teacher;
}

-- Lesson 51 before the break and on the next day, lesson 52 as a block after the break.
abbrev pub timetable : List Placement
timetable = place 51 41 21 11 ∷ place 51 45 21 11 ∷ place 52 43 22 12 ∷ place 52 44 22 12 ∷ []
