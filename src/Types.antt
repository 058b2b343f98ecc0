-- ===== src/Types.antt =====
-- The data of solver/solver-core/src/types.rs and ids.rs, and the error type of error.rs.
-- An id is the 128-bit number of its UUID, whose byte order is the order of the number.
-- `u8`, `u32` and `u64` fields are natural numbers; their ranges are stated where they matter.
use klassenzeit.Base.{ℕ, ◌-◌, Option, none, some, List, [], ◌∷◌}

pub data TimeBlockKind : Type 0 where
  lesson_slot break_slot : TimeBlockKind

pub record TimeBlock : Type 0 where
  pub id : ℕ
  pub day_of_week : ℕ
  pub position : ℕ
  pub kind : TimeBlockKind

pub record Teacher : Type 0 where
  pub id : ℕ
  pub max_hours_per_week : ℕ
  pub reserve_hours_per_week : ℕ

-- `saturating_sub` on `u8`.
unfoldable pub effective_max_hours_per_week : Teacher → ℕ
effective_max_hours_per_week t = t.max_hours_per_week - t.reserve_hours_per_week

pub record Room : Type 0 where
  pub id : ℕ

pub record Subject : Type 0 where
  pub id : ℕ
  pub prefer_early_period : ℕ
  pub avoid_first_period : ℕ
  pub avoid_last_period : ℕ
  pub prefer_late_period : ℕ
  pub max_hours_per_day : ℕ

pub record SchoolClass : Type 0 where
  pub id : ℕ
  pub home_room_id : Option ℕ
  pub max_lessons_per_day : Option ℕ
  pub class_teacher_id : Option ℕ

pub record Lesson : Type 0 where
  pub id : ℕ
  pub school_class_ids : List ℕ
  pub subject_id : ℕ
  pub teacher_candidates : List ℕ
  pub teacher_pin : Option ℕ
  pub hours_per_week : ℕ
  pub preferred_block_size : ℕ
  pub lesson_group_id : Option ℕ
  pub pre_buffer_minutes : ℕ
  pub post_buffer_minutes : ℕ

first_candidate : List ℕ → Option ℕ
first_candidate [] = none
first_candidate (t ∷ ts) = some t

-- `none` is the panic on a lesson with neither a pin nor a candidate.
unfoldable pub assigned_teacher_id : Lesson → Option ℕ
unfolding first_candidate
assigned_teacher_id l = elim l.teacher_pin [
  | some t ↦ some t
  | none ↦ first_candidate l.teacher_candidates
]

pub record TeacherQualification : Type 0 where
  pub teacher_id : ℕ
  pub subject_id : ℕ

pub record TeacherBlockedTime : Type 0 where
  pub teacher_id : ℕ
  pub time_block_id : ℕ

pub record RoomBlockedTime : Type 0 where
  pub room_id : ℕ
  pub time_block_id : ℕ

pub record RoomSubjectSuitability : Type 0 where
  pub room_id : ℕ
  pub subject_id : ℕ

pub data PinKind : Type 0 where
  hard soft : PinKind

pub record PinnedPlacement : Type 0 where
  pub lesson_id : ℕ
  pub time_block_id : ℕ
  pub room_id : ℕ
  pub teacher_id : Option ℕ
  pub kind : PinKind

pub record Problem : Type 0 where
  pub time_blocks : List TimeBlock
  pub teachers : List Teacher
  pub rooms : List Room
  pub subjects : List Subject
  pub school_classes : List SchoolClass
  pub lessons : List Lesson
  pub teacher_qualifications : List TeacherQualification
  pub teacher_blocked_times : List TeacherBlockedTime
  pub room_blocked_times : List RoomBlockedTime
  pub room_subject_suitabilities : List RoomSubjectSuitability
  pub pinned_placements : List PinnedPlacement
  pub pre_first_slot_grace_minutes : ℕ

pub record Placement : Type 0 where
  pub lesson_id : ℕ
  pub time_block_id : ℕ
  pub room_id : ℕ
  pub teacher_id : ℕ

pub record SupervisionAssignment : Type 0 where
  pub time_block_id : ℕ
  pub teacher_id : ℕ

pub data ViolationKind : Type 0 where
  no_qualified_teacher teacher_over_capacity no_free_time_block no_suitable_room : ViolationKind
  lesson_group_split pinned_conflict subject_daily_hour_cap_exceeded : ViolationKind
  class_daily_lesson_cap_exceeded class_subject_teacher_split supervision_gap : ViolationKind
  travel_buffer_conflict : ViolationKind

-- The reason strings that the modelled code formats, with their arguments.
pub data Reason : Type 0 where
  no_candidates : ℕ → ℕ → Reason
  unknown_lesson unknown_time_block unknown_room duplicate_slot block_size_mismatch : Reason

pub record Violation : Type 0 where
  pub kind : ViolationKind
  pub lesson_id : ℕ
  pub hour_index : ℕ
  pub reason : Option Reason

pub record ConstraintWeights : Type 0 where
  pub class_gap : ℕ
  pub teacher_gap : ℕ
  pub prefer_early_period : ℕ
  pub avoid_first_period : ℕ
  pub prefer_home_room : ℕ
  pub avoid_last_period : ℕ
  pub prefer_late_period : ℕ
  pub class_day_balance : ℕ
  pub prefer_class_teacher : ℕ
  pub max_per_class_spread : ℕ
  pub max_per_class_interior_gaps : ℕ
  pub supervision_spread : ℕ
  pub soft_pin_miss : ℕ

abbrev pub production_active_weights : ConstraintWeights
production_active_weights = record {
  class_gap = 10;
  teacher_gap = 10;
  prefer_early_period = 1;
  avoid_first_period = 1;
  prefer_home_room = 5;
  avoid_last_period = 1;
  prefer_late_period = 1;
  class_day_balance = 20;
  prefer_class_teacher = 5;
  max_per_class_spread = 10;
  max_per_class_interior_gaps = 25;
  supervision_spread = 5;
  soft_pin_miss = 5;
}
