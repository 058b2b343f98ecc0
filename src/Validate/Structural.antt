-- ===== src/Validate/Structural.antt =====
-- `validate_structural` and `collect_unique`: the problem's ids and references.
pub mod Accepted
use klassenzeit.Base.{
  ℕ, ◌%◌, ◌≡◌, Bool, true, false, ◌&&◌, not, Option, none, some, List, [], ◌∷◌, ◌++◌, ◌==◌, ltb,
  if◌then◌else◌, HashSet, HashMap, contains, add, nat_eq, update, map, length,
}
use klassenzeit.Types.{
  Problem, Lesson, TimeBlock, Teacher, Room, Subject, SchoolClass, TeacherQualification,
  TeacherBlockedTime, RoomBlockedTime, RoomSubjectSuitability, assigned_teacher_id,
}
use klassenzeit.Validate.Outcome.{
  Error, Result, ok, err, ◌>>=◌, ◌>>◌, ok_or, refuse_if, no_time_blocks, no_rooms, duplicate_id,
  zero_hours, zero_block_size, indivisible, no_teacher, no_classes, unknown_teacher,
  unknown_subject, unknown_school_class, duplicate_school_class, qualification_teacher,
  qualification_subject, teacher_block_teacher, teacher_block_time_block, room_block_room,
  room_block_time_block, suitability_room, suitability_subject, group_hours, group_block_size,
  group_teacher,
}

abbrev pub is_empty : {A : Type 0} → List A → Bool
is_empty [] = true
is_empty (x ∷ xs) = false

abbrev pub is_none : Option ℕ → Bool
is_none none = true
is_none (some x) = false

-- `for x in xs { check(x)?; }`
abbrev pub each : {A : Type 0} → (A → Result (Unit {0})) → List A → Result (Unit {0})
each check [] = ok tt
each check (x ∷ xs) = check x >> each check xs

unfoldable pub collect_unique : List ℕ → HashSet ℕ → Result (HashSet ℕ)
unfolding contains add
collect_unique [] set = ok set
collect_unique (id ∷ ids) set =
    refuse_if (contains set id) (duplicate_id id) >> collect_unique ids (add id set)

-- The classes of a lesson: none twice, and each one known.
unfoldable pub check_classes : ℕ → HashSet ℕ → List ℕ → HashSet ℕ → Result (Unit {0})
unfolding contains add
check_classes lesson' class_ids [] seen = ok tt
check_classes lesson' class_ids (c ∷ cs) seen =
    refuse_if (contains seen c) (duplicate_school_class lesson' c)
    >> refuse_if (not (contains class_ids c)) (unknown_school_class lesson' c)
    >> check_classes lesson' class_ids cs (add c seen)

unfoldable pub check_lesson : HashSet ℕ → HashSet ℕ → HashSet ℕ → Lesson → Result (Unit {0})
unfolding contains assigned_teacher_id check_classes
check_lesson teacher_ids subject_ids class_ids l = do
  refuse_if (l.hours_per_week == 0) (zero_hours l.id)
  refuse_if (l.preferred_block_size == 0) (zero_block_size l.id)
  refuse_if (not (l.hours_per_week % l.preferred_block_size == 0)) (indivisible l.id)
  refuse_if (is_none l.teacher_pin && is_empty l.teacher_candidates) (no_teacher l.id)
  t ← ok_or (assigned_teacher_id l) (no_teacher l.id)
  refuse_if (not (contains teacher_ids t)) (unknown_teacher l.id t)
  refuse_if (not (contains subject_ids l.subject_id)) (unknown_subject l.id l.subject_id)
  refuse_if (is_empty l.school_class_ids) (no_classes l.id)
  check_classes l.id class_ids l.school_class_ids []

-- Two references of a record, each in its set.
abbrev pub check_both :
    HashSet ℕ → ℕ → (ℕ → Error) → HashSet ℕ → ℕ → (ℕ → Error) → Result (Unit {0})
check_both s x e s' y e' =
    refuse_if (not (contains s x)) (e x) >> refuse_if (not (contains s' y)) (e' y)

-- The lessons of each group, in order.
unfoldable pub group_lessons : List Lesson → HashMap ℕ (List Lesson) → HashMap ℕ (List Lesson)
unfolding update
group_lessons [] groups = groups
group_lessons (l ∷ ls) groups = group_lessons ls (elim l.lesson_group_id [
  | none ↦ groups
  | some g ↦ update g [] (λ members. members ++ (l ∷ [])) groups
])

check_member : ℕ → Lesson → Lesson → Result (Unit {0})
check_member group first member =
    refuse_if (not (member.hours_per_week == first.hours_per_week))
      (group_hours group first.hours_per_week member.hours_per_week)
    >> refuse_if (not (member.preferred_block_size == first.preferred_block_size))
        (group_block_size group first.preferred_block_size member.preferred_block_size)

check_teachers : ℕ → List Lesson → HashSet ℕ → Result (Unit {0})
unfolding contains add assigned_teacher_id
check_teachers group [] seen = ok tt
check_teachers group (member ∷ members) seen = do
  t ← ok_or (assigned_teacher_id member) (no_teacher member.id)
  refuse_if (contains seen t) (group_teacher group t)
  check_teachers group members (add t seen)

unfoldable pub check_group : ℕ × List Lesson → Result (Unit {0})
unfolding check_member check_teachers
check_group (group, []) = ok tt
check_group (group, first ∷ []) = ok tt
check_group (group, first ∷ second ∷ rest) =
    each (check_member group first) (second ∷ rest)
    >> check_teachers group (first ∷ second ∷ rest) []

unfoldable pub validate_structural : Problem → Result (Unit {0})
unfolding collect_unique check_lesson group_lessons check_group contains
validate_structural problem = do
  refuse_if (is_empty problem.time_blocks) no_time_blocks
  refuse_if (is_empty problem.rooms) no_rooms
  time_block_ids ← collect_unique (map (λ x. x.id) problem.time_blocks) []
  teacher_ids ← collect_unique (map (λ x. x.id) problem.teachers) []
  room_ids ← collect_unique (map (λ x. x.id) problem.rooms) []
  subject_ids ← collect_unique (map (λ x. x.id) problem.subjects) []
  class_ids ← collect_unique (map (λ x. x.id) problem.school_classes) []
  lesson_ids ← collect_unique (map (λ x. x.id) problem.lessons) []
  each (check_lesson teacher_ids subject_ids class_ids) problem.lessons
  each
      (λ q.
        check_both teacher_ids q.teacher_id qualification_teacher subject_ids q.subject_id
          qualification_subject)
      problem.teacher_qualifications
  each
      (λ b.
        check_both teacher_ids b.teacher_id teacher_block_teacher time_block_ids b.time_block_id
          teacher_block_time_block)
      problem.teacher_blocked_times
  each
      (λ b.
        check_both room_ids b.room_id room_block_room time_block_ids b.time_block_id
          room_block_time_block)
      problem.room_blocked_times
  each
      (λ s.
        check_both room_ids s.room_id suitability_room subject_ids s.subject_id suitability_subject)
      problem.room_subject_suitabilities
  each check_group (group_lessons problem.lessons [])
