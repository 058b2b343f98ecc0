-- ===== src/Validate/PreSolve.antt =====
-- `pre_solve_violations`: a violation for each block of a lesson whose teacher is not qualified.
use klassenzeit.Base.{
  ℕ, ◌+◌, ◌*◌, ◌/◌, ◌≡◌, Bool, false, Option, none, some, List, [], ◌∷◌, ◌++◌, HashSet, contains,
  add, pair_eq, if◌then◌else◌, length, any, ◌==◌, ◌&&◌,
}
use klassenzeit.Types.{
  Problem, Lesson, TeacherQualification, Violation, no_qualified_teacher, assigned_teacher_id,
}
use klassenzeit.Score.Balance.{range}

unfoldable pub collect_qualified : List TeacherQualification → HashSet (ℕ × ℕ) → HashSet (ℕ × ℕ)
unfolding add
collect_qualified [] s = s
collect_qualified (q ∷ qs) s = collect_qualified qs (add (q.teacher_id, q.subject_id) s)

-- `for block_index in 0..block_count`
unfoldable pub block_violations : Lesson → List ℕ → List Violation
block_violations l [] = []
block_violations l (b ∷ bs) =
    record {
      kind = no_qualified_teacher;
      lesson_id = l.id;
      hour_index = b * l.preferred_block_size;
      reason = none;
    }
    ∷ block_violations l bs

-- The list of a lesson in front of those of the rest.
abbrev in_front : List Violation → Option (List Violation) → Option (List Violation)
in_front vs none = none
in_front vs (some rest) = some (vs ++ rest)

-- `none` is a panic: a lesson without a teacher, or a division by a block size of 0.
unfoldable pub lesson_violations : HashSet (ℕ × ℕ) → List Lesson → Option (List Violation)
unfolding contains assigned_teacher_id block_violations range
lesson_violations qualified [] = some []
lesson_violations qualified (l ∷ ls) =
    let rest = lesson_violations qualified ls in
    elim (assigned_teacher_id l) [
      | none ↦ none
      | some t ↦
          if contains qualified (t, l.subject_id)
          then rest
          else (if l.preferred_block_size == 0
              then none
              else in_front
                  (block_violations l (range 0 (l.hours_per_week / l.preferred_block_size))) rest)
    ]

unfoldable pub pre_solve_violations : Problem → Option (List Violation)
unfolding collect_qualified lesson_violations
pre_solve_violations problem =
    lesson_violations (collect_qualified problem.teacher_qualifications []) problem.lessons

-- A record of the problem qualifies the lesson's teacher for its subject.
abbrev pub has_record : List TeacherQualification → Lesson → Bool
has_record qs l = elim (assigned_teacher_id l) [
  | none ↦ false
  | some t ↦ any (λ q. (q.teacher_id == t) && (q.subject_id == l.subject_id)) qs
]

-- The number of blocks of the lessons that no record qualifies.
abbrev pub unqualified_blocks : List TeacherQualification → List Lesson → ℕ
unqualified_blocks qs [] = 0
unqualified_blocks qs (l ∷ ls) =
    (if has_record qs l then 0 else l.hours_per_week / l.preferred_block_size)
    + unqualified_blocks qs ls

-- The lesson has a teacher and blocks of at least one hour.
abbrev pub IsStaffed : Lesson → Type 0
IsStaffed l = ((t : ℕ) × (assigned_teacher_id l ≡ some t)) × ((l.preferred_block_size == 0) ≡ false)

-- The list that the loop returns, with its length.
abbrev Returns : Option (List Violation) → ℕ → Type 0
Returns o n = (vs : List Violation) × (o ≡ some vs) × (length vs ≡ n)
