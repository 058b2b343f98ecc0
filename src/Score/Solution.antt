-- ===== src/Score/Solution.antt =====
-- The weighted score of a timetable (score.rs: `score_solution`). `none` is a panic: a placement of a
-- lesson, time block or subject that is not listed.
pub mod Slices
use klassenzeit.Base.{
  ℕ, Bool, true, false, ◌&&◌, not, Option, none, some, List, [], ◌∷◌, ◌==◌, if◌then◌else◌, filter,
  length, HashMap, HashSet, get, update, collect, contains, add, nat_eq, pair_eq, sat_add,
  sat_add_u8, sat_mul, as_u32, max,
}
use klassenzeit.Types.{
  Problem, Lesson, TimeBlock, Placement, TeacherQualification, ConstraintWeights,
}
use klassenzeit.Validate.Teachers.{lesson_by_id}
use klassenzeit.Validate.BreakSlots.{tb_by_id}
use klassenzeit.Supervision.{compute_supervision_spread}
use klassenzeit.Score.Balance.{class_day_balance_cost}
use klassenzeit.Score.HomeRoom.{home_room_penalty}
use klassenzeit.Score.Slice.{
  Positions, Days, no_days, sum_known, gather_days, sort_days, slice_costs_inner,
}
use klassenzeit.Score.Worst.{worst_class_spread, worst_class_interior_gaps}

-- A step that may panic.
infixl 5 ◌>>=◌
abbrev pub ◌>>=◌ : {A B : Type 0} → Option A → (A → Option B) → Option B
none >>= next = none
some value >>= next = next value

-- The test of the early return.
abbrev pub no_weights : ConstraintWeights → Bool
no_weights w =
    (w.class_gap == 0)
    && ((w.teacher_gap == 0)
        && ((w.prefer_early_period == 0)
            && ((w.avoid_first_period == 0)
                && ((w.prefer_home_room == 0)
                    && ((w.avoid_last_period == 0)
                        && ((w.prefer_late_period == 0)
                            && ((w.class_day_balance == 0)
                                && ((w.prefer_class_teacher == 0)
                                    && ((w.max_per_class_spread == 0)
                                        && ((w.max_per_class_interior_gaps == 0)
                                            && ((w.supervision_spread == 0)
                                                && (w.soft_pin_miss == 0))))))))))))

-- `.map(|tb| tb.day_of_week).max().map(|m| m.saturating_add(1)).unwrap_or(0)`
unfoldable pub day_count : List TimeBlock → ℕ
day_count [] = 0
day_count (tb ∷ tbs) = max (sat_add_u8 tb.day_of_week 1) (day_count tbs)

unfoldable pub placement_home_room :
    Problem → ConstraintWeights → HashMap ℕ (Option ℕ) → Placement → Option ℕ
unfolding get lesson_by_id home_room_penalty
placement_home_room problem weights homes p = elim (get (lesson_by_id problem) p.lesson_id) [
  | none ↦ none
  | some l ↦ some (home_room_penalty l homes p.room_id weights)
]

-- The teachers that are qualified for each subject.
unfoldable pub qualified_by_subject :
    List TeacherQualification → HashMap ℕ (HashSet ℕ) → HashMap ℕ (HashSet ℕ)
unfolding update add
qualified_by_subject [] m = m
qualified_by_subject (q ∷ qs) m =
    qualified_by_subject qs (update q.subject_id [] (add q.teacher_id) m)

-- `.entry((class_id, subject_id)).or_insert(p.teacher_id)` for each class of the lesson.
unfoldable pub first_teachers : ℕ → ℕ → List ℕ → HashMap (ℕ × ℕ) ℕ → HashMap (ℕ × ℕ) ℕ
unfolding update
first_teachers subject_id teacher [] m = m
first_teachers subject_id teacher (c ∷ cs) m =
    first_teachers subject_id teacher cs (update (c, subject_id) teacher (λ t. t) m)

unfoldable pub first_teacher_loop :
    HashMap ℕ Lesson → List Placement → HashMap (ℕ × ℕ) ℕ → Option (HashMap (ℕ × ℕ) ℕ)
unfolding get first_teachers
first_teacher_loop lessons [] m = some m
first_teacher_loop lessons (p ∷ ps) m = elim (get lessons p.lesson_id) [
  | none ↦ none
  | some l ↦
      first_teacher_loop lessons ps (first_teachers l.subject_id p.teacher_id l.school_class_ids m)
]

-- The class teacher is qualified for the subject and another teacher teaches it.
unfoldable pub is_miss : Option (Option ℕ) → Option (HashSet ℕ) → ℕ → Bool
unfolding contains
is_miss none qualified teacher = false
is_miss (some none) qualified teacher = false
is_miss (some (some klt)) none teacher = false
is_miss (some (some klt)) (some qualified) teacher = contains qualified klt && not (teacher == klt)

unfoldable pub count_misses :
    HashMap ℕ (Option ℕ) → HashMap ℕ (HashSet ℕ) → HashMap (ℕ × ℕ) ℕ → ℕ → ℕ
unfolding get is_miss
count_misses class_teachers qualified [] misses = misses
count_misses class_teachers qualified (((c, subject_id), teacher) ∷ m) misses =
    count_misses class_teachers qualified m (
      if is_miss (get class_teachers c) (get qualified subject_id) teacher
      then sat_add misses 1
      else misses)

-- The keys of the placements.
unfoldable pub placement_keys : List Placement → HashSet (ℕ × ℕ) → HashSet (ℕ × ℕ)
unfolding add
placement_keys [] keys = keys
placement_keys (p ∷ ps) keys = placement_keys ps (add (p.lesson_id, p.time_block_id) keys)

-- The soft pins that no placement has; the source skips the count where it would be 0 or unused.
unfoldable pub soft_pin_misses : List Placement → ConstraintWeights → HashSet (ℕ × ℕ) → ℕ
unfolding placement_keys contains
soft_pin_misses placements weights [] = 0
soft_pin_misses placements weights (pin ∷ pins) =
    if weights.soft_pin_miss == 0
    then 0
    else as_u32
        (length (filter (λ key. not (contains (placement_keys placements []) key)) (pin ∷ pins)))

-- The sum of all axes, from the slice, the home-room penalty and the first teachers.
unfoldable pub sum_axes :
    Problem
    → List Placement
    → ConstraintWeights
    → HashSet (ℕ × ℕ)
    → Positions
    → ℕ
    → ℕ
    → HashMap (ℕ × ℕ) ℕ
    → ℕ
unfolding collect class_day_balance_cost qualified_by_subject count_misses
    compute_supervision_spread soft_pin_misses worst_class_spread worst_class_interior_gaps
    day_count
sum_axes problem placements weights soft_pinned_blocks class_day slice home_room_total teachers =
    let class_balance =
      class_day_balance_cost class_day problem.school_classes (day_count problem.time_blocks) in
    let class_teachers = collect (λ c. c.id) (λ c. c.class_teacher_id) problem.school_classes [] in
    let misses =
      count_misses class_teachers (qualified_by_subject problem.teacher_qualifications []) teachers
        0 in
    let supervision =
      sat_mul weights.supervision_spread (compute_supervision_spread problem placements) in
    let soft = soft_pin_misses placements weights soft_pinned_blocks in
    sat_add
      (sat_add
        (sat_add
          (sat_add
            (sat_add
              (sat_add (sat_add slice (sat_mul weights.class_day_balance class_balance))
                (sat_mul weights.max_per_class_spread (worst_class_spread problem placements)))
              (sat_mul weights.max_per_class_interior_gaps
                (worst_class_interior_gaps problem placements)))
            home_room_total)
          (sat_mul weights.soft_pin_miss soft))
        (sat_mul weights.prefer_class_teacher misses))
      supervision

-- `c.id` to `c.home_room_id`
unfoldable pub home_rooms : Problem → HashMap ℕ (Option ℕ)
unfolding collect
home_rooms problem = collect (λ c. c.id) (λ c. c.home_room_id) problem.school_classes []

unfoldable pub score_solution :
    Problem → List Placement → ConstraintWeights → HashSet (ℕ × ℕ) → Option ℕ
unfolding gather_days sort_days slice_costs_inner sum_known placement_home_room first_teacher_loop
    sum_axes home_rooms lesson_by_id tb_by_id
score_solution problem placements weights soft_pinned_blocks =
    if no_weights weights then some 0 else (do
      days ← gather_days (lesson_by_id problem) (tb_by_id problem) placements no_days
      let class_day = sort_days days.class_day
      slice ← slice_costs_inner problem placements weights class_day days.teacher_day
      home ← sum_known (placement_home_room problem weights (home_rooms problem)) placements
      teachers ← first_teacher_loop (lesson_by_id problem) placements []
      some (sum_axes problem placements weights soft_pinned_blocks class_day slice home teachers))
