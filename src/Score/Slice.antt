-- ===== src/Score/Slice.antt =====
-- The slice of the score that gaps and preferences make (score.rs: `slice_costs_inner`,
-- `slice_recompute`). `none` is a panic: a placement of a lesson, time block or subject that is not
-- listed.
use klassenzeit.Base.{
  ℕ, Option, none, some, List, [], ◌∷◌, ◌++◌, ◌==◌, leb, if◌then◌else◌, map, max, HashMap, get,
  update, collect, nat_eq, pair_eq, add_u32, sat_add, sat_mul, sort_by,
}
use klassenzeit.Types.{Problem, Lesson, Subject, TimeBlock, Placement, ConstraintWeights}
use klassenzeit.Validate.Teachers.{lesson_by_id}
use klassenzeit.Validate.BreakSlots.{tb_by_id}
use klassenzeit.Score.Gaps.{gap_count}
use klassenzeit.Score.Preference.{subject_preference_score}

-- `.map(f).sum()` on `u32`, which wraps, where `f` may panic.
unfoldable pub sum_known : {A : Type 0} → (A → Option ℕ) → List A → Option ℕ
sum_known f [] = some 0
sum_known f (x ∷ xs) =
    let rest = sum_known f xs in
    elim (f x) [ none ↦ none | some n ↦ elim rest [ none ↦ none | some m ↦ some (add_u32 n m) ] ]

-- The same where `f` does not panic.
unfoldable pub sum_of : {A : Type 0} → (A → ℕ) → List A → ℕ
sum_of f [] = 0
sum_of f (x ∷ xs) = add_u32 (f x) (sum_of f xs)

unfoldable pub dedup_after : ℕ → List ℕ → List ℕ
dedup_after x [] = x ∷ []
dedup_after x (y ∷ ys) = if y == x then dedup_after x ys else x ∷ dedup_after y ys

-- `v.sort_unstable(); v.dedup()`
unfoldable pub sorted_once : List ℕ → List ℕ
unfolding sort_by dedup_after
sorted_once ps = elim (sort_by leb ps) [ [] ↦ [] | x ∷ xs ↦ dedup_after x xs ]

unfoldable pub subject_lookup : Problem → HashMap ℕ Subject
unfolding collect
subject_lookup problem = collect (λ s. s.id) (λ s. s) problem.subjects []

-- The last position of each day.
unfoldable pub last_positions : List TimeBlock → HashMap ℕ ℕ → HashMap ℕ ℕ
unfolding update
last_positions [] acc = acc
last_positions (tb ∷ tbs) acc =
    last_positions tbs (update tb.day_of_week tb.position (λ m. max m tb.position) acc)

abbrev pub Positions : Type 0
Positions = HashMap (ℕ × ℕ) (List ℕ)

-- The position is pushed to each class of the lesson.
unfoldable pub push_classes : ℕ → ℕ → List ℕ → Positions → Positions
unfolding update
push_classes day position [] parts = parts
push_classes day position (c ∷ cs) parts =
    push_classes day position cs (update (c, day) [] (λ ps. ps ++ (position ∷ [])) parts)

-- The positions of each class and day, and of each teacher and day.
pub record Days : Type 0 where
  pub class_day : Positions
  pub teacher_day : Positions

abbrev pub no_days : Days
no_days = record { class_day = []; teacher_day = [] }

-- The days with a placement.
abbrev pub enter_days : Lesson → TimeBlock → Placement → Days → Days
enter_days l tb p days = record {
  class_day = push_classes tb.day_of_week tb.position l.school_class_ids days.class_day;
  teacher_day =
      update (p.teacher_id, tb.day_of_week) [] (λ ps. ps ++ (tb.position ∷ [])) days.teacher_day;
}

unfoldable pub gather_days :
    HashMap ℕ Lesson → HashMap ℕ TimeBlock → List Placement → Days → Option Days
unfolding get update push_classes
gather_days lessons tbs [] days = some days
gather_days lessons tbs (p ∷ ps) days = elim (get tbs p.time_block_id) [
  | none ↦ none
  | some tb ↦ elim (get lessons p.lesson_id) [
    | none ↦ none
    | some l ↦ gather_days lessons tbs ps (enter_days l tb p days)
  ]
]

-- The positions of each class and day, sorted, each once.
unfoldable pub sort_days : Positions → Positions
unfolding sorted_once
sort_days parts = map (λ entry. (entry.0, sorted_once entry.1)) parts

-- `max_position_per_day.get(..).copied().unwrap_or(tb.position)` for the placement's preference.
unfoldable pub placement_preference :
    Problem → ConstraintWeights → HashMap ℕ ℕ → Placement → Option ℕ
unfolding get lesson_by_id subject_lookup tb_by_id subject_preference_score
placement_preference problem weights last p = elim (get (lesson_by_id problem) p.lesson_id) [
  | none ↦ none
  | some l ↦ elim (get (subject_lookup problem) l.subject_id) [
    | none ↦ none
    | some subject ↦ elim (get (tb_by_id problem) p.time_block_id) [
      | none ↦ none
      | some tb ↦ some (
          subject_preference_score subject tb
            (elim (get last tb.day_of_week) [ none ↦ tb.position | some m ↦ m ]) weights)
    ]
  ]
]

-- The weighted gaps and the preferences.
unfoldable pub weigh : ConstraintWeights → Positions → Positions → ℕ → ℕ
unfolding sum_of gap_count sorted_once
weigh weights class_day teacher_day subject_preference =
    let class_gaps = sum_of (λ entry. gap_count entry.1) class_day in
    let teacher_gaps = sum_of (λ entry. gap_count (sorted_once entry.1)) teacher_day in
    sat_add
      (sat_add (sat_mul weights.class_gap class_gaps) (sat_mul weights.teacher_gap teacher_gaps))
      subject_preference

-- The lookups that the source passes are built from the problem here.
unfoldable pub slice_costs_inner :
    Problem → List Placement → ConstraintWeights → Positions → Positions → Option ℕ
unfolding sum_known weigh placement_preference last_positions
slice_costs_inner problem placements weights class_day teacher_day =
    elim (sum_known (placement_preference problem weights (last_positions problem.time_blocks []))
      placements) [
        | none ↦ none
        | some subject_preference ↦ some (weigh weights class_day teacher_day subject_preference)
      ]

unfoldable pub slice_recompute : Problem → List Placement → ConstraintWeights → Option ℕ
unfolding slice_costs_inner gather_days sort_days lesson_by_id tb_by_id
slice_recompute problem placements weights =
    elim (gather_days (lesson_by_id problem) (tb_by_id problem) placements no_days) [
      | none ↦ none
      | some days ↦
          slice_costs_inner problem placements weights (sort_days days.class_day) days.teacher_day
    ]
