-- ===== src/Tests/Solution.antt =====
-- The score of the sample timetable.
use klassenzeit.Base.{ℕ, ◌≡◌, refl, none, some, [], ◌∷◌, All, get, insert}
use klassenzeit.Types.{lesson_slot, ConstraintWeights}
use klassenzeit.Score.Slice.{slice_recompute, subject_lookup}
use klassenzeit.Validate.Teachers.{lesson_by_id}
use klassenzeit.Validate.BreakSlots.{tb_by_id}
use klassenzeit.Score.Worst.{worst_class_spread, worst_class_interior_gaps}
use klassenzeit.Score.Solution.{score_solution}
use klassenzeit.Score.Solution.Slices.{IsListed, score_solution-slice_recompute}
use klassenzeit.Tests.{school, timetable, place, maths, lesson_a, lesson_b, block}

abbrev slice_weights : ConstraintWeights
slice_weights = record {
  class_gap = 10;
  teacher_gap = 3;
  prefer_early_period = 1;
  avoid_first_period = 4;
  prefer_home_room = 0;
  avoid_last_period = 0;
  prefer_late_period = 0;
  class_day_balance = 0;
  prefer_class_teacher = 0;
  max_per_class_spread = 0;
  max_per_class_interior_gaps = 0;
  supervision_spread = 0;
  soft_pin_miss = 0;
}

abbrev all_weights : ConstraintWeights
all_weights = record slice_weights {
  prefer_home_room = 5;
  class_day_balance = 1;
  prefer_class_teacher = 20;
  max_per_class_spread = 100;
  max_per_class_interior_gaps = 1000;
  soft_pin_miss = 10000;
}

-- Class 2 has both its hours on day 0.
spread_test : worst_class_spread school timetable ≡ 2
unfolding worst_class_spread
spread_test = refl

-- With the first and the last position of the day, class 2 has two positions between them.
gaps_test : worst_class_interior_gaps school (place 52 41 22 12 ∷ place 52 44 22 12 ∷ []) ≡ 2
unfolding worst_class_interior_gaps
gaps_test = refl

-- One soft pin of two is missed.
all_axes_test : score_solution school timetable all_weights ((51, 41) ∷ (51, 43) ∷ []) ≡ some 10220
unfolding score_solution
all_axes_test = refl

listed : All (IsListed school) timetable
unfolding get lesson_by_id tb_by_id subject_lookup insert
listed = (
  (lesson_a, maths, block 41 0 0 lesson_slot, refl, refl, refl),
  (
    (lesson_a, maths, block 45 1 0 lesson_slot, refl, refl, refl),
    (
      (lesson_b, maths, block 43 0 2 lesson_slot, refl, refl, refl),
      ((lesson_b, maths, block 44 0 3 lesson_slot, refl, refl, refl), tt),
    ),
  ),
)

slice_example :
    (v : ℕ) × (slice_recompute school timetable slice_weights ≡ some v)
    × (score_solution school timetable slice_weights ((51, 43) ∷ []) ≡ some v)
slice_example =
    score_solution-slice_recompute school timetable slice_weights ((51, 43) ∷ []) listed
      (refl, refl, refl, refl, refl, refl, refl)

-- A lesson that the problem does not have stops the score, unless no axis has a weight.
unknown_lesson_panics : score_solution school (place 59 41 21 11 ∷ []) slice_weights [] ≡ none
unfolding score_solution
unknown_lesson_panics = refl
