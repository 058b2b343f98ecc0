-- ===== src/Tests/Changes.antt =====
-- A lesson placed by the greedy pass and moved row by the Change move, on the small school.
use klassenzeit.Base.{
  ℕ, ◌≡◌, refl, some, List, [], ◌∷◌, HashMap, get, contains, arith, nat_eq, pair_eq,
}
use klassenzeit.Types.{TimeBlock, Lesson, Placement, lesson_slot, assigned_teacher_id}
use klassenzeit.Greedy.State.{GreedyState, new_state}
use klassenzeit.Greedy.Tracks.{new_state-IsTracked, IsTracked-IsSeated}
use klassenzeit.Greedy.Lesson.{Progress, place_lesson}
use klassenzeit.Greedy.Lesson.Adds.{Adds}
use klassenzeit.Greedy.Lesson.Accounted.{IsConsistent, place_lesson-IsConsistent}
use klassenzeit.Lahc.Change.{apply_change_move}
use klassenzeit.Lahc.Change.Consistent.{apply_change_move-IsConsistent}
use klassenzeit.Tests.{lesson_a, lesson_b, block, place, maths}
use klassenzeit.Tests.Greedy.{setting, one_row}

abbrev lesson_map : HashMap ℕ Lesson
lesson_map = (51, lesson_a) ∷ (52, lesson_b) ∷ []

abbrev block_map : HashMap ℕ TimeBlock
block_map =
    (41, block 41 0 0 lesson_slot)
    ∷ (43, block 43 0 2 lesson_slot)
    ∷ (44, block 44 0 3 lesson_slot)
    ∷ (45, block 45 1 0 lesson_slot)
    ∷ []

abbrev at_first : Progress
at_first = record { placements = []; violations = []; state = new_state }

lesson_example :
    (end : Progress) × (place_lesson setting lesson_b at_first ≡ some end)
    × IsConsistent lesson_map block_map end.placements end.state
    × Adds lesson_b 2 at_first end
unfolding get assigned_teacher_id
lesson_example =
    place_lesson-IsConsistent lesson_map block_map setting lesson_b maths 12 at_first refl refl
      (tt, tt) refl ((refl, (refl, (refl, tt))), ((refl, (refl, tt)), ((refl, tt), (tt, tt))))
      (refl, (refl, (refl, (refl, tt)))) refl refl
      (record { seated = IsTracked-IsSeated [] new_state new_state-IsTracked; apart = tt })

one_row-IsConsistent : IsConsistent lesson_map block_map (place 51 41 21 11 ∷ []) one_row
unfolding contains get
one_row-IsConsistent = record {
  seated = record { teachers = λ j. refl; classes = λ j. ground arith; rooms = λ j. refl };
  apart = (tt, tt);
}

apply_change_example :
    (after : List Placement × GreedyState) × (apply_change_move 0
        (place 51 41 21 11)
        (block 41 0 0 lesson_slot)
        (block 43 0 2 lesson_slot)
        22
        (1 ∷ [])
        11
        31
        (place 51 41 21 11 ∷ [])
        one_row
      ≡ after)
    × (after.0 ≡ place 51 43 22 11 ∷ [])
    × IsConsistent lesson_map block_map after.0 after.1
unfolding get contains
apply_change_example =
    apply_change_move-IsConsistent lesson_map block_map lesson_a [] (place 51 41 21 11) []
      (block 41 0 0 lesson_slot) (block 43 0 2 lesson_slot) 22 one_row refl refl refl refl (tt, tt)
      refl refl refl one_row-IsConsistent
