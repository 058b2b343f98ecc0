-- ===== src/Tests/Score.antt =====
-- The gap counts, the day balance and the preference terms on small days and on the sample school.
use klassenzeit.Base.{
  ℕ, ◌+◌, ◌≡◌, refl, false, ◌||◌, some, List, [], ◌∷◌, arith, ◌==◌, if◌then◌else◌, HashMap, get,
  insert, pair_eq, map, min, u32_max,
}
use klassenzeit.Types.{production_active_weights}
use klassenzeit.Score.Partition.{
  member, IsPartition, insert_position, remove_position, insert_window, insert_position-IsPartition,
  remove_position-IsPartition,
}
use klassenzeit.Score.Gaps.{
  gap_count, gap_count_after_insert, gap_count_after_remove, gap_count_after_swap,
  gap_count_after_window_insert,
}
use klassenzeit.Score.Gaps.Missing.{free_inside, gap_count-eq-free_inside}
use klassenzeit.Score.Gaps.Moves.{
  positions, gap_count_after_insert_lem, gap_count_after_remove_lem, gap_count_after_swap_lem,
}
use klassenzeit.Score.Gaps.Window.{IsDisjoint, gap_count_after_window_insert_lem}
use klassenzeit.Score.Balance.{
  range, count_on, sum_counts, class_day_balance_cost, class_day_balance_cost_for_class,
  class_day_balance_cost_for_class_after_add, class_day_balance_cost_for_class_from_counts,
}
use klassenzeit.Score.Balance.Variants.{
  class_day_balance_cost_lem, class_day_balance_cost_for_class_after_add_lem,
  class_day_balance_cost_for_class_from_counts_lem,
}
use klassenzeit.Score.Preference.{subject_preference_score, axes, subject_preference_score_lem}
use klassenzeit.Score.HomeRoom.{
  home_room_penalty, home_room_penalty_one_class, home_room_penalty_lem,
}
use klassenzeit.Tests.{school, maths, lesson_a, block}
use klassenzeit.Types.{lesson_slot}

-- Positions 1, 2 and 5: two gaps.
abbrev pub day : List ℕ
day = 1 ∷ 2 ∷ 5 ∷ []

day-IsPartition : IsPartition day
day-IsPartition = omega arith

day-IsDisjoint : IsDisjoint 3 2 day
day-IsDisjoint = λ q lo hi. ground arith

gaps_of_day : gap_count day ≡ 2
unfolding gap_count
gaps_of_day = refl

gap_count_example : gap_count day ≡ free_inside day
gap_count_example = gap_count-eq-free_inside day day-IsPartition

insert_gaps_example : gap_count_after_insert (some day) 7 ≡ gap_count (insert_position day 7)
insert_gaps_example = gap_count_after_insert_lem (some day) 7 day-IsPartition

remove_gaps_example : gap_count_after_remove day 5 ≡ gap_count (remove_position day 5)
remove_gaps_example = gap_count_after_remove_lem day 5

swap_gaps_example :
    gap_count_after_swap day 5 3 ≡ gap_count (insert_position (remove_position day 5) 3)
swap_gaps_example = gap_count_after_swap_lem day 5 3 day-IsPartition refl

window_gaps_example :
    gap_count_after_window_insert (some day) 3 (3 + 1) ≡ gap_count (insert_window day 3 2)
window_gaps_example =
    gap_count_after_window_insert_lem (some day) 3 1 (omega arith) day-IsPartition day-IsDisjoint

insert_position_example :
    IsPartition (insert_position day 3)
    × ((q : ℕ) → member (insert_position day 3) q ≡ ((3 == q) || member day q))
insert_position_example = insert_position-IsPartition 3 day (omega arith) day-IsPartition

remove_position_example :
    IsPartition (remove_position day 2)
    × ((q : ℕ) → member (remove_position day 2) q ≡ (if 2 == q then false else member day q))
remove_position_example = remove_position-IsPartition 2 day day-IsPartition

-- Class 1 has three lessons on day 0 and one on day 1.
abbrev week : HashMap (ℕ × ℕ) (List ℕ)
week = ((1, 0), day) ∷ ((1, 1), 0 ∷ []) ∷ []

balance_example :
    class_day_balance_cost week school.school_classes 5
    ≡ sum_counts
        (λ c. class_day_balance_cost_for_class c 5 week)
        (map (λ c. c.id) school.school_classes)
        0
balance_example = class_day_balance_cost_lem week school.school_classes 5

counts_example :
    class_day_balance_cost_for_class_from_counts 1 5 (map (count_on week 1) (range 0 5))
    ≡ class_day_balance_cost_for_class 1 5 week
counts_example = class_day_balance_cost_for_class_from_counts_lem 1 5 week

after_add_example :
    class_day_balance_cost_for_class_after_add 1 5 week 0 2
    ≡ class_day_balance_cost_for_class 1 5
        (insert (1, 0) (insert_window (positions (get week (1, 0))) 3 2) week)
unfolding get
after_add_example =
    class_day_balance_cost_for_class_after_add_lem 1 5 0 3 2 week (omega arith) (omega arith)

preference_example :
    subject_preference_score maths (block 43 0 2 lesson_slot) 3 production_active_weights
    ≡ min (axes maths (block 43 0 2 lesson_slot) 3 production_active_weights) u32_max
preference_example =
    subject_preference_score_lem maths (block 43 0 2 lesson_slot) 3 production_active_weights

home_room_example :
    home_room_penalty lesson_a ((1, some 21) ∷ []) 22 production_active_weights
    ≡ sum_counts
        (λ c. home_room_penalty_one_class c ((1, some 21) ∷ []) 22 production_active_weights)
        (1 ∷ [])
        0
home_room_example = home_room_penalty_lem lesson_a ((1, some 21) ∷ []) 22 production_active_weights
