-- ===== src/Tests/Lahc.antt =====
-- The local search on small partitions and with small moves.
use klassenzeit.Base.{
  HashMap, nat_eq, here, ℕ, ◌+◌, ◌-◌, ◌*◌, ◌≡◌, refl, Bool, true, false, none, some, List, [], ◌∷◌,
  arith, ◌==◌, get, pair_eq, min, u32_max, All, In, length, IsDistinct, if◌then◌else◌,
}
use klassenzeit.Base.Int.{negsuc, sub_ℕ, pos_part, neg_part}
use klassenzeit.Types.{lesson_slot, Lesson, TimeBlock, Placement, production_active_weights}
use klassenzeit.Score.Partition.{IsPartition}
use klassenzeit.Score.Gaps.Moves.{positions}
use klassenzeit.Score.Balance.{
  class_day_balance_cost_for_class, class_day_balance_cost_for_class_with_swap,
}
use klassenzeit.Index.{new}
use klassenzeit.Lahc.Delta.{
  PartitionMap, partition_delta, move_position, touched_gaps, partition_delta_lem,
}
use klassenzeit.Lahc.Balance.{class_day_balance_cost_for_class_with_swap_lem}
use klassenzeit.Lahc.Score.{
  sum_over, move_positions, score_after_change_move, score_after_change_move_lem, IsPlaced,
  saturating_apply_delta, saturating_apply_delta_lem,
}
use klassenzeit.Lahc.Room.{IsPick, IsFree, pick_room, pick_room-IsPick}
use klassenzeit.Lahc.Split.{
  would_split_class_day_subject_room, would_split_class_day_subject_room-false,
}
use klassenzeit.Lahc.Run.{Config, Env, Moves, run}
use klassenzeit.Lahc.Run.Best.{seen, AsGood, run-is_best}
use klassenzeit.Tests.{school, timetable, place, lesson_b, block}

-- Who 1 has positions 0, 1 and 4 on day 0 and position 2 on day 1; who 2 has position 4 on day 0.
abbrev week : PartitionMap
week = ((1, 0), 0 ∷ 1 ∷ 4 ∷ []) ∷ ((1, 1), 2 ∷ []) ∷ ((2, 0), 4 ∷ []) ∷ []

IsPlaced-1 : IsPlaced 0 1 4 week 1
unfolding get
IsPlaced-1 = (omega arith, omega arith, refl)

IsPlaced-2 : IsPlaced 0 1 4 week 2
unfolding get
IsPlaced-2 = (omega arith, omega arith, refl)

delta_example :
    partition_delta (get week (1, 0)) (get week (1, 1)) 0 1 4 3
    ≡ sub_ℕ (touched_gaps (move_position 1 0 4 1 3 week) 1 0 1) (touched_gaps week 1 0 1)
delta_example = partition_delta_lem 1 0 4 1 3 week IsPlaced-1.0 IsPlaced-1.1 IsPlaced-1.2

both-IsDistinct : IsDistinct (1 ∷ 2 ∷ [])
both-IsDistinct = ((refl, tt), (tt, tt))

both-IsPlaced : All (IsPlaced 0 1 4 week) (1 ∷ 2 ∷ [])
both-IsPlaced = (IsPlaced-1, (IsPlaced-2, tt))

change_example :
    score_after_change_move (1 ∷ 2 ∷ []) 1 0 4 1 3 week week production_active_weights
    ≡ sub_ℕ
        (10
            * sum_over
                (1 ∷ 2 ∷ [])
                (λ c. touched_gaps (move_positions (1 ∷ 2 ∷ []) 0 4 1 3 week) c 0 1)
          + 10 * touched_gaps (move_position 1 0 4 1 3 week) 1 0 1)
        (10 * sum_over (1 ∷ 2 ∷ []) (λ c. touched_gaps week c 0 1) + 10 * touched_gaps week 1 0 1)
change_example =
    score_after_change_move_lem (1 ∷ 2 ∷ []) 1 0 4 1 3 week week production_active_weights
      both-IsDistinct both-IsPlaced IsPlaced-1

apply_example :
    saturating_apply_delta 5 (negsuc 6)
    ≡ min (5 + pos_part (negsuc 6) - neg_part (negsuc 6)) u32_max
apply_example = saturating_apply_delta_lem 5 (negsuc 6) (omega arith) (omega arith)

sorted_days : (d : ℕ) → IsPartition (positions (get week (1, d)))
unfolding get
sorted_days d = day_cases (0 == d) (1 == d)
  where
    day_cases :
        (a b : Bool)
        → IsPartition
            (positions (if a then some (0 ∷ 1 ∷ 4 ∷ []) else (if b then some (2 ∷ []) else none)))
    day_cases true b = omega arith
    day_cases false true = omega arith
    day_cases false false = omega arith

balance_swap_example :
    class_day_balance_cost_for_class_with_swap 1 5 week 0 1
    ≡ class_day_balance_cost_for_class 1 5 (move_position 1 0 4 1 3 week)
unfolding get
balance_swap_example =
    class_day_balance_cost_for_class_with_swap_lem 1 5 0 4 1 3 week sorted_days (omega arith)
      (omega arith) (omega arith) refl refl

IsPick-example :
    IsPick
      (IsFree (new school) 31 43 ((21, 43) ∷ []))
      school.rooms
      21
      none
      (pick_room school (new school) 31 21 43 ((21, 43) ∷ []) none)
IsPick-example = pick_room-IsPick school (new school) 31 21 43 ((21, 43) ∷ []) none

-- The state is a score. A Change move lowers it by 3, a Swap raises it by 1, and a rescue adds a placement
-- at a cost of 5.
abbrev moves : Moves ℕ
moves = record {
  canonical_score = λ s. s;
  rr_rescue_attempt = λ now. (true, (place 52 45 22 12 ∷ now.0, now.1 + 5));
  rr_attempt = λ list iter now. now;
  kempe_attempt = λ list iter now. now;
  home_room_draw = λ n s. (0, s);
  try_home_room_repair_move = λ i list iter now. now;
  change_draws = λ n s. (0, 0, 0, s);
  try_change_block_move = λ i tb list iter now. (now.0, now.1 - 3);
  try_swap_move = λ i j list iter now. (now.0, now.1 + 1);
}

abbrev config : Config
config = record {
  max_iterations = some 4;
  lahc_rr_period = some 2;
  lahc_kempe_period = none;
  lahc_home_room_period = none;
  deadline = some 200;
  time_blocks_len = 5;
  placements_expected = 4;
}

abbrev env : Env
env = record {
  elapsed = λ i. i;
  elapsed_feasible = λ i. i;
  elapsed_optimal = λ i. i;
  first_feasible_before = none;
  optimal_before = none;
  cancel_requested = none;
}

run_example :
    (p : List Placement × ℕ) × In p (seen moves config env 200 timetable 10)
    × ((run moves config env timetable 10).0 ≡ p.0)
    × All
        (λ q.
          AsGood (length q.0) (moves.canonical_score q.1) (length p.0) (moves.canonical_score p.1))
        (seen moves config env 200 timetable 10)
run_example = run-is_best moves config env 200 timetable 10 refl refl

abbrev lesson_lookup : HashMap ℕ Lesson
lesson_lookup = (52, lesson_b) ∷ []

abbrev tb_lookup : HashMap ℕ TimeBlock
tb_lookup = (43, block 43 0 2 lesson_slot) ∷ (44, block 44 0 3 lesson_slot) ∷ []

guard_passes :
    would_split_class_day_subject_room timetable 3 (2 ∷ []) 0 31 22 lesson_lookup tb_lookup ≡ false
unfolding would_split_class_day_subject_room
guard_passes = refl

found_lesson : get lesson_lookup 52 ≡ some lesson_b
unfolding get
found_lesson = refl

found_block : get tb_lookup 43 ≡ some (block 43 0 2 lesson_slot)
unfolding get
found_block = refl

-- The first row of lesson 52 stays when the second moves within room 22.
split_example : (place 52 43 22 12).room_id ≡ 22
split_example =
    would_split_class_day_subject_room-false timetable 3 (2 ∷ []) 0 31 22 lesson_lookup tb_lookup 2
      (place 52 43 22 12) lesson_b (block 43 0 2 lesson_slot) 2 guard_passes refl refl found_lesson
      found_block refl refl here here
