-- ===== src/Tests/Greedy.antt =====
-- The greedy bookkeeping on the small school.
use klassenzeit.Base.{
  ℕ, ◌≡◌, refl, none, some, [], ◌∷◌, ◌++◌, get, contains, collect, arith, true, HashMap, insert,
  nat_eq, pair_eq, triple_eq,
}
use klassenzeit.Types.{TimeBlock, lesson_slot, production_active_weights}
use klassenzeit.Index.{new}
use klassenzeit.Greedy.State.{GreedyState, new_state}
use klassenzeit.Greedy.Rows.{rr_remove_row_bookkeeping, replay_placement}
use klassenzeit.Greedy.Rows.Restore.{
  IsRecorded, IsSameState, replay_placement-rr_remove_row_bookkeeping,
}
use klassenzeit.Greedy.Tracks.{IsTracked, new_state-IsTracked}
use klassenzeit.Greedy.Seed.{
  seed_greedy_state_from_pins, rows_of, lessons_of, blocks_of,
  seed_greedy_state_from_pins-IsTracked,
}
use klassenzeit.Greedy.Place.{Setting, prefer_class_teacher_lock_cost}
use klassenzeit.Greedy.Place.Commit.{try_place_block}
use klassenzeit.Tests.{school, timetable, lesson_a, lesson_b, block, place}

abbrev blocks : HashMap ℕ TimeBlock
blocks = (41, block 41 0 0 lesson_slot) ∷ []

-- Lesson 51 in the first slot.
abbrev pub one_row : GreedyState
one_row = record new_state {
  used_teacher = (11, 41) ∷ [];
  used_class = (1, 41) ∷ [];
  used_room = (21, 41) ∷ [];
  hours_by_teacher = (11, 1) ∷ [];
  class_positions = ((1, 0), 0 ∷ []) ∷ [];
  teacher_positions = ((11, 0), 0 ∷ []) ∷ [];
  locked_room = ((1, 0, 31), (21, 1)) ∷ [];
  subject_hours_by_class_day = ((1, 0, 31), 1) ∷ [];
}

one_row-IsRecorded : IsRecorded lesson_a (place 51 41 21 11) (block 41 0 0 lesson_slot) one_row
unfolding contains get
one_row-IsRecorded = record {
  teacher_used = refl;
  room_used = refl;
  classes_used = (refl, tt);
  hours = (1, refl, omega arith, omega arith);
  teacher_part = (0 ∷ [], refl, omega arith, refl);
  class_parts = ((0 ∷ [], refl, omega arith, refl), tt);
  locks = ((1, refl, omega arith, omega arith), tt);
  counts = ((1, refl, omega arith, omega arith), tt);
}

block_found : get blocks 41 ≡ some (block 41 0 0 lesson_slot)
unfolding get
block_found = refl

restore_example :
    (s' s'' : GreedyState) × (rr_remove_row_bookkeeping lesson_a (place 51 41 21 11) blocks one_row
      ≡ some s')
    × (replay_placement lesson_a (place 51 41 21 11) blocks [] s'
        ≡ some ([] ++ (place 51 41 21 11 ∷ []), s''))
    × IsSameState s'' one_row
restore_example =
    replay_placement-rr_remove_row_bookkeeping lesson_a (place 51 41 21 11) blocks
      (block 41 0 0 lesson_slot) [] one_row block_found (tt, tt) one_row-IsRecorded

seed_example :
    (s' : GreedyState) × (seed_greedy_state_from_pins school timetable new_state ≡ some s')
    × IsTracked ([] ++ rows_of (lessons_of school) (blocks_of school) timetable) s'
unfolding collect get insert
seed_example =
    seed_greedy_state_from_pins-IsTracked school timetable [] new_state ((tt, tt), ((tt, tt), tt))
      (omega arith, (omega arith, (omega arith, (omega arith, (omega arith, tt)))))
      (
        ((lesson_a, refl), (block 41 0 0 lesson_slot, refl)),
        (
          ((lesson_a, refl), (block 45 1 0 lesson_slot, refl)),
          (
            ((lesson_b, refl), (block 43 0 2 lesson_slot, refl)),
            (((lesson_b, refl), (block 44 0 3 lesson_slot, refl)), tt),
          ),
        ),
      )
      new_state-IsTracked

abbrev pub setting : Setting
setting = record {
  problem = school;
  idx = new school;
  teacher_max = (11, 18) ∷ (12, 20) ∷ [];
  class_max_lessons_per_day = (2, 4) ∷ [];
  weights = production_active_weights;
  home_room_lookup = (1, some 21) ∷ (2, none) ∷ [];
  class_teacher_lookup = (1, some 11) ∷ (2, none) ∷ [];
  subject_qualified_teachers = (31, 11 ∷ []) ∷ [];
  tb_order =
      block 41 0 0 lesson_slot
      ∷ block 43 0 2 lesson_slot
      ∷ block 44 0 3 lesson_slot
      ∷ block 45 1 0 lesson_slot
      ∷ [];
  room_order = record { id = 21 } ∷ record { id = 22 } ∷ [];
  max_position_per_day = (0, 3) ∷ (1, 0) ∷ [];
  days = 2;
}

abbrev after_block : GreedyState
after_block = record new_state {
  used_teacher = (12, 44) ∷ (12, 43) ∷ [];
  used_class = (2, 44) ∷ (2, 43) ∷ [];
  used_room = (21, 44) ∷ (21, 43) ∷ [];
  hours_by_teacher = (12, 2) ∷ [];
  class_positions = ((2, 0), 2 ∷ 3 ∷ []) ∷ [];
  teacher_positions = ((12, 0), 2 ∷ 3 ∷ []) ∷ [];
  locked_room = ((2, 0, 31), (21, 2)) ∷ [];
  subject_hours_by_class_day = ((2, 0, 31), 2) ∷ [];
  lessons_by_class_day = ((2, 0), 1) ∷ [];
  class_subject_teacher = ((2, 31), 12) ∷ [];
  search_score_slice = 10;
}

-- The block of two does not fit before the break, and goes after it in the first room.
place_test :
    try_place_block setting new_state [] lesson_b 2
    ≡ some (true, place 52 43 21 12 ∷ place 52 44 21 12 ∷ [], after_block)
unfolding try_place_block new prefer_class_teacher_lock_cost
place_test = refl
