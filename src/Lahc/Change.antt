-- ===== src/Lahc/Change.antt =====
-- The Change move written into placements and bookkeeping (lahc.rs: `apply_change_move`).
pub mod Slots
pub mod Consistent
use klassenzeit.Base.{
  ℕ, zero, suc, ◌+◌, ◌-◌, ◌≡◌, refl, Bool, List, [], ◌∷◌, ◌==◌, update, add, discard,
  modify_or_drop, each_class, add_u8, nat_eq, pair_eq, triple_eq,
}
use klassenzeit.Types.{Placement, TimeBlock}
use klassenzeit.Score.Partition.{insert_position, remove_position}
use klassenzeit.Greedy.State.{GreedyState}
use klassenzeit.Greedy.Rows.{
  leave_partition, join_partition, leave_lock, join_lock, leave_hours, join_hours,
}

-- `placements[i] = p`; past the end nothing changes, where the source panics.
abbrev pub replace_at : List Placement → ℕ → Placement → List Placement
replace_at [] i p = []
replace_at (q ∷ qs) zero p = p ∷ qs
replace_at (q ∷ qs) (suc i) p = q ∷ replace_at qs i p

abbrev pub moved_row : Placement → TimeBlock → ℕ → ℕ → Placement
moved_row old_p new_tb new_room teacher = record {
  lesson_id = old_p.lesson_id;
  time_block_id = new_tb.id;
  room_id = new_room;
  teacher_id = teacher;
}

-- The four loops over the classes: partitions, slots, locks and counters.
abbrev pub move_part : TimeBlock → TimeBlock → ℕ → GreedyState → GreedyState
move_part old_tb new_tb c s = record s {
  class_positions =
      join_partition (c, new_tb.day_of_week) new_tb.position
        (leave_partition (c, old_tb.day_of_week) old_tb.position s.class_positions);
}

abbrev pub move_slot : TimeBlock → TimeBlock → ℕ → GreedyState → GreedyState
move_slot old_tb new_tb c s = record s {
  used_class = add (c, new_tb.id) (discard (c, old_tb.id) s.used_class);
}

abbrev pub move_lock : TimeBlock → TimeBlock → ℕ → ℕ → ℕ → GreedyState → GreedyState
move_lock old_tb new_tb new_room subject_id c s = record s {
  locked_room =
      join_lock new_room (c, new_tb.day_of_week, subject_id)
        (leave_lock (c, old_tb.day_of_week, subject_id) s.locked_room);
}

abbrev pub move_counts : TimeBlock → TimeBlock → ℕ → ℕ → GreedyState → GreedyState
move_counts old_tb new_tb subject_id c s = record s {
  subject_hours_by_class_day =
      join_hours (c, new_tb.day_of_week, subject_id)
        (leave_hours (c, old_tb.day_of_week, subject_id) s.subject_hours_by_class_day);
  lessons_by_class_day =
      update (c, new_tb.day_of_week) 0 (λ n. add_u8 n 1)
        (modify_or_drop (c, old_tb.day_of_week) (λ n. n - 1) (λ n. n == 0) s.lessons_by_class_day);
}

unfoldable pub apply_change_move :
    ℕ
    → Placement
    → TimeBlock
    → TimeBlock
    → ℕ
    → List ℕ
    → ℕ
    → ℕ
    → List Placement
    → GreedyState
    → List Placement × GreedyState
unfolding update add discard modify_or_drop each_class insert_position remove_position
apply_change_move placement_idx old_p old_tb new_tb new_room class_ids teacher subject_id placements
      s =
    let s1 = each_class (move_part old_tb new_tb) class_ids s in
    let s2 : GreedyState = record s1 {
      teacher_positions =
          join_partition (teacher, new_tb.day_of_week) new_tb.position
            (leave_partition (teacher, old_tb.day_of_week) old_tb.position s1.teacher_positions);
      used_teacher = add (teacher, new_tb.id) (discard (teacher, old_tb.id) s1.used_teacher);
    } in
    let s3 = each_class (move_slot old_tb new_tb) class_ids s2 in
    let s4 : GreedyState = record s3 {
      used_room = add (new_room, new_tb.id) (discard (old_p.room_id, old_tb.id) s3.used_room);
    } in
    let s5 = each_class (move_lock old_tb new_tb new_room subject_id) class_ids s4 in
    (
      replace_at placements placement_idx (moved_row old_p new_tb new_room teacher),
      each_class (move_counts old_tb new_tb subject_id) class_ids s5,
    )
