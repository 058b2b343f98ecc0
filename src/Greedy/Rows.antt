-- ===== src/Greedy/Rows.antt =====
-- One placement row taken out of the bookkeeping and put back (lahc.rs: `rr_remove_row_bookkeeping`,
-- `replay_placement`). `none` is the panic on a time block that the lookup does not know.
pub mod Fields
pub mod Restore
use klassenzeit.Base.{
  ℕ, ◌+◌, ◌-◌, Bool, true, false, Option, none, some, List, [], ◌∷◌, ◌++◌, ◌==◌, HashMap, get,
  update, add, discard, modify_or_drop, each_class, nat_eq, pair_eq, triple_eq, add_u8, add_u32,
}
use klassenzeit.Types.{Lesson, Placement, TimeBlock}
use klassenzeit.Score.Partition.{insert_position, remove_position}
use klassenzeit.Greedy.State.{GreedyState}

abbrev pub is_spent : List ℕ → Bool
is_spent [] = true
is_spent (x ∷ xs) = false

-- `if let Ok(j) = part.binary_search(&position) { part.remove(j) }`, and an empty partition is dropped.
abbrev pub leave_partition : ℕ × ℕ → ℕ → HashMap (ℕ × ℕ) (List ℕ) → HashMap (ℕ × ℕ) (List ℕ)
leave_partition key position parts =
    modify_or_drop key (λ ps. remove_position ps position) is_spent parts

abbrev pub join_partition : ℕ × ℕ → ℕ → HashMap (ℕ × ℕ) (List ℕ) → HashMap (ℕ × ℕ) (List ℕ)
join_partition key position parts = update key [] (λ ps. insert_position ps position) parts

-- The first loop over the classes of `rr_remove_row_bookkeeping`.
abbrev pub leave_slot : ℕ → TimeBlock → ℕ → GreedyState → GreedyState
leave_slot time_block_id tb c s = record s {
  used_class = discard (c, time_block_id) s.used_class;
  class_positions = leave_partition (c, tb.day_of_week) tb.position s.class_positions;
}

-- One hour less on the lock of a class, day and subject, and on its counter; a spent entry is dropped.
abbrev pub leave_lock : ℕ × ℕ × ℕ → HashMap (ℕ × ℕ × ℕ) (ℕ × ℕ) → HashMap (ℕ × ℕ × ℕ) (ℕ × ℕ)
leave_lock key locks = modify_or_drop key (λ lock. (lock.0, lock.1 - 1)) (λ lock. lock.1 == 0) locks

abbrev pub leave_hours : ℕ × ℕ × ℕ → HashMap (ℕ × ℕ × ℕ) ℕ → HashMap (ℕ × ℕ × ℕ) ℕ
leave_hours key hours = modify_or_drop key (λ h. h - 1) (λ h. h == 0) hours

-- The second loop over the classes.
abbrev pub leave_counts : Lesson → TimeBlock → ℕ → GreedyState → GreedyState
leave_counts lesson' tb c s = record s {
  locked_room = leave_lock (c, tb.day_of_week, lesson'.subject_id) s.locked_room;
  subject_hours_by_class_day =
      leave_hours (c, tb.day_of_week, lesson'.subject_id) s.subject_hours_by_class_day;
}

unfoldable pub rr_remove_row_bookkeeping :
    Lesson → Placement → HashMap ℕ TimeBlock → GreedyState → Option GreedyState
unfolding get discard modify_or_drop each_class remove_position
rr_remove_row_bookkeeping lesson' row tb_lookup s = elim (get tb_lookup row.time_block_id) [
  | none ↦ none
  | some tb ↦
      let teacher = row.teacher_id in
      let s1 : GreedyState = record s {
        used_teacher = discard (teacher, row.time_block_id) s.used_teacher;
      } in
      let s2 = each_class (leave_slot row.time_block_id tb) lesson'.school_class_ids s1 in
      let s3 : GreedyState = record s2 {
        used_room = discard (row.room_id, row.time_block_id) s2.used_room;
        teacher_positions =
            leave_partition (teacher, tb.day_of_week) tb.position s2.teacher_positions;
        hours_by_teacher = modify_or_drop teacher (λ h. h - 1) (λ h. false) s2.hours_by_teacher;
      } in
      some (each_class (leave_counts lesson' tb) lesson'.school_class_ids s3)
]

-- `or_insert((room, 0))` and one hour more, and one hour more on the counter.
abbrev pub join_lock : ℕ → ℕ × ℕ × ℕ → HashMap (ℕ × ℕ × ℕ) (ℕ × ℕ) → HashMap (ℕ × ℕ × ℕ) (ℕ × ℕ)
join_lock room key locks = update key (room, 0) (λ lock. (lock.0, add_u32 lock.1 1)) locks

abbrev pub join_hours : ℕ × ℕ × ℕ → HashMap (ℕ × ℕ × ℕ) ℕ → HashMap (ℕ × ℕ × ℕ) ℕ
join_hours key hours = update key 0 (λ h. add_u8 h 1) hours

-- The first loop over the classes of `replay_placement`.
abbrev pub join_slot : ℕ → TimeBlock → ℕ → GreedyState → GreedyState
join_slot time_block_id tb c s = record s {
  used_class = add (c, time_block_id) s.used_class;
  class_positions = join_partition (c, tb.day_of_week) tb.position s.class_positions;
}

abbrev pub join_counts : Lesson → ℕ → TimeBlock → ℕ → GreedyState → GreedyState
join_counts lesson' room tb c s = record s {
  locked_room = join_lock room (c, tb.day_of_week, lesson'.subject_id) s.locked_room;
  subject_hours_by_class_day =
      join_hours (c, tb.day_of_week, lesson'.subject_id) s.subject_hours_by_class_day;
}

unfoldable pub replay_placement :
    Lesson
    → Placement
    → HashMap ℕ TimeBlock
    → List Placement
    → GreedyState
    → Option (List Placement × GreedyState)
unfolding get add update each_class insert_position
replay_placement lesson' row tb_lookup placements s = elim (get tb_lookup row.time_block_id) [
  | none ↦ none
  | some tb ↦
      let teacher = row.teacher_id in
      let s1 : GreedyState = record s {
        used_teacher = add (teacher, row.time_block_id) s.used_teacher;
      } in
      let s2 = each_class (join_slot row.time_block_id tb) lesson'.school_class_ids s1 in
      let s3 : GreedyState = record s2 {
        used_room = add (row.room_id, row.time_block_id) s2.used_room;
        teacher_positions =
            join_partition (teacher, tb.day_of_week) tb.position s2.teacher_positions;
        hours_by_teacher = update teacher 0 (λ h. add_u8 h 1) s2.hours_by_teacher;
      } in
      some (
        placements ++ (row ∷ []),
        each_class (join_counts lesson' row.room_id tb) lesson'.school_class_ids s3,
      )
]
