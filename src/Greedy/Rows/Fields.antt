-- ===== src/Greedy/Rows/Fields.antt =====
-- The row operations field by field: each loop over the classes is one loop for each field it writes.
use klassenzeit.Base.{
  ℕ, ◌-◌, ◌≡◌, refl, false, some, List, [], ◌∷◌, ◌++◌, ◌==◌, HashMap, get, update, add, discard,
  modify_or_drop, each_class, nat_eq, pair_eq, triple_eq, add_u8, Eq, true, ◌&&◌, if◌then◌else◌,
  contains, contains-add, arith,
}
use klassenzeit.Types.{Lesson, Placement, TimeBlock}
use klassenzeit.Greedy.State.{GreedyState}
use klassenzeit.Greedy.Rows.{
  leave_lock, leave_hours, join_lock, join_hours, leave_slot, leave_counts, leave_partition,
  join_slot, join_counts, join_partition, rr_remove_row_bookkeeping, replay_placement,
}

pub pair_apart :
    (a c d : ℕ) (j : ℕ × ℕ)
    → ((c == j.0) && (a == j.1)) ≡ true
    → ((d == j.0) && (a == j.1)) ≡ true
    → (d == c) ≡ true
pair_apart a c d j h k = ground arith

pub triple_apart :
    (a b c d : ℕ) (j : ℕ × ℕ × ℕ)
    → ((c == j.0) && ((a == j.1) && (b == j.2))) ≡ true
    → ((d == j.0) && ((a == j.1) && (b == j.2))) ≡ true
    → (d == c) ≡ true
triple_apart a b c d j h k = ground arith

pub add_acts :
    {K : Type 0} ⦃e : Eq K⦄ (k j : K) (s : List K)
    → contains (add k s) j ≡ (if e.beq k j then true else contains s j)
add_acts ⦃e⦄ k j s = ground (arith, contains-add k j s)

leave_slots :
    (id : ℕ) (tb : TimeBlock) (cs : List ℕ) (s : GreedyState)
    → each_class (leave_slot id tb) cs s ≡ record s {
      used_class = each_class (λ c. discard (c, id)) cs s.used_class;
      class_positions =
          each_class (λ c. leave_partition (c, tb.day_of_week) tb.position) cs s.class_positions;
    }
unfolding each_class
leave_slots id tb [] s = refl
leave_slots id tb (c ∷ cs) s = leave_slots id tb cs (leave_slot id tb c s)

join_slots :
    (id : ℕ) (tb : TimeBlock) (cs : List ℕ) (s : GreedyState)
    → each_class (join_slot id tb) cs s ≡ record s {
      used_class = each_class (λ c. add (c, id)) cs s.used_class;
      class_positions =
          each_class (λ c. join_partition (c, tb.day_of_week) tb.position) cs s.class_positions;
    }
unfolding each_class
join_slots id tb [] s = refl
join_slots id tb (c ∷ cs) s = join_slots id tb cs (join_slot id tb c s)

leave_all_counts :
    (lesson' : Lesson) (tb : TimeBlock) (cs : List ℕ) (s : GreedyState)
    → each_class (leave_counts lesson' tb) cs s ≡ record s {
      locked_room =
          each_class (λ c. leave_lock (c, tb.day_of_week, lesson'.subject_id)) cs s.locked_room;
      subject_hours_by_class_day =
          each_class
            (λ c. leave_hours (c, tb.day_of_week, lesson'.subject_id))
            cs
            s.subject_hours_by_class_day;
    }
unfolding each_class
leave_all_counts lesson' tb [] s = refl
leave_all_counts lesson' tb (c ∷ cs) s =
    leave_all_counts lesson' tb cs (leave_counts lesson' tb c s)

join_all_counts :
    (lesson' : Lesson) (room : ℕ) (tb : TimeBlock) (cs : List ℕ) (s : GreedyState)
    → each_class (join_counts lesson' room tb) cs s ≡ record s {
      locked_room =
          each_class (λ c. join_lock room (c, tb.day_of_week, lesson'.subject_id)) cs s.locked_room;
      subject_hours_by_class_day =
          each_class
            (λ c. join_hours (c, tb.day_of_week, lesson'.subject_id))
            cs
            s.subject_hours_by_class_day;
    }
unfolding each_class
join_all_counts lesson' room tb [] s = refl
join_all_counts lesson' room tb (c ∷ cs) s =
    join_all_counts lesson' room tb cs (join_counts lesson' room tb c s)

-- The state without the row, field by field.
abbrev pub without_row : Lesson → Placement → TimeBlock → GreedyState → GreedyState
without_row lesson' row tb s = record s {
  used_teacher = discard (row.teacher_id, row.time_block_id) s.used_teacher;
  used_class =
      each_class (λ c. discard (c, row.time_block_id)) lesson'.school_class_ids s.used_class;
  used_room = discard (row.room_id, row.time_block_id) s.used_room;
  hours_by_teacher = modify_or_drop row.teacher_id (λ h. h - 1) (λ h. false) s.hours_by_teacher;
  class_positions =
      each_class (λ c. leave_partition (c, tb.day_of_week) tb.position) lesson'.school_class_ids
        s.class_positions;
  teacher_positions =
      leave_partition (row.teacher_id, tb.day_of_week) tb.position s.teacher_positions;
  locked_room =
      each_class (λ c. leave_lock (c, tb.day_of_week, lesson'.subject_id)) lesson'.school_class_ids
        s.locked_room;
  subject_hours_by_class_day =
      each_class (λ c. leave_hours (c, tb.day_of_week, lesson'.subject_id)) lesson'.school_class_ids
        s.subject_hours_by_class_day;
}

abbrev pub with_row : Lesson → Placement → TimeBlock → GreedyState → GreedyState
with_row lesson' row tb s = record s {
  used_teacher = add (row.teacher_id, row.time_block_id) s.used_teacher;
  used_class = each_class (λ c. add (c, row.time_block_id)) lesson'.school_class_ids s.used_class;
  used_room = add (row.room_id, row.time_block_id) s.used_room;
  hours_by_teacher = update row.teacher_id 0 (λ h. add_u8 h 1) s.hours_by_teacher;
  class_positions =
      each_class (λ c. join_partition (c, tb.day_of_week) tb.position) lesson'.school_class_ids
        s.class_positions;
  teacher_positions =
      join_partition (row.teacher_id, tb.day_of_week) tb.position s.teacher_positions;
  locked_room =
      each_class (λ c. join_lock row.room_id (c, tb.day_of_week, lesson'.subject_id))
        lesson'.school_class_ids s.locked_room;
  subject_hours_by_class_day =
      each_class (λ c. join_hours (c, tb.day_of_week, lesson'.subject_id)) lesson'.school_class_ids
        s.subject_hours_by_class_day;
}

pub rr_remove_row_bookkeeping_lem :
    (lesson' : Lesson) (row : Placement) (tb_lookup : HashMap ℕ TimeBlock) (tb : TimeBlock)
    (s : GreedyState)
    → get tb_lookup row.time_block_id ≡ some tb
    → rr_remove_row_bookkeeping lesson' row tb_lookup s ≡ some (without_row lesson' row tb s)
unfolding rr_remove_row_bookkeeping
rr_remove_row_bookkeeping_lem lesson' row tb_lookup tb s found =
    let cs = lesson'.school_class_ids in
    rw (found, rr_remove_row_bookkeeping)
      (rw
        (
          leave_slots row.time_block_id tb cs (record s {
            used_teacher = discard (row.teacher_id, row.time_block_id) s.used_teacher;
          }),
          leave_all_counts lesson' tb cs,
        )
        refl)

pub replay_placement_lem :
    (lesson' : Lesson) (row : Placement) (tb_lookup : HashMap ℕ TimeBlock) (tb : TimeBlock)
    (placements : List Placement) (s : GreedyState)
    → get tb_lookup row.time_block_id ≡ some tb
    → replay_placement lesson' row tb_lookup placements s
      ≡ some (placements ++ (row ∷ []), with_row lesson' row tb s)
unfolding replay_placement
replay_placement_lem lesson' row tb_lookup tb placements s found =
    let cs = lesson'.school_class_ids in
    rw (found, replay_placement)
      (rw
        (
          join_slots row.time_block_id tb cs
              (record s { used_teacher = add (row.teacher_id, row.time_block_id) s.used_teacher }),
          join_all_counts lesson' row.room_id tb cs,
        )
        refl)
