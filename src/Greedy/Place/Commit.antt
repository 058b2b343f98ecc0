-- ===== src/Greedy/Place/Commit.antt =====
-- The writes of a placed block (solve.rs: `try_place_block` from the first push on).
use klassenzeit.Base.{
  ℕ, zero, suc, ◌+◌, ◌-◌, Bool, true, false, Option, none, some, List, [], ◌∷◌, ◌++◌, ◌==◌, update,
  add, each_class, add_u8, add_u32, nat_eq, pair_eq, triple_eq, find,
}
use klassenzeit.Types.{Lesson, Placement, TimeBlock}
use klassenzeit.Score.Partition.{insert_window}
use klassenzeit.Greedy.State.{GreedyState}
use klassenzeit.Greedy.Place.{Setting, BlockCandidate, window}
use klassenzeit.Greedy.Place.Pick.{pick_block}

abbrev pub mark_class : ℕ → ℕ → GreedyState → GreedyState
mark_class time_block_id c s = record s { used_class = add (c, time_block_id) s.used_class }

-- The body of `for k in 0..n_usize` on the state.
abbrev pub mark_block : Lesson → BlockCandidate → TimeBlock → GreedyState → GreedyState
mark_block lesson' c tb s =
    let s1 : GreedyState = record s { used_teacher = add (c.teacher_id, tb.id) s.used_teacher } in
    let s2 = each_class (mark_class tb.id) lesson'.school_class_ids s1 in
    record s2 { used_room = add (c.room_id, tb.id) s2.used_room }

abbrev pub placed : Lesson → BlockCandidate → TimeBlock → Placement
placed lesson' c tb = record {
  lesson_id = lesson'.id;
  time_block_id = tb.id;
  room_id = c.room_id;
  teacher_id = c.teacher_id;
}

unfoldable pub push_blocks :
    Lesson
    → BlockCandidate
    → List TimeBlock
    → List Placement
    → GreedyState
    → List Placement × GreedyState
unfolding add each_class
push_blocks lesson' c [] placements s = (placements, s)
push_blocks lesson' c (tb ∷ tbs) placements s =
    push_blocks lesson' c tbs (placements ++ (placed lesson' c tb ∷ [])) (mark_block lesson' c tb s)

-- `for pos in c.start_pos..=c.end_pos`
abbrev pub positions_of : BlockCandidate → List ℕ → List ℕ
positions_of c ps = insert_window ps c.start_pos (c.end_pos + 1 - c.start_pos)

-- The second loop over the classes. `or_insert` leaves an entry as it is.
abbrev pub enter_class : Lesson → ℕ → BlockCandidate → ℕ → GreedyState → GreedyState
enter_class lesson' n c class' s = record s {
  class_positions = update (class', c.day) [] (positions_of c) s.class_positions;
  locked_room =
      update (class', c.day, lesson'.subject_id) (c.room_id, 0) (λ lock. (lock.0, add_u32 lock.1 n))
        s.locked_room;
  class_subject_teacher =
      update (class', lesson'.subject_id) c.teacher_id (λ t. t) s.class_subject_teacher;
  subject_hours_by_class_day =
      update (class', c.day, lesson'.subject_id) 0 (λ h. add_u8 h n) s.subject_hours_by_class_day;
  lessons_by_class_day = update (class', c.day) 0 (λ h. add_u8 h 1) s.lessons_by_class_day;
}

unfoldable pub commit :
    Lesson
    → ℕ
    → BlockCandidate
    → List TimeBlock
    → List Placement
    → GreedyState
    → List Placement × GreedyState
unfolding update each_class insert_window push_blocks
commit lesson' n c blocks placements s =
    let (placements', s1) = push_blocks lesson' c blocks placements s in
    let s2 : GreedyState = record s1 {
      hours_by_teacher = update c.teacher_id 0 (λ h. add_u8 h n) s1.hours_by_teacher;
    } in
    let s3 = each_class (enter_class lesson' n c) lesson'.school_class_ids s2 in
    (
      placements',
      record s3 {
        teacher_positions = update (c.teacher_id, c.day) [] (positions_of c) s3.teacher_positions;
        search_score_slice = c.slice_score;
      },
    )

-- `tb_order[i..]`
abbrev pub drop : ℕ → List TimeBlock → List TimeBlock
drop zero tbs = tbs
drop (suc i) [] = []
drop (suc i) (tb ∷ tbs) = drop i tbs

-- Whether the block was placed, with the placements and the state. `none` is a panic: a subject that the
-- problem does not have, or an index out of range.
unfoldable pub try_place_block :
    Setting
    → GreedyState
    → List Placement
    → Lesson
    → ℕ
    → Option (Bool × List Placement × GreedyState)
unfolding pick_block window commit
try_place_block setting s placements lesson' n =
    elim (find (λ sub. sub.id == lesson'.subject_id) setting.problem.subjects) [
      | none ↦ none
      | some subject ↦ elim (pick_block setting s placements lesson' subject n) [
        | none ↦ some (false, placements, s)
        | some c ↦ elim (window n (drop c.outer_pos setting.tb_order)) [
          | none ↦ none
          | some blocks ↦
              let (placements', s') = commit lesson' n c blocks placements s in
              some (true, placements', s')
        ]
      ]
    ]
