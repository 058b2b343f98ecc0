-- ===== src/Greedy/Place/Written.antt =====
-- What a placed block writes into the partitions, the locks and the counters of the bookkeeping.
use klassenzeit.Base.{
  ℕ, ◌+◌, ◌-◌, ◌≡◌, refl, List, [], ◌∷◌, ◌++◌, if◌then◌else◌, IsDistinct, HashMap, get, update,
  get_or_default, get_or_default-update_at, get-update_at, refreshed, each_class, look-each_class,
  any, add, add_u8, add_u32, nat_eq, pair_eq, triple_eq, ap, ◌∙◌,
}
use klassenzeit.Types.{Lesson, Placement, TimeBlock}
use klassenzeit.Score.Partition.{insert_window}
use klassenzeit.Greedy.State.{GreedyState}
use klassenzeit.Greedy.Rows.Fields.{pair_apart, triple_apart}
use klassenzeit.Greedy.Place.{BlockCandidate}
use klassenzeit.Greedy.Place.Commit.{
  mark_block, placed, push_blocks, enter_class, positions_of, commit,
}
use klassenzeit.Greedy.Place.Apart.{mark_classes}

-- For the candidate's teacher and each class of the lesson, the positions from `start_pos` to `end_pos` enter
-- the partition of the day. For each class, the room and teacher of the subject are locked unless they are
-- already, the lock of the day and subject counts `n` more rows, the subject has `n` more hours on the day and
-- the class one more lesson. Everything else in these maps is as before.
pub record IsWritten (lesson' : Lesson) (n : ℕ) (c : BlockCandidate) (s s' : GreedyState)
    : Type 0 where
  pub class_days :
      (j : ℕ × ℕ)
      → get_or_default [] s'.class_positions j ≡ (
          if any (λ k. pair_eq.beq (k, c.day) j) lesson'.school_class_ids
          then insert_window
              (get_or_default [] s.class_positions j)
              c.start_pos
              (c.end_pos + 1 - c.start_pos)
          else get_or_default [] s.class_positions j)
  pub teacher_days :
      (j : ℕ × ℕ)
      → get_or_default [] s'.teacher_positions j ≡ (
          if pair_eq.beq (c.teacher_id, c.day) j
          then insert_window
              (get_or_default [] s.teacher_positions j)
              c.start_pos
              (c.end_pos + 1 - c.start_pos)
          else get_or_default [] s.teacher_positions j)
  pub room_locks :
      (j : ℕ × ℕ × ℕ)
      → get s'.locked_room j ≡ (
          if any (λ k. triple_eq.beq (k, c.day, lesson'.subject_id) j) lesson'.school_class_ids
          then refreshed (c.room_id, 0) (λ lock. (lock.0, add_u32 lock.1 n)) (get s.locked_room j)
          else get s.locked_room j)
  pub teacher_locks :
      (j : ℕ × ℕ)
      → get s'.class_subject_teacher j ≡ (
          if any (λ k. pair_eq.beq (k, lesson'.subject_id) j) lesson'.school_class_ids
          then refreshed c.teacher_id (λ t. t) (get s.class_subject_teacher j)
          else get s.class_subject_teacher j)
  pub subject_hours :
      (j : ℕ × ℕ × ℕ)
      → get_or_default 0 s'.subject_hours_by_class_day j ≡ (
          if any (λ k. triple_eq.beq (k, c.day, lesson'.subject_id) j) lesson'.school_class_ids
          then add_u8 (get_or_default 0 s.subject_hours_by_class_day j) n
          else get_or_default 0 s.subject_hours_by_class_day j)
  pub lessons :
      (j : ℕ × ℕ)
      → get_or_default 0 s'.lessons_by_class_day j ≡ (
          if any (λ k. pair_eq.beq (k, c.day) j) lesson'.school_class_ids
          then add_u8 (get_or_default 0 s.lessons_by_class_day j) 1
          else get_or_default 0 s.lessons_by_class_day j)
  pub slice : s'.search_score_slice ≡ c.slice_score

-- The bookkeeping without its used sets.
abbrev without_sets : GreedyState → GreedyState
without_sets s = record s { used_teacher = []; used_class = []; used_room = [] }

abbrev with_hours : HashMap ℕ ℕ → GreedyState → GreedyState
with_hours hours s = record s { hours_by_teacher = hours }

push_blocks_rest :
    (lesson' : Lesson) (c : BlockCandidate) (tbs : List TimeBlock) (placements : List Placement)
    (s : GreedyState)
    → without_sets (push_blocks lesson' c tbs placements s).1 ≡ without_sets s
unfolding push_blocks
push_blocks_rest lesson' c [] placements s = refl
push_blocks_rest lesson' c (tb ∷ tbs) placements s =
    push_blocks_rest lesson' c tbs (placements ++ (placed lesson' c tb ∷ []))
      (mark_block lesson' c tb s)
    ∙ ap without_sets (
        mark_classes tb.id lesson'.school_class_ids
          (record s { used_teacher = add (c.teacher_id, tb.id) s.used_teacher }))

-- The loop over the classes, field by field.
enter_all_fields :
    (lesson' : Lesson) (n : ℕ) (c : BlockCandidate) (cs : List ℕ) (s : GreedyState)
    → each_class (enter_class lesson' n c) cs s ≡ record s {
      class_positions =
          each_class (λ k. update (k, c.day) [] (positions_of c)) cs s.class_positions;
      locked_room =
          each_class
            (λ k.
              update
                (k, c.day, lesson'.subject_id)
                (c.room_id, 0)
                (λ lock. (lock.0, add_u32 lock.1 n)))
            cs
            s.locked_room;
      class_subject_teacher =
          each_class
            (λ k. update (k, lesson'.subject_id) c.teacher_id (λ t. t))
            cs
            s.class_subject_teacher;
      subject_hours_by_class_day =
          each_class
            (λ k. update (k, c.day, lesson'.subject_id) 0 (λ h. add_u8 h n))
            cs
            s.subject_hours_by_class_day;
      lessons_by_class_day =
          each_class (λ k. update (k, c.day) 0 (λ h. add_u8 h 1)) cs s.lessons_by_class_day;
    }
unfolding each_class
enter_all_fields lesson' n c [] s = refl
enter_all_fields lesson' n c (k ∷ cs) s =
    enter_all_fields lesson' n c cs (enter_class lesson' n c k s)

module _ (lesson' : Lesson) (n : ℕ) (c : BlockCandidate) (s : GreedyState)
    (distinct : IsDistinct lesson'.school_class_ids) where
  -- The writes on a state whose other fields are those of `s`.
  class_writes :
      (s2 : GreedyState)
      → without_sets s2 ≡ without_sets (record s { hours_by_teacher = s2.hours_by_teacher })
      → (let s3 = each_class (enter_class lesson' n c) lesson'.school_class_ids s2 in
          IsWritten lesson' n c s (record s3 {
            teacher_positions =
                update (c.teacher_id, c.day) [] (positions_of c) s3.teacher_positions;
            search_score_slice = c.slice_score;
          }))
  class_writes s2 same =
      let cs = lesson'.school_class_ids in
      let subject = lesson'.subject_id in
      rw (enter_all_fields lesson' n c cs s2) (record {
        class_days = λ j.
            look-each_class (get_or_default []) (λ k j. pair_eq.beq (k, c.day) j)
              (λ k. update (k, c.day) [] (positions_of c)) (positions_of c)
              (λ k j m. get_or_default-update_at (k, c.day) j [] (positions_of c) m)
              (λ a b j. pair_apart c.day a b j) cs distinct j s2.class_positions
            ∙ ap
                (λ t.
                  if any (λ k. pair_eq.beq (k, c.day) j) cs
                  then positions_of c (get_or_default [] t.class_positions j)
                  else get_or_default [] t.class_positions j)
                same;
        teacher_days = λ j.
            get_or_default-update_at (c.teacher_id, c.day) j [] (positions_of c)
              s2.teacher_positions
            ∙ ap
                (λ t.
                  if pair_eq.beq (c.teacher_id, c.day) j
                  then positions_of c (get_or_default [] t.teacher_positions j)
                  else get_or_default [] t.teacher_positions j)
                same;
        room_locks = λ j.
            look-each_class get (λ k j. triple_eq.beq (k, c.day, subject) j)
              (λ k. update (k, c.day, subject) (c.room_id, 0) (λ lock. (lock.0, add_u32 lock.1 n)))
              (refreshed (c.room_id, 0) (λ lock. (lock.0, add_u32 lock.1 n)))
              (λ k j m.
                get-update_at (k, c.day, subject) j (c.room_id, 0)
                  (λ lock. (lock.0, add_u32 lock.1 n)) m)
              (λ a b j. triple_apart c.day subject a b j) cs distinct j s2.locked_room
            ∙ ap
                (λ t.
                  if any (λ k. triple_eq.beq (k, c.day, subject) j) cs
                  then refreshed (c.room_id, 0) (λ lock. (lock.0, add_u32 lock.1 n))
                      (get t.locked_room j)
                  else get t.locked_room j)
                same;
        teacher_locks = λ j.
            look-each_class get (λ k j. pair_eq.beq (k, subject) j)
              (λ k. update (k, subject) c.teacher_id (λ t. t)) (refreshed c.teacher_id (λ t. t))
              (λ k j m. get-update_at (k, subject) j c.teacher_id (λ t. t) m)
              (λ a b j. pair_apart subject a b j) cs distinct j s2.class_subject_teacher
            ∙ ap
                (λ t.
                  if any (λ k. pair_eq.beq (k, subject) j) cs
                  then refreshed c.teacher_id (λ t. t) (get t.class_subject_teacher j)
                  else get t.class_subject_teacher j)
                same;
        subject_hours = λ j.
            look-each_class (get_or_default 0) (λ k j. triple_eq.beq (k, c.day, subject) j)
              (λ k. update (k, c.day, subject) 0 (λ h. add_u8 h n)) (λ h. add_u8 h n)
              (λ k j m. get_or_default-update_at (k, c.day, subject) j 0 (λ h. add_u8 h n) m)
              (λ a b j. triple_apart c.day subject a b j) cs distinct j
              s2.subject_hours_by_class_day
            ∙ ap
                (λ t.
                  if any (λ k. triple_eq.beq (k, c.day, subject) j) cs
                  then add_u8 (get_or_default 0 t.subject_hours_by_class_day j) n
                  else get_or_default 0 t.subject_hours_by_class_day j)
                same;
        lessons = λ j.
            look-each_class (get_or_default 0) (λ k j. pair_eq.beq (k, c.day) j)
              (λ k. update (k, c.day) 0 (λ h. add_u8 h 1)) (λ h. add_u8 h 1)
              (λ k j m. get_or_default-update_at (k, c.day) j 0 (λ h. add_u8 h 1) m)
              (λ a b j. pair_apart c.day a b j) cs distinct j s2.lessons_by_class_day
            ∙ ap
                (λ t.
                  if any (λ k. pair_eq.beq (k, c.day) j) cs
                  then add_u8 (get_or_default 0 t.lessons_by_class_day j) 1
                  else get_or_default 0 t.lessons_by_class_day j)
                same;
        slice = refl;
      })

  -- A commit writes what the record says.
  pub commit-IsWritten :
      (blocks : List TimeBlock) (placements : List Placement)
      → IsWritten lesson' n c s (commit lesson' n c blocks placements s).1
  unfolding commit
  commit-IsWritten blocks placements =
      let s1 = (push_blocks lesson' c blocks placements s).1 in
      let hours = update c.teacher_id 0 (λ h. add_u8 h n) s1.hours_by_teacher in
      class_writes (record s1 { hours_by_teacher = hours })
        (ap (with_hours hours) (push_blocks_rest lesson' c blocks placements s))
