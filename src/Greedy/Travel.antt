-- ===== src/Greedy/Travel.antt =====
-- The travel-buffer filter of the search (validate.rs: `would_violate_travel_buffer`). Additions on `u8`
-- that the source leaves unchecked wrap.
use klassenzeit.Base.{
  ℕ, ◌-◌, Bool, true, false, ◌&&◌, ◌||◌, not, Option, none, some, List, ◌==◌, leb, ltb,
  if◌then◌else◌, HashMap, get, find, any, add_u8, sat_add_u8, pair_eq,
}
use klassenzeit.Types.{Problem, Lesson, Placement, TimeBlock}
use klassenzeit.Validate.BreakSlots.{is_not_lesson}
use klassenzeit.Score.Partition.{member}
use klassenzeit.Greedy.State.{GreedyState}

-- `find(|t| t.day_of_week == day && t.position == position)`
abbrev pub slot_at : Problem → ℕ → ℕ → Option TimeBlock
slot_at problem day position =
    find (λ t. (t.day_of_week == day) && (t.position == position)) problem.time_blocks

-- `is_some_and(|t| t.kind == TimeBlockKind::Break)`
abbrev pub is_break_block : Option TimeBlock → Bool
is_break_block none = false
is_break_block (some tb) = is_not_lesson tb.kind

-- `ignore_self` covers the position: `check_pos >= ignore_start && check_pos < ignore_start + n`.
abbrev pub is_self : Option (ℕ × ℕ) → ℕ → ℕ → ℕ → Bool
is_self none n day position = false
is_self (some (ignore_day, ignore_start)) n day position =
    (day == ignore_day) && (leb ignore_start position && ltb position (sat_add_u8 ignore_start n))

-- The candidate's range covers the slot, and no break stands there.
abbrev pub covers_slot : Problem → ℕ → ℕ → ℕ → ℕ → Bool
covers_slot problem day pos candidate_n slot =
    not (is_break_block (slot_at problem day slot))
    && (leb pos slot && ltb slot (add_u8 pos candidate_n))

-- The two buffer sides of a placement `p` at `p_pos` against the candidate's range.
unfoldable pub sides_hit : Problem → Lesson → ℕ → ℕ → ℕ → ℕ → Bool
unfolding is_not_lesson
sides_hit problem p_lesson p_pos day pos candidate_n =
    let pre = covers_slot problem day pos candidate_n (p_pos - 1) in
    let post =
      covers_slot problem day pos candidate_n (sat_add_u8 p_pos p_lesson.preferred_block_size) in
    if ltb 0 p_lesson.pre_buffer_minutes && (ltb 0 p_pos && pre)
    then true
    else ltb 0 p_lesson.post_buffer_minutes && post

-- The body of the loop over the placements: `true` where it returns, `false` where it goes on.
unfoldable pub hits_buffer : Problem → Lesson → ℕ → ℕ → ℕ → Option (ℕ × ℕ) → Placement → Bool
unfolding sides_hit
hits_buffer problem lesson' day pos teacher ignore_self p =
    elim (find (λ l. l.id == p.lesson_id) problem.lessons) [
      | none ↦ false
      | some p_lesson ↦
          if p_lesson.id == lesson'.id
          then false
          else (if (p_lesson.pre_buffer_minutes == 0) && (p_lesson.post_buffer_minutes == 0)
              then false
              else (elim (find (λ t. t.id == p.time_block_id) problem.time_blocks) [
                | none ↦ false
                | some p_tb ↦
                    if not (p_tb.day_of_week == day)
                    then false
                    else (if is_self ignore_self lesson'.preferred_block_size p_tb.day_of_week
                          p_tb.position
                        then false
                        else (if not (
                              any (λ c. any (λ d. d == c) p_lesson.school_class_ids)
                                lesson'.school_class_ids
                              || (teacher == p.teacher_id))
                            then false
                            else sides_hit problem p_lesson p_tb.position day pos
                                lesson'.preferred_block_size))
              ]))
    ]

-- `positions.contains(&pos)` on the partition of a key, if there is one.
abbrev pub partition_has : HashMap (ℕ × ℕ) (List ℕ) → ℕ × ℕ → ℕ → Bool
partition_has parts key position = elim (get parts key) [
  | none ↦ false
  | some ps ↦ member ps position
]

-- A class of the lesson or the teacher is at the position.
abbrev pub neighbour_at : GreedyState → Lesson → ℕ → ℕ → ℕ → Bool
neighbour_at s lesson' teacher day position =
    any (λ c. partition_has s.class_positions (c, day) position) lesson'.school_class_ids
    || partition_has s.teacher_positions (teacher, day) position

abbrev pub pre_side_hit : Problem → GreedyState → Lesson → ℕ → ℕ → ℕ → Option (ℕ × ℕ) → Bool
pre_side_hit problem s lesson' day pos teacher ignore_self =
    if (pos == 0) && ltb problem.pre_first_slot_grace_minutes lesson'.pre_buffer_minutes
    then true
    else ltb 0 pos
      && (not (is_break_block (slot_at problem day (pos - 1)))
          && (not (is_self ignore_self lesson'.preferred_block_size day (pos - 1))
              && neighbour_at s lesson' teacher day (pos - 1)))

abbrev pub post_side_hit : Problem → GreedyState → Lesson → ℕ → ℕ → ℕ → Option (ℕ × ℕ) → Bool
post_side_hit problem s lesson' day pos teacher ignore_self =
    let next_pos = sat_add_u8 pos lesson'.preferred_block_size in
    elim (slot_at problem day next_pos) [
      | none ↦ true
      | some next ↦
          not (is_not_lesson next.kind)
          && (not (is_self ignore_self lesson'.preferred_block_size day next_pos)
              && neighbour_at s lesson' teacher day next_pos)
    ]

unfoldable pub would_violate_travel_buffer :
    Problem → GreedyState → List Placement → Lesson → ℕ → ℕ → Option (ℕ × ℕ) → Bool
unfolding get hits_buffer is_not_lesson
would_violate_travel_buffer problem s placements lesson' tb_id teacher ignore_self =
    elim (find (λ t. t.id == tb_id) problem.time_blocks) [
      | none ↦ false
      | some tb ↦
          let day = tb.day_of_week in
          let pos = tb.position in
          if any (hits_buffer problem lesson' day pos teacher ignore_self) placements
          then true
          else (if (lesson'.pre_buffer_minutes == 0) && (lesson'.post_buffer_minutes == 0)
              then false
              else (if ltb 0 lesson'.pre_buffer_minutes
                    && pre_side_hit problem s lesson' day pos teacher ignore_self
                  then true
                  else ltb 0 lesson'.post_buffer_minutes
                    && post_side_hit problem s lesson' day pos teacher ignore_self))
    ]
