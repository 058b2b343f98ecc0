-- ===== src/Greedy/Place/Pick.antt =====
-- The choice of a window, a room and a teacher (solve.rs: the loops of `try_place_block`). The `i64` sums
-- stay far inside its range: weights are `u32` and gap counts `u8`.
use klassenzeit.Base.{
  ℕ, suc, Bool, true, false, ◌&&◌, not, Option, none, some, List, [], ◌∷◌, ◌==◌, ltb, if◌then◌else◌,
  get, get_or_default, contains, any, add_u8, sub_u8, sat_add_u8, sat_add, sat_mul, nat_eq, pair_eq,
  triple_eq,
}
use klassenzeit.Base.Int.{ℤ, pos, ◌+ℤ◌, ◌-ℤ◌, scale}
use klassenzeit.Types.{Lesson, Subject, Placement, TimeBlock}
use klassenzeit.Index.{teacher_blocked, room_blocked, room_suits_subject}
use klassenzeit.Score.Gaps.{gap_count, gap_count_after_window_insert}
use klassenzeit.Score.HomeRoom.{home_room_penalty}
use klassenzeit.Score.Balance.{class_day_balance_cost_for_class_after_add, sum_counts}
use klassenzeit.Greedy.State.{GreedyState}
use klassenzeit.Greedy.Travel.{would_violate_travel_buffer}
use klassenzeit.Greedy.Place.{
  Setting, BlockCandidate, prefer_class_teacher_lock_cost, shared_lock, room_of_lock,
  candidate_teachers, window, contiguous, class_busy, teacher_busy, over_daily_cap, window_delta,
  class_delta_sum, window_preference, room_fits, best_room, clamp_u32, prefer,
}

-- What the window's body has computed before the loop over the teachers.
pub record Opening : Type 0 where
  pub outer_pos : ℕ
  pub first_tb : TimeBlock
  pub blocks : List TimeBlock
  pub end_pos : ℕ
  pub class_delta_w : ℤ
  pub subject_pref : ℕ
  pub room_id : ℕ
  pub room_penalty : ℕ
  pub balance_post : ℕ

abbrev pub required_hours : Option ℕ → Lesson → ℕ → ℕ
required_hours existing_lock lesson' n = elim existing_lock [
  | some t ↦ n
  | none ↦ elim lesson'.teacher_pin [ some pin ↦ n | none ↦ lesson'.hours_per_week ]
]

-- The filters on a teacher: free in the window, within the week's hours, and no travel buffer in the way.
unfoldable pub teacher_fits :
    Setting → GreedyState → List Placement → Lesson → ℕ → Option ℕ → Opening → ℕ → Bool
unfolding get_or_default contains teacher_blocked would_violate_travel_buffer
teacher_fits setting s placements lesson' n existing_lock o teacher =
    not (any (teacher_busy setting s teacher) o.blocks)
    && (not (
          ltb (get_or_default 0 setting.teacher_max teacher) (
            sat_add_u8 (get_or_default 0 s.hours_by_teacher teacher)
              (required_hours existing_lock lesson' n)))
        && not (
            would_violate_travel_buffer setting.problem s placements lesson' o.first_tb.id teacher
              none))

-- `prefer_class_teacher_cost`: only a placement that sets the lock pays it.
abbrev pub fresh_lock_cost : Setting → Lesson → Option ℕ → ℕ → ℕ
fresh_lock_cost setting lesson' existing_lock teacher = elim existing_lock [
  | some t ↦ 0
  | none ↦
      if setting.weights.prefer_class_teacher == 0
      then 0
      else sum_counts
          (λ c.
            prefer_class_teacher_lock_cost c lesson'.subject_id teacher setting.class_teacher_lookup
              setting.subject_qualified_teachers setting.weights)
          lesson'.school_class_ids 0
]

-- The scores of a teacher in the window, as the candidate that they make.
unfoldable pub candidate_of :
    Setting → GreedyState → Lesson → Option ℕ → Opening → ℕ → BlockCandidate
unfolding ◌+ℤ◌ ◌-ℤ◌ scale get gap_count gap_count_after_window_insert
candidate_of setting s lesson' existing_lock o teacher =
    let first = o.first_tb in
    let teacher_delta_w =
      scale setting.weights.teacher_gap
        (window_delta s.teacher_positions (teacher, first.day_of_week) first.position o.end_pos) in
    let slice_score =
      clamp_u32
        (pos s.search_score_slice +ℤ o.class_delta_w +ℤ teacher_delta_w +ℤ pos o.subject_pref) in
    record {
      outer_pos = o.outer_pos;
      day = first.day_of_week;
      start_pos = first.position;
      end_pos = o.end_pos;
      room_id = o.room_id;
      teacher_id = teacher;
      slice_score = slice_score;
      total_score =
          sat_add (sat_add (sat_add slice_score o.room_penalty) o.balance_post)
            (fresh_lock_cost setting lesson' existing_lock teacher);
    }

unfoldable pub teachers_loop :
    Setting
    → GreedyState
    → List Placement
    → Lesson
    → ℕ
    → Option ℕ
    → Opening
    → List ℕ
    → Option BlockCandidate
    → Option BlockCandidate
unfolding teacher_fits candidate_of
teachers_loop setting s placements lesson' n existing_lock o [] best = best
teachers_loop setting s placements lesson' n existing_lock o (teacher ∷ teachers) best =
    teachers_loop setting s placements lesson' n existing_lock o teachers (
      if teacher_fits setting s placements lesson' n existing_lock o teacher
      then prefer (candidate_of setting s lesson' existing_lock o teacher) best
      else best)

abbrev pub after_first : List TimeBlock → List TimeBlock
after_first [] = []
after_first (tb ∷ tbs) = tbs

-- The filters on a window that no room or teacher can change.
unfoldable pub window_fits :
    Setting → GreedyState → Lesson → Subject → ℕ → TimeBlock → List TimeBlock → Bool
unfolding contiguous contains over_daily_cap
window_fits setting s lesson' subject n first blocks =
    contiguous first.day_of_week first.position 1 (after_first blocks)
    && (not (any (class_busy s lesson'.school_class_ids) blocks)
        && not (
            any (over_daily_cap setting s lesson' subject n first.day_of_week)
              lesson'.school_class_ids))

-- The scores of the window, with its best room.
abbrev pub opening :
    Setting → GreedyState → Lesson → Subject → ℕ → ℕ → TimeBlock → List TimeBlock → ℕ × ℕ → Opening
opening setting s lesson' subject n outer_pos first blocks room =
    let cs = lesson'.school_class_ids in
    let day = first.day_of_week in
    let end_pos = sub_u8 (add_u8 first.position n) 1 in
    record {
      outer_pos = outer_pos;
      first_tb = first;
      blocks = blocks;
      end_pos = end_pos;
      class_delta_w =
          scale setting.weights.class_gap
            (class_delta_sum s.class_positions day first.position end_pos cs (pos 0));
      subject_pref =
          window_preference subject (get_or_default end_pos setting.max_position_per_day day)
            setting.weights blocks 0;
      room_id = room.0;
      room_penalty = room.1;
      balance_post =
          if setting.weights.class_day_balance == 0
          then 0
          else sat_mul setting.weights.class_day_balance (
              sum_counts
                (λ c.
                  class_day_balance_cost_for_class_after_add c setting.days s.class_positions day n)
                cs 0);
    }

-- `let Some((room_id, room_penalty)) = best_room else { continue }`, under the filters.
abbrev pub with_room : Option (ℕ × ℕ) → (ℕ × ℕ → Opening) → Option Opening
with_room none opened = none
with_room (some room) opened = some (opened room)

abbrev pub with_lock : Bool → Option (Option ℕ) → (Option ℕ → Option Opening) → Option Opening
with_lock false lock opened = none
with_lock true none opened = none
with_lock true (some lock) opened = opened lock

unfoldable pub open_window :
    Setting → GreedyState → Lesson → Subject → ℕ → ℕ → TimeBlock → List TimeBlock → Option Opening
unfolding get get_or_default window_fits shared_lock best_room home_room_penalty class_delta_sum
    window_preference sum_counts class_day_balance_cost_for_class_after_add scale room_suits_subject
    room_blocked contains
open_window setting s lesson' subject n outer_pos first blocks =
    with_lock (window_fits setting s lesson' subject n first blocks)
      (shared_lock
        (λ c. room_of_lock (get s.locked_room (c, first.day_of_week, lesson'.subject_id)))
        lesson'.school_class_ids none)
      (λ lock.
        with_room
          (best_room (room_fits setting s lesson'.subject_id lock blocks)
            (λ room. home_room_penalty lesson' setting.home_room_lookup room setting.weights)
            setting.room_order none)
          (opening setting s lesson' subject n outer_pos first blocks))

-- `b.outer_pos == outer_pos && b.total_score == state.search_score_slice`: after a window that changed
-- nothing, `best` is from an earlier one.
abbrev pub unbeatable : GreedyState → ℕ → Option BlockCandidate → Bool
unbeatable s outer_pos none = false
unbeatable s outer_pos (some b) =
    (b.outer_pos == outer_pos) && (b.total_score == s.search_score_slice)

-- The body of the loop over the windows, without the early exit.
unfoldable pub step_window :
    Setting
    → GreedyState
    → List Placement
    → Lesson
    → Subject
    → ℕ
    → Option ℕ
    → ℕ
    → TimeBlock
    → List TimeBlock
    → Option BlockCandidate
    → Option BlockCandidate
unfolding open_window teachers_loop
step_window setting s placements lesson' subject n existing_lock outer_pos tb blocks best =
    elim (open_window setting s lesson' subject n outer_pos tb blocks) [
      | none ↦ best
      | some o ↦
          teachers_loop setting s placements lesson' n existing_lock o
            (candidate_teachers existing_lock lesson') best
    ]

-- `'outer: for outer_pos in 0..tb_order.len()`, on the order from `outer_pos` on.
unfoldable pub windows_loop :
    Setting
    → GreedyState
    → List Placement
    → Lesson
    → Subject
    → ℕ
    → Option ℕ
    → ℕ
    → List TimeBlock
    → Option BlockCandidate
    → Option BlockCandidate
unfolding window step_window
windows_loop setting s placements lesson' subject n existing_lock outer_pos [] best = best
windows_loop setting s placements lesson' subject n existing_lock outer_pos (tb ∷ tbs) best =
    elim (window n (tb ∷ tbs)) [
      | none ↦ best
      | some blocks ↦
          let best' =
            step_window setting s placements lesson' subject n existing_lock outer_pos tb blocks
              best in
          if unbeatable s outer_pos best'
          then best'
          else windows_loop setting s placements lesson' subject n existing_lock (suc outer_pos) tbs
              best'
    ]

-- `try_place_block` after the subject is found and before the writes: the candidate to place. `none` is the
-- return of `false`.
unfoldable pub pick_block :
    Setting → GreedyState → List Placement → Lesson → Subject → ℕ → Option BlockCandidate
unfolding get shared_lock windows_loop
pick_block setting s placements lesson' subject n =
    elim (shared_lock (λ c. get s.class_subject_teacher (c, lesson'.subject_id))
      lesson'.school_class_ids none) [
        | none ↦ none
        | some existing_lock ↦
            windows_loop setting s placements lesson' subject n existing_lock 0 setting.tb_order
              none
      ]
