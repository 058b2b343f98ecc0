-- ===== src/Greedy/Place.antt =====
-- One block of a lesson placed greedily (solve.rs: `try_place_block`, `prefer_class_teacher_lock_cost`,
-- `BlockCandidate`, `TeacherCandidates`): the filters and the choice are here, the writes in Place/Commit.
pub mod Pick
pub mod Commit
pub mod Chosen
pub mod Apart
pub mod Safe
pub mod Written
pub mod Outcome
use klassenzeit.Base.{
  ℕ, zero, suc, ◌+◌, ◌-◌, Bool, true, false, ◌&&◌, ◌||◌, not, Option, none, some, List, [], ◌∷◌,
  ◌==◌, leb, ltb, if◌then◌else◌, HashMap, HashSet, get, get_or_default, contains, any, all, length,
  add_u8, sub_u8, sat_add_u8, sat_add, sat_mul, u32_max, min, nat_eq, pair_eq, triple_eq,
}
use klassenzeit.Base.Int.{ℤ, pos, ◌+ℤ◌, ◌-ℤ◌, scale, pos_part}
use klassenzeit.Types.{Problem, Lesson, Subject, Placement, TimeBlock, Room, ConstraintWeights}
use klassenzeit.Index.{Indexed, teacher_blocked, room_blocked, room_suits_subject}
use klassenzeit.Score.Gaps.{gap_count, gap_count_after_window_insert}
use klassenzeit.Score.Preference.{subject_preference_score}
use klassenzeit.Score.HomeRoom.{home_room_penalty}
use klassenzeit.Score.Balance.{class_day_balance_cost_for_class_after_add, sum_counts}
use klassenzeit.Greedy.State.{GreedyState}
use klassenzeit.Greedy.Travel.{would_violate_travel_buffer}

-- The arguments that the placement only reads. The orders are given as what their indices name:
-- `tb_order` the time blocks, `room_order` the rooms.
pub record Setting : Type 0 where
  pub problem : Problem
  pub idx : Indexed
  pub teacher_max : HashMap ℕ ℕ
  pub class_max_lessons_per_day : HashMap ℕ ℕ
  pub weights : ConstraintWeights
  pub home_room_lookup : HashMap ℕ (Option ℕ)
  pub class_teacher_lookup : HashMap ℕ (Option ℕ)
  pub subject_qualified_teachers : HashMap ℕ (HashSet ℕ)
  pub tb_order : List TimeBlock
  pub room_order : List Room
  pub max_position_per_day : HashMap ℕ ℕ
  pub days : ℕ

pub record BlockCandidate : Type 0 where
  pub outer_pos : ℕ
  pub day : ℕ
  pub start_pos : ℕ
  pub end_pos : ℕ
  pub room_id : ℕ
  pub teacher_id : ℕ
  pub slice_score : ℕ
  pub total_score : ℕ

unfoldable pub prefer_class_teacher_lock_cost :
    ℕ → ℕ → ℕ → HashMap ℕ (Option ℕ) → HashMap ℕ (HashSet ℕ) → ConstraintWeights → ℕ
unfolding get contains
prefer_class_teacher_lock_cost class' subject_id chosen class_teacher_lookup qualified_teachers
      weights =
    if weights.prefer_class_teacher == 0 then 0 else (elim (get class_teacher_lookup class') [
      | none ↦ 0
      | some no_teacher_or_klt ↦ elim no_teacher_or_klt [
        | none ↦ 0
        | some klt ↦ elim (get qualified_teachers subject_id) [
          | none ↦ 0
          | some qualified ↦
              if not (contains qualified klt) || (chosen == klt)
              then 0
              else weights.prefer_class_teacher
        ]
      ]
    ])

-- `None => shared = Some(locked), Some(prev) if prev != locked => conflict, _ => {}`; `none` is the conflict.
abbrev pub agree : ℕ → Option ℕ → Option (Option ℕ)
agree locked none = some (some locked)
agree locked (some prev) = if not (prev == locked) then none else some (some prev)

-- The value that the lookups of all classes share, if any has one; `none` when two disagree.
unfoldable pub shared_lock : (ℕ → Option ℕ) → List ℕ → Option ℕ → Option (Option ℕ)
shared_lock look [] shared = some shared
shared_lock look (c ∷ cs) shared = elim (look c) [
  | none ↦ shared_lock look cs shared
  | some locked ↦ elim (agree locked shared) [
    | none ↦ none
    | some shared' ↦ shared_lock look cs shared'
  ]
]

abbrev pub room_of_lock : Option (ℕ × ℕ) → Option ℕ
room_of_lock none = none
room_of_lock (some lock) = some lock.0

abbrev pub candidate_teachers : Option ℕ → Lesson → List ℕ
candidate_teachers (some t) lesson' = t ∷ []
candidate_teachers none lesson' = elim lesson'.teacher_pin [
  | some pin ↦ pin ∷ []
  | none ↦ lesson'.teacher_candidates
]

-- `tb_order[outer_pos..outer_pos + n]`, for an order from `outer_pos` on; `none` past its end.
unfoldable pub window : ℕ → List TimeBlock → Option (List TimeBlock)
window zero tbs = some []
window (suc n) [] = none
window (suc n) (tb ∷ tbs) = elim (window n tbs) [ none ↦ none | some rest ↦ some (tb ∷ rest) ]

-- The blocks from the `k`-th on stand on the day at `start + k`, ...
unfoldable pub contiguous : ℕ → ℕ → ℕ → List TimeBlock → Bool
contiguous day start k [] = true
contiguous day start k (nb ∷ nbs) =
    (nb.day_of_week == day) && ((nb.position == add_u8 start k) && contiguous day start (suc k) nbs)

abbrev pub class_busy : GreedyState → List ℕ → TimeBlock → Bool
class_busy s cs tb = any (λ c. contains s.used_class (c, tb.id)) cs

abbrev pub room_busy : Setting → GreedyState → ℕ → TimeBlock → Bool
room_busy setting s room tb =
    contains s.used_room (room, tb.id) || room_blocked setting.idx room tb.id

abbrev pub teacher_busy : Setting → GreedyState → ℕ → TimeBlock → Bool
teacher_busy setting s teacher tb =
    contains s.used_teacher (teacher, tb.id) || teacher_blocked setting.idx teacher tb.id

-- A class whose subject hours or lessons of the day would go past a cap.
unfoldable pub over_daily_cap : Setting → GreedyState → Lesson → Subject → ℕ → ℕ → ℕ → Bool
unfolding get get_or_default
over_daily_cap setting s lesson' subject n day c =
    let current_hours =
      get_or_default 0 s.subject_hours_by_class_day (c, day, lesson'.subject_id) in
    if ltb subject.max_hours_per_day (sat_add_u8 current_hours n)
    then true
    else (elim (get setting.class_max_lessons_per_day c) [
      | none ↦ false
      | some cap ↦ ltb cap (sat_add_u8 (get_or_default 0 s.lessons_by_class_day (c, day)) 1)
    ])

abbrev pub gaps_of : Option (List ℕ) → ℕ
gaps_of none = 0
gaps_of (some ps) = gap_count ps

-- `i64::from(new) - i64::from(old)` of one partition when the window joins it.
abbrev pub window_delta : HashMap (ℕ × ℕ) (List ℕ) → ℕ × ℕ → ℕ → ℕ → ℤ
window_delta parts key start_pos end_pos =
    pos (gap_count_after_window_insert (get parts key) start_pos end_pos)
    -ℤ pos (gaps_of (get parts key))

unfoldable pub class_delta_sum : HashMap (ℕ × ℕ) (List ℕ) → ℕ → ℕ → ℕ → List ℕ → ℤ → ℤ
unfolding get gap_count gap_count_after_window_insert ◌+ℤ◌ ◌-ℤ◌
class_delta_sum parts day start_pos end_pos [] sum = sum
class_delta_sum parts day start_pos end_pos (c ∷ cs) sum =
    class_delta_sum parts day start_pos end_pos cs
      (sum +ℤ window_delta parts (c, day) start_pos end_pos)

unfoldable pub window_preference : Subject → ℕ → ConstraintWeights → List TimeBlock → ℕ → ℕ
unfolding subject_preference_score
window_preference subject max_pos weights [] score = score
window_preference subject max_pos weights (tb ∷ tbs) score =
    window_preference subject max_pos weights tbs
      (sat_add score (subject_preference_score subject tb max_pos weights))

-- The room allowed by the lock, suitable, free and not blocked in the whole window.
abbrev pub room_fits : Setting → GreedyState → ℕ → Option ℕ → List TimeBlock → ℕ → Bool
room_fits setting s subject_id lock w room =
    (elim lock [ none ↦ true | some locked ↦ room == locked ])
    && (room_suits_subject setting.idx room subject_id && not (any (room_busy setting s room) w))

-- `None => true, Some((_, best_penalty)) => penalty < best_penalty`
abbrev pub takes : ℕ → Option (ℕ × ℕ) → Bool
takes penalty none = true
takes penalty (some best) = ltb penalty best.1

-- The scan for the room with the least penalty; the first of them, and it stops at penalty 0.
unfoldable pub best_room : (ℕ → Bool) → (ℕ → ℕ) → List Room → Option (ℕ × ℕ) → Option (ℕ × ℕ)
best_room fits penalty [] best = best
best_room fits penalty (room ∷ rooms) best =
    let rest = best_room fits penalty rooms in
    if not (fits room.id)
    then rest best
    else (if takes (penalty room.id) best
        then (if penalty room.id == 0
            then some (room.id, penalty room.id)
            else rest (some (room.id, penalty room.id)))
        else rest best)

-- `u32::try_from(new_signed.max(0)).unwrap_or(u32::MAX)`
abbrev pub clamp_u32 : ℤ → ℕ
clamp_u32 score = min (pos_part score) u32_max

-- `best` is replaced by a candidate that is strictly better.
abbrev pub prefer : BlockCandidate → Option BlockCandidate → Option BlockCandidate
prefer c none = some c
prefer c (some b) = if leb b.total_score c.total_score then some b else some c
