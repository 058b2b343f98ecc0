-- ===== src/Greedy/Lesson.antt =====
-- All blocks of one lesson (solve.rs: the loop over `block_index` of `solve_with_config_stats_inner`, and
-- `unplaced_kind`). `none` is a panic.
pub mod Adds
pub mod Accounted
use klassenzeit.Base.{
  ℕ, zero, suc, ◌+◌, ◌*◌, ◌/◌, ◌%◌, ◌≤◌, ◌<◌, ◌≡◌, refl, Bool, true, false, ◌&&◌, not, Option, none,
  some, List, [], ◌∷◌, ◌++◌, ◌==◌, leb, if◌then◌else◌, map, length, length-append, any, All,
  HashMap, get, get_or_default, contains, IsDistinct, nat_eq, pair_eq, find, arith, ap, sym, ◌∙◌,
  subst, inl, inr, Option-cases, append_later,
}
use klassenzeit.Types.{
  Lesson, Subject, Placement, TimeBlock, Violation, ViolationKind, teacher_over_capacity,
  no_free_time_block, no_suitable_room, assigned_teacher_id,
}
use klassenzeit.Index.{teacher_blocked}
use klassenzeit.Validate.BreakSlots.{is_not_lesson}
use klassenzeit.Greedy.State.{GreedyState}
use klassenzeit.Greedy.Place.{Setting}
use klassenzeit.Greedy.Place.Commit.{try_place_block}

abbrev pub slot_open : Setting → GreedyState → Lesson → ℕ → TimeBlock → Bool
slot_open setting s lesson' teacher tb =
    not (is_not_lesson tb.kind)
    && (not (contains s.used_teacher (teacher, tb.id))
        && (not (teacher_blocked setting.idx teacher tb.id)
            && not (any (λ c. contains s.used_class (c, tb.id)) lesson'.school_class_ids)))

unfoldable pub unplaced_kind : Setting → GreedyState → Lesson → Option ViolationKind
unfolding assigned_teacher_id get_or_default contains teacher_blocked is_not_lesson
unplaced_kind setting s lesson' = elim (assigned_teacher_id lesson') [
  | none ↦ none
  | some teacher ↦
      if leb (get_or_default 0 setting.teacher_max teacher)
        (get_or_default 0 s.hours_by_teacher teacher)
      then some teacher_over_capacity
      else (if not (any (slot_open setting s lesson' teacher) setting.problem.time_blocks)
          then some no_free_time_block
          else some no_suitable_room)
]

-- What the loop changes: `solution.placements`, `solution.violations` and `state`.
pub record Progress : Type 0 where
  pub placements : List Placement
  pub violations : List Violation
  pub state : GreedyState

abbrev pub unplaced : Lesson → ℕ → ℕ → ViolationKind → Violation
unplaced lesson' n block_index kind = record {
  kind = kind;
  lesson_id = lesson'.id;
  hour_index = (block_index * n) % 256;
  reason = none;
}

-- The body of the loop.
unfoldable pub place_one : Setting → Lesson → ℕ → ℕ → Progress → Option Progress
unfolding try_place_block unplaced_kind
place_one setting lesson' n block_index now =
    elim (try_place_block setting now.state now.placements lesson' n) [
      | none ↦ none
      | some outcome ↦
          if outcome.0
          then some (record now { placements = outcome.1; state = outcome.2 })
          else (elim (unplaced_kind setting outcome.2 lesson') [
            | none ↦ none
            | some kind ↦ some (record {
              placements = outcome.1;
              violations = now.violations ++ (unplaced lesson' n block_index kind ∷ []);
              state = outcome.2;
            })
          ])
    ]

-- `for block_index in 0..block_count`, from an index on.
unfoldable pub place_blocks : Setting → Lesson → ℕ → ℕ → ℕ → Progress → Option Progress
unfolding place_one
place_blocks setting lesson' n zero block_index now = some now
place_blocks setting lesson' n (suc left) block_index now =
    elim (place_one setting lesson' n block_index now) [
      | none ↦ none
      | some next ↦ place_blocks setting lesson' n left (suc block_index) next
    ]

unfoldable pub place_lesson : Setting → Lesson → Progress → Option Progress
unfolding place_blocks
place_lesson setting lesson' now =
    let n = lesson'.preferred_block_size in
    if n == 0 then none else place_blocks setting lesson' n (lesson'.hours_per_week / n) 0 now
