-- ===== src/Score/Worst.antt =====
-- The worst class (score.rs: `worst_class_spread`, `worst_class_interior_gaps`).
use klassenzeit.Base.{
  ℕ, zero, suc, ◌-◌, none, some, List, [], ◌∷◌, ltb, if◌then◌else◌, max, min, HashMap, get, update,
  nat_eq, pair_eq, add_u32, sat_add, add_u8, sub_u8, as_u32, length,
}
use klassenzeit.Types.{Problem, Lesson, TimeBlock, Placement}
use klassenzeit.Validate.Teachers.{lesson_by_id}
use klassenzeit.Validate.BreakSlots.{tb_by_id}
use klassenzeit.Score.Gaps.{last_from}
use klassenzeit.Score.Slice.{Positions, push_classes, sorted_once}

-- `counts[day] += 1`
unfoldable pub bump : ℕ → List ℕ → List ℕ
bump day [] = []
bump zero (n ∷ ns) = add_u32 n 1 ∷ ns
bump (suc day) (n ∷ ns) = n ∷ bump day ns

unfoldable pub bump_classes : ℕ → List ℕ → HashMap ℕ (List ℕ) → HashMap ℕ (List ℕ)
unfolding update bump
bump_classes day [] counts = counts
bump_classes day (c ∷ cs) counts =
    bump_classes day cs (update c (0 ∷ 0 ∷ 0 ∷ 0 ∷ 0 ∷ []) (bump day) counts)

-- The counts of the days 0 to 4; other days and unknown ids are passed over.
unfoldable pub day_counts :
    HashMap ℕ Lesson
    → HashMap ℕ TimeBlock
    → List Placement
    → HashMap ℕ (List ℕ)
    → HashMap ℕ (List ℕ)
unfolding get bump_classes
day_counts lessons tbs [] counts = counts
day_counts lessons tbs (p ∷ ps) counts = day_counts lessons tbs ps (elim (get tbs p.time_block_id) [
  | none ↦ counts
  | some tb ↦
      if ltb tb.day_of_week 5
      then (elim (get lessons p.lesson_id) [
        | none ↦ counts
        | some l ↦ bump_classes tb.day_of_week l.school_class_ids counts
      ])
      else counts
])

-- `.max().unwrap_or(0)`
unfoldable pub max_of : List ℕ → ℕ
max_of [] = 0
max_of (n ∷ ns) = max n (max_of ns)

-- `.min().unwrap_or(0)`
unfoldable pub min_of : List ℕ → ℕ
min_of [] = 0
min_of (n ∷ []) = n
min_of (n ∷ (m ∷ ns)) = min n (min_of (m ∷ ns))

unfoldable pub spread_loop : HashMap ℕ (List ℕ) → ℕ
unfolding max_of min_of
spread_loop [] = 0
spread_loop ((c, per_day) ∷ counts) = max (max_of per_day - min_of per_day) (spread_loop counts)

unfoldable pub worst_class_spread : Problem → List Placement → ℕ
unfolding spread_loop day_counts lesson_by_id tb_by_id
worst_class_spread problem placements =
    spread_loop (day_counts (lesson_by_id problem) (tb_by_id problem) placements [])

-- The positions of each class and day; unknown ids are passed over.
unfoldable pub gather_classes :
    HashMap ℕ Lesson → HashMap ℕ TimeBlock → List Placement → Positions → Positions
unfolding get push_classes
gather_classes lessons tbs [] parts = parts
gather_classes lessons tbs (p ∷ ps) parts =
    gather_classes lessons tbs ps (elim (get tbs p.time_block_id) [
      | none ↦ parts
      | some tb ↦ elim (get lessons p.lesson_id) [
        | none ↦ parts
        | some l ↦ push_classes tb.day_of_week tb.position l.school_class_ids parts
      ]
    ])

-- `u32::from(last - first + 1).saturating_sub(ps.len() as u32)`: the span wraps as a `u8`.
unfoldable pub day_gaps : ℕ → List ℕ → ℕ
day_gaps first rest =
    add_u8 (sub_u8 (last_from first rest) first) 1 - as_u32 (length (first ∷ rest))

-- The gaps of each day are added to their class; an entry without positions adds none.
unfoldable pub gaps_per_class : Positions → HashMap ℕ ℕ → HashMap ℕ ℕ
unfolding update day_gaps sorted_once
gaps_per_class [] per_class = per_class
gaps_per_class (((c, day), ps) ∷ parts) per_class = gaps_per_class parts (elim (sorted_once ps) [
  | [] ↦ per_class
  | first ∷ rest ↦ update c 0 (λ g. sat_add g (day_gaps first rest)) per_class
])

unfoldable pub max_value : HashMap ℕ ℕ → ℕ
max_value [] = 0
max_value ((c, n) ∷ per_class) = max n (max_value per_class)

unfoldable pub worst_class_interior_gaps : Problem → List Placement → ℕ
unfolding max_value gaps_per_class gather_classes lesson_by_id tb_by_id
worst_class_interior_gaps problem placements =
    max_value
      (gaps_per_class (gather_classes (lesson_by_id problem) (tb_by_id problem) placements []) [])
