-- ===== src/Lahc/Score.antt =====
-- The gap part of the objective that a Change move foresees (lahc.rs: `class_partitions_delta_sum`,
-- `score_after_change_move`, `saturating_apply_delta`).
use klassenzeit.Base.{
  ℕ, ◌+◌, ◌-◌, ◌*◌, ◌≤◌, min, ◌≡◌, refl, true, false, List, [], ◌∷◌, arith, get, pair_eq, IsNew,
  IsDistinct, sat_add, as_u32, u32_max, u32_mod, All, ap, ◌∙◌, ◌==◌, ==_iff, Bool-cases, inl, inr,
}
use klassenzeit.Base.Int.{
  ℤ, pos, negsuc, pos_part, neg_part, scale_parts, eq_of_parts, sub_ℕ_parts, sub_ℕ, ◌+ℤ◌, scale,
  sub_ℕ-+ℤ,
}
use klassenzeit.Types.{ConstraintWeights}
use klassenzeit.Score.Partition.{IsPartition, member}
use klassenzeit.Score.Gaps.Moves.{positions}
use klassenzeit.Lahc.Delta.{
  PartitionMap, partition_delta, positions-move_frame, positions-move_same, positions-move_old,
  positions-move_new, ≢-of_test, move_position, touched_gaps, partition_delta_lem,
}

abbrev pub delta_of : ℕ → ℕ → ℕ → ℕ → PartitionMap → ℕ → ℤ
delta_of old_day new_day old_pos new_pos m who =
    partition_delta (get m (who, old_day)) (get m (who, new_day)) old_day new_day old_pos new_pos

-- `for class in class_ids { sum += partition_delta(..) }`
sum_deltas : List ℕ → (ℕ → ℤ) → ℤ → ℤ
sum_deltas [] delta sum = sum
sum_deltas (c ∷ cs) delta sum = sum_deltas cs delta (sum +ℤ delta c)

unfoldable pub class_partitions_delta_sum : List ℕ → ℕ → ℕ → ℕ → ℕ → PartitionMap → ℤ
unfolding sum_deltas
class_partitions_delta_sum class_ids old_day new_day old_pos new_pos class_positions =
    sum_deltas class_ids (delta_of old_day new_day old_pos new_pos class_positions) (pos 0)

unfoldable pub score_after_change_move :
    List ℕ → ℕ → ℕ → ℕ → ℕ → ℕ → PartitionMap → PartitionMap → ConstraintWeights → ℤ
unfolding class_partitions_delta_sum
score_after_change_move class_ids teacher old_day old_pos new_day new_pos class_positions
      teacher_positions weights =
    scale weights.class_gap
      (class_partitions_delta_sum class_ids old_day new_day old_pos new_pos class_positions)
    +ℤ scale weights.teacher_gap
        (delta_of old_day new_day old_pos new_pos teacher_positions teacher)

-- `delta as u32` keeps the low 32 bits.
unfoldable pub saturating_apply_delta : ℕ → ℤ → ℕ
saturating_apply_delta score (pos d) = sat_add score (as_u32 d)
saturating_apply_delta score (negsuc d) = score - as_u32 (d + 1)

-- With a score of 32 bits and a delta whose size fits 32 bits, the score moves by the delta and
-- stops at 0 and at the largest number of 32 bits.
pub saturating_apply_delta_lem :
    (score : ℕ) (delta : ℤ)
    → pos_part delta + neg_part delta ≤ u32_max
    → score ≤ u32_max
    → saturating_apply_delta score delta ≡ min (score + pos_part delta - neg_part delta) u32_max
unfolding saturating_apply_delta
saturating_apply_delta_lem score (pos d) h s = omega arith
saturating_apply_delta_lem score (negsuc d) h s = omega arith

-- A delta of 2^32 adds nothing.
saturating_apply_delta-wraps :
    (score : ℕ) → score ≤ u32_max → saturating_apply_delta score (pos u32_mod) ≡ score
unfolding saturating_apply_delta
saturating_apply_delta-wraps score s = omega arith

scale-sub_ℕ : (w a b : ℕ) → scale w (sub_ℕ a b) ≡ sub_ℕ (w * a) (w * b)
scale-sub_ℕ w a b =
    let p : w * (pos_part (sub_ℕ a b) + b) ≡ w * (neg_part (sub_ℕ a b) + a) =
      ap (λ (n : ℕ). w * n) (sub_ℕ_parts a b) in
    eq_of_parts (scale w (sub_ℕ a b)) (sub_ℕ (w * a) (w * b))
      (omega (arith, p, scale_parts w (sub_ℕ a b), sub_ℕ_parts (w * a) (w * b)))

abbrev pub sum_over : List ℕ → (ℕ → ℕ) → ℕ
sum_over [] f = 0
sum_over (c ∷ cs) f = f c + sum_over cs f

sum_deltas_lem :
    (cs : List ℕ) (delta : ℕ → ℤ) (after before : ℕ → ℕ) (a b : ℕ)
    → All (λ c. delta c ≡ sub_ℕ (after c) (before c)) cs
    → sum_deltas cs delta (sub_ℕ a b) ≡ sub_ℕ (a + sum_over cs after) (b + sum_over cs before)
unfolding sum_deltas
sum_deltas_lem [] delta after before a b h = ground arith
sum_deltas_lem (c ∷ cs) delta after before a b h =
    rw (h.0, sub_ℕ-+ℤ a b (after c) (before c))
      (sum_deltas_lem cs delta after before (a + after c) (b + before c) h.1 ∙ ground arith)

-- The loops of `apply_change_move` over the classes: each moves its position.
unfoldable pub move_positions : List ℕ → ℕ → ℕ → ℕ → ℕ → PartitionMap → PartitionMap
unfolding move_position
move_positions [] old_day old_pos new_day new_pos m = m
move_positions (c ∷ cs) old_day old_pos new_day new_pos m =
    move_positions cs old_day old_pos new_day new_pos
      (move_position c old_day old_pos new_day new_pos m)

-- The class is at `old_pos` on `old_day`, and its days are sorted and free of duplicates.
abbrev pub IsPlaced : ℕ → ℕ → ℕ → PartitionMap → ℕ → Type 0
IsPlaced old_day new_day old_pos m who =
    IsPartition (positions (get m (who, old_day)))
    × IsPartition (positions (get m (who, new_day)))
    × (member (positions (get m (who, old_day))) old_pos ≡ true)

apart : (d c : ℕ) → (d == c) ≡ false → (c == d) ≡ false
apart d c h = ground arith

module _ (old_day old_pos new_day new_pos : ℕ) where
  abbrev moved : List ℕ → PartitionMap → PartitionMap
  moved cs m = move_positions cs old_day old_pos new_day new_pos m

  abbrev moved_one : ℕ → PartitionMap → PartitionMap
  moved_one c m = move_position c old_day old_pos new_day new_pos m

  moved-frame :
      (cs : List ℕ) (who day : ℕ) (m : PartitionMap)
      → IsNew who cs
      → positions (get (moved cs m) (who, day)) ≡ positions (get m (who, day))
  unfolding move_positions
  moved-frame [] who day m new = refl
  moved-frame (c ∷ cs) who day m new =
      moved-frame cs who day (moved_one c m) new.1
      ∙ positions-move_frame c old_day old_pos new_day new_pos m who day new.0

  touched-cong :
      (m m' : PartitionMap) (who : ℕ)
      → ((day : ℕ) → positions (get m (who, day)) ≡ positions (get m' (who, day)))
      → touched_gaps m who old_day new_day ≡ touched_gaps m' who old_day new_day
  touched-cong m m' who same = rw (same old_day, same new_day) refl

  touched-moved_cong :
      (m m' : PartitionMap) (who : ℕ)
      → ((day : ℕ) → positions (get m (who, day)) ≡ positions (get m' (who, day)))
      → touched_gaps (moved_one who m) who old_day new_day
        ≡ touched_gaps (moved_one who m') who old_day new_day
  touched-moved_cong m m' who same = elim (Bool-cases (old_day == new_day)) [
    | inl e ↦
        let e' = (==_iff old_day new_day).0 e in
        rw e (
          rw
            (
              positions-move_same who old_day old_pos new_day new_pos m e',
              positions-move_same who old_day old_pos new_day new_pos m' e',
              same old_day,
            )
            refl)
    | inr ne ↦
        let ne' = ≢-of_test ne in
        rw ne (
          rw
            (
              positions-move_old who old_day old_pos new_day new_pos m ne',
              positions-move_old who old_day old_pos new_day new_pos m' ne',
              same old_day,
              positions-move_new who old_day old_pos new_day new_pos m ne',
              positions-move_new who old_day old_pos new_day new_pos m' ne',
              same new_day,
            )
            refl)
  ]

  unmoved :
      (c : ℕ) (m : PartitionMap) (cs : List ℕ)
      → IsNew c cs
      → sum_over cs (λ d. touched_gaps (moved_one d (moved_one c m)) d old_day new_day)
        ≡ sum_over cs (λ d. touched_gaps (moved_one d m) d old_day new_day)
  unmoved c m [] new = refl
  unmoved c m (d ∷ ds) new =
      rw
        (
          unmoved c m ds new.1,
          touched-moved_cong (moved_one c m) m d (λ day.
              positions-move_frame c old_day old_pos new_day new_pos m d day (apart d c new.0)),
        )
        refl

  -- The gap hours of the classes after all have moved.
  sum_over-moved :
      (cs : List ℕ) (m : PartitionMap)
      → IsDistinct cs
      → sum_over cs (λ c. touched_gaps (moved cs m) c old_day new_day)
        ≡ sum_over cs (λ c. touched_gaps (moved_one c m) c old_day new_day)
  unfolding move_positions
  sum_over-moved [] m distinct = refl
  sum_over-moved (c ∷ cs) m distinct =
      rw
        (
          sum_over-moved cs (moved_one c m) distinct.1,
          unmoved c m cs distinct.0,
          touched-cong (moved cs (moved_one c m)) (moved_one c m) c
              (λ day. moved-frame cs c day (moved_one c m) distinct.0),
        )
        refl

  deltas :
      (cs : List ℕ) (m : PartitionMap)
      → All (IsPlaced old_day new_day old_pos m) cs
      → All
          (λ c.
            delta_of old_day new_day old_pos new_pos m c
            ≡ sub_ℕ
                (touched_gaps (moved_one c m) c old_day new_day)
                (touched_gaps m c old_day new_day))
          cs
  deltas [] m placed = tt
  deltas (c ∷ cs) m placed = (
    partition_delta_lem c old_day old_pos new_day new_pos m placed.0.0 placed.0.1 placed.0.2,
    deltas cs m placed.1,
  )

from_zero : (a b : ℕ) → sub_ℕ (0 + a) (0 + b) ≡ sub_ℕ a b
from_zero a b = ground arith

weighted :
    (v w a b c d : ℕ) {x y : ℤ}
    → x ≡ sub_ℕ a b
    → y ≡ sub_ℕ c d
    → scale v x +ℤ scale w y ≡ sub_ℕ (v * a + w * c) (v * b + w * d)
weighted v w a b c d p q =
    rw (p, q, scale-sub_ℕ v a b, scale-sub_ℕ w c d) (sub_ℕ-+ℤ (v * a) (v * b) (w * c) (w * d))

-- The score that a Change move foresees is the difference that the move makes to the weighted gap
-- hours of its classes and its teacher on the days it touches, when the classes are distinct, all
-- of them and the teacher are at the old position, and their days are sorted and free of
-- duplicates.
pub score_after_change_move_lem :
    (class_ids : List ℕ) (teacher old_day old_pos new_day new_pos : ℕ) (cm tm : PartitionMap)
    (weights : ConstraintWeights)
    → IsDistinct class_ids
    → All (IsPlaced old_day new_day old_pos cm) class_ids
    → IsPlaced old_day new_day old_pos tm teacher
    → score_after_change_move class_ids teacher old_day old_pos new_day new_pos cm tm weights
      ≡ sub_ℕ
          (weights.class_gap
              * sum_over class_ids (λ c.
                touched_gaps
                  (move_positions class_ids old_day old_pos new_day new_pos cm)
                  c
                  old_day
                  new_day)
            + weights.teacher_gap
              * touched_gaps
                  (move_position teacher old_day old_pos new_day new_pos tm)
                  teacher
                  old_day
                  new_day)
          (weights.class_gap * sum_over class_ids (λ c. touched_gaps cm c old_day new_day)
            + weights.teacher_gap * touched_gaps tm teacher old_day new_day)
unfolding score_after_change_move class_partitions_delta_sum
score_after_change_move_lem class_ids teacher old_day old_pos new_day new_pos cm tm weights distinct
      placed placed' =
    let after = λ (c : ℕ).
      touched_gaps (move_position c old_day old_pos new_day new_pos cm) c old_day new_day in
    let before = λ (c : ℕ). touched_gaps cm c old_day new_day in
    let sums : class_partitions_delta_sum class_ids old_day new_day old_pos new_pos cm
        ≡ sub_ℕ (sum_over class_ids after) (sum_over class_ids before) =
      sum_deltas_lem class_ids (delta_of old_day new_day old_pos new_pos cm) after before 0 0
        (deltas old_day old_pos new_day new_pos class_ids cm placed)
      ∙ from_zero (sum_over class_ids after) (sum_over class_ids before) in
    let teachers =
      partition_delta_lem teacher old_day old_pos new_day new_pos tm placed'.0 placed'.1
        placed'.2 in
    rw (sum_over-moved old_day old_pos new_day new_pos class_ids cm distinct) (
      weighted weights.class_gap weights.teacher_gap (sum_over class_ids after)
        (sum_over class_ids before)
        (touched_gaps (move_position teacher old_day old_pos new_day new_pos tm) teacher old_day
          new_day)
        (touched_gaps tm teacher old_day new_day) sums teachers)
