-- ===== src/Lahc/Balance.antt =====
-- The day balance that a Change move foresees (`class_day_balance_cost_for_class_with_swap` as lahc.rs
-- calls it) against the partition map after the move.
use klassenzeit.Base.{
  ℕ, ◌+◌, ◌-◌, ◌<◌, ◌≤◌, ◌≡◌, ◌≢◌, refl, true, false, List, arith, ◌==◌, ==_iff, get, pair_eq,
  length, Bool-cases, suc, [], ◌∷◌, ◌∙◌, inl, inr, u32_max, if◌then◌else◌,
}
use klassenzeit.Score.Partition.{
  member, IsPartition, insert_position, remove_position, insert_position_lem, remove_position_lem,
  IsWithin-le, IsWithin, remove_ordered, member_below,
}
use klassenzeit.Score.Gaps.Moves.{positions, length-insert_ordered}
use klassenzeit.Score.Balance.{
  class_day_balance_cost_for_class, class_day_balance_cost_for_class_with_swap, count_on, swapped,
}
use klassenzeit.Score.Balance.Variants.{class_day_balance_cost_for_class_with_swap-of, count_on_lem}
use klassenzeit.Lahc.Delta.{
  PartitionMap, move_position, positions-move_old, positions-move_new, positions-move_other,
}

filled : (p : ℕ) (xs : List ℕ) → member xs p ≡ true → 1 ≤ length xs
filled p [] e = cc
filled p (y ∷ ys) e = omega arith

length-remove_ordered :
    (lo hi p : ℕ) (ps : List ℕ)
    → IsWithin lo hi ps
    → length (remove_ordered ps p) ≡ (if member ps p then length ps - 1 else length ps)
length-remove_ordered lo hi p [] h = refl
length-remove_ordered lo hi p (x ∷ xs) h = ground (
  arith,
  length-remove_ordered (suc x) hi p xs h.1,
  member_below (suc x) hi p xs h.1,
  filled p xs,
)

-- When a position leaves one day of the week and joins another, where it is new, and the
-- partitions of the class are sorted and free of duplicates, the cost that the move foresees for
-- the class is the cost of the class after the move.
pub class_day_balance_cost_for_class_with_swap_lem :
    (who days old_day old_pos new_day new_pos : ℕ) (m : PartitionMap)
    → ((day : ℕ) → IsPartition (positions (get m (who, day))))
    → old_day < days
    → new_day < days
    → old_day ≢ new_day
    → member (positions (get m (who, old_day))) old_pos ≡ true
    → member (positions (get m (who, new_day))) new_pos ≡ false
    → class_day_balance_cost_for_class_with_swap who days m old_day new_day
      ≡ class_day_balance_cost_for_class who days
          (move_position who old_day old_pos new_day new_pos m)
class_day_balance_cost_for_class_with_swap_lem who days old_day old_pos new_day new_pos m h in_week
      in_week' ne here new =
    let m' = move_position who old_day old_pos new_day new_pos m in
    let part = λ (k : ℕ). positions (get m (who, k)) in
    let bound : (k : ℕ) → length (part k) ≤ 256 =
      λ k. omega (arith, IsWithin-le 0 256 (part k) (h k)) in
    let raw : (k : ℕ) → count_on m who k ≡ length (part k) =
      λ k. count_on_lem m who k (omega (arith, bound k)) in
    let old_length : length (remove_position (part old_day) old_pos) ≡ length (part old_day) - 1 =
      rw (remove_position_lem old_pos (part old_day))
        (ground (arith, length-remove_ordered 0 256 old_pos (part old_day) (h old_day))) in
    let new_length : length (insert_position (part new_day) new_pos) ≡ length (part new_day) + 1 =
      rw (insert_position_lem 0 256 new_pos (part new_day) (h new_day))
        (ground (arith, length-insert_ordered 0 256 new_pos (part new_day) (h new_day))) in
    let counts : (k : ℕ)
        → length (positions (get m' (who, k))) ≡ swapped (count_on m who) old_day new_day k =
      λ k.
        unfold swapped in
        elim (Bool-cases (k == old_day)) [
          | inl e ↦
              rw
                (
                  e,
                  (==_iff k old_day).0 e,
                  raw old_day,
                  positions-move_old who old_day old_pos new_day new_pos m ne,
                )
                old_length
          | inr n_old ↦ elim (Bool-cases (k == new_day)) [
            | inl e ↦
                rw
                  (
                    n_old,
                    e,
                    (==_iff k new_day).0 e,
                    raw new_day,
                    positions-move_new who old_day old_pos new_day new_pos m ne,
                  )
                  (omega (arith, new_length, bound new_day))
            | inr n_new ↦
                rw
                  (
                    n_old,
                    n_new,
                    raw k,
                    positions-move_other who old_day old_pos new_day new_pos m k n_old n_new,
                  )
                  refl
          ]
        ] in
    let small : (k : ℕ) → swapped (count_on m who) old_day new_day k ≤ u32_max =
      λ k. unfold swapped in ground (arith, raw k, bound k) in
    class_day_balance_cost_for_class_with_swap-of who days old_day new_day m m' in_week in_week' ne
      (omega (arith, raw old_day, filled old_pos (part old_day) here))
      (omega (arith, raw new_day, bound new_day))
      (λ i k. (count_on_lem m' who k (rw (counts k) (small k)) ∙ counts k) i)
