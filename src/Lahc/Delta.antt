-- ===== src/Lahc/Delta.antt =====
-- The incremental gap delta of one class or teacher in a Change move (`partition_delta` of lahc.rs), and
-- the update of one partition map by `apply_change_move`.
use klassenzeit.Base.{
  ℕ, ◌+◌, ◌≡◌, ◌≢◌, refl, true, false, Option, none, some, List, [], ◌∷◌, arith, ◌==◌,
  if◌then◌else◌, HashMap, get, insert, remove, get-insert, get-remove, pair_eq, Option-cases,
  Bool-cases, inl, inr, ==_iff,
}
use klassenzeit.Base.Int.{ℤ, pos, sub_ℕ, ◌+ℤ◌, sub_ℕ-+ℤ}
use klassenzeit.Score.Partition.{member, IsPartition, insert_position, remove_position}
use klassenzeit.Score.Gaps.{
  gap_count, gap_count_after_insert, gap_count_after_remove, gap_count_after_swap,
}
use klassenzeit.Score.Gaps.Moves.{
  positions, gap_count_after_insert_lem, gap_count_after_remove_lem, gap_count_after_swap_lem,
}

same_day_delta : Option (List ℕ) → ℕ → ℕ → ℤ
unfolding gap_count gap_count_after_swap
same_day_delta none old_pos new_pos = pos 0
same_day_delta (some part) old_pos new_pos =
    sub_ℕ (gap_count_after_swap part old_pos new_pos) (gap_count part)

-- `old_part.map(..).unwrap_or(0)`
abbrev gaps_or_zero : Option (List ℕ) → ℕ
gaps_or_zero none = 0
gaps_or_zero (some v) = gap_count v

abbrev gaps_after_remove_or_zero : Option (List ℕ) → ℕ → ℕ
gaps_after_remove_or_zero none p = 0
gaps_after_remove_or_zero (some v) p = gap_count_after_remove v p

unfoldable pub partition_delta : Option (List ℕ) → Option (List ℕ) → ℕ → ℕ → ℕ → ℕ → ℤ
unfolding same_day_delta
partition_delta old_part new_part old_day new_day old_pos new_pos =
    if old_day == new_day
    then same_day_delta old_part old_pos new_pos
    else (sub_ℕ (gaps_after_remove_or_zero old_part old_pos) (gaps_or_zero old_part)
        +ℤ sub_ℕ (gap_count_after_insert new_part new_pos) (gaps_or_zero new_part))

abbrev pub PartitionMap : Type 0
PartitionMap = HashMap (ℕ × ℕ) (List ℕ)

abbrev leave_part : ℕ × ℕ → List ℕ → PartitionMap → PartitionMap
leave_part key [] m = remove key m
leave_part key (p ∷ ps) m = insert key (p ∷ ps) m

leave : ℕ × ℕ → ℕ → PartitionMap → PartitionMap
unfolding insert remove get remove_position
leave key old_pos m = elim (get m key) [
  | none ↦ m
  | some part ↦ leave_part key (remove_position part old_pos) m
]

-- The update of `class_positions` or `teacher_positions` for one class or teacher: the position
-- leaves the old day, whose entry goes when it is empty, and joins the new day.
unfoldable pub move_position : ℕ → ℕ → ℕ → ℕ → ℕ → PartitionMap → PartitionMap
unfolding leave insert get insert_position
move_position who old_day old_pos new_day new_pos m =
    let left = leave (who, old_day) old_pos m in
    insert (who, new_day) (insert_position (positions (get left (who, new_day))) new_pos) left

-- The gap hours of one class or teacher on the one or two days that a move touches.
abbrev pub gaps_on : PartitionMap → ℕ → ℕ → ℕ
gaps_on m who day = gap_count (positions (get m (who, day)))

abbrev pub touched_gaps : PartitionMap → ℕ → ℕ → ℕ → ℕ
touched_gaps m who old_day new_day =
    if old_day == new_day
    then gaps_on m who old_day
    else gaps_on m who old_day + gaps_on m who new_day

positions-leave_part :
    (key j : ℕ × ℕ) (qs : List ℕ) (m : PartitionMap)
    → positions (get (leave_part key qs m) j)
      ≡ (if pair_eq.beq key j then qs else positions (get m j))
positions-leave_part key j [] m = rw (get-remove key j m) (ground arith)
positions-leave_part key j (p ∷ ps) m = rw (get-insert key j (p ∷ ps) m) (ground arith)

positions-leave :
    (key j : ℕ × ℕ) (old_pos : ℕ) (m : PartitionMap)
    → positions (get (leave key old_pos m) j) ≡ (
        if pair_eq.beq key j
        then remove_position (positions (get m key)) old_pos
        else positions (get m j))
unfolding leave
positions-leave key j old_pos m = elim (Option-cases (get m key)) [
  | inl e ↦ rw (e, leave) (unfold remove_position in ground (arith, e, pair_eq.beq_iff key j))
  | inr (part, e) ↦ rw (e, leave) (positions-leave_part key j (remove_position part old_pos) m)
]

module _ (who old_day old_pos new_day new_pos : ℕ) (m : PartitionMap) where
  abbrev after : PartitionMap
  after = move_position who old_day old_pos new_day new_pos m

  pub positions-move_same :
      old_day ≡ new_day
      → positions (get after (who, old_day))
        ≡ insert_position (remove_position (positions (get m (who, old_day))) old_pos) new_pos
  unfolding move_position
  positions-move_same e =
      rw
        (
          ← e,
          get-insert (who, old_day) (who, old_day)
              (insert_position (positions (get (leave (who, old_day) old_pos m) (who, old_day)))
                new_pos)
              (leave (who, old_day) old_pos m),
          positions-leave (who, old_day) (who, old_day) old_pos m,
        )
        (ground arith)

  pub positions-move_old :
      old_day ≢ new_day
      → positions (get after (who, old_day))
        ≡ remove_position (positions (get m (who, old_day))) old_pos
  unfolding move_position
  positions-move_old ne =
      rw
        (get-insert (who, new_day) (who, old_day)
          (insert_position (positions (get (leave (who, old_day) old_pos m) (who, new_day)))
            new_pos)
          (leave (who, old_day) old_pos m))
        (ground (arith, positions-leave (who, old_day) (who, old_day) old_pos m))

  pub positions-move_new :
      old_day ≢ new_day
      → positions (get after (who, new_day))
        ≡ insert_position (positions (get m (who, new_day))) new_pos
  unfolding move_position
  positions-move_new ne =
      rw
        (get-insert (who, new_day) (who, new_day)
          (insert_position (positions (get (leave (who, old_day) old_pos m) (who, new_day)))
            new_pos)
          (leave (who, old_day) old_pos m))
        (ground (arith, positions-leave (who, old_day) (who, new_day) old_pos m))

  pub positions-move_other :
      (k : ℕ)
      → (k == old_day) ≡ false
      → (k == new_day) ≡ false
      → positions (get after (who, k)) ≡ positions (get m (who, k))
  unfolding move_position
  positions-move_other k n_old n_new =
      rw
        (get-insert (who, new_day) (who, k)
          (insert_position (positions (get (leave (who, old_day) old_pos m) (who, new_day)))
            new_pos)
          (leave (who, old_day) old_pos m))
        (ground (arith, positions-leave (who, old_day) (who, k) old_pos m))

  pub positions-move_frame :
      (who' k : ℕ)
      → (who == who') ≡ false
      → positions (get after (who', k)) ≡ positions (get m (who', k))
  unfolding move_position
  positions-move_frame who' k ne =
      rw
        (get-insert (who, new_day) (who', k)
          (insert_position (positions (get (leave (who, old_day) old_pos m) (who, new_day)))
            new_pos)
          (leave (who, old_day) old_pos m))
        (ground (arith, positions-leave (who, old_day) (who', k) old_pos m))

gaps_or_zero_lem : (o : Option (List ℕ)) → gaps_or_zero o ≡ gap_count (positions o)
unfolding gap_count
gaps_or_zero_lem none = refl
gaps_or_zero_lem (some v) = refl

gaps_after_remove_or_zero_lem :
    (o : Option (List ℕ)) (p : ℕ)
    → gaps_after_remove_or_zero o p ≡ gap_count (remove_position (positions o) p)
gaps_after_remove_or_zero_lem none p = unfold gap_count remove_position in refl
gaps_after_remove_or_zero_lem (some v) p = gap_count_after_remove_lem v p

same_day_delta_lem :
    (o : Option (List ℕ)) (old_pos new_pos : ℕ)
    → IsPartition (positions o)
    → member (positions o) old_pos ≡ true
    → same_day_delta o old_pos new_pos
      ≡ sub_ℕ
          (gap_count (insert_position (remove_position (positions o) old_pos) new_pos))
          (gap_count (positions o))
unfolding same_day_delta
same_day_delta_lem none old_pos new_pos h m = cc
same_day_delta_lem (some v) old_pos new_pos h m =
    rw (gap_count_after_swap_lem v old_pos new_pos h m)

pub ≢-of_test : {a b : ℕ} → (a == b) ≡ false → a ≢ b
≢-of_test {a} {b} e = ground arith

-- When the partitions of the two days are sorted and free of duplicates and the old position is in
-- the first, the incremental delta of a move is the difference that the move makes to the gap
-- hours of the days it touches, within a day and across days.
pub partition_delta_lem :
    (who old_day old_pos new_day new_pos : ℕ) (m : PartitionMap)
    → IsPartition (positions (get m (who, old_day)))
    → IsPartition (positions (get m (who, new_day)))
    → member (positions (get m (who, old_day))) old_pos ≡ true
    → partition_delta (get m (who, old_day)) (get m (who, new_day)) old_day new_day old_pos new_pos
      ≡ sub_ℕ
          (touched_gaps (move_position who old_day old_pos new_day new_pos m) who old_day new_day)
          (touched_gaps m who old_day new_day)
unfolding partition_delta
partition_delta_lem who old_day old_pos new_day new_pos m h h' here =
    elim (Bool-cases (old_day == new_day)) [
      | inl e ↦ rw e (
          rw (positions-move_same who old_day old_pos new_day new_pos m ((==_iff _ _).0 e))
            (same_day_delta_lem (get m (who, old_day)) old_pos new_pos h here))
      | inr ne ↦ rw ne (
          rw
            (
              positions-move_old who old_day old_pos new_day new_pos m (≢-of_test ne),
              positions-move_new who old_day old_pos new_day new_pos m (≢-of_test ne),
              gaps_or_zero_lem (get m (who, old_day)),
              gaps_or_zero_lem (get m (who, new_day)),
              gaps_after_remove_or_zero_lem (get m (who, old_day)) old_pos,
              gap_count_after_insert_lem (get m (who, new_day)) new_pos h',
            )
            (sub_ℕ-+ℤ _ _ _ _))
    ]
