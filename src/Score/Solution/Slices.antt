-- ===== src/Score/Solution/Slices.antt =====
-- `slice_recompute` is the part of the score that gaps and preferences make.
use klassenzeit.Base.{
  ℕ, ◌≤◌, ◌≡◌, refl, arith, inl, inr, true, Option, List, [], ◌∷◌, HashMap, HashSet, get, nat_eq,
  u32_max, Bool-cases, All, All-map, Option, none, some, some-inj, sym, ◌∙◌, add_u32, ap,
}
use klassenzeit.Types.{Lesson, Problem, Subject, TimeBlock, Placement, ConstraintWeights}
use klassenzeit.Validate.Teachers.{lesson_by_id}
use klassenzeit.Validate.BreakSlots.{tb_by_id}
use klassenzeit.Score.Preference.{subject_preference_score, subject_preference_score_lem}
use klassenzeit.Score.HomeRoom.{home_room_penalty}
use klassenzeit.Score.Slice.{
  Positions, Days, no_days, enter_days, sum_known, gather_days, sort_days, weigh, subject_lookup,
  last_positions, placement_preference, slice_costs_inner, slice_recompute,
}
use klassenzeit.Score.Solution.{
  no_weights, placement_home_room, first_teachers, first_teacher_loop, home_rooms, sum_axes,
  score_solution,
}

-- Only gaps and preferences have weights.
abbrev pub IsSlice : ConstraintWeights → Type 0
IsSlice w =
    (w.prefer_home_room ≡ 0)
    × (w.class_day_balance ≡ 0)
    × (w.prefer_class_teacher ≡ 0)
    × (w.max_per_class_spread ≡ 0)
    × (w.max_per_class_interior_gaps ≡ 0)
    × (w.supervision_spread ≡ 0)
    × (w.soft_pin_miss ≡ 0)

-- The five weights of the slice's preferences are 0, and those of its gaps.
abbrev IsOff : ConstraintWeights → Type 0
IsOff w =
    (w.class_gap ≡ 0)
    × (w.teacher_gap ≡ 0)
    × (w.prefer_early_period ≡ 0)
    × (w.avoid_first_period ≡ 0)
    × (w.avoid_last_period ≡ 0)
    × (w.prefer_late_period ≡ 0)

no_weights-IsOff : (w : ConstraintWeights) → no_weights w ≡ true → IsOff w
no_weights-IsOff w h = ground arith

no_preference :
    (subject : Subject) (tb : TimeBlock) (last : ℕ) (w : ConstraintWeights)
    → IsOff w
    → subject_preference_score subject tb last w ≡ 0
no_preference subject tb last w (g, g', early, first, late', late) =
    rw (subject_preference_score_lem subject tb last w, early, first, late', late) (ground arith)

-- The placement's lesson, its subject and its time block are in the problem.
abbrev pub IsListed : Problem → Placement → Type 0
IsListed problem p =
    (l : Lesson) × (subject : Subject) × (tb : TimeBlock) × (get (lesson_by_id problem) p.lesson_id
      ≡ some l)
    × (get (subject_lookup problem) l.subject_id ≡ some subject)
    × (get (tb_by_id problem) p.time_block_id ≡ some tb)

module _ {A : Type 0} (f : A → Option ℕ) where
  sum_known-some :
      (xs : List A) → All (λ x. (n : ℕ) × (f x ≡ some n)) xs → (n : ℕ) × (sum_known f xs ≡ some n)
  unfolding sum_known
  sum_known-some [] h = (0, refl)
  sum_known-some (x ∷ xs) ((n, found), later) =
      let (m, rest) = sum_known-some xs later in (add_u32 n m, rw (found, rest, sum_known) refl)

  sum_known_zero : (xs : List A) → All (λ x. f x ≡ some 0) xs → sum_known f xs ≡ some 0
  unfolding sum_known
  sum_known_zero [] h = refl
  sum_known_zero (x ∷ xs) (found, later) = rw (found, sum_known_zero xs later, sum_known) refl

module _ (problem : Problem) where
  listed_preference :
      (w : ConstraintWeights) (last : HashMap ℕ ℕ) (p : Placement)
      → IsListed problem p
      → (n : ℕ) × (placement_preference problem w last p ≡ some n) × (IsOff w → n ≡ 0)
  unfolding placement_preference
  listed_preference w last p (l, subject, tb, found, taught, stands) =
      let m = elim (get last tb.day_of_week) as (λ _. ℕ) [ none ↦ tb.position | some m ↦ m ] in
      (
        subject_preference_score subject tb m w,
        rw (found, placement_preference) (rw taught (rw stands refl)),
        no_preference subject tb m w,
      )

  no_home_room :
      (w : ConstraintWeights) (homes : HashMap ℕ (Option ℕ))
      → w.prefer_home_room ≡ 0
      → (p : Placement) → IsListed problem p
      → placement_home_room problem w homes p ≡ some 0
  unfolding placement_home_room home_room_penalty
  no_home_room w homes zero_weight p (l, subject, tb, found, taught, stands) =
      rw (found, placement_home_room, home_room_penalty, zero_weight) refl

  gather_days-some :
      (ps : List Placement) (days : Days)
      → All (IsListed problem) ps
      → (days' : Days) × (gather_days (lesson_by_id problem) (tb_by_id problem) ps days
          ≡ some days')
  unfolding gather_days
  gather_days-some [] days h = (days, refl)
  gather_days-some (p ∷ ps) days ((l, subject, tb, found, taught, stands), later) =
      let (days', rest) = gather_days-some ps (enter_days l tb p days) later in
      (days', rw (stands, gather_days) (rw found rest))

  first_teacher_loop-some :
      (ps : List Placement) (m : HashMap (ℕ × ℕ) ℕ)
      → All (IsListed problem) ps
      → (m' : HashMap (ℕ × ℕ) ℕ) × (first_teacher_loop (lesson_by_id problem) ps m ≡ some m')
  unfolding first_teacher_loop
  first_teacher_loop-some [] m h = (m, refl)
  first_teacher_loop-some (p ∷ ps) m ((l, subject, tb, found, taught, stands), later) =
      let (m', rest) =
        first_teacher_loop-some ps (first_teachers l.subject_id p.teacher_id l.school_class_ids m)
          later in
      (m', rw (found, first_teacher_loop) rest)

  -- The preferences of the placements, as their loop returns them.
  preferences :
      (w : ConstraintWeights) (placements : List Placement)
      → All (IsListed problem) placements
      → (n : ℕ) × (sum_known
            (placement_preference problem w (last_positions problem.time_blocks []))
            placements
          ≡ some n)
        × (IsOff w → n ≡ 0)
  preferences w placements listed =
      let last = last_positions problem.time_blocks [] in
      let one = placement_preference problem w last in
      let (n, summed) = sum_known-some one placements (
        All-map (λ p h. let (m, e, z) = listed_preference w last p h in (m, e)) placements
          listed) in
      (
        n,
        summed,
        λ off. some-inj (
            sym summed
            ∙ sum_known_zero one placements (
                All-map (λ p h. let (m, e, z) = listed_preference w last p h in e ∙ ap some (z off))
                  placements listed)),
      )

slice_costs :
    (problem : Problem) (placements : List Placement) (w : ConstraintWeights)
    (class_day teacher_day : Positions) (n : ℕ)
    → sum_known (placement_preference problem w (last_positions problem.time_blocks [])) placements
      ≡ some n
    → slice_costs_inner problem placements w class_day teacher_day
      ≡ some (weigh w class_day teacher_day n)
unfolding slice_costs_inner
slice_costs problem placements w class_day teacher_day n preferred =
    rw (preferred, slice_costs_inner) refl

weigh_bounds :
    (w : ConstraintWeights) (class_day teacher_day : Positions) (n : ℕ)
    → weigh w class_day teacher_day n ≤ u32_max
unfolding weigh
weigh_bounds w class_day teacher_day n = omega arith

weigh_off :
    (w : ConstraintWeights) (class_day teacher_day : Positions)
    → IsOff w
    → weigh w class_day teacher_day 0 ≡ 0
unfolding weigh
weigh_off w class_day teacher_day (gap, gap', early, first, late', late) =
    rw (gap, gap') (omega arith)

-- With no weight on the other axes they add nothing.
sum_axes_slice :
    (problem : Problem) (placements : List Placement) (w : ConstraintWeights)
    (soft : HashSet (ℕ × ℕ)) (class_day : Positions) (slice : ℕ) (teachers : HashMap (ℕ × ℕ) ℕ)
    → IsSlice w
    → slice ≤ u32_max
    → sum_axes problem placements w soft class_day slice 0 teachers ≡ slice
unfolding sum_axes
sum_axes_slice problem placements w soft class_day slice teachers
      (home, day, teacher, worst, gaps, sup, pin) fits =
    rw (day, teacher, worst, gaps, sup, pin) (omega arith)

-- When only gaps and preferences have weights, and every placement's lesson, subject and time block are
-- in the problem, both `slice_recompute` and the score return, and they return the same number, with any
-- soft pins; the early return for weights of zero agrees as well.
pub score_solution-slice_recompute :
    (problem : Problem) (placements : List Placement) (w : ConstraintWeights)
    (soft_pinned_blocks : HashSet (ℕ × ℕ))
    → All (IsListed problem) placements
    → IsSlice w
    → (v : ℕ) × (slice_recompute problem placements w ≡ some v)
      × (score_solution problem placements w soft_pinned_blocks ≡ some v)
unfolding score_solution slice_recompute
score_solution-slice_recompute problem placements w soft_pinned_blocks listed only_slice =
    let (days, gathered) = gather_days-some problem placements no_days listed in
    let (n, preferred, off_zero) = preferences problem w placements listed in
    let (teachers, taught) = first_teacher_loop-some problem placements [] listed in
    let class_day = sort_days days.class_day in
    let v = weigh w class_day days.teacher_day n in
    let costs = slice_costs problem placements w class_day days.teacher_day n preferred in
    let homes =
      sum_known_zero (placement_home_room problem w (home_rooms problem)) placements
        (All-map (no_home_room problem w (home_rooms problem) only_slice.0) placements listed) in
    (
      v,
      rw (gathered, slice_recompute) costs,
      elim (Bool-cases (no_weights w)) [
        | inl off ↦
            let zero_v : v ≡ 0 =
              rw (off_zero (no_weights-IsOff w off))
                (weigh_off w class_day days.teacher_day (no_weights-IsOff w off)) in
            rw (off, zero_v) refl
        | inr on ↦
            rw (on, gathered)
              (rw costs (
                rw homes (
                  rw taught (
                    ap some (
                      sum_axes_slice problem placements w soft_pinned_blocks class_day v teachers
                        only_slice (weigh_bounds w class_day days.teacher_day n))))))
      ],
    )
