-- ===== src/Score/Preference.antt =====
-- The preference of a subject for a position in the day (score.rs: `subject_preference_score`).
use klassenzeit.Base.{
  ℕ, zero, suc, leb, ◌+◌, ◌-◌, ◌*◌, ◌≤◌, min, ◌≡◌, Bool, false, ◌&&◌, arith, ltb, ◌==◌,
  if◌then◌else◌, sat_add, sat_mul, u32_max, Bool-cases, inl, inr, refl,
}
use native.Mathlib.Numerals.{unary_clauses}
use klassenzeit.Types.{Subject, TimeBlock, ConstraintWeights}

unfoldable pub subject_preference_score : Subject → TimeBlock → ℕ → ConstraintWeights → ℕ
subject_preference_score subject tb max_position_for_day weights =
    let early =
      if ltb 0 subject.prefer_early_period
      then sat_add 0
          (sat_mul (sat_mul weights.prefer_early_period subject.prefer_early_period) tb.position)
      else 0 in
    let first =
      if ltb 0 subject.avoid_first_period && (tb.position == 0)
      then sat_add early (sat_mul weights.avoid_first_period subject.avoid_first_period)
      else early in
    let last =
      if ltb 0 subject.avoid_last_period && (tb.position == max_position_for_day)
      then sat_add first (sat_mul weights.avoid_last_period subject.avoid_last_period)
      else first in
    if ltb 0 subject.prefer_late_period && ltb 0 weights.prefer_late_period
    then sat_add last (
        sat_mul (sat_mul weights.prefer_late_period subject.prefer_late_period)
          (max_position_for_day - tb.position))
    else last

-- The four axes, with no test of the weights.
abbrev pub axes : Subject → TimeBlock → ℕ → ConstraintWeights → ℕ
axes subject tb max_position weights =
    (weights.prefer_early_period * subject.prefer_early_period) * tb.position
    + (if tb.position == 0 then weights.avoid_first_period * subject.avoid_first_period else 0)
    + (if tb.position == max_position
        then weights.avoid_last_period * subject.avoid_last_period
        else 0)
    + (weights.prefer_late_period * subject.prefer_late_period) * (max_position - tb.position)

zero_mul : (w s : ℕ) → ltb 0 s ≡ false → w * s ≡ 0
zero_mul w s h = ground arith

sat_mul_mul : (a p : ℕ) → sat_mul (min a u32_max) p ≡ min (a * p) u32_max
sat_mul_mul a zero = omega arith
sat_mul_mul a (suc n) = elim (Bool-cases (leb a u32_max)) [
  | inl e ↦ let fits : min a u32_max ≡ a = ground arith in rw fits refl
  | inr e ↦
      let cut : min a u32_max ≡ u32_max = ground arith in
      rw cut (simp unary_clauses (omega (arith, big a e)))
]
  where
    big : (a : ℕ) → leb a u32_max ≡ false → u32_max ≤ a
    big a e = ground arith

-- An axis under the test of its weight adds what it adds without the test.
guarded :
    (score w s p : ℕ)
    → score ≤ u32_max
    → (if ltb 0 s then sat_add score (sat_mul (sat_mul w s) p) else score)
      ≡ sat_add score ((w * s) * p)
guarded score w s p h = elim (Bool-cases (ltb 0 s)) [
  | inl e ↦ rw (e, sat_mul_mul (w * s) p) (omega arith)
  | inr e ↦ rw (e, zero_mul w s e) (omega arith)
]

guarded_at :
    (score w s : ℕ) (b : Bool)
    → score ≤ u32_max
    → (if ltb 0 s && b then sat_add score (sat_mul w s) else score)
      ≡ sat_add score (if b then w * s else 0)
guarded_at score w s b h = elim (Bool-cases (ltb 0 s)) [
  | inl e ↦ rw e (ground arith)
  | inr e ↦ rw (e, zero_mul w s e) (ground arith)
]

guarded_late :
    (score w s p : ℕ)
    → score ≤ u32_max
    → (if ltb 0 s && ltb 0 w then sat_add score (sat_mul (sat_mul w s) p) else score)
      ≡ sat_add score ((w * s) * p)
guarded_late score w s p h = elim (Bool-cases (ltb 0 w)) [
  | inl e ↦ rw e (ground (arith, guarded score w s p h))
  | inr e ↦ let off : w ≡ 0 = ground arith in rw (e, off) (ground arith)
]

cut_once :
    (a b c d : ℕ) → sat_add (sat_add (sat_add (sat_add 0 a) b) c) d ≡ min (a + b + c + d) u32_max
cut_once a b c d = omega arith

-- The score of a placement is the sum of the four axes, cut at the largest number of 32 bits; a weight of
-- zero takes its axis away.
pub subject_preference_score_lem :
    (subject : Subject) (tb : TimeBlock) (max_position : ℕ) (weights : ConstraintWeights)
    → subject_preference_score subject tb max_position weights
      ≡ min (axes subject tb max_position weights) u32_max
unfolding subject_preference_score
subject_preference_score_lem subject tb max_position weights =
    let early = (weights.prefer_early_period * subject.prefer_early_period) * tb.position in
    let first =
      if tb.position == 0 then weights.avoid_first_period * subject.avoid_first_period else 0 in
    let last =
      if tb.position == max_position
      then weights.avoid_last_period * subject.avoid_last_period
      else 0 in
    rw
      (
        guarded 0 weights.prefer_early_period subject.prefer_early_period tb.position (omega arith),
        guarded_at (sat_add 0 early) weights.avoid_first_period subject.avoid_first_period
            (tb.position == 0) (omega arith),
        guarded_at (sat_add (sat_add 0 early) first) weights.avoid_last_period
            subject.avoid_last_period (tb.position == max_position) (omega arith),
        guarded_late (sat_add (sat_add (sat_add 0 early) first) last) weights.prefer_late_period
            subject.prefer_late_period (max_position - tb.position) (omega arith),
      )
      (cut_once early first last
        ((weights.prefer_late_period * subject.prefer_late_period) * (max_position - tb.position)))
