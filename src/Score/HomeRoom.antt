-- ===== src/Score/HomeRoom.antt =====
-- The penalty for a room that is not the home room (score.rs: `home_room_penalty`,
-- `home_room_penalty_one_class`).
use klassenzeit.Base.{
  ℕ, ◌≤◌, ◌≡◌, refl, Bool, true, false, not, Option, none, some, List, [], ◌∷◌, arith, ◌==◌,
  if◌then◌else◌, HashMap, get, nat_eq, sat_add, u32_max, Bool-cases, inl, inr, sym, ◌∙◌, ap,
}
use klassenzeit.Types.{Lesson, ConstraintWeights}
use klassenzeit.Score.Balance.{sum_counts}

-- `if let Some(Some(home_id)) = lookup.get(class_id) { if *home_id != room_id { .. } }`
unfoldable pub misses : Option (Option ℕ) → ℕ → Bool
misses none room = false
misses (some none) room = false
misses (some (some home)) room = not (home == room)

unfoldable pub home_room_penalty_one_class : ℕ → HashMap ℕ (Option ℕ) → ℕ → ConstraintWeights → ℕ
unfolding get misses
home_room_penalty_one_class class' home_room_lookup room weights =
    if weights.prefer_home_room == 0
    then 0
    else (if misses (get home_room_lookup class') room then weights.prefer_home_room else 0)

unfoldable pub home_room_loop : List ℕ → HashMap ℕ (Option ℕ) → ℕ → ConstraintWeights → ℕ → ℕ
unfolding get misses
home_room_loop [] lookup room weights score = score
home_room_loop (c ∷ cs) lookup room weights score =
    home_room_loop cs lookup room weights
      (if misses (get lookup c) room then sat_add score weights.prefer_home_room else score)

unfoldable pub home_room_penalty : Lesson → HashMap ℕ (Option ℕ) → ℕ → ConstraintWeights → ℕ
unfolding home_room_loop
home_room_penalty lesson' lookup room weights =
    if weights.prefer_home_room == 0
    then 0
    else home_room_loop lesson'.school_class_ids lookup room weights 0

loop-step :
    (b : Bool) (score w : ℕ)
    → score ≤ u32_max
    → (if b then sat_add score w else score) ≡ sat_add score (if b then w else 0)
loop-step true score w h = refl
loop-step false score w h = omega arith

home_room_loop_lem :
    (cs : List ℕ) (lookup : HashMap ℕ (Option ℕ)) (room : ℕ) (weights : ConstraintWeights)
    (score : ℕ)
    → (weights.prefer_home_room == 0) ≡ false
    → score ≤ u32_max
    → home_room_loop cs lookup room weights score
      ≡ sum_counts (λ c. home_room_penalty_one_class c lookup room weights) cs score
unfolding home_room_loop sum_counts home_room_penalty_one_class
home_room_loop_lem [] lookup room weights score on h = refl
home_room_loop_lem (c ∷ cs) lookup room weights score on h =
    rw (loop-step (misses (get lookup c) room) score weights.prefer_home_room h) (
      home_room_loop_lem cs lookup room weights
        (sat_add score (if misses (get lookup c) room then weights.prefer_home_room else 0)) on
        (omega arith)
      ∙ ap (λ (z : ℕ). sum_counts (λ c. home_room_penalty_one_class c lookup room weights) cs z)
          (step-open weights.prefer_home_room on (misses (get lookup c) room) score
            weights.prefer_home_room))
  where
    step-open :
        (w0 : ℕ)
        → (w0 == 0) ≡ false
        → (b : Bool) (score w : ℕ)
        → sat_add score (if b then w else 0)
          ≡ sat_add score (if w0 == 0 then 0 else (if b then w else 0))
    step-open w0 e b score w = rw e refl

sum_of_zeros : (cs : List ℕ) (f : ℕ → ℕ) → ((c : ℕ) → f c ≡ 0) → sum_counts f cs 0 ≡ 0
unfolding sum_counts
sum_of_zeros [] f h = refl
sum_of_zeros (c ∷ cs) f h = rw (h c) (sum_of_zeros cs f h)

-- The penalty of a placement is the saturating sum of the penalties of the lesson's classes.
pub home_room_penalty_lem :
    (lesson' : Lesson) (lookup : HashMap ℕ (Option ℕ)) (room : ℕ) (weights : ConstraintWeights)
    → home_room_penalty lesson' lookup room weights
      ≡ sum_counts
          (λ c. home_room_penalty_one_class c lookup room weights)
          lesson'.school_class_ids
          0
unfolding home_room_penalty
home_room_penalty_lem lesson' lookup room weights =
    elim (Bool-cases (weights.prefer_home_room == 0)) [
      | inl off ↦ rw off (
          sym (
            sum_of_zeros lesson'.school_class_ids
              (λ (c : ℕ). home_room_penalty_one_class c lookup room weights)
              (λ c. unfold home_room_penalty_one_class in rw off refl)))
      | inr on ↦
          rw on (home_room_loop_lem lesson'.school_class_ids lookup room weights 0 on (omega arith))
    ]
