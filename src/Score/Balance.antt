-- ===== src/Score/Balance.antt =====
-- The day balance of a class (score.rs: `class_day_balance_cost` and its four variants).
pub mod Variants
use klassenzeit.Base.{
  ℕ, zero, suc, ◌+◌, ◌*◌, ◌/◌, ◌≤◌, min, ◌≡◌, refl, Bool, true, false, Option, none, some, List, [],
  ◌∷◌, arith, ◌==◌, if◌then◌else◌, ◌||◌, HashMap, get, pair_eq, length, map, sat_add, sat_mul,
  abs_diff, as_u32, u32_max, ◌-◌,
}
use klassenzeit.Types.{SchoolClass}

-- `start..start + n`
unfoldable pub range : ℕ → ℕ → List ℕ
range start zero = []
range start (suc n) = start ∷ range (suc start) n

-- `.get(&(class_id, day)).map(|v| v.len() as u32).unwrap_or(0)`
unfoldable pub count_on : HashMap (ℕ × ℕ) (List ℕ) → ℕ → ℕ → ℕ
unfolding get
count_on positions class' day = elim (get positions (class', day)) [
  | none ↦ 0
  | some v ↦ as_u32 (length v)
]

-- `for day in .. { sum = sum.saturating_add(c) }`
unfoldable pub sum_counts : (ℕ → ℕ) → List ℕ → ℕ → ℕ
sum_counts c [] sum = sum
sum_counts c (day ∷ days) sum = sum_counts c days (sat_add sum (c day))

-- `for day in .. { scaled = scaled.saturating_add(c.saturating_mul(d).abs_diff(sum)) }`
unfoldable pub scaled_counts : (ℕ → ℕ) → ℕ → ℕ → List ℕ → ℕ → ℕ
scaled_counts c d sum [] scaled = scaled
scaled_counts c d sum (day ∷ days) scaled =
    scaled_counts c d sum days (sat_add scaled (abs_diff (sat_mul (c day) d) sum))

unfoldable pub class_day_balance_cost_for_class : ℕ → ℕ → HashMap (ℕ × ℕ) (List ℕ) → ℕ
unfolding range count_on sum_counts scaled_counts
class_day_balance_cost_for_class class' days positions =
    let c = count_on positions class' in
    let sum = sum_counts c (range 0 days) 0 in
    if days == 0
    then 0
    else (if sum == 0 then 0 else scaled_counts c days sum (range 0 days) 0 / days)

-- One count moved from `old_day` to `new_day`.
unfoldable pub swapped : (ℕ → ℕ) → ℕ → ℕ → ℕ → ℕ
swapped c old_day new_day day =
    if day == old_day then c day - 1 else (if day == new_day then sat_add (c day) 1 else c day)

unfoldable pub class_day_balance_cost_for_class_with_swap :
    ℕ → ℕ → HashMap (ℕ × ℕ) (List ℕ) → ℕ → ℕ → ℕ
unfolding range count_on sum_counts scaled_counts swapped class_day_balance_cost_for_class
class_day_balance_cost_for_class_with_swap class' days positions old_day new_day =
    let c = count_on positions class' in
    let sum = sum_counts c (range 0 days) 0 in
    if (days == 0) || (old_day == new_day)
    then class_day_balance_cost_for_class class' days positions
    else (if sum == 0
        then 0
        else scaled_counts (swapped c old_day new_day) days sum (range 0 days) 0 / days)

-- `add_n` counts more on `add_day`.
unfoldable pub added : (ℕ → ℕ) → ℕ → ℕ → ℕ → ℕ
added c add_day add_n day = if day == add_day then sat_add (c day) add_n else c day

unfoldable pub class_day_balance_cost_for_class_after_add :
    ℕ → ℕ → HashMap (ℕ × ℕ) (List ℕ) → ℕ → ℕ → ℕ
unfolding range count_on sum_counts scaled_counts added
class_day_balance_cost_for_class_after_add class' days positions add_day add_n =
    let c = count_on positions class' in
    let sum = sat_add (sum_counts c (range 0 days) 0) add_n in
    if days == 0
    then 0
    else (if sum == 0
        then 0
        else scaled_counts (added c add_day add_n) days sum (range 0 days) 0 / days)

-- `counts.iter().take(days)`
unfoldable pub take : ℕ → List ℕ → List ℕ
take zero xs = []
take (suc n) [] = []
take (suc n) (x ∷ xs) = x ∷ take n xs

unfoldable pub is_empty : List ℕ → Bool
is_empty [] = true
is_empty (x ∷ xs) = false

unfoldable pub class_day_balance_cost_for_class_from_counts : ℕ → ℕ → List ℕ → ℕ
unfolding sum_counts scaled_counts take is_empty
class_day_balance_cost_for_class_from_counts class' days counts =
    let taken = take days counts in
    let sum = sum_counts (λ c. c) taken 0 in
    if (days == 0) || is_empty counts
    then 0
    else (if sum == 0 then 0 else scaled_counts (λ c. c) days sum taken 0 / days)

-- The loop over the classes: the counts are pushed on a vector, which the second loop reads.
unfoldable pub balance_loop : HashMap (ℕ × ℕ) (List ℕ) → List SchoolClass → ℕ → ℕ → ℕ
unfolding range count_on sum_counts scaled_counts
balance_loop positions [] days total = total
balance_loop positions (class' ∷ classes) days total =
    let counts = map (count_on positions class'.id) (range 0 days) in
    let sum = sum_counts (λ c. c) counts 0 in
    let total' =
      if sum == 0 then total else sat_add total (scaled_counts (λ c. c) days sum counts 0 / days) in
    balance_loop positions classes days total'

unfoldable pub class_day_balance_cost : HashMap (ℕ × ℕ) (List ℕ) → List SchoolClass → ℕ → ℕ
unfolding balance_loop
class_day_balance_cost positions classes days =
    if days == 0 then 0 else balance_loop positions classes days 0
