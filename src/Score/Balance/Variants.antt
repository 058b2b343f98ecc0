-- ===== src/Score/Balance/Variants.antt =====
-- The five forms of the day balance agree: the total with the sum over the classes, the form on a
-- list of counts, and the two that foresee a change with the cost after the change.
use klassenzeit.Base.{
  ℕ, zero, suc, ◌+◌, ◌-◌, ◌≤◌, ◌<◌, min, ◌≡◌, refl, false, List, [], ◌∷◌, arith, ◌==◌, ==_iff,
  if◌then◌else◌, ◌||◌, HashMap, get, insert, get-insert, pair_eq, length, insert_at, map, sat_add,
  u32_max, as_u32, Bool-cases, Option-cases, inl, inr, ap, ◌≢◌, sym, ◌∙◌,
}
use klassenzeit.Types.{SchoolClass}
use klassenzeit.Score.Partition.{insert_window, insert_raw}
use klassenzeit.Score.Gaps.Moves.{positions}
use klassenzeit.Score.Balance.{
  range, count_on, sum_counts, scaled_counts, class_day_balance_cost_for_class, swapped, added,
  class_day_balance_cost_for_class_after_add, class_day_balance_cost_for_class_with_swap, take,
  class_day_balance_cost_for_class_from_counts, balance_loop, class_day_balance_cost, is_empty,
}

abbrev pub total : (ℕ → ℕ) → List ℕ → ℕ
total c [] = 0
total c (day ∷ days) = c day + total c days

-- The saturating loop returns the sum, or the largest number when the sum does not fit.
pub sum_counts_lem :
    (c : ℕ → ℕ) (days : List ℕ) (s : ℕ)
    → s ≤ u32_max
    → sum_counts c days s ≡ min (s + total c days) u32_max
unfolding sum_counts
sum_counts_lem c [] s h = omega arith
sum_counts_lem c (day ∷ days) s h =
    omega (arith, sum_counts_lem c days (sat_add s (c day)) (omega arith))

sum_counts-map :
    (f : ℕ → ℕ) (days : List ℕ) (s : ℕ) → sum_counts (λ c. c) (map f days) s ≡ sum_counts f days s
unfolding sum_counts
sum_counts-map f [] s = refl
sum_counts-map f (day ∷ days) s = sum_counts-map f days (sat_add s (f day))

scaled_counts-map :
    (f : ℕ → ℕ) (d sum : ℕ) (days : List ℕ) (s : ℕ)
    → scaled_counts (λ c. c) d sum (map f days) s ≡ scaled_counts f d sum days s
unfolding scaled_counts
scaled_counts-map f d sum [] s = refl
scaled_counts-map f d sum (day ∷ days) s = scaled_counts-map f d sum days _

fits : (t : ℕ) → t ≤ u32_max → sat_add t 0 ≡ t
fits t h = omega arith

balance_loop-step :
    (m : HashMap (ℕ × ℕ) (List ℕ)) (c : SchoolClass) (classes : List SchoolClass) (days t : ℕ)
    → (days == 0) ≡ false
    → t ≤ u32_max
    → balance_loop m (c ∷ classes) days t
      ≡ balance_loop m classes days (sat_add t (class_day_balance_cost_for_class c.id days m))
unfolding balance_loop class_day_balance_cost_for_class
balance_loop-step m c classes days t nz h =
    let sum = sum_counts (count_on m c.id) (range 0 days) 0 in
    rw
      (
        nz,
        sum_counts-map (count_on m c.id) (range 0 days) 0,
        scaled_counts-map (count_on m c.id) days sum (range 0 days) 0,
      )
      (elim (Bool-cases (sum == 0)) [
        | inl e ↦ rw e (ap (λ (x : ℕ). balance_loop m classes days x) (sym (fits t h)))
        | inr ne ↦ rw ne refl
      ])

balance_loop_lem :
    (m : HashMap (ℕ × ℕ) (List ℕ)) (classes : List SchoolClass) (days t : ℕ)
    → (days == 0) ≡ false
    → t ≤ u32_max
    → balance_loop m classes days t
      ≡ sum_counts (λ c. class_day_balance_cost_for_class c days m) (map (λ c. c.id) classes) t
unfolding balance_loop sum_counts
balance_loop_lem m [] days t nz h = refl
balance_loop_lem m (c ∷ classes) days t nz h =
    balance_loop-step m c classes days t nz h
    ∙ balance_loop_lem m classes days (sat_add t (class_day_balance_cost_for_class c.id days m)) nz
        (omega arith)

sum_counts-zero : (f : ℕ → ℕ) (xs : List ℕ) → ((x : ℕ) → f x ≡ 0) → sum_counts f xs 0 ≡ 0
unfolding sum_counts
sum_counts-zero f [] h = refl
sum_counts-zero f (x ∷ xs) h = rw (h x) (sum_counts-zero f xs h)

-- The cost of all classes is the saturating sum of the costs of each.
pub class_day_balance_cost_lem :
    (m : HashMap (ℕ × ℕ) (List ℕ)) (classes : List SchoolClass) (days : ℕ)
    → class_day_balance_cost m classes days
      ≡ sum_counts (λ c. class_day_balance_cost_for_class c days m) (map (λ c. c.id) classes) 0
unfolding class_day_balance_cost
class_day_balance_cost_lem m classes days = elim (Bool-cases (days == 0)) [
  | inl e ↦
      rw (e, class_day_balance_cost)
        (sym (
          sum_counts-zero (λ (c : ℕ). class_day_balance_cost_for_class c days m)
            (map (λ c. c.id) classes) (λ c. unfold class_day_balance_cost_for_class in rw e refl)))
  | inr ne ↦ rw (ne, class_day_balance_cost) (balance_loop_lem m classes days 0 ne (omega arith))
]

take-map : (f : ℕ → ℕ) (start n : ℕ) → take n (map f (range start n)) ≡ map f (range start n)
unfolding take range
take-map f start zero = refl
take-map f start (suc n) = ap (◌∷◌ (f start)) (take-map f (suc start) n)

is_empty-map :
    (f : ℕ → ℕ) (days : ℕ) → (days == 0) ≡ false → is_empty (map f (range 0 days)) ≡ false
unfolding is_empty range
is_empty-map f zero ne = absurd (cc)
is_empty-map f (suc n) ne = refl

-- On the counts of the days, the form on a list of counts is the cost of the class.
pub class_day_balance_cost_for_class_from_counts_lem :
    (class' days : ℕ) (m : HashMap (ℕ × ℕ) (List ℕ))
    → class_day_balance_cost_for_class_from_counts class' days
        (map (count_on m class') (range 0 days))
      ≡ class_day_balance_cost_for_class class' days m
unfolding class_day_balance_cost_for_class_from_counts class_day_balance_cost_for_class
class_day_balance_cost_for_class_from_counts_lem class' days m =
    let c = count_on m class' in
    let days' = range 0 days in
    elim (Bool-cases (days == 0)) [
      | inl e ↦ rw e refl
      | inr ne ↦
          rw
            (
              ne,
              is_empty-map c days ne,
              take-map c 0 days,
              sum_counts-map c days' 0,
              scaled_counts-map c days (sum_counts c days' 0) days' 0,
            )
            refl
    ]

-- A change of one day's count changes the total by as much.
total-change_outside :
    (c c' : ℕ → ℕ) (k : ℕ) (same : (day : ℕ) → (day == k) ≡ false → c' day ≡ c day) (start n : ℕ)
    → k < start
    → total c' (range start n) ≡ total c (range start n)
unfolding range
total-change_outside c c' k same start zero l = refl
total-change_outside c c' k same start (suc n) l =
    ground (
      arith,
      same start (ground arith),
      total-change_outside c c' k same (suc start) n (omega arith),
    )

pub total-change :
    (c c' : ℕ → ℕ) (k : ℕ) (same : (day : ℕ) → (day == k) ≡ false → c' day ≡ c day) (start n : ℕ)
    → start ≤ k
    → k < start + n
    → total c' (range start n) + c k ≡ total c (range start n) + c' k
unfolding range
total-change c c' k same start zero lo hi = omega arith
total-change c c' k same start (suc n) lo hi = elim (Bool-cases (start == k)) [
  | inl e ↦ ground (arith, total-change_outside c c' k same (suc start) n (ground arith))
  | inr ne ↦
      ground
        (arith, same start ne, total-change c c' k same (suc start) n (ground arith) (omega arith))
]

-- The counts that are foreseen are the counts of `m'`: so is the cost.
class_day_balance_cost_for_class_after_add-of :
    (class' days add_day add_n : ℕ) (m m' : HashMap (ℕ × ℕ) (List ℕ))
    → add_day < days
    → count_on m class' add_day + add_n ≤ u32_max
    → count_on m' class' ≡ added (count_on m class') add_day add_n
    → class_day_balance_cost_for_class_after_add class' days m add_day add_n
      ≡ class_day_balance_cost_for_class class' days m'
unfolding class_day_balance_cost_for_class_after_add class_day_balance_cost_for_class
class_day_balance_cost_for_class_after_add-of class' days add_day add_n m m' here room counts =
    let c = count_on m class' in
    let c' = count_on m' class' in
    let days' = range 0 days in
    let nz : (days == 0) ≡ false = ground arith in
    let change : total c' days' + c add_day ≡ total c days' + c' add_day =
      total-change c c' add_day (λ day ne. unfold added in rw (counts, ne) refl) 0 days
        (omega arith) (omega arith) in
    let at_day : c' add_day ≡ c add_day + add_n =
      unfold added in rw (counts, (==_iff add_day add_day).1 refl) (omega arith) in
    let sums : sat_add (sum_counts c days' 0) add_n ≡ sum_counts c' days' 0 =
      omega
        (arith, sum_counts_lem c days' 0 (omega arith), sum_counts_lem c' days' 0 (omega arith)) in
    rw (nz, sums, ← counts) refl

pub count_on-insert :
    (class' day : ℕ) (v : List ℕ) (m : HashMap (ℕ × ℕ) (List ℕ)) (k : ℕ)
    → count_on (insert (class', day) v m) class' k
      ≡ (if k == day then as_u32 (length v) else count_on m class' k)
unfolding count_on
count_on-insert class' day v m k =
    rw (get-insert (class', day) (class', k) v m, count_on)
      (ground (arith, pair_eq.beq_iff (class', day) (class', k)))

pub count_on_lem :
    (m : HashMap (ℕ × ℕ) (List ℕ)) (class' k : ℕ)
    → length (positions (get m (class', k))) ≤ u32_max
    → count_on m class' k ≡ length (positions (get m (class', k)))
unfolding count_on
count_on_lem m class' k h = elim (Option-cases (get m (class', k))) [
  | inl e ↦ rw (e, count_on) refl
  | inr (v, e) ↦ rw (e, count_on) (small (length v) (rw e at h))
]
  where
    small : (n : ℕ) → n ≤ u32_max → as_u32 n ≡ n
    small n h = omega arith

length-insert_at : (ps : List ℕ) (i p : ℕ) → length (insert_at ps i p) ≡ suc (length ps)
length-insert_at [] i p = refl
length-insert_at (x ∷ xs) zero p = refl
length-insert_at (x ∷ xs) (suc i) p = ap suc (length-insert_at xs i p)

length-insert_window :
    (n start : ℕ) (ps : List ℕ) → length (insert_window ps start n) ≡ length ps + n
unfolding insert_window insert_raw
length-insert_window zero start ps = omega arith
length-insert_window (suc n) start ps =
    omega
      (arith, length-insert_window n (suc start) (insert_raw ps start), length-insert_at ps _ start)

-- As above for one count that leaves `old_day` and joins `new_day`.
pub class_day_balance_cost_for_class_with_swap-of :
    (class' days old_day new_day : ℕ) (m m' : HashMap (ℕ × ℕ) (List ℕ))
    → old_day < days
    → new_day < days
    → old_day ≢ new_day
    → 1 ≤ count_on m class' old_day
    → count_on m class' new_day + 1 ≤ u32_max
    → count_on m' class' ≡ swapped (count_on m class') old_day new_day
    → class_day_balance_cost_for_class_with_swap class' days m old_day new_day
      ≡ class_day_balance_cost_for_class class' days m'
unfolding class_day_balance_cost_for_class_with_swap class_day_balance_cost_for_class
class_day_balance_cost_for_class_with_swap-of class' days old_day new_day m m' here there ne full
      room counts =
    let c = count_on m class' in
    let c' = count_on m' class' in
    let days' = range 0 days in
    let nz : ((days == 0) || (old_day == new_day)) ≡ false = ground arith in
    let nz' : (days == 0) ≡ false = ground arith in
    let half : (ℕ → ℕ) = λ day. if day == old_day then c day - 1 else c day in
    let first : total half days' + c old_day ≡ total c days' + half old_day =
      total-change c half old_day (λ day no. rw no refl) 0 days (omega arith) (omega arith) in
    let second : total c' days' + half new_day ≡ total half days' + c' new_day =
      total-change half c' new_day (λ day no. unfold swapped in rw counts (ground (arith, no))) 0
        days (omega arith) (omega arith) in
    let at_old : half old_day ≡ c old_day - 1 = ground arith in
    let at_new : half new_day ≡ c new_day = ground arith in
    let at_new' : c' new_day ≡ c new_day + 1 = unfold swapped in rw counts (ground arith) in
    let sums : sum_counts c days' 0 ≡ sum_counts c' days' 0 =
      omega
        (arith, sum_counts_lem c days' 0 (omega arith), sum_counts_lem c' days' 0 (omega arith)) in
    rw (nz, nz', sums, ← counts) refl

-- The cost that the greedy search foresees for a window of `add_n` positions on `add_day` is the
-- cost of the class once the window is in its partition of that day, when the day is one of the
-- week and the length fits 32 bits.
pub class_day_balance_cost_for_class_after_add_lem :
    (class' days add_day start add_n : ℕ) (m : HashMap (ℕ × ℕ) (List ℕ))
    → add_day < days
    → length (positions (get m (class', add_day))) + add_n ≤ u32_max
    → class_day_balance_cost_for_class_after_add class' days m add_day add_n
      ≡ class_day_balance_cost_for_class class' days (
          insert
            (class', add_day)
            (insert_window (positions (get m (class', add_day))) start add_n)
            m)
class_day_balance_cost_for_class_after_add_lem class' days add_day start add_n m here room =
    let part = positions (get m (class', add_day)) in
    let m' = insert (class', add_day) (insert_window part start add_n) m in
    let at_day : count_on m class' add_day ≡ length part =
      count_on_lem m class' add_day (omega arith) in
    let counts : (k : ℕ) → count_on m' class' k ≡ added (count_on m class') add_day add_n k = λ k.
      unfold added in
      rw (count_on-insert class' add_day (insert_window part start add_n) m k)
        (elim (Bool-cases (k == add_day)) [
          | inl e ↦
              rw (e, (==_iff k add_day).0 e, at_day, length-insert_window add_n start part)
                (omega arith)
          | inr ne ↦ rw ne refl
        ]) in
    class_day_balance_cost_for_class_after_add-of class' days add_day add_n m m' here (omega arith)
      (λ i k. counts k i)
