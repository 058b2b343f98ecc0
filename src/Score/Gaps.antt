-- ===== src/Score/Gaps.antt =====
-- The gap counts of solver/solver-core/src/score.rs, solve.rs and lahc.rs: a count of the free
-- positions inside a day, and the closed forms that predict it under an insertion, a removal, a
-- swap and the insertion of a window without touching the partition.
pub mod Missing
pub mod Moves
pub mod Window
use klassenzeit.Base.{
  ℕ, zero, suc, ◌+◌, ◌-◌, ◌≤◌, ◌<◌, min, max, ◌≡◌, refl, Bool, true, false, ◌||◌, Option, none,
  some, List, [], ◌∷◌, arith, ltb, ◌==◌, if◌then◌else◌, length, get_or, sub_u8, sub_u32, add_u8,
  sat_add, to_u32,
}
use klassenzeit.Score.Partition.{Search, found, absent, binary_search, member}

-- `*positions.first().unwrap()` and `*positions.last().unwrap()`; the calls stand behind tests that
-- the slice is not empty.
abbrev pub first : List ℕ → ℕ
first ps = get_or ps 0 0

abbrev pub last_from : ℕ → List ℕ → ℕ
last_from x [] = x
last_from x (y ∷ ys) = last_from y ys

abbrev pub last : List ℕ → ℕ
last [] = 0
last (x ∷ xs) = last_from x xs

-- What the four counts do with the first and last occupied positions and their number: return 0
-- below two positions, and `span + 1 - count` otherwise.
unfoldable pub span_gaps : ℕ → ℕ → ℕ → ℕ
span_gaps lo hi len = if ltb len 2 then 0 else sub_u32 (sub_u8 hi lo + 1) (to_u32 len)

unfoldable pub gap_count : List ℕ → ℕ
unfolding span_gaps
gap_count ps = span_gaps (first ps) (last ps) (length ps)

abbrev is_found : Search → Bool
is_found (found i) = true
is_found (absent i) = false

unfoldable pub gap_count_after_insert : Option (List ℕ) → ℕ → ℕ
unfolding span_gaps binary_search
gap_count_after_insert none p = 0
gap_count_after_insert (some []) p = 0
gap_count_after_insert (some (x ∷ xs)) p =
    let ps = x ∷ xs in
    let len_after = if is_found (binary_search ps p) then length ps else length ps + 1 in
    span_gaps (min (first ps) p) (max (last ps) p) len_after

-- The first and last elements once the element at `removed_at` is gone.
abbrev first_without : List ℕ → ℕ → ℕ
first_without ps removed_at = if removed_at == 0 then get_or ps 1 0 else get_or ps 0 0

abbrev last_without : List ℕ → ℕ → ℕ
last_without ps removed_at =
    if removed_at == length ps - 1 then get_or ps (length ps - 2) 0 else get_or ps (length ps - 1) 0

remove_closed : List ℕ → Search → ℕ
unfolding span_gaps gap_count
remove_closed ps (found i) = span_gaps (first_without ps i) (last_without ps i) (length ps - 1)
remove_closed ps (absent i) = gap_count ps

unfoldable pub gap_count_after_remove : List ℕ → ℕ → ℕ
unfolding binary_search remove_closed
gap_count_after_remove ps p = remove_closed ps (binary_search ps p)

swap_closed : List ℕ → Search → ℕ → ℕ
unfolding span_gaps gap_count binary_search
swap_closed ps (found i) new_pos =
    let len_after = if is_found (binary_search ps new_pos) then length ps - 1 else length ps in
    span_gaps (min (first_without ps i) new_pos) (max (last_without ps i) new_pos) len_after
swap_closed ps (absent i) new_pos = gap_count ps

unfoldable pub gap_count_after_swap : List ℕ → ℕ → ℕ → ℕ
unfolding swap_closed gap_count binary_search
gap_count_after_swap ps old_pos new_pos =
    if old_pos == new_pos then gap_count ps else swap_closed ps (binary_search ps old_pos) new_pos

window_closed : List ℕ → ℕ → ℕ → ℕ
window_closed ps start end' =
    let n_added = add_u8 (sub_u8 end' start) 1 in
    let len_after = sat_add (to_u32 (length ps)) n_added in
    let span = sub_u8 (max (last ps) end') (min (first ps) start) + 1 in span - len_after

unfoldable pub gap_count_after_window_insert : Option (List ℕ) → ℕ → ℕ → ℕ
unfolding window_closed
gap_count_after_window_insert none start end' = 0
gap_count_after_window_insert (some []) start end' = 0
gap_count_after_window_insert (some (x ∷ xs)) start end' = window_closed (x ∷ xs) start end'
