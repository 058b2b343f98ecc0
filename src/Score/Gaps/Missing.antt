-- ===== src/Score/Gaps/Missing.antt =====
-- `gap_count` against its documentation in score.rs: it counts the positions of the day's span that
-- the partition does not hold.
use klassenzeit.Base.{
  ℕ, zero, suc, ◌+◌, ◌-◌, ◌≤◌, ◌<◌, ◌≡◌, refl, List, [], ◌∷◌, arith, if◌then◌else◌, length,
}
use klassenzeit.Score.Partition.{member, IsWithin, IsPartition, IsWithin-le, member_below}
use klassenzeit.Score.Gaps.{last_from, gap_count}

-- The positions from `lo` on, `n` of them, that are not in the list.
unfoldable pub missing : ℕ → ℕ → List ℕ → ℕ
missing zero lo ps = 0
missing (suc n) lo ps = (if member ps lo then 0 else 1) + missing n (suc lo) ps

missing-skip : (n lo x : ℕ) (xs : List ℕ) → x < lo → missing n lo (x ∷ xs) ≡ missing n lo xs
unfolding missing
missing-skip zero lo x xs h = refl
missing-skip (suc n) lo x xs h = ground (arith, missing-skip n (suc lo) x xs)

missing-length :
    (n lo hi : ℕ) (ps : List ℕ) → hi ≡ lo + n → IsWithin lo hi ps → missing n lo ps + length ps ≡ n
unfolding missing
missing-length zero lo hi [] e h = omega arith
missing-length zero lo hi (x ∷ xs) e h = absurd (omega (arith, IsWithin-le (suc x) hi xs h.1))
missing-length (suc n) lo hi [] e h = ground (arith, missing-length n (suc lo) hi [])
missing-length (suc n) lo hi (x ∷ xs) e h = ground (
  arith,
  member_below (suc x) hi lo xs h.1,
  missing-skip n (suc lo) x xs,
  missing-length n (suc lo) hi xs,
  missing-length n (suc lo) hi (x ∷ xs),
)

pub last_from-IsWithin :
    (hi x : ℕ) (xs : List ℕ)
    → IsWithin (suc x) hi xs
    → (x + length xs ≤ last_from x xs) × (last_from x xs < hi)
last_from-IsWithin hi x [] h = (omega arith, omega arith)
last_from-IsWithin hi x (y ∷ ys) h = ground (arith, last_from-IsWithin hi y ys h.1)

-- On a partition no subtraction of the closed form wraps.
pub gap_count-closed :
    (x : ℕ) (xs : List ℕ)
    → IsPartition (x ∷ xs)
    → (gap_count (x ∷ xs) + x + length (x ∷ xs) ≡ last_from x xs + 1)
      × (x + length xs ≤ last_from x xs)
      × (last_from x xs < 256)
unfolding gap_count
gap_count-closed x [] h = ground arith
gap_count-closed x (y ∷ ys) h = ground (arith, last_from-IsWithin 256 x (y ∷ ys) h.1)

IsWithin-last :
    (hi x : ℕ) (xs : List ℕ) → IsWithin (suc x) hi xs → IsWithin (suc x) (last_from x xs + 1) xs
IsWithin-last hi x [] h = omega arith
IsWithin-last hi x (y ∷ ys) h = (h.0, IsWithin-last hi y ys h.1)

-- The positions from the first occupied one to the last occupied one that the day does not hold.
unfoldable pub free_inside : List ℕ → ℕ
unfolding missing
free_inside [] = 0
free_inside (x ∷ xs) = missing (last_from x xs + 1 - x) x (x ∷ xs)

-- On a sorted list of `u8` positions without duplicates, `gap_count` is the number of positions
-- from the first occupied one to the last occupied one that the list does not hold.
pub gap_count-eq-free_inside : (ps : List ℕ) → IsPartition ps → gap_count ps ≡ free_inside ps
unfolding free_inside
gap_count-eq-free_inside [] h = unfold gap_count in refl
gap_count-eq-free_inside (x ∷ xs) h = omega (
  arith,
  gap_count-closed x xs h,
  missing-length (last_from x xs + 1 - x) x (last_from x xs + 1) (x ∷ xs)
      (omega (arith, gap_count-closed x xs h)) (omega arith, IsWithin-last 256 x xs h.1),
)
