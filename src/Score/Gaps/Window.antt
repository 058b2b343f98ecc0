-- ===== src/Score/Gaps/Window.antt =====
-- `gap_count_after_window_insert` of solver/solver-core/src/solve.rs against the insertion loop of
-- `try_place_block`.
use klassenzeit.Base.{
  ℕ, zero, suc, ◌+◌, ◌≤◌, ◌<◌, min, max, ◌≡◌, refl, false, Option, none, some, List, [], ◌∷◌, arith,
  length,
}
use klassenzeit.Score.Partition.{
  member, IsPartition, insert_ordered-IsWithin, insert_raw, insert_raw_lem, insert_window,
  member-insert_ordered,
}
use klassenzeit.Score.Gaps.{first, last, gap_count, gap_count_after_window_insert, window_closed}
use klassenzeit.Score.Gaps.Missing.{gap_count-closed}
use klassenzeit.Score.Gaps.Moves.{positions, length-insert_ordered, ends-insert_ordered}

-- No position of the window is occupied.
abbrev pub IsDisjoint : ℕ → ℕ → List ℕ → Type 0
IsDisjoint start n ps = (q : ℕ) → start ≤ q → q < start + n → member ps q ≡ false

-- What a partition with at least one position looks like after an insertion of `n` more, the first
-- `start` and the last `hi`.
record Grown (ps qs : List ℕ) (start hi n : ℕ) : Type 0 where
  sorted : IsPartition qs
  low : first qs ≡ min (first ps) start
  high : last qs ≡ max (last ps) hi
  size : length qs ≡ length ps + n

insert_raw-Grown :
    (ps : List ℕ) (start : ℕ)
    → IsPartition ps
    → 0 < length ps
    → start < 256
    → member ps start ≡ false
    → Grown ps (insert_raw ps start) start start 1
insert_raw-Grown [] start h l u m = absurd (omega arith)
insert_raw-Grown (x ∷ xs) start h l u m = rw (insert_raw_lem start (x ∷ xs) m) (record {
  sorted = insert_ordered-IsWithin 0 256 start (x ∷ xs) (omega arith) u h;
  low = (ends-insert_ordered 256 x start xs h.1).0;
  high = (ends-insert_ordered 256 x start xs h.1).1;
  size = ground (arith, length-insert_ordered 0 256 start (x ∷ xs) h);
})

insert_raw-IsDisjoint :
    (ps : List ℕ) (start n : ℕ)
    → IsDisjoint start (suc n) ps
    → IsDisjoint (suc start) n (insert_raw ps start)
insert_raw-IsDisjoint ps start n d q a b =
    rw (insert_raw_lem start ps (d start (omega arith) (omega arith)))
      (ground (arith, member-insert_ordered start q ps, d q))

insert_window-Grown :
    (n : ℕ) (ps : List ℕ) (start : ℕ)
    → IsPartition ps
    → 0 < length ps
    → start + n < 256
    → IsDisjoint start (suc n) ps
    → Grown ps (insert_window ps start (suc n)) start (start + n) (suc n)
unfolding insert_window
insert_window-Grown zero ps start h l u d =
    let once = insert_raw-Grown ps start h l (omega arith) (d start (omega arith) (omega arith)) in
    record {
      sorted = once.sorted;
      low = once.low;
      high = omega (arith, once.high);
      size = once.size;
    }
insert_window-Grown (suc n) ps start h l u d =
    let once = insert_raw-Grown ps start h l (omega arith) (d start (omega arith) (omega arith)) in
    let later =
      insert_window-Grown n (insert_raw ps start) (suc start) once.sorted (omega (arith, once.size))
        (omega arith) (insert_raw-IsDisjoint ps start (suc n) d) in
    record {
      sorted = later.sorted;
      low = omega (arith, later.low, once.low);
      high = omega (arith, later.high, once.high);
      size = omega (arith, later.size, once.size);
    }

closed :
    (ps : List ℕ)
    → IsPartition ps
    → 0 < length ps
    → (gap_count ps + first ps + length ps ≡ last ps + 1)
      × (first ps + length ps ≤ last ps + 1)
      × (last ps < 256)
closed [] h l = absurd (omega arith)
closed (x ∷ xs) h l = omega (arith, gap_count-closed x xs h)

empty_day : (n start : ℕ) → start + n < 256 → 0 ≡ gap_count (insert_window [] start (suc n))
unfolding insert_window insert_raw
empty_day zero start u = unfold gap_count in refl
empty_day (suc n) start u =
    let g =
      insert_window-Grown n (start ∷ []) (suc start) (omega arith) (omega arith) (omega arith)
        (λ q a b. ground arith) in
    omega (
      arith,
      g.low,
      g.high,
      g.size,
      closed (insert_window (start ∷ []) (suc start) (suc n)) g.sorted (omega (arith, g.size)),
    )

Grown-count :
    (ps qs : List ℕ) (start n : ℕ)
    → IsPartition ps
    → 0 < length ps
    → start + n < 256
    → Grown ps qs start (start + n) (suc n)
    → window_closed ps start (start + n) ≡ gap_count qs
unfolding window_closed
Grown-count ps qs start n h l u g =
    omega (arith, g.low, g.high, g.size, closed ps h l, closed qs g.sorted (omega (arith, g.size)))

-- On a sorted day without duplicates, the predicted gap count of a window of `n + 1` positions
-- below 256, none of which the day holds, is the gap count after they have been inserted one by
-- one.
pub gap_count_after_window_insert_lem :
    (o : Option (List ℕ)) (start n : ℕ)
    → start + n < 256
    → IsPartition (positions o)
    → IsDisjoint start (suc n) (positions o)
    → gap_count_after_window_insert o start (start + n)
      ≡ gap_count (insert_window (positions o) start (suc n))
unfolding gap_count_after_window_insert
gap_count_after_window_insert_lem none start n u h d = empty_day n start u
gap_count_after_window_insert_lem (some []) start n u h d = empty_day n start u
gap_count_after_window_insert_lem (some (x ∷ xs)) start n u h d =
    let g = insert_window-Grown n (x ∷ xs) start h (omega arith) u d in
    Grown-count (x ∷ xs) (insert_window (x ∷ xs) start (suc n)) start n h (omega arith) u g
