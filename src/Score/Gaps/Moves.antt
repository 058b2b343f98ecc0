-- ===== src/Score/Gaps/Moves.antt =====
-- The closed forms that predict a gap count against the bookkeeping that changes the partition:
-- each equals `gap_count` of the partition after the change.
use klassenzeit.Base.{
  ℕ, zero, suc, ◌+◌, ◌-◌, ◌≤◌, ◌<◌, min, max, ◌≡◌, ◌≢◌, refl, sym, ap, ◌∙◌, true, false, Option,
  none, some, List, [], ◌∷◌, arith, ◌==◌, if◌then◌else◌, length, get_or, remove_at,
}
use klassenzeit.Score.Partition.{
  Search, found, absent, binary_search, member, member_below, IsWithin, IsPartition, shift,
  remove_found, insert_position, insert_position_lem, insert_ordered, remove_position,
  remove_position-IsPartition, remove_ordered, remove_position_lem,
}
use klassenzeit.Score.Gaps.{
  first, last, last_from, gap_count, gap_count_after_insert, gap_count_after_remove,
  gap_count_after_swap, is_found, remove_closed, swap_closed, first_without, last_without,
}
use klassenzeit.Score.Gaps.Missing.{last_from-IsWithin}

pub is_found-member :
    (lo hi p : ℕ) (ps : List ℕ) → IsWithin lo hi ps → is_found (binary_search ps p) ≡ member ps p
unfolding binary_search
is_found-member lo hi p [] h = refl
is_found-member lo hi p (x ∷ xs) h =
    ground (arith, is_found-member (suc x) hi p xs h.1, member_below (suc x) hi p xs h.1)

pub length-insert_ordered :
    (lo hi p : ℕ) (ps : List ℕ)
    → IsWithin lo hi ps
    → length (insert_ordered ps p) ≡ (if member ps p then length ps else length ps + 1)
length-insert_ordered lo hi p [] h = ground arith
length-insert_ordered lo hi p (x ∷ xs) h =
    ground (arith, length-insert_ordered (suc x) hi p xs h.1, member_below (suc x) hi p xs h.1)

last_from-insert_ordered :
    (hi x p : ℕ) (xs : List ℕ)
    → IsWithin (suc x) hi xs
    → x < p
    → last_from x (insert_ordered xs p) ≡ max (last_from x xs) p
last_from-insert_ordered hi x p [] h l = omega arith
last_from-insert_ordered hi x p (y ∷ ys) h l =
    ground (arith, last_from-insert_ordered hi y p ys h.1, last_from-IsWithin hi y ys h.1)

pub ends-insert_ordered :
    (hi x p : ℕ) (xs : List ℕ)
    → IsWithin (suc x) hi xs
    → (first (insert_ordered (x ∷ xs) p) ≡ min x p)
      × (last (insert_ordered (x ∷ xs) p) ≡ max (last_from x xs) p)
ends-insert_ordered hi x p xs h =
    ground (arith, last_from-insert_ordered hi x p xs h, last_from-IsWithin hi x xs h)

-- `map.get(key)`: a day with no entry is an empty partition.
abbrev pub positions : Option (List ℕ) → List ℕ
positions none = []
positions (some ps) = ps

-- On a sorted day without duplicates, or one with no entry, the predicted gap count of an
-- insertion is the gap count after it.
pub gap_count_after_insert_lem :
    (o : Option (List ℕ)) (p : ℕ)
    → IsPartition (positions o)
    → gap_count_after_insert o p ≡ gap_count (insert_position (positions o) p)
unfolding gap_count_after_insert gap_count insert_position
gap_count_after_insert_lem none p h = refl
gap_count_after_insert_lem (some []) p h = refl
gap_count_after_insert_lem (some (x ∷ xs)) p h = rw (insert_position_lem 0 256 p (x ∷ xs) h) (
    ground (
      arith,
      is_found-member 0 256 p (x ∷ xs) h,
      length-insert_ordered 0 256 p (x ∷ xs) h,
      ends-insert_ordered 256 x p xs h.1,
    ))

last_from-get : (x : ℕ) (xs : List ℕ) → last_from x xs ≡ get_or (x ∷ xs) (length xs) 0
last_from-get x [] = refl
last_from-get x (y ∷ ys) = last_from-get y ys

last_from-remove_at :
    (x j : ℕ) (xs : List ℕ)
    → j < length xs
    → last_from x (remove_at xs j) ≡ (
        if j + 1 == length xs
        then get_or (x ∷ xs) (length xs - 1) 0
        else get_or (x ∷ xs) (length xs) 0)
last_from-remove_at x j [] l = absurd (omega arith)
last_from-remove_at x zero (y ∷ []) l = refl
last_from-remove_at x zero (y ∷ z ∷ zs) l = ground (arith, last_from-get z zs)
last_from-remove_at x (suc k) (y ∷ []) l = absurd (omega arith)
last_from-remove_at x (suc k) (y ∷ z ∷ zs) l = ground (arith, last_from-remove_at y k (z ∷ zs))

ends-remove_at :
    (i : ℕ) (ps : List ℕ)
    → i < length ps
    → 2 ≤ length ps
    → (first (remove_at ps i) ≡ first_without ps i) × (last (remove_at ps i) ≡ last_without ps i)
ends-remove_at i [] l m = absurd (omega arith)
ends-remove_at i (x ∷ []) l m = absurd (omega arith)
ends-remove_at zero (x ∷ y ∷ ys) l m = ground (arith, last_from-get y ys)
ends-remove_at (suc j) (x ∷ y ∷ ys) l m = ground (arith, last_from-remove_at x j (y ∷ ys))

length-remove_at : (i : ℕ) (ps : List ℕ) → i < length ps → length (remove_at ps i) ≡ length ps - 1
length-remove_at i [] l = refl
length-remove_at zero (x ∷ xs) l = omega arith
length-remove_at (suc i) (x ∷ xs) l = omega (arith, length-remove_at i xs)

abbrev Inside : Search → ℕ → Type 0
Inside (found i) n = i < n
Inside (absent i) n = i ≤ n

Inside-shift : (s : Search) (n : ℕ) → Inside s n → Inside (shift s) (suc n)
Inside-shift (found i) n h = omega arith
Inside-shift (absent i) n h = omega arith

binary_search-Inside : (ps : List ℕ) (p : ℕ) → Inside (binary_search ps p) (length ps)
unfolding binary_search
binary_search-Inside [] p = omega arith
binary_search-Inside (x ∷ xs) p =
    ground (arith, Inside-shift (binary_search xs p) (length xs) (binary_search-Inside xs p))

remove_closed_lem :
    (ps : List ℕ) (s : Search)
    → Inside s (length ps)
    → remove_closed ps s ≡ gap_count (remove_found ps s)
unfolding remove_closed gap_count
remove_closed_lem ps (found i) l = ground (arith, ends-remove_at i ps l, length-remove_at i ps l)
remove_closed_lem ps (absent i) l = refl

-- The predicted gap count of a removal is the gap count after it.
pub gap_count_after_remove_lem :
    (ps : List ℕ) (p : ℕ) → gap_count_after_remove ps p ≡ gap_count (remove_position ps p)
unfolding gap_count_after_remove remove_position
gap_count_after_remove_lem ps p =
    remove_closed_lem ps (binary_search ps p) (binary_search-Inside ps p)

insert-remove_ordered :
    (lo hi p : ℕ) (ps : List ℕ)
    → IsWithin lo hi ps
    → member ps p ≡ true
    → insert_ordered (remove_ordered ps p) p ≡ ps
insert-remove_ordered lo hi p [] h m = cc
insert-remove_ordered lo hi p (x ∷ xs) h m = ground (
  arith,
  insert-remove_ordered (suc x) hi p xs h.1,
  member_below (suc x) hi p xs h.1,
  insert_head (suc x) hi x xs h.1,
)
  where
    insert_head :
        (lo hi p : ℕ) (xs : List ℕ) → IsWithin lo hi xs → p < lo → insert_ordered xs p ≡ p ∷ xs
    insert_head lo hi p [] h l = refl
    insert_head lo hi p (x ∷ xs) h l = ground arith

swap_found :
    (ps : List ℕ) (i new_pos : ℕ) (qs : List ℕ)
    → remove_at ps i ≡ qs
    → i < length ps
    → IsPartition ps
    → IsPartition qs
    → member ps new_pos ≡ member qs new_pos
    → swap_closed ps (found i) new_pos ≡ gap_count (insert_ordered qs new_pos)
unfolding swap_closed gap_count
swap_found ps i new_pos [] e l h hq m =
    ground (arith, ap length e, length-remove_at i ps l, is_found-member 0 256 new_pos ps h)
swap_found ps i new_pos (x ∷ xs) e l h hq m = ground (
  arith,
  ap length e,
  ap first e,
  ap last e,
  length-remove_at i ps l,
  ends-remove_at i ps l,
  is_found-member 0 256 new_pos ps h,
  length-insert_ordered 0 256 new_pos (x ∷ xs) hq,
  ends-insert_ordered 256 x new_pos xs hq.1,
)

swap_search :
    (ps : List ℕ) (old_pos new_pos : ℕ) (s : Search)
    → binary_search ps old_pos ≡ s
    → is_found s ≡ true
    → IsPartition ps
    → old_pos ≢ new_pos
    → swap_closed ps s new_pos ≡ gap_count (insert_ordered (remove_position ps old_pos) new_pos)
swap_search ps old_pos new_pos (found i) e f h ne =
    swap_found ps i new_pos (remove_position ps old_pos) removed inside h
      (remove_position-IsPartition old_pos ps h).0
      (sym ((remove_position-IsPartition old_pos ps h).1 new_pos ∙ unchanged))
  where
    removed : remove_at ps i ≡ remove_position ps old_pos
    removed = unfold remove_position in sym (ap (remove_found ps) e)

    inside : i < length ps
    inside = rw e at (binary_search-Inside ps old_pos)

    unchanged : (if old_pos == new_pos then false else member ps new_pos) ≡ member ps new_pos
    unchanged = ground arith
swap_search ps old_pos new_pos (absent i) e f h ne = cc

-- On a sorted day without duplicates, the predicted gap count of moving an occupied position is
-- the gap count after the removal and the insertion.
pub gap_count_after_swap_lem :
    (ps : List ℕ) (old_pos new_pos : ℕ)
    → IsPartition ps
    → member ps old_pos ≡ true
    → gap_count_after_swap ps old_pos new_pos
      ≡ gap_count (insert_position (remove_position ps old_pos) new_pos)
unfolding gap_count_after_swap
gap_count_after_swap_lem ps old_pos new_pos h m =
    rw
      (insert_position_lem 0 256 new_pos (remove_position ps old_pos)
        (remove_position-IsPartition old_pos ps h).0)
      (ground (
        arith,
        ap gap_count (insert-remove_ordered 0 256 old_pos ps h m),
        remove_position_lem old_pos ps,
        is_found-member 0 256 old_pos ps h,
        swap_search ps old_pos new_pos (binary_search ps old_pos) refl,
      ))
