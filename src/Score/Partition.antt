-- ===== src/Score/Partition.antt =====
-- A day's partition: the `Vec<u8>` of occupied positions of one class or teacher on one day, kept
-- sorted and without duplicates by binary search (solve.rs and lahc.rs, the bookkeeping of
-- `class_positions` and `teacher_positions`).
use klassenzeit.Base.{
  ℕ, zero, suc, ◌+◌, ◌≤◌, ◌<◌, ◌≡◌, refl, Bool, false, ◌||◌, Option, none, some, List, [], ◌∷◌,
  arith, ltb, ◌==◌, if◌then◌else◌, length, get_elem?, insert_at, remove_at, any,
}

-- `slice::binary_search`: the index of the value, or the index where it would be inserted.
pub data Search : Type 0 where
  found absent : ℕ → Search

abbrev pub shift : Search → Search
shift (found i) = found (suc i)
shift (absent i) = absent (suc i)

-- On a sorted slice without duplicates the result is determined, and this scan computes it.
unfoldable pub binary_search : List ℕ → ℕ → Search
binary_search [] x = absent 0
binary_search (y ∷ ys) x =
    let rest = shift (binary_search ys x) in
    if y == x then found 0 else if ltb x y then absent 0 else rest

-- `binary_search(..).unwrap_or_else(|i| i)`
abbrev pub index : Search → ℕ
index (found i) = i
index (absent i) = i

abbrev pub holds : Option ℕ → ℕ → Bool
holds none p = false
holds (some x) p = x == p

-- Insert at the index that the search names, unless the position is there already.
unfoldable pub insert_position : List ℕ → ℕ → List ℕ
unfolding binary_search
insert_position ps p =
    let ins = index (binary_search ps p) in
    if holds (get_elem? ps ins) p then ps else insert_at ps ins p

abbrev pub remove_found : List ℕ → Search → List ℕ
remove_found ps (found i) = remove_at ps i
remove_found ps (absent i) = ps

unfoldable pub remove_position : List ℕ → ℕ → List ℕ
unfolding binary_search
remove_position ps p = remove_found ps (binary_search ps p)

abbrev pub member : List ℕ → ℕ → Bool
member ps p = any (λ x. x == p) ps

-- Strictly ascending, with every position from `lo` on and below `hi`.
abbrev pub IsWithin : ℕ → ℕ → List ℕ → Type 0
IsWithin lo hi [] = lo ≤ hi
IsWithin lo hi (x ∷ xs) = (lo ≤ x) × IsWithin (suc x) hi xs

abbrev pub IsPartition : List ℕ → Type 0
IsPartition ps = IsWithin 0 256 ps

pub IsWithin-le : (lo hi : ℕ) (ps : List ℕ) → IsWithin lo hi ps → lo + length ps ≤ hi
IsWithin-le lo hi [] h = omega arith
IsWithin-le lo hi (x ∷ xs) h = omega (arith, IsWithin-le (suc x) hi xs h.1)

pub IsWithin-mono : (lo m hi : ℕ) (ps : List ℕ) → m ≤ lo → IsWithin lo hi ps → IsWithin m hi ps
IsWithin-mono lo m hi [] l h = omega arith
IsWithin-mono lo m hi (x ∷ xs) l h = (omega arith, h.1)

pub member_below : (lo hi p : ℕ) (ps : List ℕ) → IsWithin lo hi ps → p < lo → member ps p ≡ false
member_below lo hi p [] h l = refl
member_below lo hi p (x ∷ xs) h l = ground (arith, member_below (suc x) hi p xs h.1)

-- The structural insertion and removal that the two searches amount to.
abbrev pub insert_ordered : List ℕ → ℕ → List ℕ
insert_ordered [] p = p ∷ []
insert_ordered (x ∷ xs) p =
    if x == p then x ∷ xs else if ltb p x then p ∷ x ∷ xs else x ∷ insert_ordered xs p

abbrev pub remove_ordered : List ℕ → ℕ → List ℕ
remove_ordered [] p = []
remove_ordered (x ∷ xs) p =
    if x == p then xs else if ltb p x then x ∷ xs else x ∷ remove_ordered xs p

insert_shift :
    (x p : ℕ) (xs : List ℕ) (s : Search)
    → (if holds (get_elem? (x ∷ xs) (index (shift s))) p
        then x ∷ xs
        else insert_at (x ∷ xs) (index (shift s)) p)
      ≡ x ∷ (if holds (get_elem? xs (index s)) p then xs else insert_at xs (index s) p)
insert_shift x p xs (found i) = ground arith
insert_shift x p xs (absent i) = ground arith

pub insert_position_lem :
    (lo hi p : ℕ) (ps : List ℕ) → IsWithin lo hi ps → insert_position ps p ≡ insert_ordered ps p
unfolding insert_position
insert_position_lem lo hi p [] h = refl
insert_position_lem lo hi p (x ∷ xs) h =
    ground
      (arith, insert_position_lem (suc x) hi p xs h.1, insert_shift x p xs (binary_search xs p))

remove_shift :
    (x : ℕ) (xs : List ℕ) (s : Search) → remove_found (x ∷ xs) (shift s) ≡ x ∷ remove_found xs s
remove_shift x xs (found i) = refl
remove_shift x xs (absent i) = refl

pub remove_position_lem : (p : ℕ) (ps : List ℕ) → remove_position ps p ≡ remove_ordered ps p
unfolding remove_position
remove_position_lem p [] = refl
remove_position_lem p (x ∷ xs) =
    ground (arith, remove_position_lem p xs, remove_shift x xs (binary_search xs p))

pub insert_ordered-IsWithin :
    (lo hi p : ℕ) (ps : List ℕ)
    → lo ≤ p
    → p < hi
    → IsWithin lo hi ps
    → IsWithin lo hi (insert_ordered ps p)
insert_ordered-IsWithin lo hi p [] l u h = omega arith
insert_ordered-IsWithin lo hi p (x ∷ xs) l u h =
    ground (arith, insert_ordered-IsWithin (suc x) hi p xs)

pub remove_ordered-IsWithin :
    (lo hi p : ℕ) (ps : List ℕ) → IsWithin lo hi ps → IsWithin lo hi (remove_ordered ps p)
remove_ordered-IsWithin lo hi p [] h = h
remove_ordered-IsWithin lo hi p (x ∷ xs) h =
    ground (arith, remove_ordered-IsWithin (suc x) hi p xs h.1, IsWithin-mono (suc x) lo hi xs)

pub member-insert_ordered :
    (p q : ℕ) (ps : List ℕ) → member (insert_ordered ps p) q ≡ ((p == q) || member ps q)
member-insert_ordered p q [] = refl
member-insert_ordered p q (x ∷ xs) = ground (arith, member-insert_ordered p q xs)

pub member-remove_ordered :
    (lo hi p q : ℕ) (ps : List ℕ)
    → IsWithin lo hi ps
    → member (remove_ordered ps p) q ≡ (if p == q then false else member ps q)
member-remove_ordered lo hi p q [] h = ground arith
member-remove_ordered lo hi p q (x ∷ xs) h = ground (
  arith,
  member-remove_ordered (suc x) hi p q xs h.1,
  member_below (suc x) hi p xs h.1,
  member_below (suc x) hi q xs h.1,
)

-- Inserting a `u8` position keeps a partition sorted and free of duplicates, and adds that position and no
-- other.
pub insert_position-IsPartition :
    (p : ℕ) (ps : List ℕ)
    → p < 256
    → IsPartition ps
    → IsPartition (insert_position ps p)
      × ((q : ℕ) → member (insert_position ps p) q ≡ ((p == q) || member ps q))
insert_position-IsPartition p ps u h =
    rw (insert_position_lem 0 256 p ps h)
      (insert_ordered-IsWithin 0 256 p ps (omega arith) u h, λ q. member-insert_ordered p q ps)

-- Removing a position keeps a partition sorted and free of duplicates, and takes out that position and no
-- other.
pub remove_position-IsPartition :
    (p : ℕ) (ps : List ℕ)
    → IsPartition ps
    → IsPartition (remove_position ps p)
      × ((q : ℕ) → member (remove_position ps p) q ≡ (if p == q then false else member ps q))
remove_position-IsPartition p ps h =
    rw (remove_position_lem p ps)
      (remove_ordered-IsWithin 0 256 p ps h, λ q. member-remove_ordered 0 256 p q ps h)

-- The greedy's insertion, with no test for a position that is there already.
unfoldable pub insert_raw : List ℕ → ℕ → List ℕ
unfolding binary_search
insert_raw ps p = insert_at ps (index (binary_search ps p)) p

-- `for pos in start..=end`, with `n` positions.
unfoldable pub insert_window : List ℕ → ℕ → ℕ → List ℕ
unfolding insert_raw
insert_window ps start zero = ps
insert_window ps start (suc n) = insert_window (insert_raw ps start) (suc start) n

raw_shift :
    (x p : ℕ) (xs : List ℕ) (s : Search)
    → insert_at (x ∷ xs) (index (shift s)) p ≡ x ∷ insert_at xs (index s) p
raw_shift x p xs (found i) = refl
raw_shift x p xs (absent i) = refl

pub insert_raw_lem :
    (p : ℕ) (ps : List ℕ) → member ps p ≡ false → insert_raw ps p ≡ insert_ordered ps p
unfolding insert_raw
insert_raw_lem p [] m = refl
insert_raw_lem p (x ∷ xs) m =
    ground (arith, insert_raw_lem p xs, raw_shift x p xs (binary_search xs p))
