-- ===== src/Supervision.antt =====
-- The break supervision rota of solver/solver-core/src/supervision.rs: for each break slot in
-- (day, position) order, the least loaded teacher who is free there and teaches next to it.
pub mod Coverage
pub mod Eligible
pub mod Fair
use klassenzeit.Base.{
  ℕ, ◌+◌, ◌-◌, Bool, true, false, ◌&&◌, ◌||◌, not, Option, none, some, List, [], ◌∷◌, ◌++◌, ltb,
  leb, ◌==◌, if◌then◌else◌, HashMap, HashSet, get, insert, update, contains, add, collect, values,
  get_or_default, pair_eq, nat_eq, sort_by, filter, map, min, max, add_u32,
}
use klassenzeit.Types.{
  TimeBlock, TimeBlockKind, Problem, Placement, SupervisionAssignment, Violation, ViolationKind,
  Reason,
}

-- A break slot: day, position and id.
abbrev pub Slot : Type 0
Slot = ℕ × ℕ × ℕ

abbrev pub Occupancy : Type 0
Occupancy = HashMap (ℕ × ℕ) (HashSet ℕ)

unfoldable pub tb_position : Problem → HashMap ℕ (ℕ × ℕ)
unfolding collect
tb_position problem =
    collect (λ tb. tb.id) (λ tb. (tb.day_of_week, tb.position)) problem.time_blocks []

occupy : HashMap ℕ (ℕ × ℕ) → List Placement → Occupancy → Occupancy
unfolding get update add
occupy positions [] occ = occ
occupy positions (pl ∷ pls) occ = occupy positions pls (elim (get positions pl.time_block_id) [
  | none ↦ occ
  | some slot ↦ update slot [] (add pl.teacher_id) occ
])

unfoldable pub occupancy : Problem → List Placement → Occupancy
unfolding occupy tb_position
occupancy problem placements = occupy (tb_position problem) placements []

abbrev pub is_break : TimeBlockKind → Bool
is_break TimeBlockKind.break_slot = true
is_break TimeBlockKind.lesson_slot = false

-- The order of the tuples (day, position, id).
slot_le : Slot → Slot → Bool
slot_le (a, b, c) (x, y, z) = ltb a x || ((a == x) && (ltb b y || ((b == y) && leb c z)))

unfoldable pub break_slots : Problem → List Slot
unfolding sort_by slot_le
break_slots problem = sort_by slot_le (
    map (λ tb. (tb.day_of_week, tb.position, tb.id))
      (filter (λ tb. is_break tb.kind) problem.time_blocks))

unfoldable pub teachers_sorted : Problem → List ℕ
unfolding sort_by
teachers_sorted problem = sort_by leb (map (λ t. t.id) problem.teachers)

-- `occupancy.get(..)` with `is_some_and(|set| set.contains(t))`.
unfoldable pub occupied : Occupancy → ℕ → ℕ → ℕ → Bool
unfolding get contains
occupied occ day position t = elim (get occ (day, position)) [
  | none ↦ false
  | some s ↦ contains s t
]

-- `checked_sub(1)` and `checked_add(1)` on `u8`, and the look-up behind them.
unfoldable pub occupied_before : Occupancy → ℕ → ℕ → ℕ → Bool
unfolding occupied
occupied_before occ day position t =
    if position == 0 then false else occupied occ day (position - 1) t

unfoldable pub occupied_after : Occupancy → ℕ → ℕ → ℕ → Bool
unfolding occupied
occupied_after occ day position t =
    if position == 255 then false else occupied occ day (position + 1) t

unfoldable pub is_eligible : Occupancy → ℕ → ℕ → ℕ → Bool
unfolding occupied occupied_before occupied_after
is_eligible occ day position t =
    if occupied occ day position t
    then false
    else occupied_before occ day position t || occupied_after occ day position t

abbrev pub Counts : Type 0
Counts = HashMap ℕ ℕ

abbrev pub load : Counts → ℕ → ℕ
load counts t = get_or_default 0 counts t

-- The order of the keys (load, id).
key_lt : Counts → ℕ → ℕ → Bool
unfolding get_or_default
key_lt counts t u =
    ltb (load counts t) (load counts u) || ((load counts t == load counts u) && ltb t u)

-- `min_by_key` over a list that is not empty: the first of the least.
unfoldable pub least_loaded : Counts → ℕ → List ℕ → ℕ
unfolding key_lt
least_loaded counts best [] = best
least_loaded counts best (t ∷ ts) =
    least_loaded counts (if key_lt counts t best then t else best) ts

pub record Rota : Type 0 where
  pub counts : Counts
  pub assignments : List SupervisionAssignment
  pub violations : List Violation

gap_violation : Slot → Violation
gap_violation (day, position, id) = record {
  kind = ViolationKind.supervision_gap;
  lesson_id = 0;
  hour_index = 0;
  reason = some (Reason.no_candidates day position);
}

assign : Bool → Slot → ℕ → Rota → Rota
unfolding update
assign collects (day, position, id) chosen r = record {
  counts = update chosen 0 (λ c. add_u32 c 1) r.counts;
  assignments =
      if collects
      then r.assignments ++ record { time_block_id = id; teacher_id = chosen } ∷ []
      else r.assignments;
  violations = r.violations;
}

unfoldable pub serve : Bool → Slot → List ℕ → Rota → Rota
unfolding gap_violation assign least_loaded
serve collects slot [] r =
    if collects then record r { violations = r.violations ++ gap_violation slot ∷ [] } else r
serve collects slot (t ∷ ts) r = assign collects slot (least_loaded r.counts t ts) r

abbrev pub eligible_at : Occupancy → List ℕ → Slot → List ℕ
eligible_at occ teachers (day, position, id) = filter (is_eligible occ day position) teachers

serve_all : Bool → Occupancy → List ℕ → List Slot → Rota → Rota
unfolding serve is_eligible
serve_all collects occ teachers [] r = r
serve_all collects occ teachers (slot ∷ slots) r =
    serve_all collects occ teachers slots (serve collects slot (eligible_at occ teachers slot) r)

abbrev pub empty_rota : Rota
empty_rota = record { counts = []; assignments = []; violations = [] }

unfoldable pub rota : Bool → Problem → List Placement → Rota
unfolding serve_all occupancy teachers_sorted break_slots
rota collects problem placements =
    serve_all collects (occupancy problem placements) (teachers_sorted problem)
      (break_slots problem) empty_rota

maximum : List ℕ → ℕ
maximum [] = 0
maximum (x ∷ xs) = max x (maximum xs)

minimum_from : ℕ → List ℕ → ℕ
minimum_from m [] = m
minimum_from m (x ∷ xs) = minimum_from (min m x) xs

spread_of : List ℕ → ℕ
unfolding maximum minimum_from
spread_of [] = 0
spread_of (c ∷ cs) = maximum (c ∷ cs) - minimum_from c cs

-- Over the teachers with at least one supervision.
unfoldable pub spread : Counts → ℕ
unfolding spread_of values
spread counts = spread_of (filter (λ c. ltb 0 c) (values counts))

unfoldable pub compute_supervision_full :
    Problem → List Placement → List SupervisionAssignment × List Violation × ℕ
unfolding rota spread
compute_supervision_full problem placements =
    let r = rota true problem placements in (r.assignments, r.violations, spread r.counts)

unfoldable pub compute_supervision_spread : Problem → List Placement → ℕ
unfolding rota spread
compute_supervision_spread problem placements = spread (rota false problem placements).counts
