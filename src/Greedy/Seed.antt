-- ===== src/Greedy/Seed.antt =====
-- The pinned placements replayed into the greedy bookkeeping (solve.rs: `seed_greedy_state_from_pins`).
-- `none` is the panic on a lesson or time block that the problem does not have.
use klassenzeit.Base.{
  ℕ, ◌<◌, ◌≡◌, refl, Option, none, some, List, [], ◌∷◌, ◌++◌, HashMap, get, update, add, collect,
  collect_All, each_class, add_u8, nat_eq, pair_eq, triple_eq, All, All-map, IsDistinct, ◌∙◌, ap,
  subst, append_later, append_nil,
}
use klassenzeit.Types.{Problem, Lesson, Placement, TimeBlock}
use klassenzeit.Greedy.State.{GreedyState}
use klassenzeit.Greedy.Rows.{join_lock, join_hours, join_partition}
use klassenzeit.Greedy.Rows.Fields.{with_row}
use klassenzeit.Greedy.Tracks.{Seat, seat_of, IsTracked}
use klassenzeit.Greedy.Tracks.Enter.{with_row-IsTracked}

-- `for class in &lesson.school_class_ids`: the slot, then the partition, the locks and the counters.
abbrev pub seed_slot : ℕ → ℕ → GreedyState → GreedyState
seed_slot time_block_id c s = record s { used_class = add (c, time_block_id) s.used_class }

-- `or_insert(v)` leaves an entry as it is, which `update` by the identity does.
abbrev pub seed_class : Lesson → Placement → TimeBlock → ℕ → GreedyState → GreedyState
seed_class lesson' pl tb c s = record s {
  class_positions = join_partition (c, tb.day_of_week) tb.position s.class_positions;
  locked_room = join_lock pl.room_id (c, tb.day_of_week, lesson'.subject_id) s.locked_room;
  class_subject_teacher =
      update (c, lesson'.subject_id) pl.teacher_id (λ t. t) s.class_subject_teacher;
  subject_hours_by_class_day =
      join_hours (c, tb.day_of_week, lesson'.subject_id) s.subject_hours_by_class_day;
  lessons_by_class_day = update (c, tb.day_of_week) 0 (λ n. add_u8 n 1) s.lessons_by_class_day;
}

-- The body of the loop over the placements.
unfoldable pub seed_row : Lesson → Placement → TimeBlock → GreedyState → GreedyState
unfolding add update each_class
seed_row lesson' pl tb s =
    let s1 : GreedyState = record s {
      used_teacher = add (pl.teacher_id, tb.id) s.used_teacher;
      used_room = add (pl.room_id, tb.id) s.used_room;
    } in
    let s2 = each_class (seed_slot tb.id) lesson'.school_class_ids s1 in
    let s3 : GreedyState = record s2 {
      hours_by_teacher = update pl.teacher_id 0 (λ h. add_u8 h 1) s2.hours_by_teacher;
    } in
    let s4 = each_class (seed_class lesson' pl tb) lesson'.school_class_ids s3 in
    record s4 {
      teacher_positions =
          join_partition (pl.teacher_id, tb.day_of_week) tb.position s4.teacher_positions;
    }

unfoldable pub seed_rows :
    HashMap ℕ Lesson → HashMap ℕ TimeBlock → List Placement → GreedyState → Option GreedyState
unfolding get seed_row
seed_rows lessons_by_id tb_by_id [] s = some s
seed_rows lessons_by_id tb_by_id (pl ∷ placements) s = elim (get lessons_by_id pl.lesson_id) [
  | none ↦ none
  | some lesson' ↦ elim (get tb_by_id pl.time_block_id) [
    | none ↦ none
    | some tb ↦ seed_rows lessons_by_id tb_by_id placements (seed_row lesson' pl tb s)
  ]
]

unfoldable pub seed_greedy_state_from_pins :
    Problem → List Placement → GreedyState → Option GreedyState
unfolding collect seed_rows
seed_greedy_state_from_pins problem placements s =
    seed_rows (collect (λ (l : Lesson). l.id) (λ l. l) problem.lessons [])
      (collect (λ (tb : TimeBlock). tb.id) (λ tb. tb) problem.time_blocks []) placements s

seed_slots :
    (id : ℕ) (cs : List ℕ) (s : GreedyState)
    → each_class (seed_slot id) cs s
      ≡ record s { used_class = each_class (λ c. add (c, id)) cs s.used_class }
unfolding each_class
seed_slots id [] s = refl
seed_slots id (c ∷ cs) s = seed_slots id cs (seed_slot id c s)

seed_classes :
    (lesson' : Lesson) (pl : Placement) (tb : TimeBlock) (cs : List ℕ) (s : GreedyState)
    → each_class (seed_class lesson' pl tb) cs s ≡ record s {
      class_positions =
          each_class (λ c. join_partition (c, tb.day_of_week) tb.position) cs s.class_positions;
      locked_room =
          each_class
            (λ c. join_lock pl.room_id (c, tb.day_of_week, lesson'.subject_id))
            cs
            s.locked_room;
      class_subject_teacher =
          each_class
            (λ c. update (c, lesson'.subject_id) pl.teacher_id (λ t. t))
            cs
            s.class_subject_teacher;
      subject_hours_by_class_day =
          each_class
            (λ c. join_hours (c, tb.day_of_week, lesson'.subject_id))
            cs
            s.subject_hours_by_class_day;
      lessons_by_class_day =
          each_class
            (λ c. update (c, tb.day_of_week) 0 (λ n. add_u8 n 1))
            cs
            s.lessons_by_class_day;
    }
unfolding each_class
seed_classes lesson' pl tb [] s = refl
seed_classes lesson' pl tb (c ∷ cs) s = seed_classes lesson' pl tb cs (seed_class lesson' pl tb c s)

-- A seeded row is a replayed row with two more counters.
seed_row_lem :
    (lesson' : Lesson) (pl : Placement) (tb : TimeBlock) (s : GreedyState)
    → tb.id ≡ pl.time_block_id
    → seed_row lesson' pl tb s ≡ record (with_row lesson' pl tb s) {
      class_subject_teacher =
          each_class
            (λ c. update (c, lesson'.subject_id) pl.teacher_id (λ t. t))
            lesson'.school_class_ids
            s.class_subject_teacher;
      lessons_by_class_day =
          each_class
            (λ c. update (c, tb.day_of_week) 0 (λ n. add_u8 n 1))
            lesson'.school_class_ids
            s.lessons_by_class_day;
    }
unfolding seed_row
seed_row_lem lesson' pl tb s same =
    let cs = lesson'.school_class_ids in
    rw (← same) (
      rw
        (
          seed_row,
          seed_slots tb.id cs (record s {
            used_teacher = add (pl.teacher_id, tb.id) s.used_teacher;
            used_room = add (pl.room_id, tb.id) s.used_room;
          }),
          seed_classes lesson' pl tb cs,
        )
        refl)

seed_row-IsTracked :
    (lesson' : Lesson) (pl : Placement) (tb : TimeBlock) (rows : List Seat) (s : GreedyState)
    → tb.id ≡ pl.time_block_id
    → tb.position < 256
    → IsDistinct lesson'.school_class_ids
    → IsTracked rows s
    → IsTracked (rows ++ (seat_of lesson' pl tb ∷ [])) (seed_row lesson' pl tb s)
seed_row-IsTracked lesson' pl tb rows s same u distinct old =
    let entered = with_row-IsTracked lesson' pl tb rows s u distinct old in
    rw (seed_row_lem lesson' pl tb s same) (record {
      teachers = entered.teachers;
      classes = entered.classes;
      rooms = entered.rooms;
      hours = entered.hours;
      class_days = entered.class_days;
      teacher_days = entered.teacher_days;
      subject_hours = entered.subject_hours;
    })

-- The rows of placements whose lessons and time blocks are known; others have none.
abbrev pub seat_in : Option Lesson → Option TimeBlock → Placement → List Seat → List Seat
seat_in none tb p seats = seats
seat_in (some lesson') none p seats = seats
seat_in (some lesson') (some tb) p seats = seat_of lesson' p tb ∷ seats

abbrev pub rows_of : HashMap ℕ Lesson → HashMap ℕ TimeBlock → List Placement → List Seat
rows_of lessons blocks [] = []
rows_of lessons blocks (p ∷ ps) =
    seat_in (get lessons p.lesson_id) (get blocks p.time_block_id) p (rows_of lessons blocks ps)

abbrev pub IsKnown : HashMap ℕ Lesson → HashMap ℕ TimeBlock → Placement → Type 0
IsKnown lessons blocks p =
    ((l : Lesson) × (get lessons p.lesson_id ≡ some l))
    × ((tb : TimeBlock) × (get blocks p.time_block_id ≡ some tb))

pub rows_of-known :
    (lessons : HashMap ℕ Lesson) (blocks : HashMap ℕ TimeBlock) (l : Lesson) (p : Placement)
    (tb : TimeBlock) (ps : List Placement)
    → get lessons p.lesson_id ≡ some l
    → get blocks p.time_block_id ≡ some tb
    → seat_of l p tb ∷ rows_of lessons blocks ps ≡ rows_of lessons blocks (p ∷ ps)
rows_of-known lessons blocks l p tb ps found_l found_tb = rw (found_l, found_tb, rows_of) refl

seed_rows-IsTracked :
    (lessons : HashMap ℕ Lesson) (blocks : HashMap ℕ TimeBlock)
    → ((k : ℕ) (l : Lesson) → get lessons k ≡ some l → IsDistinct l.school_class_ids)
    → ((k : ℕ) (tb : TimeBlock) → get blocks k ≡ some tb → (tb.id ≡ k) × (tb.position < 256))
    → (ps : List Placement) → All (IsKnown lessons blocks) ps
    → (rows : List Seat) (s : GreedyState) → IsTracked rows s
    → (s' : GreedyState) × (seed_rows lessons blocks ps s ≡ some s')
      × IsTracked (rows ++ rows_of lessons blocks ps) s'
unfolding seed_rows
seed_rows-IsTracked lessons blocks ls bs [] known rows s old = (s, refl, rw (append_nil rows) old)
seed_rows-IsTracked lessons blocks ls bs (p ∷ ps) known rows s old =
    let ((l, found_l), (tb, found_tb)) = known.0 in
    let (same, u) = bs p.time_block_id tb found_tb in
    let (s', done, tracked) =
      seed_rows-IsTracked lessons blocks ls bs ps known.1 (rows ++ (seat_of l p tb ∷ []))
        (seed_row l p tb s)
        (seed_row-IsTracked l p tb rows s same u (ls p.lesson_id l found_l) old) in
    (
      s',
      rw (found_l, found_tb, seed_rows) done,
      subst (λ all. IsTracked all s')
          (append_later rows (seat_of l p tb) (rows_of lessons blocks ps)
            ∙ ap (λ later. rows ++ later) (rows_of-known lessons blocks l p tb ps found_l found_tb))
          tracked,
    )

abbrev pub lessons_of : Problem → HashMap ℕ Lesson
lessons_of problem = collect (λ (l : Lesson). l.id) (λ l. l) problem.lessons []

abbrev pub blocks_of : Problem → HashMap ℕ TimeBlock
blocks_of problem = collect (λ (tb : TimeBlock). tb.id) (λ tb. tb) problem.time_blocks []

-- Seeding from placements of known lessons and time blocks succeeds, and a bookkeeping that was in step with
-- rows is then in step with these and the placements' own: the used sets hold exactly the occupied slots, each
-- partition is sorted and has exactly the occupied positions, and the hour counters count the rows as
-- wrapping `u8`. The lessons have distinct classes and the positions are `u8`.
pub seed_greedy_state_from_pins-IsTracked :
    (problem : Problem) (ps : List Placement) (rows : List Seat) (s : GreedyState)
    → All (λ l. IsDistinct l.school_class_ids) problem.lessons
    → All (λ tb. tb.position < 256) problem.time_blocks
    → All (IsKnown (lessons_of problem) (blocks_of problem)) ps
    → IsTracked rows s
    → (s' : GreedyState) × (seed_greedy_state_from_pins problem ps s ≡ some s')
      × IsTracked (rows ++ rows_of (lessons_of problem) (blocks_of problem) ps) s'
unfolding seed_greedy_state_from_pins
seed_greedy_state_from_pins-IsTracked problem ps rows s distinct positions known old =
    seed_rows-IsTracked (lessons_of problem) (blocks_of problem)
      (collect_All (λ k l. IsDistinct l.school_class_ids) (λ l. l.id) problem.lessons [] distinct
        (λ k l none_yet. unfold get in cc))
      (collect_All (λ k tb. (tb.id ≡ k) × (tb.position < 256)) (λ tb. tb.id) problem.time_blocks []
        (All-map (λ tb u. (refl, u)) problem.time_blocks positions)
        (λ k tb none_yet. unfold get in cc))
      ps known rows s old
