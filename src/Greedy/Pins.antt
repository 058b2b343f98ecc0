-- ===== src/Greedy/Pins.antt =====
-- The pinned placements sorted out (solve.rs: `validate_pins`). `none` is a panic: a lookup of an unknown id,
-- a block size of 0, or a lesson without a teacher.
pub mod Exclusive
pub mod Seeds
use klassenzeit.Base.{
  ℕ, zero, suc, ◌+◌, ◌-◌, ◌%◌, Bool, true, false, ◌&&◌, not, Option, none, some, List, [], ◌∷◌,
  ◌++◌, ◌==◌, leb, if◌then◌else◌, length, map, all, HashMap, HashSet, get, update, collect,
  contains, add, discard, sort_by, add_u8, nat_eq, pair_eq,
}
use klassenzeit.Types.{
  Problem, Lesson, TimeBlock, Room, Placement, PinnedPlacement, PinKind, hard, soft, Violation,
  Reason, pinned_conflict, unknown_lesson, unknown_time_block, unknown_room, duplicate_slot,
  block_size_mismatch, assigned_teacher_id,
}
use klassenzeit.Greedy.Seed.{lessons_of, blocks_of}

abbrev pub conflict : ℕ → Reason → Violation
conflict lesson_id why = record {
  kind = pinned_conflict;
  lesson_id = lesson_id;
  hour_index = 0;
  reason = some why;
}

-- `contains_key`
abbrev pub has_key : {V : Type 0} → HashMap ℕ V → ℕ → Bool
has_key m k = elim (get m k) [ none ↦ false | some v ↦ true ]

-- `rooms.iter().map(|r| r.id).collect()`
unfoldable pub room_ids : List Room → HashSet ℕ
unfolding add
room_ids [] = []
room_ids (room ∷ rooms) = add room.id (room_ids rooms)

-- What the first pass has collected.
pub record Sorted : Type 0 where
  pub violations : List Violation
  pub surviving_per_lesson : HashMap ℕ (List PinnedPlacement)
  pub taken_slots : HashSet (ℕ × ℕ)
  pub soft_pinned_blocks : HashSet (ℕ × ℕ)

abbrev pub refuse : PinnedPlacement → Reason → Sorted → Sorted
refuse pin why now = record now { violations = now.violations ++ (conflict pin.lesson_id why ∷ []) }

-- The body of the first loop for a soft pin.
abbrev pub sort_soft : HashMap ℕ Lesson → HashMap ℕ TimeBlock → PinnedPlacement → Sorted → Sorted
sort_soft lessons blocks pin now =
    if not (has_key lessons pin.lesson_id)
    then now
    else (if not (has_key blocks pin.time_block_id) then now else record now {
      soft_pinned_blocks = add (pin.lesson_id, pin.time_block_id) now.soft_pinned_blocks;
    })

-- The body of the first loop for a hard pin.
abbrev pub sort_hard :
    HashMap ℕ Lesson → HashMap ℕ TimeBlock → HashSet ℕ → PinnedPlacement → Sorted → Sorted
sort_hard lessons blocks rooms pin now =
    if not (has_key lessons pin.lesson_id)
    then refuse pin unknown_lesson now
    else (if not (has_key blocks pin.time_block_id)
        then refuse pin unknown_time_block now
        else (if not (contains rooms pin.room_id)
            then refuse pin unknown_room now
            else (if contains now.taken_slots (pin.time_block_id, pin.room_id)
                then refuse pin duplicate_slot now
                else record now {
                  taken_slots = add (pin.time_block_id, pin.room_id) now.taken_slots;
                  surviving_per_lesson =
                      update pin.lesson_id [] (λ pins. pins ++ (pin ∷ [])) now.surviving_per_lesson;
                })))

abbrev pub sort_pin :
    PinKind → HashMap ℕ Lesson → HashMap ℕ TimeBlock → HashSet ℕ → PinnedPlacement → Sorted → Sorted
sort_pin soft lessons blocks rooms pin now = sort_soft lessons blocks pin now
sort_pin hard lessons blocks rooms pin now = sort_hard lessons blocks rooms pin now

unfoldable pub sort_pins :
    HashMap ℕ Lesson → HashMap ℕ TimeBlock → HashSet ℕ → List PinnedPlacement → Sorted → Sorted
unfolding get update contains add
sort_pins lessons blocks rooms [] now = now
sort_pins lessons blocks rooms (pin ∷ pins) now =
    sort_pins lessons blocks rooms pins (sort_pin pin.kind lessons blocks rooms pin now)

abbrev pub Pinned : Type 0
Pinned = PinnedPlacement × TimeBlock

-- `time_blocks_by_id[&pin.time_block_id]` of each pin.
unfoldable pub with_blocks : HashMap ℕ TimeBlock → List PinnedPlacement → Option (List Pinned)
unfolding get
with_blocks blocks [] = some []
with_blocks blocks (pin ∷ pins) = elim (get blocks pin.time_block_id) [
  | none ↦ none
  | some tb ↦ elim (with_blocks blocks pins) [ none ↦ none | some rest ↦ some ((pin, tb) ∷ rest) ]
]

unfoldable pub group_by_day : List Pinned → HashMap ℕ (List Pinned) → HashMap ℕ (List Pinned)
unfolding update
group_by_day [] groups = groups
group_by_day (p ∷ ps) groups =
    group_by_day ps (update p.1.day_of_week [] (λ g. g ++ (p ∷ [])) groups)

-- Each pin of the chunk stands in the first one's room and day, at its position plus the index.
unfoldable pub chunk_run : ℕ → ℕ → ℕ → ℕ → List Pinned → Bool
chunk_run room day position i [] = true
chunk_run room day position i (p ∷ ps) =
    (p.0.room_id == room)
    && ((p.1.day_of_week == day)
        && ((p.1.position == add_u8 position (i % 256)) && chunk_run room day position (suc i) ps))

abbrev pub chunk_ok : List Pinned → Bool
chunk_ok [] = true
chunk_ok (p ∷ ps) = chunk_run p.0.room_id p.1.day_of_week p.1.position 0 (p ∷ ps)

-- `chunks(n)`: the chunk so far, and the number of pins it lacks.
unfoldable pub chunks_ok : ℕ → ℕ → List Pinned → List Pinned → Bool
unfolding chunk_run
chunks_ok n lacks chunk [] = chunk_ok chunk
chunks_ok n zero chunk (p ∷ ps) = chunk_ok chunk && chunks_ok n (n - 1) (p ∷ []) ps
chunks_ok n (suc lacks) chunk (p ∷ ps) = chunks_ok n lacks (chunk ++ (p ∷ [])) ps

abbrev pub day_ok : ℕ → ℕ × List Pinned → Bool
day_ok n day =
    (length day.1 % n == 0)
    && chunks_ok n n [] (sort_by (λ (a b : Pinned). leb a.1.position b.1.position) day.1)

unfoldable pub shape_ok : ℕ → List Pinned → Bool
unfolding group_by_day chunks_ok sort_by
shape_ok n pins = all (day_ok n) (group_by_day pins [])

-- What `validate_pins` returns, with the slots still taken.
pub record Seeding : Type 0 where
  pub seed : List Placement
  pub pinned_set : HashSet ℕ
  pub seed_violations : List Violation
  pub slots : HashSet (ℕ × ℕ)

unfoldable pub surrender : List PinnedPlacement → HashSet (ℕ × ℕ) → HashSet (ℕ × ℕ)
unfolding discard
surrender [] slots = slots
surrender (pin ∷ pins) slots = surrender pins (discard (pin.time_block_id, pin.room_id) slots)

abbrev pub mismatch : ℕ → List PinnedPlacement → Seeding → Seeding
mismatch lesson_id pins now = record now {
  seed_violations = now.seed_violations ++ (conflict lesson_id block_size_mismatch ∷ []);
  slots = surrender pins now.slots;
}

-- `pin.teacher_id.unwrap_or_else(|| lesson.assigned_teacher_id())`
abbrev pub pin_teacher : Lesson → PinnedPlacement → Option ℕ
pin_teacher lesson' pin = elim pin.teacher_id [
  | some teacher ↦ some teacher
  | none ↦ assigned_teacher_id lesson'
]

unfoldable pub seeds_of : Lesson → List PinnedPlacement → Option (List Placement)
unfolding assigned_teacher_id
seeds_of lesson' [] = some []
seeds_of lesson' (pin ∷ pins) = elim (pin_teacher lesson' pin) [
  | none ↦ none
  | some teacher ↦ elim (seeds_of lesson' pins) [
    | none ↦ none
    | some rest ↦ some (
        record {
          lesson_id = pin.lesson_id;
          time_block_id = pin.time_block_id;
          room_id = pin.room_id;
          teacher_id = teacher;
        }
        ∷ rest)
  ]
]

-- The body of the second loop.
unfoldable pub judge :
    HashMap ℕ Lesson → HashMap ℕ TimeBlock → ℕ → List PinnedPlacement → Seeding → Option Seeding
unfolding get with_blocks shape_ok seeds_of surrender add
judge lessons blocks lesson_id pins now = elim (get lessons lesson_id) [
  | none ↦ none
  | some lesson' ↦
      if not (length pins == lesson'.hours_per_week)
      then some (mismatch lesson_id pins now)
      else (elim (with_blocks blocks pins) [
        | none ↦ none
        | some found ↦
            if lesson'.preferred_block_size == 0
            then none
            else (if not (shape_ok lesson'.preferred_block_size found)
                then some (mismatch lesson_id pins now)
                else (elim (seeds_of lesson' pins) [
                  | none ↦ none
                  | some rows ↦ some (record now {
                    seed = now.seed ++ rows;
                    pinned_set = add lesson_id now.pinned_set;
                  })
                ]))
      ])
]

unfoldable pub judge_all :
    HashMap ℕ Lesson
    → HashMap ℕ TimeBlock
    → HashMap ℕ (List PinnedPlacement)
    → Seeding
    → Option Seeding
unfolding judge
judge_all lessons blocks [] now = some now
judge_all lessons blocks ((lesson_id, pins) ∷ more) now =
    elim (judge lessons blocks lesson_id pins now) [
      | none ↦ none
      | some next ↦ judge_all lessons blocks more next
    ]

abbrev pub first_pass : Problem → Sorted
first_pass problem =
    sort_pins (lessons_of problem) (blocks_of problem) (room_ids problem.rooms)
      problem.pinned_placements
      (record {
        violations = [];
        surviving_per_lesson = [];
        taken_slots = [];
        soft_pinned_blocks = [];
      })

-- `(seed, pinned_set, soft_pinned_blocks, violations)`
unfoldable pub validate_pins :
    Problem → Option (List Placement × HashSet ℕ × HashSet (ℕ × ℕ) × List Violation)
unfolding collect sort_pins room_ids judge_all
validate_pins problem =
    let sorted = first_pass problem in
    elim (judge_all (lessons_of problem) (blocks_of problem) sorted.surviving_per_lesson (record {
      seed = [];
      pinned_set = [];
      seed_violations = sorted.violations;
      slots = sorted.taken_slots;
    })) [
      | none ↦ none
      | some done ↦
          some (done.seed, done.pinned_set, sorted.soft_pinned_blocks, done.seed_violations)
    ]
