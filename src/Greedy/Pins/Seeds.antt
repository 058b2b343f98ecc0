-- ===== src/Greedy/Pins/Seeds.antt =====
-- The second pass of `validate_pins`, and the whole.
use klassenzeit.Base.{
  ℕ, ◌+◌, ◌≤◌, ◌<◌, IsDistinct, ◌≡◌, refl, Bool, true, false, some, List, [], ◌∷◌, ◌++◌, ◌==◌,
  if◌then◌else◌, length, All, All-append, HashMap, HashSet, get, collect_All, contains, add, nat_eq,
  pair_eq, arith, Bool-cases, Option-cases, inl, inr,
}
use klassenzeit.Types.{
  Problem, Lesson, TimeBlock, Placement, PinnedPlacement, Violation, assigned_teacher_id,
}
use klassenzeit.Greedy.State.{GreedyState, new_state}
use klassenzeit.Greedy.Tracks.{IsTracked, new_state-IsTracked}
use klassenzeit.Greedy.Seed.{
  lessons_of, blocks_of, IsKnown, rows_of, seed_greedy_state_from_pins,
  seed_greedy_state_from_pins-IsTracked,
}
use klassenzeit.Greedy.Pins.{
  has_key, Pinned, with_blocks, shape_ok, Seeding, mismatch, pin_teacher, seeds_of, judge,
  judge_all, first_pass, room_ids, validate_pins,
}
use klassenzeit.Greedy.Pins.Exclusive.{
  count_pins, count_all, count_seeds, count_seeds-append, IsGood, GoodEntry, IsSorted,
  sort_pins-IsSorted,
}

key_found :
    {V : Type 0} (m : HashMap ℕ V) (k : ℕ) → has_key m k ≡ true → (v : V) × (get m k ≡ some v)
key_found m k h = elim (Option-cases (get m k)) [
  | inl new ↦ absurd (ground (arith, h, new))
  | inr found ↦ found
]

-- A lesson that the second pass can judge: it has a teacher and a block size.
abbrev pub IsJudgeable : Lesson → Type 0
IsJudgeable l =
    ((t : ℕ) × (assigned_teacher_id l ≡ some t)) × ((l.preferred_block_size == 0) ≡ false)

module _ (lessons : HashMap ℕ Lesson) (blocks : HashMap ℕ TimeBlock)
    (judgeable : (k : ℕ) (l : Lesson) → get lessons k ≡ some l → IsJudgeable l) where
  -- The seeds are known, and with the pins still to come they hold no slot twice.
  abbrev IsSeeding : (ℕ × ℕ → ℕ) → Seeding → Type 0
  IsSeeding to_come now =
      All (IsKnown lessons blocks) now.seed × ((j : ℕ × ℕ) → count_seeds j now.seed + to_come j ≤ 1)

  blocks_found :
      (k : ℕ) (pins : List PinnedPlacement)
      → All (IsGood lessons blocks k) pins
      → (found : List Pinned) × (with_blocks blocks pins ≡ some found)
  unfolding with_blocks
  blocks_found k [] h = ([], refl)
  blocks_found k (pin ∷ pins) h =
      let (tb, is_tb) = key_found blocks pin.time_block_id h.0.2 in
      let (rest, are_rest) = blocks_found k pins h.1 in
      ((pin, tb) ∷ rest, rw (is_tb, are_rest, with_blocks) refl)

  teacher_found :
      (l : Lesson) (pin : PinnedPlacement) → IsJudgeable l → (t : ℕ) × (pin_teacher l pin ≡ some t)
  teacher_found l pin h = elim (Option-cases pin.teacher_id) [
    | inl none_given ↦ (h.0.0, rw none_given (h.0.1))
    | inr (t, given) ↦ (t, rw given refl)
  ]

  seeds_found :
      (k : ℕ) (l : Lesson) (pins : List PinnedPlacement)
      → IsJudgeable l
      → All (IsGood lessons blocks k) pins
      → (rows : List Placement) × (seeds_of l pins ≡ some rows)
        × All (IsKnown lessons blocks) rows
        × ((j : ℕ × ℕ) → count_seeds j rows ≡ count_pins j pins)
  unfolding seeds_of
  seeds_found k l [] able h = ([], refl, tt, λ j. refl)
  seeds_found k l (pin ∷ pins) able h =
      let (t, is_t) = teacher_found l pin able in
      let (rest, are_rest, known, counts) = seeds_found k l pins able h.1 in
      (
        record {
          lesson_id = pin.lesson_id;
          time_block_id = pin.time_block_id;
          room_id = pin.room_id;
          teacher_id = t;
        }
            ∷ rest,
        rw (is_t, are_rest, seeds_of) refl,
        ((key_found lessons pin.lesson_id h.0.1, key_found blocks pin.time_block_id h.0.2), known),
        λ j. omega (arith, counts j),
      )

  judge-IsSeeding :
      (k : ℕ) (pins : List PinnedPlacement) (now : Seeding) (later : ℕ × ℕ → ℕ)
      → GoodEntry lessons blocks (k, pins)
      → IsSeeding (λ j. count_pins j pins + later j) now
      → (next : Seeding) × (judge lessons blocks k pins now ≡ some next) × IsSeeding later next
  unfolding judge
  judge-IsSeeding k pins now later good (known, counts) =
      let (l, is_l) = key_found lessons k good.0 in
      let able = judgeable k l is_l in
      let (found, are_found) = blocks_found k pins good.1 in
      let (rows, are_rows, rows_known, rows_count) = seeds_found k l pins able good.1 in
      let dropped : IsSeeding later (mismatch k pins now) = (known, λ j. omega (arith, counts j)) in
      elim (Bool-cases (length pins == l.hours_per_week)) [
        | inr e ↦ (mismatch k pins now, rw (is_l, e, judge) refl, dropped)
        | inl e ↦ elim (Bool-cases (shape_ok l.preferred_block_size found)) [
          | inr e' ↦ (mismatch k pins now, rw (is_l, e, are_found, able.1, e', judge) refl, dropped)
          | inl e' ↦ (
            record now { seed = now.seed ++ rows; pinned_set = add k now.pinned_set },
            rw (is_l, e, are_found, able.1, e', are_rows, judge) refl,
            (
              All-append (IsKnown lessons blocks) now.seed rows known rows_known,
              λ j. omega (arith, counts j, rows_count j, count_seeds-append j now.seed rows),
            ),
          )
        ]
      ]

  judge_all-IsSeeding :
      (entries : HashMap ℕ (List PinnedPlacement)) (now : Seeding)
      → All (GoodEntry lessons blocks) entries
      → IsSeeding (λ j. count_all j entries) now
      → (end : Seeding) × (judge_all lessons blocks entries now ≡ some end) × IsSeeding (λ j. 0) end
  unfolding judge_all
  judge_all-IsSeeding [] now good h = (now, refl, h)
  judge_all-IsSeeding ((k, pins) ∷ more) now good h =
      let (next, judged, h') = judge-IsSeeding k pins now (λ j. count_all j more) good.0 h in
      let (end, rest, h'') = judge_all-IsSeeding more next good.1 h' in
      (end, rw (judged, judge_all) rest, h'')

at_most_one : (b : Bool) (n : ℕ) → n ≡ (if b then 1 else 0) → 0 + n ≤ 1
at_most_one b n h = ground (arith, h)

nothing_yet :
    (lessons : HashMap ℕ Lesson) (blocks : HashMap ℕ TimeBlock)
    → IsSorted lessons blocks (record {
      violations = [];
      surviving_per_lesson = [];
      taken_slots = [];
      soft_pinned_blocks = [];
    })
unfolding contains
nothing_yet lessons blocks = (tt, λ j. refl)

-- For a problem whose lessons have a teacher, a block size and distinct classes, and whose positions are
-- `u8`, sorting the pins never panics: each surviving seed is of a known lesson and time block, no two seeds
-- are in one room at a time, and seeding the empty bookkeeping from them succeeds and leaves it in step with
-- exactly the seeds.
pub validate_pins-IsTracked :
    (problem : Problem)
    → All IsJudgeable problem.lessons
    → All (λ l. IsDistinct l.school_class_ids) problem.lessons
    → All (λ tb. tb.position < 256) problem.time_blocks
    → (seed : List Placement) × (pinned : HashSet ℕ) × (soft_blocks : HashSet (ℕ × ℕ))
      × (violations : List Violation) × (s : GreedyState) × (validate_pins problem
          ≡ some (seed, pinned, soft_blocks, violations))
      × ((j : ℕ × ℕ) → count_seeds j seed ≤ 1)
      × (seed_greedy_state_from_pins problem seed new_state ≡ some s)
      × IsTracked (rows_of (lessons_of problem) (blocks_of problem) seed) s
unfolding validate_pins
validate_pins-IsTracked problem able distinct positions =
    let lessons = lessons_of problem in
    let blocks = blocks_of problem in
    let sorted = first_pass problem in
    let start : Seeding = record {
      seed = [];
      pinned_set = [];
      seed_violations = sorted.violations;
      slots = sorted.taken_slots;
    } in
    let (good, once) =
      sort_pins-IsSorted lessons blocks (room_ids problem.rooms) problem.pinned_placements
        (record {
          violations = [];
          surviving_per_lesson = [];
          taken_slots = [];
          soft_pinned_blocks = [];
        })
        (nothing_yet lessons blocks) in
    let judgeable =
      collect_All (λ k l. IsJudgeable l) (λ (l : Lesson). l.id) problem.lessons [] able
        (λ k l none_yet. unfold get in cc) in
    let (end, judged, (known, apart)) =
      judge_all-IsSeeding lessons blocks judgeable sorted.surviving_per_lesson start good (
        tt,
        λ j.
            at_most_one (contains sorted.taken_slots j) (count_all j sorted.surviving_per_lesson)
              (once j),
      ) in
    let (s, seeded, tracked) =
      seed_greedy_state_from_pins-IsTracked problem end.seed [] new_state distinct positions known
        new_state-IsTracked in
    (
      end.seed,
      end.pinned_set,
      sorted.soft_pinned_blocks,
      end.seed_violations,
      s,
      rw (judged, validate_pins) refl,
      (λ j. omega (arith, apart j)),
      seeded,
      tracked,
    )
