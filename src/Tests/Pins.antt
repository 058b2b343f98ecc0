-- ===== src/Tests/Pins.antt =====
-- Pins on the small school.
use klassenzeit.Base.{ℕ, ◌≡◌, ◌≤◌, refl, none, some, List, [], ◌∷◌, HashSet, arith}
use klassenzeit.Types.{
  Problem, Placement, PinnedPlacement, PinKind, hard, soft, Violation, duplicate_slot,
  assigned_teacher_id,
}
use klassenzeit.Greedy.State.{GreedyState, new_state}
use klassenzeit.Greedy.Tracks.{IsTracked}
use klassenzeit.Greedy.Seed.{lessons_of, blocks_of, rows_of, seed_greedy_state_from_pins}
use klassenzeit.Greedy.Pins.{conflict, validate_pins}
use klassenzeit.Greedy.Pins.Exclusive.{count_seeds}
use klassenzeit.Greedy.Pins.Seeds.{validate_pins-IsTracked}
use klassenzeit.Tests.{school, place}

abbrev pin : ℕ → ℕ → ℕ → PinKind → PinnedPlacement
pin l tb room kind = record {
  lesson_id = l;
  time_block_id = tb;
  room_id = room;
  teacher_id = none;
  kind = kind;
}

-- Both hours of lesson 51, its first hour once more, and a soft pin.
abbrev pinned_school : Problem
pinned_school = record school {
  pinned_placements =
      pin 51 41 21 hard ∷ pin 51 41 21 hard ∷ pin 51 45 21 hard ∷ pin 52 43 22 soft ∷ [];
}

-- The repeated pin is reported, the lesson is seeded with its teacher, and the soft pin is kept apart.
pins_test :
    validate_pins pinned_school
    ≡ some (
      place 51 41 21 11 ∷ place 51 45 21 11 ∷ [],
      51 ∷ [],
      (52, 43) ∷ [],
      conflict 51 duplicate_slot ∷ [],
    )
unfolding validate_pins
pins_test = refl

pins_example :
    (seed : List Placement) × (pinned : HashSet ℕ) × (soft_blocks : HashSet (ℕ × ℕ))
    × (violations : List Violation) × (s : GreedyState) × (validate_pins pinned_school
        ≡ some (seed, pinned, soft_blocks, violations))
    × ((j : ℕ × ℕ) → count_seeds j seed ≤ 1)
    × (seed_greedy_state_from_pins pinned_school seed new_state ≡ some s)
    × IsTracked (rows_of (lessons_of pinned_school) (blocks_of pinned_school) seed) s
unfolding assigned_teacher_id
pins_example =
    validate_pins-IsTracked pinned_school (((11, refl), refl), (((12, refl), refl), tt))
      ((tt, tt), ((tt, tt), tt))
      (omega arith, (omega arith, (omega arith, (omega arith, (omega arith, tt)))))
