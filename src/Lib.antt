-- ===== src/Lib.antt =====
-- The timetable solver of Klassenzeit (solver/solver-core): a problem (time blocks, teachers, rooms,
-- subjects, classes, lessons) is validated, a greedy pass places the lessons, a late-acceptance local
-- search improves the placements, and validators check the result. This library models the parts
-- below and proves what they promise.
--
--   Base, Base/..       native numbers and lists; the wrapping and saturating arithmetic of u8 and
--                       u32 (Word); HashMap and HashSet as association lists (Map); sorting; signed
--                       integers for i64 deltas (Int)
--   Types               solver/solver-core/src/types.rs, ids.rs, error.rs: the records, with fields
--                       and variants under the source's names
--   Index               index.rs: `Indexed` and its queries
--   Supervision         supervision.rs: `compute_supervision_full` and `compute_supervision_spread`
--                       over the shared pass `compute_inner` (`rota`, `serve_all`, `serve`, `assign`)
--   Validate            validate.rs: Structural (`validate_structural`, `collect_unique`), RoomHopping,
--                       Teachers, BreakSlots, DailyCaps, DoubleBooking, TravelBuffer, PreSolve;
--                       Entries is the loop with `HashMap::entry` that three of them share; Outcome is
--                       `Result<_, Error>`
--   Score               score.rs: Partition (the sorted position lists that greedy and local search
--                       keep), Gaps (the gap counts, with `gap_count_after_swap` of lahc.rs and
--                       `gap_count_after_window_insert` of solve.rs), Balance (day balance),
--                       Preference, HomeRoom, Slice (`slice_recompute`), Worst (the worst class's
--                       spread and gaps), Solution (`score_solution`)
--   Ordering            ordering.rs: `same_room_eligibility`, its fast path, and `ffd_order`
--   Lahc                lahc.rs: Change (`apply_change_move` in full: the row, the partitions, the
--                       slots, the locks and the counters), Delta (`partition_delta` and the
--                       partition update alone), Score (`score_after_change_move`), Balance, Room
--                       (`pick_room`), Split (`would_split_class_day_subject_room`), Run (the loop
--                       of `run`)
--   Greedy              solve.rs: State (`GreedyState`), Pins (`validate_pins`), Seed
--                       (`seed_greedy_state_from_pins`), Place (`try_place_block`: the filters in
--                       Place, the loops in Place/Pick, the writes in Place/Commit), Lesson (the
--                       blocks of one lesson in the main loop and `unplaced_kind`); Travel
--                       (`would_violate_travel_buffer` of validate.rs); Rows
--                       (`rr_remove_row_bookkeeping` and `replay_placement` of lahc.rs); Tracks is
--                       the abstract view of the bookkeeping as a list of rows
--   Tests               a small school, test runs and the theorems at concrete inputs
--
-- How the parts interact. The validators of the result read only problem and placements. The local
-- search foresees the effect of a move by counts on sorted partitions; the theorems of Score/Gaps,
-- Score/Balance and Lahc compare what is foreseen with the partitions after the move. The loop of
-- `run` takes the moves as an interface (`Moves`): each maps the placements and the greedy state to
-- new ones, and the loop reads the state's score. The greedy pass starts from the pins that
-- `validate_pins` keeps, enters them in its state, then places lesson by lesson; its read-only
-- arguments (the problem, the index, the weights, the orders of blocks and rooms) are the record
-- `Setting`.
--
-- Conventions. An id is a number. u8 and u32 values are natural numbers; `last - first`, `+ 1` and
-- the like on u8 and u32 wrap as in a release build where the source uses the plain operators, the
-- saturating methods stop at 4294967295, and `as u32` keeps 32 bits. A position partition is a
-- strictly ascending list of numbers below 256. An error carries the arguments of its message.
-- A HashMap iterates in the order of first insertion; the source leaves that order open, and no
-- theorem depends on it except through which error is reported first. Where the source would panic
-- (a lesson without a teacher, a block size of 0, an index past the end, an unknown id) the model
-- returns `none`, or the comment at the definition says what it does instead; `validate_structural`
-- refuses such problems.
--
-- Loops are structural. The search loop counts `max_iterations - iter` down to 0 (18446744073709551615
-- when there is no limit), so it has no fuel that could run out: the count is the loop's own test.
--
-- Not modelled: the bodies of the moves other than the Change move's writes (swaps, block moves, Kempe
-- chains, ruin and recreate, home-room repair), try_place_group, the outer loop of
-- solve_with_config, the quality report; JSON and PyO3 adapters, progress atomics, the benchmark,
-- the backend and the frontend.
-- The random generators (rand) and the clock stand behind the interfaces `Moves` and `Env`.
pub mod Base
pub mod Types
pub mod Greedy
pub mod Index
pub mod Supervision
pub mod Validate
pub mod Score
pub mod Lahc
pub mod Ordering
mod Tests
