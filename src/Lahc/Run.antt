-- ===== src/Lahc/Run.antt =====
-- The late-acceptance loop (lahc.rs: `run`): the choice of the move, the acceptance list, the best
-- placements so far and the ends of the loop. The moves, with the random generators of the `rand`
-- crate, are the interface `Moves`; the clock and the cancel flag are read through `Env`.
pub mod Best
use klassenzeit.Base.{
  ℕ, zero, suc, ◌+◌, ◌-◌, ◌%◌, ◌≡◌, refl, Bool, true, false, ◌&&◌, ◌||◌, not, Option, none, some,
  List, [], ◌∷◌, ◌++◌, ltb, leb, ◌==◌, if◌then◌else◌, length, as_u32,
}
use klassenzeit.Types.{Placement}

abbrev pub lahc_list_len : ℕ
lahc_list_len = 500

-- `config.max_iterations` (none is `u64::MAX`), the three periods, and numbers the problem gives.
pub record Config : Type 0 where
  pub max_iterations : Option ℕ
  pub lahc_rr_period : Option ℕ
  pub lahc_kempe_period : Option ℕ
  pub lahc_home_room_period : Option ℕ
  pub deadline : Option ℕ
  pub time_blocks_len : ℕ
  pub placements_expected : ℕ

-- The clock at the loop's head and at the two statistics, and `cancel_requested` where there is a beacon.
pub record Env : Type 0 where
  pub elapsed : ℕ → ℕ
  pub elapsed_feasible : ℕ → ℕ
  pub elapsed_optimal : ℕ → ℕ
  -- The two times of `stats` as the greedy pass leaves them.
  pub first_feasible_before : Option ℕ
  pub optimal_before : Option ℕ
  pub cancel_requested : Option (ℕ → Bool)

-- The moves: each takes the placements and the greedy state, whose `canonical_score` the loop reads.
pub record Moves (S : Type 0) : Type 0 where
  pub canonical_score : S → ℕ
  pub rr_rescue_attempt : List Placement × S → Bool × (List Placement × S)
  pub rr_attempt : List ℕ → ℕ → List Placement × S → List Placement × S
  pub kempe_attempt : List ℕ → ℕ → List Placement × S → List Placement × S
  pub home_room_draw : ℕ → S → ℕ × S
  pub try_home_room_repair_move : ℕ → List ℕ → ℕ → List Placement × S → List Placement × S
  pub change_draws : ℕ → S → ℕ × ℕ × ℕ × S
  pub try_change_block_move : ℕ → ℕ → List ℕ → ℕ → List Placement × S → List Placement × S
  pub try_swap_move : ℕ → ℕ → List ℕ → ℕ → List Placement × S → List Placement × S

-- The loop's variables.
pub record Search (S : Type 0) : Type 0 where
  pub placements : List Placement
  pub state : S
  pub lahc_list : List ℕ
  pub running_best : ℕ
  pub running_best_count : ℕ
  pub best_placements : List Placement
  pub time_to_first_feasible : Option ℕ
  pub time_to_optimal : Option ℕ
  pub records : List (ℕ × ℕ × ℕ × Bool)
  pub was_cancelled : Bool

-- `period.is_some_and(|n| n > 0 && (iter as u32) % n == 0)`
unfoldable pub is_due : Option ℕ → ℕ → Bool
is_due none iter = false
is_due (some n) iter = ltb 0 n && (as_u32 iter % n == 0)

unfoldable pub replicate : ℕ → ℕ → List ℕ
replicate zero x = []
replicate (suc n) x = x ∷ replicate n x

-- `list[i] = x`
unfoldable pub set_at : List ℕ → ℕ → ℕ → List ℕ
set_at [] i x = []
set_at (y ∷ ys) zero x = x ∷ ys
set_at (y ∷ ys) (suc i) x = y ∷ set_at ys i x

abbrev pub u64_max : ℕ
u64_max = 18446744073709551615

module _ {S : Type 0} (moves : Moves S) where
  unfoldable pub rr_iter : List ℕ → ℕ → List Placement × S → List Placement × S
  rr_iter list iter now =
      let rescued = moves.rr_rescue_attempt now in
      if rescued.0 then rescued.1 else moves.rr_attempt list iter rescued.1

  unfoldable pub home_room_iter : List ℕ → ℕ → List Placement × S → List Placement × S
  home_room_iter list iter now =
      let drawn = moves.home_room_draw (length now.0) now.1 in
      moves.try_home_room_repair_move drawn.0 list iter (now.0, drawn.1)

  unfoldable pub change_iter : ℕ → List ℕ → ℕ → List Placement × S → List Placement × S
  change_iter time_blocks_len list iter now =
      let drawn = moves.change_draws (length now.0) now.1 in
      let next : List Placement × S = (now.0, drawn.3) in
      if ltb drawn.1 5
      then moves.try_change_block_move drawn.0 (drawn.2 % time_blocks_len) list iter next
      else moves.try_swap_move drawn.0 (drawn.2 % length now.0) list iter next

  unfoldable pub move : Config → List ℕ → ℕ → List Placement × S → List Placement × S
  unfolding is_due rr_iter home_room_iter change_iter
  move config list iter now =
      if is_due config.lahc_rr_period iter
      then rr_iter list iter now
      else (if is_due config.lahc_kempe_period iter
          then moves.kempe_attempt list iter now
          else (if is_due config.lahc_home_room_period iter
              then home_room_iter list iter now
              else change_iter config.time_blocks_len list iter now))

  -- More placements, or as many and a lower score.
  abbrev pub is_better : List Placement × S → ℕ → ℕ → Bool
  is_better now count best =
      ltb count (length now.0)
      || ((length now.0 == count) && ltb (moves.canonical_score now.1) best)

  -- `state.canonical_score == 0 && placements.len() == placements_expected`
  abbrev pub is_floor : Config → List Placement × S → Bool
  is_floor config now =
      (moves.canonical_score now.1 == 0) && (length now.0 == config.placements_expected)

  -- The rest of an iteration once its move has returned `now`.
  unfoldable pub record_move : Config → Env → ℕ → List Placement × S → Search S → Search S
  unfolding set_at
  record_move config env iter now s =
      let better = is_better now s.running_best_count s.running_best in
      let count = if better then length now.0 else s.running_best_count in
      let best = if better then moves.canonical_score now.1 else s.running_best in
      record {
        placements = now.0;
        state = now.1;
        lahc_list = set_at s.lahc_list (iter % lahc_list_len) (moves.canonical_score now.1);
        running_best = best;
        running_best_count = count;
        best_placements = if better then now.0 else s.best_placements;
        time_to_first_feasible = elim s.time_to_first_feasible [
          | none ↦ if is_floor config now then some (env.elapsed_feasible iter) else none
          | some t ↦ some t
        ];
        time_to_optimal = if better then some (env.elapsed_optimal iter) else s.time_to_optimal;
        records = elim env.cancel_requested [
          | none ↦ s.records
          | some cancel ↦
              s.records ++ ((suc iter, count, best, leb config.placements_expected count) ∷ [])
        ];
        was_cancelled = elim env.cancel_requested [
          | none ↦ s.was_cancelled
          | some cancel ↦ cancel (suc iter)
        ];
      }

  unfoldable pub iterate : Config → Env → ℕ → Search S → Search S
  unfolding move record_move
  iterate config env iter s =
      record_move config env iter (move config s.lahc_list iter (s.placements, s.state)) s

  -- The two `break`s at the end of the body.
  abbrev pub is_last : Config → Search S → Bool
  is_last config s = s.was_cancelled || is_floor config (s.placements, s.state)

  -- `while iter < max_iter && elapsed < deadline`; the first argument is `max_iter - iter`, which the
  -- test of `iter` against `max_iter` counts down.
  unfoldable pub loop : ℕ → Config → Env → ℕ → ℕ → Search S → Search S
  unfolding iterate
  loop zero config env deadline iter s = s
  loop (suc left) config env deadline iter s =
      let next = iterate config env iter s in
      let rest = loop left config env deadline (suc iter) next in
      if ltb (env.elapsed iter) deadline then (if is_last config next then next else rest) else s

  abbrev pub initial : Env → List Placement → S → Search S
  initial env placements state = record {
    placements = placements;
    state = state;
    lahc_list = replicate lahc_list_len (moves.canonical_score state);
    running_best = moves.canonical_score state;
    running_best_count = length placements;
    best_placements = placements;
    time_to_first_feasible = env.first_feasible_before;
    time_to_optimal = env.optimal_before;
    records = [];
    was_cancelled = false;
  }

  -- The search from the greedy placements: the variables at the end of the loop.
  unfoldable pub search : Config → Env → ℕ → List Placement → S → Search S
  unfolding loop replicate
  search config env deadline placements state =
      loop (elim config.max_iterations [ none ↦ u64_max | some n ↦ n ]) config env deadline 0
        (initial env placements state)

  -- `run`: the placements it leaves and `was_cancelled`.
  unfoldable pub run : Config → Env → List Placement → S → List Placement × Bool
  unfolding search
  run config env placements state = elim config.deadline [
    | none ↦ (placements, false)
    | some deadline ↦ if length placements == 0 then (placements, false) else (
      (search config env deadline placements state).best_placements,
      (search config env deadline placements state).was_cancelled,
    )
  ]
