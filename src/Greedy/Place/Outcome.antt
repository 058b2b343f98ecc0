-- ===== src/Greedy/Place/Outcome.antt =====
-- The two outcomes of `try_place_block`.
use klassenzeit.Base.{
  ℕ, ◌≡◌, refl, true, false, some, List, ◌++◌, ◌==◌, if◌then◌else◌, map, length, IsDistinct, update,
  get_or_default, get_or_default-update_at, add_u8, nat_eq, find, ◌⊎◌, Option-cases, inl, inr,
}
use klassenzeit.Types.{Lesson, Subject, Placement}
use klassenzeit.Greedy.State.{GreedyState}
use klassenzeit.Greedy.Tracks.{Seat, IsSeated, IsApart}
use klassenzeit.Greedy.Place.{Setting, BlockCandidate}
use klassenzeit.Greedy.Place.Pick.{pick_block}
use klassenzeit.Greedy.Place.Commit.{placed, push_blocks, commit, drop, try_place_block}
use klassenzeit.Greedy.Place.Chosen.{IsFeasible, pick_block-IsFeasible}
use klassenzeit.Greedy.Place.Apart.{new_row, push_blocks-IsSeated, enter_classes, free_slot}
use klassenzeit.Greedy.Place.Written.{IsWritten, commit-IsWritten}
use klassenzeit.Greedy.Place.Safe.{
  ids, window-IsDistinct, length-window, drop-IsDistinct, new_rows-IsApart, IsApart-append,
}

-- A block is placed: its candidate was feasible, one placement for each of its `n` time blocks is appended,
-- the used sets are those of the rows with the new ones, no two rows clash, the teacher has `n` more hours, and
-- the partitions, locks and counters of the classes and the day are written for the block.
pub record IsPlaced (setting : Setting) (s : GreedyState) (placements : List Placement)
    (lesson' : Lesson) (subject : Subject) (n : ℕ) (rows : List Seat) (placements' : List Placement)
    (s' : GreedyState) : Type 0 where
  pub candidate : BlockCandidate
  pub is_feasible : IsFeasible setting s placements lesson' subject n candidate
  pub size : length is_feasible.blocks ≡ n
  pub appended : placements' ≡ placements ++ map (placed lesson' candidate) is_feasible.blocks
  pub seated : IsSeated (rows ++ map (new_row lesson' candidate) is_feasible.blocks) s'
  pub apart : IsApart (rows ++ map (new_row lesson' candidate) is_feasible.blocks)
  pub hours :
      (t : ℕ)
      → get_or_default 0 s'.hours_by_teacher t ≡ (
          if candidate.teacher_id == t
          then add_u8 (get_or_default 0 s.hours_by_teacher t) n
          else get_or_default 0 s.hours_by_teacher t)
  pub written : IsWritten lesson' n candidate s s'

commit-IsPlaced :
    (setting : Setting) (s : GreedyState) (placements : List Placement) (lesson' : Lesson)
    (subject : Subject) (n : ℕ) (rows : List Seat) (c : BlockCandidate)
    (feasible : IsFeasible setting s placements lesson' subject n c)
    → IsDistinct (ids setting.tb_order)
    → IsDistinct lesson'.school_class_ids
    → IsSeated rows s
    → IsApart rows
    → IsPlaced setting s placements lesson' subject n rows
        (commit lesson' n c feasible.blocks placements s).0
        (commit lesson' n c feasible.blocks placements s).1
unfolding commit
commit-IsPlaced setting s placements lesson' subject n rows c feasible order distinct seated apart =
    let blocks = feasible.blocks in
    let (appended, in_step, hours) =
      push_blocks-IsSeated lesson' c blocks rows placements s distinct seated in
    let s1 = (push_blocks lesson' c blocks placements s).1 in
    let s2 : GreedyState = record s1 {
      hours_by_teacher = update c.teacher_id 0 (λ h. add_u8 h n) s1.hours_by_teacher;
    } in
    let (same_t, same_c, same_r, same_h) = enter_classes lesson' n c lesson'.school_class_ids s2 in
    record {
      candidate = c;
      is_feasible = feasible;
      size = length-window n (drop c.outer_pos setting.tb_order) blocks feasible.is_window;
      appended = appended;
      seated = record {
        teachers = λ j. rw same_t (in_step.teachers j);
        classes = λ j. rw same_c (in_step.classes j);
        rooms = λ j. rw same_r (in_step.rooms j);
      };
      apart =
          IsApart-append rows (map (new_row lesson' c) blocks) apart
            (new_rows-IsApart lesson' c blocks (
              window-IsDistinct n (drop c.outer_pos setting.tb_order) blocks feasible.is_window
                (drop-IsDistinct c.outer_pos setting.tb_order order)))
            (free_slot setting lesson' c rows s seated blocks feasible.classes_free
              feasible.room_free feasible.teacher_free);
      hours = λ t.
          rw
            (
              same_h,
              get_or_default-update_at c.teacher_id t 0 (λ h. add_u8 h n) s1.hours_by_teacher,
              hours,
            )
            refl;
      written = commit-IsWritten lesson' n c s distinct blocks placements;
    }

pub try_place_block-IsPlaced :
    (setting : Setting) (s : GreedyState) (placements : List Placement) (lesson' : Lesson)
    (subject : Subject) (n : ℕ) (rows : List Seat)
    → find (λ sub. sub.id == lesson'.subject_id) setting.problem.subjects ≡ some subject
    → IsDistinct (ids setting.tb_order)
    → IsDistinct lesson'.school_class_ids
    → IsSeated rows s
    → IsApart rows
    → (try_place_block setting s placements lesson' n ≡ some (false, placements, s))
      ⊎ ((placements' : List Placement) × (s' : GreedyState) × (try_place_block setting s placements
              lesson' n
            ≡ some (true, placements', s'))
          × IsPlaced setting s placements lesson' subject n rows placements' s')
unfolding try_place_block
try_place_block-IsPlaced setting s placements lesson' subject n rows found order distinct seated
      apart =
    elim (Option-cases (pick_block setting s placements lesson' subject n)) [
      | inl nothing ↦ inl (rw (found, nothing, try_place_block) refl)
      | inr (c, picked) ↦
          let feasible = pick_block-IsFeasible setting s placements lesson' subject n c picked in
          inr (
            (commit lesson' n c feasible.blocks placements s).0,
            (commit lesson' n c feasible.blocks placements s).1,
            rw (found, picked, feasible.is_window, try_place_block) refl,
            commit-IsPlaced setting s placements lesson' subject n rows c feasible order distinct
                seated apart,
          )
    ]
