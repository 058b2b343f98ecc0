-- ===== src/Greedy/State.antt =====
-- The greedy phase's bookkeeping (solve.rs: `GreedyState`, `GreedyState::new`).
use klassenzeit.Base.{ℕ, List, [], HashMap, HashSet}

pub record GreedyState : Type 0 where
  pub used_teacher : HashSet (ℕ × ℕ)
  pub used_class : HashSet (ℕ × ℕ)
  pub used_room : HashSet (ℕ × ℕ)
  pub hours_by_teacher : HashMap ℕ ℕ
  pub class_positions : HashMap (ℕ × ℕ) (List ℕ)
  pub teacher_positions : HashMap (ℕ × ℕ) (List ℕ)
  pub locked_room : HashMap (ℕ × ℕ × ℕ) (ℕ × ℕ)
  pub subject_hours_by_class_day : HashMap (ℕ × ℕ × ℕ) ℕ
  pub lessons_by_class_day : HashMap (ℕ × ℕ) ℕ
  pub class_subject_teacher : HashMap (ℕ × ℕ) ℕ
  pub search_score_slice : ℕ
  pub canonical_score : ℕ
  pub soft_pinned_blocks : HashSet (ℕ × ℕ)

abbrev pub new_state : GreedyState
new_state = record {
  used_teacher = [];
  used_class = [];
  used_room = [];
  hours_by_teacher = [];
  class_positions = [];
  teacher_positions = [];
  locked_room = [];
  subject_hours_by_class_day = [];
  lessons_by_class_day = [];
  class_subject_teacher = [];
  search_score_slice = 0;
  canonical_score = 0;
  soft_pinned_blocks = [];
}
