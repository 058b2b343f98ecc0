-- ===== src/Index.antt =====
-- The relation index of solver/solver-core/src/index.rs: hash maps built once from the problem's
-- relation lists, and the four probes.
pub mod Relations
use klassenzeit.Base.{
  ℕ, Bool, true, false, Option, none, some, List, [], ◌∷◌, HashMap, HashSet, get, update, contains,
  add, pair_eq, nat_eq,
}
use klassenzeit.Types.{
  Problem, TeacherQualification, TeacherBlockedTime, RoomBlockedTime, RoomSubjectSuitability,
}

pub record Indexed : Type 0 where
  pub teacher_subject : HashMap ℕ (HashSet ℕ)
  pub teacher_blocked_set : HashSet (ℕ × ℕ)
  pub room_subject : HashMap ℕ (HashSet ℕ)
  pub room_blocked_set : HashSet (ℕ × ℕ)

qualify : List TeacherQualification → HashMap ℕ (HashSet ℕ) → HashMap ℕ (HashSet ℕ)
unfolding update add
qualify [] m = m
qualify (q ∷ qs) m = qualify qs (update q.teacher_id [] (add q.subject_id) m)

block_teachers : List TeacherBlockedTime → HashSet (ℕ × ℕ) → HashSet (ℕ × ℕ)
unfolding add
block_teachers [] s = s
block_teachers (b ∷ bs) s = block_teachers bs (add (b.teacher_id, b.time_block_id) s)

suit : List RoomSubjectSuitability → HashMap ℕ (HashSet ℕ) → HashMap ℕ (HashSet ℕ)
unfolding update add
suit [] m = m
suit (s ∷ ss) m = suit ss (update s.room_id [] (add s.subject_id) m)

block_rooms : List RoomBlockedTime → HashSet (ℕ × ℕ) → HashSet (ℕ × ℕ)
unfolding add
block_rooms [] s = s
block_rooms (b ∷ bs) s = block_rooms bs (add (b.room_id, b.time_block_id) s)

unfoldable pub new : Problem → Indexed
unfolding qualify block_teachers suit block_rooms
new problem = record {
  teacher_subject = qualify problem.teacher_qualifications [];
  teacher_blocked_set = block_teachers problem.teacher_blocked_times [];
  room_subject = suit problem.room_subject_suitabilities [];
  room_blocked_set = block_rooms problem.room_blocked_times [];
}

unfoldable pub teacher_qualified : Indexed → ℕ → ℕ → Bool
unfolding get contains
teacher_qualified idx teacher subject = elim (get idx.teacher_subject teacher) [
  | none ↦ false
  | some s ↦ contains s subject
]

unfoldable pub teacher_blocked : Indexed → ℕ → ℕ → Bool
unfolding contains
teacher_blocked idx teacher tb = contains idx.teacher_blocked_set (teacher, tb)

-- A room with no entry at all suits every subject.
unfoldable pub room_suits_subject : Indexed → ℕ → ℕ → Bool
unfolding get contains
room_suits_subject idx room subject = elim (get idx.room_subject room) [
  | none ↦ true
  | some set ↦ contains set subject
]

unfoldable pub room_blocked : Indexed → ℕ → ℕ → Bool
unfolding contains
room_blocked idx room tb = contains idx.room_blocked_set (room, tb)
