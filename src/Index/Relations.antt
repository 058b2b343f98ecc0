-- ===== src/Index/Relations.antt =====
-- The probes of the index against the relation lists of the problem.
use klassenzeit.Base.{
  ℕ, ◌≡◌, Bool, true, false, ◌&&◌, ◌||◌, not, Option, none, some, List, [], ◌∷◌, arith, ◌==◌, any,
  HashMap, HashSet, get, get-update, update, contains, contains-add, add, get_or_default,
  get_or_default-update, pair_eq, nat_eq,
}
use klassenzeit.Types.{
  Problem, TeacherQualification, TeacherBlockedTime, RoomBlockedTime, RoomSubjectSuitability,
}
use klassenzeit.Index.{
  new, qualify, block_teachers, suit, block_rooms, teacher_qualified, teacher_blocked,
  room_suits_subject, room_blocked,
}

qualify_lem :
    (qs : List TeacherQualification) (m : HashMap ℕ (HashSet ℕ)) (t s : ℕ)
    → contains (get_or_default [] (qualify qs m) t) s ≡ (
        contains (get_or_default [] m t) s
        || any (λ q. (q.teacher_id == t) && (q.subject_id == s)) qs)
unfolding qualify
qualify_lem [] m t s = ground arith
qualify_lem (q ∷ qs) m t s = ground (
  arith,
  qualify_lem qs (update q.teacher_id [] (add q.subject_id) m) t s,
  get_or_default-update q.teacher_id t [] (add q.subject_id) m,
  contains-add q.subject_id s (get_or_default [] m q.teacher_id),
)

suit_lem :
    (ss : List RoomSubjectSuitability) (m : HashMap ℕ (HashSet ℕ)) (r s : ℕ)
    → contains (get_or_default [] (suit ss m) r) s ≡ (
        contains (get_or_default [] m r) s || any (λ x. (x.room_id == r) && (x.subject_id == s)) ss)
unfolding suit
suit_lem [] m r s = ground arith
suit_lem (x ∷ ss) m r s = ground (
  arith,
  suit_lem ss (update x.room_id [] (add x.subject_id) m) r s,
  get_or_default-update x.room_id r [] (add x.subject_id) m,
  contains-add x.subject_id s (get_or_default [] m x.room_id),
)

is_some : {A : Type 0} → Option A → Bool
is_some none = false
is_some (some a) = true

suit_present :
    (ss : List RoomSubjectSuitability) (m : HashMap ℕ (HashSet ℕ)) (r : ℕ)
    → is_some (get (suit ss m) r) ≡ (is_some (get m r) || any (λ x. x.room_id == r) ss)
unfolding suit is_some
suit_present [] m r = ground arith
suit_present (x ∷ ss) m r = ground (
  arith,
  suit_present ss (update x.room_id [] (add x.subject_id) m) r,
  get-update x.room_id r [] (add x.subject_id) m,
)

block_teachers_lem :
    (bs : List TeacherBlockedTime) (set : HashSet (ℕ × ℕ)) (t tb : ℕ)
    → contains (block_teachers bs set) (t, tb)
      ≡ (contains set (t, tb) || any (λ b. (b.teacher_id == t) && (b.time_block_id == tb)) bs)
unfolding block_teachers
block_teachers_lem [] set t tb = ground arith
block_teachers_lem (b ∷ bs) set t tb = ground (
  arith,
  block_teachers_lem bs (add (b.teacher_id, b.time_block_id) set) t tb,
  contains-add (b.teacher_id, b.time_block_id) (t, tb) set,
)

block_rooms_lem :
    (bs : List RoomBlockedTime) (set : HashSet (ℕ × ℕ)) (r tb : ℕ)
    → contains (block_rooms bs set) (r, tb)
      ≡ (contains set (r, tb) || any (λ b. (b.room_id == r) && (b.time_block_id == tb)) bs)
unfolding block_rooms
block_rooms_lem [] set r tb = ground arith
block_rooms_lem (b ∷ bs) set r tb = ground (
  arith,
  block_rooms_lem bs (add (b.room_id, b.time_block_id) set) r tb,
  contains-add (b.room_id, b.time_block_id) (r, tb) set,
)

-- A teacher counts as qualified exactly for the subjects that the problem's list pairs with them.
pub teacher_qualified-new :
    (p : Problem) (t s : ℕ)
    → teacher_qualified (new p) t s
      ≡ any (λ q. (q.teacher_id == t) && (q.subject_id == s)) p.teacher_qualifications
unfolding teacher_qualified new
teacher_qualified-new p t s =
    unfold get_or_default contains get in
    ground (arith, qualify_lem p.teacher_qualifications [] t s)

-- A room suits a subject if the problem's list has no entry of the room, or one that pairs the two.
pub room_suits_subject-new :
    (p : Problem) (r s : ℕ)
    → room_suits_subject (new p) r s ≡ (
        not (any (λ x. x.room_id == r) p.room_subject_suitabilities)
        || any (λ x. (x.room_id == r) && (x.subject_id == s)) p.room_subject_suitabilities)
unfolding room_suits_subject new get_or_default is_some contains
room_suits_subject-new p r s = ground (
  arith,
  suit_lem p.room_subject_suitabilities [] r s,
  suit_present p.room_subject_suitabilities [] r,
)

-- A teacher is blocked at a time block exactly when the problem's list pairs the two.
pub teacher_blocked-new :
    (p : Problem) (t tb : ℕ)
    → teacher_blocked (new p) t tb
      ≡ any (λ b. (b.teacher_id == t) && (b.time_block_id == tb)) p.teacher_blocked_times
unfolding teacher_blocked new
teacher_blocked-new p t tb = unfold contains in block_teachers_lem p.teacher_blocked_times [] t tb

-- A room is blocked at a time block exactly when the problem's list pairs the two.
pub room_blocked-new :
    (p : Problem) (r tb : ℕ)
    → room_blocked (new p) r tb
      ≡ any (λ b. (b.room_id == r) && (b.time_block_id == tb)) p.room_blocked_times
unfolding room_blocked new
room_blocked-new p r tb = unfold contains in block_rooms_lem p.room_blocked_times [] r tb
